-- ===== src/BufferList.antt =====
-- util/buffer.hh and util/buffer.cc: `BufferList`, a string in several buffers, and
-- `BufferViewList`, a list of views of the same bytes.
use cs144_introduction_to_co.Prelude.{
  ℕ, ◌+◌, ◌-◌, List, [], ◌∷◌, ◌++◌, Option, none, some, ltb, ◌==◌, if◌then◌else◌, length, drop, map,
}
use cs144_introduction_to_co.Buffer.{Buffer, empty_buffer, str}
use cs144_introduction_to_co.Buffer
pub mod Laws
mod Examples

-- The `deque` of buffers, front first.
pub record BufferList : Type 0 where
  pub buffers : List Buffer

unfoldable pub empty : BufferList
empty = record { buffers = [] }

unfoldable pub append : BufferList → BufferList → BufferList
append l other = record { buffers = l.buffers ++ other.buffers }

-- `BufferList(Buffer)` and `BufferList(std::string &&)`.
unfoldable pub of_buffer : Buffer → BufferList
of_buffer b = record { buffers = b ∷ [] }

unfoldable pub of_string : List ℕ → BufferList
unfolding append empty of_buffer Buffer.of_string
of_string s = append empty (of_buffer (Buffer.of_string s))

-- `operator Buffer`: `none` is the `runtime_error` of a list of several buffers.
single : List Buffer → Option Buffer
single [] = some empty_buffer
single (b ∷ []) = some b
single (b ∷ c ∷ bs) = none

unfoldable pub to_buffer : BufferList → Option Buffer
unfolding single empty_buffer
to_buffer l = single l.buffers

unfoldable pub concat : List Buffer → List ℕ
unfolding str
concat [] = []
concat (b ∷ bs) = str b ++ concat bs

unfoldable pub concatenate : BufferList → List ℕ
unfolding concat
concatenate l = concat l.buffers

unfoldable pub sizes : List Buffer → ℕ
unfolding Buffer.size
sizes [] = 0
sizes (b ∷ bs) = Buffer.size b + sizes bs

unfoldable pub size : BufferList → ℕ
unfolding sizes
size l = sizes l.buffers

-- The front buffer after `Buffer::remove_prefix`.
abbrev replace_front : Option Buffer → List Buffer → Option (List Buffer)
replace_front none bs = none
replace_front (some b) bs = some (b ∷ bs)

-- The `while (n > 0)` loop; each round but the last drops the front buffer.
unfoldable pub remove_loop : ℕ → List Buffer → Option (List Buffer)
unfolding Buffer.remove_prefix Buffer.size
remove_loop n [] = if n == 0 then some [] else none
remove_loop n (b ∷ bs) =
    if n == 0
    then some (b ∷ bs)
    else if ltb n (Buffer.size b)
    then replace_front (Buffer.remove_prefix b n) bs
    else remove_loop (n - Buffer.size b) bs

abbrev of_buffers : Option (List Buffer) → Option BufferList
of_buffers none = none
of_buffers (some bs) = some (record { buffers = bs })

unfoldable pub remove_prefix : BufferList → ℕ → Option BufferList
unfolding remove_loop
remove_prefix l n = of_buffers (remove_loop n l.buffers)

-- `BufferViewList`: the views, front first.
unfoldable pub views : BufferList → List (List ℕ)
unfolding str
views l = map str l.buffers

unfoldable pub view_sizes : List (List ℕ) → ℕ
view_sizes [] = 0
view_sizes (v ∷ vs) = length v + view_sizes vs

-- `BufferViewList::remove_prefix`; `string_view::remove_prefix` is `drop`.
unfoldable pub remove_from_views : ℕ → List (List ℕ) → Option (List (List ℕ))
remove_from_views n [] = if n == 0 then some [] else none
remove_from_views n (v ∷ vs) =
    if n == 0
    then some (v ∷ vs)
    else if ltb n (length v)
    then some (drop n v ∷ vs)
    else remove_from_views (n - length v) vs
