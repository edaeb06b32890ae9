-- ===== src/BufferList/Laws.antt =====
-- util/buffer.cc: a `BufferList` as one string.
use cs144_introduction_to_co.Prelude.{
  ℕ, ◌-◌, ◌≤◌, ◌^◌, ◌<◌, ◌≡◌, refl, sym, ap, ◌∙◌, arith, List, [], ◌∷◌, ◌++◌, length, drop, none,
  some, length-append, drop-append_le, drop-append_ge, append_assoc, append-nil, All, All-append,
  Bool-cases, ==_iff, drop-nil, inl, inr, ltb, ◌==◌, map, ltb→lt,
}
use cs144_introduction_to_co.Buffer.{Buffer, str}
use cs144_introduction_to_co.Buffer
use cs144_introduction_to_co.Buffer.Laws.{remove_prefix_lem as remove_from_buffer, str-of_string}
use cs144_introduction_to_co.Buffer.Laws as BufferLaws
use cs144_introduction_to_co.BufferList.{
  BufferList, concat, sizes, size, concatenate, append, of_string, empty, remove_loop,
  remove_prefix, views, remove_from_views,
}

pub concat-append : (bs cs : List Buffer) → concat (bs ++ cs) ≡ concat bs ++ concat cs
unfolding concat
concat-append [] cs = refl
concat-append (b ∷ bs) cs =
    rw (concat-append bs cs) (sym (append_assoc (str b) (concat bs) (concat cs)))

pub length-concat : (bs : List Buffer) → length (concat bs) ≡ sizes bs
unfolding concat sizes
length-concat [] = refl
length-concat (b ∷ bs) = omega (arith, length-append (str b) (concat bs), length-concat bs)

pub length-concatenate : (l : BufferList) → length (concatenate l) ≡ size l
unfolding concatenate size
length-concatenate l = length-concat l.buffers

abbrev pub IsValid : BufferList → Type 0
IsValid l = All BufferLaws.IsValid l.buffers

abbrev Removes : ℕ → List Buffer → Type 0
Removes n bs =
    (cs : List Buffer) × (remove_loop n bs ≡ some cs)
    × (concat cs ≡ drop n (concat bs))
    × All BufferLaws.IsValid cs

remove_loop-Removes :
    (n : ℕ) (bs : List Buffer) → All BufferLaws.IsValid bs → n ≤ sizes bs → Removes n bs
unfolding remove_loop sizes concat Buffer.size
remove_loop-Removes n [] v h = ([], ground arith, sym (drop-nil ℕ n), tt)
remove_loop-Removes n (b ∷ bs) v h = elim (Bool-cases (n == 0)) [
  | inl z ↦ (b ∷ bs, ground arith, (let e : n ≡ 0 = (==_iff n 0).0 z in rw e), v)
  | inr nz ↦ elim (Bool-cases (ltb n (Buffer.size b))) [
    | inl part ↦
        let (c, e, s, w) =
          remove_from_buffer b n v.0 (omega (arith, ltb→lt n (Buffer.size b) part)) in
        (
          c ∷ bs,
          ground arith,
          rw s (sym (drop-append_le n (str b) (concat bs) (ground arith))),
          (w, v.1),
        )
    | inr whole ↦
        let (cs, e, s, w) = remove_loop-Removes (n - Buffer.size b) bs v.1 (ground arith) in
        (cs, ground arith, s ∙ sym (drop-append_ge n (str b) (concat bs) (ground arith)), w)
  ]
]

-- What `remove_prefix` leaves of a list of valid buffers, up to the size of the list.
pub remove_prefix_lem :
    (l : BufferList) (n : ℕ)
    → IsValid l
    → n ≤ size l
    → (m : BufferList) × (remove_prefix l n ≡ some m)
      × (concatenate m ≡ drop n (concatenate l))
      × IsValid m
unfolding remove_prefix size concatenate
remove_prefix_lem l n v h =
    let (cs, e, s, w) = remove_loop-Removes n l.buffers v h in (record { buffers = cs }, rw e, s, w)

-- Past the end of the list the loop runs out of buffers, and throws.
remove_loop_beyond : (n : ℕ) (bs : List Buffer) → sizes bs < n → remove_loop n bs ≡ none
unfolding remove_loop sizes
remove_loop_beyond n [] h = ground arith
remove_loop_beyond n (b ∷ bs) h = ground (arith, remove_loop_beyond (n - Buffer.size b) bs)

-- Asked for more bytes than it holds, `remove_prefix` throws.
remove_prefix_beyond : (l : BufferList) (n : ℕ) → size l < n → remove_prefix l n ≡ none
unfolding remove_prefix size
remove_prefix_beyond l n h = rw (remove_loop_beyond n l.buffers h)

pub concatenate-append :
    (l m : BufferList) → concatenate (append l m) ≡ concatenate l ++ concatenate m
unfolding concatenate append
concatenate-append l m = concat-append l.buffers m.buffers

pub append-IsValid : (l m : BufferList) → IsValid l → IsValid m → IsValid (append l m)
unfolding append
append-IsValid l m v w = All-append BufferLaws.IsValid l.buffers m.buffers v w

pub concatenate-of_string : (s : List ℕ) → concatenate (of_string s) ≡ s
unfolding concatenate concat of_string
concatenate-of_string s = rw (str-of_string s, append-nil)

pub of_string-IsValid : (s : List ℕ) → length s < 2 ^ 64 → IsValid (of_string s)
unfolding of_string
of_string-IsValid s h = (BufferLaws.of_string-IsValid s h, tt)

pub concatenate-empty : concatenate empty ≡ []
unfolding concatenate concat empty
concatenate-empty = refl

pub empty-IsValid : IsValid empty
unfolding empty
empty-IsValid = tt

-- The bytes that a list of views shows.
abbrev pub view_bytes : List (List ℕ) → List ℕ
view_bytes [] = []
view_bytes (v ∷ vs) = v ++ view_bytes vs

pub view_bytes-map : (bs : List Buffer) → view_bytes (map str bs) ≡ concat bs
unfolding concat
view_bytes-map [] = refl
view_bytes-map (b ∷ bs) = ap (◌++◌ (str b)) (view_bytes-map bs)

-- The views of a list show its bytes.
pub view_bytes-views : (l : BufferList) → view_bytes (views l) ≡ concatenate l
unfolding views concatenate
view_bytes-views l = view_bytes-map l.buffers

pub remove_from_views_lem :
    (n : ℕ) (vs : List (List ℕ))
    → n ≤ length (view_bytes vs)
    → (ws : List (List ℕ)) × (remove_from_views n vs ≡ some ws)
      × (view_bytes ws ≡ drop n (view_bytes vs))
unfolding remove_from_views
remove_from_views_lem n [] h = ([], ground arith, sym (drop-nil ℕ n))
remove_from_views_lem n (v ∷ vs) h = elim (Bool-cases (n == 0)) [
  | inl z ↦ (v ∷ vs, ground arith, let e : n ≡ 0 = (==_iff n 0).0 z in rw e)
  | inr nz ↦ elim (Bool-cases (ltb n (length v))) [
    | inl part ↦
        (drop n v ∷ vs, ground arith, sym (drop-append_le n v (view_bytes vs) (ground arith)))
    | inr whole ↦
        let (ws, e, s) =
          remove_from_views_lem (n - length v) vs
            (ground (arith, length-append v (view_bytes vs))) in
        (ws, ground arith, s ∙ sym (drop-append_ge n v (view_bytes vs) (ground arith)))
  ]
]
