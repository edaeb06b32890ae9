-- ===== src/Parser.antt =====
-- util/parser.hh and parser.cc: integers in network byte order, read from a `Buffer` and written to
-- a string.
use cs144_introduction_to_co.Prelude.{
  ℕ, zero, suc, ◌+◌, ◌-◌, ◌*◌, ◌/◌, ◌%◌, ◌^◌, Bool, true, false, not, List, [], ◌∷◌, ◌++◌, Option,
  none, some, take, ltb, if◌then◌else◌,
}
use cs144_introduction_to_co.Buffer.{Buffer, str}
use cs144_introduction_to_co.Buffer
pub mod Errors
pub mod Laws

pub data ParseResult : Type 0 where
  no_error : ParseResult
  bad_checksum : ParseResult
  packet_too_short : ParseResult
  wrong_ip_version : ParseResult
  header_too_short : ParseResult
  truncated_packet : ParseResult
  unsupported : ParseResult

abbrev pub is_error : ParseResult → Bool
is_error no_error = false
is_error bad_checksum = true
is_error packet_too_short = true
is_error wrong_ip_version = true
is_error header_too_short = true
is_error truncated_packet = true
is_error unsupported = true

pub record NetParser : Type 0 where
  pub buffer : Buffer
  pub error : ParseResult

unfoldable pub start : Buffer → NetParser
start buffer = record { buffer = buffer; error = no_error }

unfoldable pub check_size : NetParser → ℕ → NetParser
check_size p size =
    if ltb (Buffer.size p.buffer) size then record p { error = packet_too_short } else p

-- `Buffer::remove_prefix` throws when asked for more than the buffer holds; `check_size` has
-- excluded it.
abbrev pub buffer_after : Buffer → Option Buffer → Buffer
buffer_after b none = b
buffer_after b (some c) = c

-- The loop over the bytes `at(0)`, `at(1)`, …, in an unsigned integer of `len` bytes.
unfoldable pub int_of_bytes : ℕ → ℕ → List ℕ → ℕ
int_of_bytes len ret [] = ret
int_of_bytes len ret (b ∷ bs) = int_of_bytes len ((ret * 2 ^ 8 + b) % 2 ^ (8 * len)) bs

unfoldable pub parse_int : ℕ → NetParser → ℕ × NetParser
parse_int len p =
    let q = check_size p len in
    if is_error q.error then (0, q) else (
      int_of_bytes len 0 (take len (str q.buffer)),
      record q { buffer = buffer_after q.buffer (Buffer.remove_prefix q.buffer len) },
    )

unfoldable pub u32 : NetParser → ℕ × NetParser
u32 p = parse_int 4 p

unfoldable pub u16 : NetParser → ℕ × NetParser
u16 p = parse_int 2 p

unfoldable pub u8 : NetParser → ℕ × NetParser
u8 p = parse_int 1 p

unfoldable pub remove_prefix : NetParser → ℕ → NetParser
remove_prefix p n =
    let q = check_size p n in
    if is_error q.error
    then q
    else record q { buffer = buffer_after q.buffer (Buffer.remove_prefix q.buffer n) }

-- The bytes that `NetUnparser::_unparse_int` appends for an integer of `len` bytes.
unfoldable pub unparse_int : ℕ → ℕ → List ℕ
unparse_int zero val = []
unparse_int (suc len) val = (val / 2 ^ (len * 8)) % 256 ∷ unparse_int len val

abbrev pub unparse_u32 : ℕ → List ℕ
unparse_u32 val = unparse_int 4 val

abbrev pub unparse_u16 : ℕ → List ℕ
unparse_u16 val = unparse_int 2 val

abbrev pub unparse_u8 : ℕ → List ℕ
unparse_u8 val = unparse_int 1 val
