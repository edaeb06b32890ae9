-- ===== src/Parser/Laws.antt =====
-- parser.cc: integers parsed after they were written.
use cs144_introduction_to_co.Prelude.{
  ℕ, zero, suc, ◌+◌, ◌^◌, ◌<◌, ◌≡◌, refl, ap, sym, ◌∙◌, arith, false, List, [], ◌∷◌, ◌++◌, take,
  drop, length, length-append, ltb,
}
use cs144_introduction_to_co.Buffer.{Buffer, str}
use cs144_introduction_to_co.Buffer
use cs144_introduction_to_co.Buffer.Laws.{IsValid, remove_prefix_lem}
use cs144_introduction_to_co.Parser.{
  NetParser, no_error, check_size, parse_int, remove_prefix, int_of_bytes, unparse_int, u8, u16,
  u32,
}

-- The parser has had no error, and the bytes `bs` are left.
pub record Ready (p : NetParser) (bs : List ℕ) : Type 0 where
  pub error : p.error ≡ no_error
  pub left : str p.buffer ≡ bs
  pub valid : IsValid p.buffer

int-u8 :
    (v : ℕ) (rest : List ℕ) → v < 2 ^ 8 → int_of_bytes 1 0 (take 1 (unparse_int 1 v ++ rest)) ≡ v
unfolding int_of_bytes unparse_int
int-u8 v rest h = ground arith

int-u16 :
    (v : ℕ) (rest : List ℕ) → v < 2 ^ 16 → int_of_bytes 2 0 (take 2 (unparse_int 2 v ++ rest)) ≡ v
unfolding int_of_bytes unparse_int
int-u16 v rest h = omega arith

int-u32 :
    (v : ℕ) (rest : List ℕ) → v < 2 ^ 32 → int_of_bytes 4 0 (take 4 (unparse_int 4 v ++ rest)) ≡ v
unfolding int_of_bytes unparse_int
int-u32 v rest h = omega arith

length-unparse_int : (len v : ℕ) → length (unparse_int len v) ≡ len
unfolding unparse_int
length-unparse_int zero v = refl
length-unparse_int (suc len) v = ap suc (length-unparse_int len v)

drop-length : (bs rest : List ℕ) → drop (length bs) (bs ++ rest) ≡ rest
drop-length [] rest = refl
drop-length (b ∷ bs) rest = drop-length bs rest

pub size_left :
    (p : NetParser) (bs rest : List ℕ)
    → Ready p (bs ++ rest)
    → Buffer.size p.buffer ≡ length bs + length rest
unfolding Buffer.size
size_left p bs rest r = rw r.left (length-append bs rest)

parse_int_lem :
    (p : NetParser) (len : ℕ) (bs rest : List ℕ)
    → Ready p (bs ++ rest)
    → length bs ≡ len
    → (q : NetParser) × (parse_int len p ≡ (int_of_bytes len 0 (take len (bs ++ rest)), q))
      × Ready q rest
unfolding parse_int check_size
parse_int_lem p len bs rest r l =
    let n = size_left p bs rest r in
    let (c, e, k, v) = remove_prefix_lem p.buffer len r.valid (omega arith) in
    let t : ltb (Buffer.size p.buffer) len ≡ false = ground arith in
    let d : drop len (bs ++ rest) ≡ rest = rw (sym l) (drop-length bs rest) in
    (
      record p { buffer = c },
      rw (t, r.error, e, r.left),
      record { error = r.error; left = k ∙ ap (drop len) r.left ∙ d; valid = v },
    )

-- The integer written in front of `rest` is read, and `rest` is left.
pub u8-unparse :
    (p : NetParser) (v : ℕ) (rest : List ℕ)
    → Ready p (unparse_int 1 v ++ rest)
    → v < 2 ^ 8
    → (q : NetParser) × (u8 p ≡ (v, q)) × Ready q rest
unfolding u8
u8-unparse p v rest r h =
    let (q, e, k) = parse_int_lem p 1 (unparse_int 1 v) rest r (length-unparse_int 1 v) in
    (q, e ∙ ap (λ x. (x, q)) (int-u8 v rest h), k)

pub u16-unparse :
    (p : NetParser) (v : ℕ) (rest : List ℕ)
    → Ready p (unparse_int 2 v ++ rest)
    → v < 2 ^ 16
    → (q : NetParser) × (u16 p ≡ (v, q)) × Ready q rest
unfolding u16
u16-unparse p v rest r h =
    let (q, e, k) = parse_int_lem p 2 (unparse_int 2 v) rest r (length-unparse_int 2 v) in
    (q, e ∙ ap (λ x. (x, q)) (int-u16 v rest h), k)

pub u32-unparse :
    (p : NetParser) (v : ℕ) (rest : List ℕ)
    → Ready p (unparse_int 4 v ++ rest)
    → v < 2 ^ 32
    → (q : NetParser) × (u32 p ≡ (v, q)) × Ready q rest
unfolding u32
u32-unparse p v rest r h =
    let (q, e, k) = parse_int_lem p 4 (unparse_int 4 v) rest r (length-unparse_int 4 v) in
    (q, e ∙ ap (λ x. (x, q)) (int-u32 v rest h), k)

-- `remove_prefix` skips exactly the bytes `bs`.
pub remove_prefix-append :
    (p : NetParser) (n : ℕ) (bs rest : List ℕ)
    → Ready p (bs ++ rest)
    → length bs ≡ n
    → (q : NetParser) × (remove_prefix p n ≡ q) × Ready q rest
unfolding remove_prefix check_size
remove_prefix-append p n bs rest r l =
    let m = size_left p bs rest r in
    let (c, e, k, v) = remove_prefix_lem p.buffer n r.valid (omega arith) in
    let t : ltb (Buffer.size p.buffer) n ≡ false = ground arith in
    let d : drop n (bs ++ rest) ≡ rest = rw (sym l) (drop-length bs rest) in
    (
      record p { buffer = c },
      rw (t, r.error, e),
      record { error = r.error; left = k ∙ ap (drop n) r.left ∙ d; valid = v },
    )
