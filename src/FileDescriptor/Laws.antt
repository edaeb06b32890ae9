-- ===== src/FileDescriptor/Laws.antt =====
-- file_descriptor.cc: the results of `read` and `write`.
use cs144_introduction_to_co.Prelude.{
  ℕ, zero, suc, ◌+◌, ◌^◌, ◌≤◌, ◌<◌, ◌≡◌, refl, ap, ◌∙◌, arith, true, false, not, ◌&&◌, ◌||◌, List,
  ◌++◌, length, append_assoc, take, take-all, take-append-drop, length-drop, drop, min, ltb, ◌==◌,
  Bool-cases, inl, inr,
}
use cs144_introduction_to_co.Prelude.Words.{add32, add64}
use cs144_introduction_to_co.SystemCall.{Attempt, Answer, Kernel, system_call}
use cs144_introduction_to_co.FileDescriptor.{
  FdWrapper, read, read_done, max_read_size, register_read, write, write_loop, write_done,
  register_write,
}

module _ {W : Type 0} (kernel : Kernel W) where
  -- The end of a read, by what it returns. An exception leaves the counter.
  abbrev pub ReadGives : ℕ → FdWrapper → FdWrapper → Attempt (List ℕ) → Type 0
  ReadGives limit f g (Attempt.ok bytes) =
      (length bytes ≤ limit)
      × (length bytes ≤ max_read_size)
      × (g.read_count ≡ add32 f.read_count 1)
      × (g.eof ≡ ((ltb 0 limit && length bytes == 0) || f.eof))
      × (g.closed ≡ f.closed)
      × (g.write_count ≡ f.write_count)
  ReadGives limit f g (Attempt.raised e) =
      (g.read_count ≡ f.read_count) × (g.write_count ≡ f.write_count) × (g.closed ≡ f.closed)

  done_lem :
      (limit : ℕ) (f : FdWrapper) (a : Attempt (List ℕ))
      → ReadGives limit f
          (read_done limit (min max_read_size limit) f a).0
          (read_done limit (min max_read_size limit) f a).1
  unfolding read_done register_read
  done_lem limit f (Attempt.raised e) = (refl, refl, refl)
  done_lem limit f (Attempt.ok bytes) =
      elim (Bool-cases (ltb (min max_read_size limit) (length bytes))) [
        | inl e ↦ rw e (refl, refl, refl)
        | inr e ↦ rw e (ground arith, ground arith, refl, refl, refl, refl)
      ]

  -- A read that returns gives at most as many bytes as were asked for and at most 2^20, is counted, and
  -- sets the flag of the end exactly if bytes were asked for and none came; it never clears the flag.
  pub read_lem :
      (w : W) (f : FdWrapper) (limit : ℕ)
      → ReadGives limit f (read kernel w f limit).1 (read kernel w f limit).2
  unfolding read
  read_lem w f limit =
      done_lem limit f (system_call (kernel.read w f.fd (min max_read_size limit)).1)

  -- What the kernel documents of `writev` on a descriptor that is ready for all that is written: it takes
  -- a part of the bytes, at least one if there is any, and puts them after those it has, `out`.
  pub record IsWritable (out : W → List ℕ) (fd : ℕ) : Type 0 where
    pub count : W → List ℕ → ℕ
    pub answers :
        (w : W) (bytes : List ℕ) → (kernel.writev w fd bytes).1 ≡ Answer.returned (count w bytes)
    pub part : (w : W) (bytes : List ℕ) → count w bytes ≤ length bytes
    pub some_taken : (w : W) (bytes : List ℕ) → 0 < length bytes → 0 < count w bytes
    pub puts :
        (w : W) (bytes : List ℕ)
        → out (kernel.writev w fd bytes).0 ≡ out w ++ take (count w bytes) bytes

  module _ (out : W → List ℕ) (fd : ℕ) (k : IsWritable out fd) where
    done_ok :
        (a : Answer ℕ) (size n : ℕ)
        → a ≡ Answer.returned n
        → n ≤ size
        → (0 < size → 0 < n)
        → write_done size (system_call a) ≡ Attempt.ok n
    unfolding write_done system_call
    done_ok a size n e le some =
        let b : (n == 0 && not (size == 0)) ≡ false = ground arith in
        let c : ltb size n ≡ false = ground arith in rw e (rw (b, c) refl)

    loop_lem :
        (fuel : ℕ) (w : W) (f : FdWrapper) (bytes : List ℕ) (total : ℕ)
        → f.fd ≡ fd
        → length bytes < fuel
        → total + length bytes < 2 ^ 64
        → let r = write_loop kernel fuel true w f bytes total in
          (r.2 ≡ Attempt.ok (total + length bytes)) × (out r.0 ≡ out w ++ bytes)
    unfolding write_loop register_write
    loop_lem zero w f bytes total same enough small = ground arith
    loop_lem (suc fuel) w f bytes total same enough small =
        let n = k.count w bytes in
        let v = (kernel.writev w f.fd bytes).0 in
        let rest = drop n bytes in
        let p : out v ≡ out w ++ take n bytes = rw same (k.puts w bytes) in
        let a =
          done_ok (kernel.writev w f.fd bytes).1 (length bytes) n (rw same (k.answers w bytes))
            (k.part w bytes) (k.some_taken w bytes) in
        let l = length-drop n bytes in
        let le = k.part w bytes in
        let pos = k.some_taken w bytes in
        elim (Bool-cases (not (length rest == 0))) [
          | inl more ↦
              let (e, o) =
                loop_lem fuel v (register_write f) rest (add64 total n) same (ground arith)
                  (ground arith) in
              let sum : add64 total n + length rest ≡ total + length bytes = ground arith in
              rw (a, more)
                (
                  e ∙ ap Attempt.ok sum,
                  o
                      ∙ ap (λ x. x ++ rest) p
                      ∙ append_assoc (out w) (take n bytes) rest
                      ∙ ap (λ x. out w ++ x) (take-append-drop n bytes),
                )
          | inr none_left ↦
              let all : length bytes ≤ n = ground arith in
              let sum : add64 total n ≡ total + length bytes = ground arith in
              rw (a, none_left) (ap Attempt.ok sum, p ∙ ap (λ x. out w ++ x) (take-all n bytes all))
        ]

    -- A `write` that is to write all returns, with the number of the bytes, and all of them were put out,
    -- in order, whatever parts the kernel takes.
    pub write_all :
        (w : W) (f : FdWrapper) (bytes : List ℕ)
        → f.fd ≡ fd
        → length bytes < 2 ^ 64
        → ((write kernel w f bytes true).2 ≡ Attempt.ok (length bytes))
          × (out (write kernel w f bytes true).0 ≡ out w ++ bytes)
    unfolding write
    write_all w f bytes same small =
        let (e, o) = loop_lem (suc (length bytes)) w f bytes 0 same (omega arith) (omega arith) in
        let z : 0 + length bytes ≡ length bytes = omega arith in (e ∙ ap Attempt.ok z, o)
