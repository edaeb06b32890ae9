-- ===== src/FileDescriptor/Effects.antt =====
-- file_descriptor.cc and socket.cc: what the calls of a descriptor do to the bytes that have passed the
-- kernel, if that keeps its contract.
use cs144_introduction_to_co.Prelude.{
  ℕ, ◌^◌, ◌≤◌, ◌<◌, ◌≡◌, ◌≢◌, refl, ap, sym, subst, ◌∙◌, arith, false, not, ◌&&◌, List, [], ◌++◌,
  append-nil, length, take, min, ltb, ◌==◌, Bool-cases, inl, inr,
}
use cs144_introduction_to_co.Prelude.Words.{add64}
use cs144_introduction_to_co.SystemCall.{Attempt, Answer, Kernel, How, system_call}
use cs144_introduction_to_co.FileDescriptor.{
  FdWrapper, read, read_done, max_read_size, register_read, write, write_loop, write_on, write_done,
  register_write,
}

-- `consumed` is all that was read from a descriptor, and `put` all that was written to it.
module _ {W : Type 0} (kernel : Kernel W) (consumed put : W → ℕ → List ℕ) where
  abbrev pub Same : W → W → Type 0
  Same w v = ((i : ℕ) → consumed v i ≡ consumed w i) × ((i : ℕ) → put v i ≡ put w i)

  abbrev pub Consumes : W → W → ℕ → List ℕ → Type 0
  Consumes w v fd bytes =
      (consumed v fd ≡ consumed w fd ++ bytes)
      × ((i : ℕ) → i ≢ fd → consumed v i ≡ consumed w i)
      × ((i : ℕ) → put v i ≡ put w i)

  abbrev pub Puts : W → W → ℕ → List ℕ → Type 0
  Puts w v fd bytes =
      (put v fd ≡ put w fd ++ bytes)
      × ((i : ℕ) → i ≢ fd → put v i ≡ put w i)
      × ((i : ℕ) → consumed v i ≡ consumed w i)

  abbrev pub ReadAnswer : W → ℕ → ℕ → W → Answer (List ℕ) → Type 0
  ReadAnswer w fd n v (Answer.returned bytes) = (length bytes ≤ n) × Consumes w v fd bytes
  ReadAnswer w fd n v (Answer.failed errno) = Same w v

  abbrev pub WriteAnswer : W → ℕ → List ℕ → W → Answer ℕ → Type 0
  WriteAnswer w fd bytes v (Answer.returned n) = (n ≤ length bytes) × Puts w v fd (take n bytes)
  WriteAnswer w fd bytes v (Answer.failed errno) = Same w v

  -- The contract: a call that fails moves no byte, and the others say how many they moved.
  pub record IsFaithful : Type 0 where
    pub reads : (w : W) (fd n : ℕ) → ReadAnswer w fd n (kernel.read w fd n).0 (kernel.read w fd n).1
    pub writes :
        (w : W) (fd : ℕ) (bytes : List ℕ)
        → WriteAnswer w fd bytes (kernel.writev w fd bytes).0 (kernel.writev w fd bytes).1
    pub closes : (w : W) (fd : ℕ) → Same w (kernel.close w fd).0
    pub shuts : (w : W) (fd : ℕ) (how : How) → Same w (kernel.shutdown w fd how).0

  -- What `FileDescriptor::read` does.
  abbrev pub ReadEffect : W → FdWrapper → ℕ → W → FdWrapper → Attempt (List ℕ) → Type 0
  ReadEffect w f limit v g (Attempt.ok bytes) =
      (g.fd ≡ f.fd) × (length bytes ≤ limit) × Consumes w v f.fd bytes
  ReadEffect w f limit v g (Attempt.raised e) = (g.fd ≡ f.fd) × Same w v

  read_by :
      (w : W) (f : FdWrapper) (limit : ℕ) (v : W) (a : Answer (List ℕ))
      → ReadAnswer w f.fd (min max_read_size limit) v a
      → let r = read_done limit (min max_read_size limit) f (system_call a) in
        ReadEffect w f limit v r.0 r.1
  unfolding read_done register_read system_call
  read_by w f limit v (Answer.failed errno) h = (refl, h)
  read_by w f limit v (Answer.returned bytes) (le, h) =
      let fits : ltb (min max_read_size limit) (length bytes) ≡ false = ground arith in
      rw fits (refl, omega arith, h)

  pub read_effect :
      (w : W) (f : FdWrapper) (limit : ℕ)
      → IsFaithful
      → let r = read kernel w f limit in ReadEffect w f limit r.0 r.1 r.2
  unfolding read
  read_effect w f limit k =
      let (v, a) = kernel.read w f.fd (min max_read_size limit) in
      read_by w f limit v a (k.reads w f.fd (min max_read_size limit))

  -- What one `FileDescriptor::write` that need not write all does.
  abbrev pub WriteEffect : W → FdWrapper → List ℕ → W → FdWrapper → Attempt ℕ → Type 0
  WriteEffect w f bytes v g (Attempt.ok n) =
      (g.fd ≡ f.fd) × (n ≤ length bytes) × Puts w v f.fd (take n bytes)
  WriteEffect w f bytes v g (Attempt.raised e) = (g.fd ≡ f.fd) × Same w v

  Puts-nothing : (w v : W) (fd : ℕ) → Puts w v fd [] → Same w v
  Puts-nothing w v fd (h, others, same) = (
    same,
    λ i. elim (Bool-cases (i == fd)) [
      | inl e ↦
          let k : i ≡ fd = ground arith in
          ap (λ j. put v j) k ∙ h ∙ append-nil (put w fd) ∙ ap (λ j. put w j) (sym k)
      | inr e ↦ others i (λ k. ground arith)
    ],
  )

  write_by :
      (w : W) (f : FdWrapper) (bytes : List ℕ) (v : W) (a : Answer ℕ)
      (more : W → FdWrapper → List ℕ → ℕ → W × FdWrapper × Attempt ℕ)
      → length bytes < 2 ^ 64
      → WriteAnswer w f.fd bytes v a
      → let r =
          write_on kernel v f bytes false 0 (write_done (length bytes) (system_call a)) more in
        WriteEffect w f bytes r.0 r.1 r.2
  unfolding write_done register_write system_call
  write_by w f bytes v (Answer.failed errno) more small h = (refl, h)
  write_by w f bytes v (Answer.returned n) more small (le, h) =
      let fits : ltb (length bytes) n ≡ false = ground arith in
      let sum : add64 0 n ≡ n = ground arith in
      elim (Bool-cases (n == 0 && not (length bytes == 0))) [
        | inl e ↦
            let z : n ≡ 0 = ground arith in
            rw e (refl, Puts-nothing w v f.fd (subst (λ m. Puts w v f.fd (take m bytes)) z h))
        | inr e ↦ rw (e, fits) (rw sum (refl, le, h))
      ]

  pub write_effect :
      (w : W) (f : FdWrapper) (bytes : List ℕ)
      → length bytes < 2 ^ 64
      → IsFaithful
      → let r = write kernel w f bytes false in WriteEffect w f bytes r.0 r.1 r.2
  unfolding write write_loop
  write_effect w f bytes small k =
      let (v, a) = kernel.writev w f.fd bytes in
      write_by w f bytes v a (write_loop kernel (length bytes) false) small (k.writes w f.fd bytes)
