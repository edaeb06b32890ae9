-- ===== src/FileDescriptor.antt =====
-- util/file_descriptor.hh and file_descriptor.cc: a descriptor with its flags and counters. All handles
-- of a descriptor share one `FDWrapper`, which is the record here: a handle is the place of the record
-- in the state of the program. A `BufferViewList` is the list of its bytes.
use cs144_introduction_to_co.Prelude.{
  ℕ, zero, suc, ◌+◌, ◌^◌, ◌*◌, Bool, true, false, not, ◌&&◌, ◌||◌, List, [], ◌∷◌, length, drop, min,
  ltb, ◌==◌, if◌then◌else◌,
}
use cs144_introduction_to_co.Prelude.Words.{add32, add64}
use cs144_introduction_to_co.SystemCall.{Exception, Attempt, Answer, Kernel, system_call}
pub mod Laws
pub mod Effects
pub mod Logged
mod Examples

pub record FdWrapper : Type 0 where
  pub fd : ℕ
  pub eof : Bool
  pub closed : Bool
  pub read_count : ℕ
  pub write_count : ℕ

-- A number that the kernel gave is not negative: the constructor throws on no other.
unfoldable pub make : ℕ → FdWrapper
make fd = record { fd = fd; eof = false; closed = false; read_count = 0; write_count = 0 }

unfoldable pub register_read : FdWrapper → FdWrapper
register_read f = record f { read_count = add32 f.read_count 1 }

unfoldable pub register_write : FdWrapper → FdWrapper
register_write f = record f { write_count = add32 f.write_count 1 }

-- The most that one `read` asks for.
abbrev pub max_read_size : ℕ
max_read_size = 1024 * 1024

-- The end of a `read` of `n` bytes at most.
unfoldable pub read_done : ℕ → ℕ → FdWrapper → Attempt (List ℕ) → FdWrapper × Attempt (List ℕ)
unfolding register_read
read_done limit n f (Attempt.raised e) = (f, Attempt.raised e)
read_done limit n f (Attempt.ok bytes) =
    let at_end = record f { eof = (ltb 0 limit && length bytes == 0) || f.eof } in
    if ltb n (length bytes)
    then (at_end, Attempt.raised Exception.runtime_error)
    else (register_read at_end, Attempt.ok bytes)

-- One `writev` of the loop of `write`: what it took, if the kernel kept to its contract.
unfoldable pub write_done : ℕ → Attempt ℕ → Attempt ℕ
write_done size (Attempt.raised e) = Attempt.raised e
write_done size (Attempt.ok n) =
    if n == 0 && not (size == 0)
    then Attempt.raised Exception.runtime_error
    else if ltb size n
    then Attempt.raised Exception.runtime_error
    else Attempt.ok n

module _ {W : Type 0} (kernel : Kernel W) where
  unfoldable pub read : W → FdWrapper → ℕ → W × FdWrapper × Attempt (List ℕ)
  read w f limit =
      let n = min max_read_size limit in
      let (v, answer) = kernel.read w f.fd n in
      let (g, result) = read_done limit n f (system_call answer) in (v, g, result)

  -- The rest of the loop, `more`, has the bytes that were not taken and the total so far.
  abbrev pub write_on :
      W
      → FdWrapper
      → List ℕ
      → Bool
      → ℕ
      → Attempt ℕ
      → (W → FdWrapper → List ℕ → ℕ → W × FdWrapper × Attempt ℕ)
      → W × FdWrapper × Attempt ℕ
  write_on w f bytes write_all total (Attempt.raised e) more = (w, f, Attempt.raised e)
  write_on w f bytes write_all total (Attempt.ok n) more =
      let rest = drop n bytes in
      if write_all && not (length rest == 0)
      then more w (register_write f) rest (add64 total n)
      else (w, register_write f, Attempt.ok (add64 total n))

  -- The loop of `write`. Each round but the last takes at least a byte, so that a round for each byte
  -- and one more are enough.
  unfoldable pub write_loop : ℕ → Bool → W → FdWrapper → List ℕ → ℕ → W × FdWrapper × Attempt ℕ
  write_loop zero write_all w f bytes total = (w, f, Attempt.ok total)
  write_loop (suc fuel) write_all w f bytes total =
      let (v, answer) = kernel.writev w f.fd bytes in
      write_on v f bytes write_all total (write_done (length bytes) (system_call answer))
        (write_loop fuel write_all)

  unfoldable pub write : W → FdWrapper → List ℕ → Bool → W × FdWrapper × Attempt ℕ
  write w f bytes write_all = write_loop (suc (length bytes)) write_all w f bytes 0

  abbrev pub close_done : W → FdWrapper → Attempt Unit → W × FdWrapper × Attempt Unit
  close_done w f (Attempt.raised e) = (w, f, Attempt.raised e)
  close_done w f (Attempt.ok u) = (w, record f { eof = true; closed = true }, Attempt.ok u)

  unfoldable pub close : W → FdWrapper → W × FdWrapper × Attempt Unit
  close w f = let (v, answer) = kernel.close w f.fd in close_done v f (system_call answer)
