-- ===== src/FileDescriptor/Logged.antt =====
-- A kernel that keeps a log of the bytes, for the tests: a read gives at most the byte 7, and a write
-- takes all.
use cs144_introduction_to_co.Prelude.{
  ℕ, ◌≡◌, ◌≢◌, refl, arith, true, false, List, [], ◌∷◌, ◌++◌, length, length-take, take, take-all,
  ◌==◌, if◌then◌else◌,
}
use cs144_introduction_to_co.SystemCall.{Answer, Kernel}
use cs144_introduction_to_co.FileDescriptor.Effects.{IsFaithful}

pub record Logs : Type 0 where
  pub read_log : ℕ → List ℕ
  pub write_log : ℕ → List ℕ

abbrev pub empty_logs : Logs
empty_logs = record { read_log = λ i. []; write_log = λ i. [] }

abbrev pub logged : (ℕ → List ℕ) → ℕ → List ℕ → ℕ → List ℕ
logged log fd bytes i = if i == fd then log i ++ bytes else log i

abbrev pub kernel : Kernel Logs
kernel = record {
  read = λ w fd n. (
    record w { read_log = logged w.read_log fd (take n (7 ∷ [])) },
    Answer.returned (take n (7 ∷ [])),
  );
  writev = λ w fd bytes.
      (record w { write_log = logged w.write_log fd bytes }, Answer.returned (length bytes));
  close = λ w fd. (w, Answer.returned tt);
  shutdown = λ w fd how. (w, Answer.returned tt);
  recvfrom = λ w fd n. (w, Answer.failed 11);
  sendmsg = λ w fd to bytes. (w, Answer.returned (length bytes));
  socket_domain = λ w fd. Answer.returned 2;
  socket_type = λ w fd. Answer.returned 1;
  accept = λ w fd. (w, Answer.failed 11);
}

abbrev pub log_consumed : Logs → ℕ → List ℕ
log_consumed w = w.read_log

abbrev pub log_put : Logs → ℕ → List ℕ
log_put w = w.write_log

at_log : (log : ℕ → List ℕ) (fd : ℕ) (bytes : List ℕ) → logged log fd bytes fd ≡ log fd ++ bytes
at_log log fd bytes = let e : (fd == fd) ≡ true = ground arith in rw e refl

elsewhere :
    (log : ℕ → List ℕ) (fd : ℕ) (bytes : List ℕ) (i : ℕ) → i ≢ fd → logged log fd bytes i ≡ log i
elsewhere log fd bytes i h = let e : (i == fd) ≡ false = ground arith in rw e refl

pub kernel-IsFaithful : IsFaithful kernel log_consumed log_put
kernel-IsFaithful = record {
  reads = λ w fd n. (
    omega (arith, length-take {A = ℕ} n (7 ∷ [])),
    (at_log w.read_log fd (take n (7 ∷ [])), elsewhere w.read_log fd (take n (7 ∷ [])), λ i. refl),
  );
  writes = λ w fd bytes. (
    omega arith,
    (
      rw (take-all (length bytes) bytes (omega arith)) (at_log w.write_log fd bytes),
      elsewhere w.write_log fd bytes,
      λ i. refl,
    ),
  );
  closes = λ w fd. (λ i. refl, λ i. refl);
  shuts = λ w fd how. (λ i. refl, λ i. refl);
}
