-- ===== src/FileDescriptor/Examples.antt =====
-- Tests of file_descriptor.cc: a write of three bytes, of which the kernel takes two at a time.
use cs144_introduction_to_co.Prelude.{
  ℕ, ◌≡◌, refl, arith, true, List, [], ◌∷◌, ◌++◌, length, take, min,
}
use cs144_introduction_to_co.SystemCall.{Attempt, Answer, Kernel}
use cs144_introduction_to_co.FileDescriptor.{make, write}
use cs144_introduction_to_co.FileDescriptor.Laws.{IsWritable, write_all}

abbrev slow : Kernel (List ℕ)
slow = record {
  read = λ w fd n. (w, Answer.returned []);
  writev = λ w fd bytes.
      (w ++ take (min 2 (length bytes)) bytes, Answer.returned (min 2 (length bytes)));
  close = λ w fd. (w, Answer.returned tt);
  shutdown = λ w fd how. (w, Answer.returned tt);
  recvfrom = λ w fd n. (w, Answer.failed 11);
  sendmsg = λ w fd to bytes. (w, Answer.failed 11);
  socket_domain = λ w fd. Answer.returned 2;
  socket_type = λ w fd. Answer.returned 1;
  accept = λ w fd. (w, Answer.failed 11);
}

slow-IsWritable : IsWritable slow (λ w. w) 3
slow-IsWritable = record {
  count = λ w bytes. min 2 (length bytes);
  answers = λ w bytes. refl;
  part = λ w bytes. omega arith;
  some_taken = λ w bytes h. omega arith;
  puts = λ w bytes. refl;
}

write_all_example :
    ((write slow [] (make 3) (5 ∷ 6 ∷ 7 ∷ []) true).2 ≡ Attempt.ok 3)
    × ((write slow [] (make 3) (5 ∷ 6 ∷ 7 ∷ []) true).0 ≡ 5 ∷ 6 ∷ 7 ∷ [])
unfolding make
write_all_example =
    write_all slow (λ w. w) 3 slow-IsWritable [] (make 3) (5 ∷ 6 ∷ 7 ∷ []) refl (omega arith)
