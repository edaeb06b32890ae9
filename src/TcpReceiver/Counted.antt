-- ===== src/TcpReceiver/Counted.antt =====
-- stream_reassembler.cc: the head of the reassembler and `bytes_written` of its output.
use cs144_introduction_to_co.Prelude.{
  ℕ, ◌≡◌, refl, ◌∙◌, ap, inl, inr, List, [], ◌∷◌, length, Bool, ◌&&◌, ◌||◌, leb, ◌==◌, Bool-cases,
}
use cs144_introduction_to_co.Prelude.Words.{add64}
use cs144_introduction_to_co.ByteStream.{ByteStream}
use cs144_introduction_to_co.ByteStream
use cs144_introduction_to_co.StreamReassembler.{
  StreamReassembler, BlockNode, clip, assemble, judge_eof, push_substring, empty, flush,
  merge_substring,
}

abbrev pub IsCounted : StreamReassembler → Type 0
IsCounted r = r.output.written ≡ r.head_index

written-write :
    (o : ByteStream) (bytes : List ℕ)
    → (ByteStream.write o bytes).0.written ≡ add64 o.written (ByteStream.write o bytes).1
unfolding ByteStream.write
written-write o bytes = refl

flush-IsCounted :
    (bs : List BlockNode) (r : StreamReassembler) → IsCounted r → IsCounted (flush bs r)
unfolding flush
flush-IsCounted [] r h = h
flush-IsCounted (b ∷ bs) r h = elim (Bool-cases (b.begin == r.head_index)) [
  | inl e ↦
      rw e
        (written-write r.output b.bytes ∙ ap (λ n. add64 n (ByteStream.write r.output b.bytes).1) h)
  | inr e ↦ rw e h
]

assemble-IsCounted :
    (elm : BlockNode) (r : StreamReassembler) → IsCounted r → IsCounted (assemble elm r)
unfolding assemble merge_substring
assemble-IsCounted elm r h = flush-IsCounted _ _ h

judge_eof-IsCounted :
    (eof : Bool) (r : StreamReassembler) → IsCounted r → IsCounted (judge_eof eof r)
unfolding judge_eof ByteStream.end_input
judge_eof-IsCounted eof r h = elim (Bool-cases ((eof || r.eof_flag) && empty r)) [
  | inl e ↦ rw e h
  | inr e ↦ rw e h
]

pub push_substring-IsCounted :
    (r : StreamReassembler) (bytes : List ℕ) (index : ℕ) (eof : Bool)
    → IsCounted r
    → IsCounted (push_substring r bytes index eof)
unfolding push_substring
push_substring-IsCounted r bytes index eof h =
    let q = assemble (clip r.head_index bytes index) r in
    elim (Bool-cases (leb (add64 r.head_index r.capacity) index)) [
      | inl far ↦ rw far h
      | inr near ↦ elim (Bool-cases (leb (add64 index (length bytes)) r.head_index)) [
        | inl old ↦ rw (near, old) (judge_eof-IsCounted eof r h)
        | inr new ↦
            rw (near, new)
              (judge_eof-IsCounted eof q (assemble-IsCounted (clip r.head_index bytes index) r h))
      ]
    ]
