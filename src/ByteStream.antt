-- ===== src/ByteStream.antt =====
-- byte_stream.hh and byte_stream.cc: a flow-controlled byte stream over a `BufferList`.
use cs144_introduction_to_co.Prelude.{
  ℕ, ◌-◌, List, Bool, true, false, Option, none, some, min, length, take, ltb, ◌==◌, ◌&&◌,
  if◌then◌else◌,
}
use cs144_introduction_to_co.Prelude.Words.{add64, sub64}
use cs144_introduction_to_co.BufferList.{BufferList}
use cs144_introduction_to_co.BufferList
pub mod Queue
pub mod Peek
pub mod History
mod Examples

pub record ByteStream : Type 0 where
  pub capacity : ℕ
  pub written : ℕ
  pub readden : ℕ
  pub input_end : Bool
  pub buffer : BufferList
  pub error : Bool

unfoldable pub make : ℕ → ByteStream
make capacity = record {
  capacity = capacity;
  written = 0;
  readden = 0;
  input_end = false;
  buffer = BufferList.empty;
  error = false;
}

unfoldable pub buffer_size : ByteStream → ℕ
buffer_size s = BufferList.size s.buffer

unfoldable pub remaining_capacity : ByteStream → ℕ
remaining_capacity s = sub64 s.capacity (BufferList.size s.buffer)

-- How many of `n` offered bytes `write` takes.
unfoldable pub accepted : ByteStream → ℕ → ℕ
accepted s n =
    let room = sub64 s.capacity (BufferList.size s.buffer) in if ltb n room then n else room

-- The new stream, and the number of bytes taken.
unfoldable pub write : ByteStream → List ℕ → ByteStream × ℕ
unfolding accepted
write s bytes =
    let len = accepted s (length bytes) in
    (
      record s {
        written = add64 s.written len;
        buffer = BufferList.append s.buffer (BufferList.of_string (take len bytes));
      },
      len,
    )

unfoldable pub peek_output : ByteStream → ℕ → List ℕ
peek_output s len =
    let length = min len (BufferList.size s.buffer) in take length (BufferList.concatenate s.buffer)

-- When `BufferList::remove_prefix` throws, it has dropped every buffer; `Queue.pop_output-some`
-- shows that it does not throw here.
abbrev buffer_left : Option BufferList → BufferList
buffer_left none = BufferList.empty
buffer_left (some l) = l

unfoldable pub pop_output : ByteStream → ℕ → ByteStream
pop_output s len =
    let length = min len (BufferList.size s.buffer) in
    record s {
      readden = add64 s.readden length;
      buffer = buffer_left (BufferList.remove_prefix s.buffer length);
    }

unfoldable pub read : ByteStream → ℕ → ByteStream × List ℕ
unfolding peek_output pop_output
read s len =
    let length = min len (BufferList.size s.buffer) in
    let res = peek_output s length in (pop_output s length, res)

unfoldable pub end_input : ByteStream → ByteStream
end_input s = record s { input_end = true }

unfoldable pub set_error : ByteStream → ByteStream
set_error s = record s { error = true }

unfoldable pub input_ended : ByteStream → Bool
input_ended s = s.input_end

unfoldable pub buffer_empty : ByteStream → Bool
buffer_empty s = BufferList.size s.buffer == 0

unfoldable pub eof : ByteStream → Bool
unfolding buffer_empty input_ended
eof s = buffer_empty s && input_ended s

unfoldable pub bytes_written : ByteStream → ℕ
bytes_written s = s.written

unfoldable pub bytes_read : ByteStream → ℕ
bytes_read s = s.readden
