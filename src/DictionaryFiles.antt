-- ===== src/DictionaryFiles.antt =====
-- `DictionaryFile` of src/skk/yaskkserv2.rs: one block of the dictionary file, kept from the last
-- read. `seek` and `read_exact` of the standard library are one argument, `read_exact position
-- length`, since a failure of either leaves `read` the same way.
pub mod Cache
mod Tests
use yaskkserv.Prelude.{
  ℕ, ◌&&◌, ◌++◌, ltb, ◌==◌, if◌then◌else◌, Bytes, length, take, drop, replicate, Result, io, ok,
  err,
}

-- The file fills the buffer, or fails having put bytes of its own into its front.
pub data Exactly : Type 0 where
  filled : Bytes → Exactly
  failed : Bytes → Exactly

pub record DictionaryFile : Type 0 where
  pub seek_position : ℕ
  pub read_length : ℕ
  pub buffer : Bytes

abbrev pub File : Type 0
File = ℕ → ℕ → Exactly

-- `new(file, buffer_length)`.
unfoldable pub new : ℕ → DictionaryFile
new buffer_length = record {
  seek_position = 0;
  read_length = 0;
  buffer = replicate buffer_length 0;
}

-- What stands in the buffer once `bytes` are written to its front.
abbrev pub overwrite : Bytes → Bytes → Bytes
overwrite bytes buffer = bytes ++ drop (length bytes) buffer

-- `vec![0; read_length]` in place of a buffer that is too short.
abbrev pub grown : ℕ → Bytes → Bytes
grown read_length buffer =
    if ltb (length buffer) read_length then replicate read_length 0 else buffer

refill : Exactly → ℕ → ℕ → DictionaryFile → Result Bytes × DictionaryFile
refill (filled bytes) seek_position read_length d = (
  ok (take read_length (overwrite bytes (grown read_length d.buffer))),
  record {
    seek_position = seek_position;
    read_length = read_length;
    buffer = overwrite bytes (grown read_length d.buffer);
  },
)
refill (failed bytes) seek_position read_length d = (
  err io,
  record {
    seek_position = seek_position;
    read_length = read_length;
    buffer = overwrite bytes (grown read_length d.buffer);
  },
)

unfoldable pub read : File → ℕ → ℕ → DictionaryFile → Result Bytes × DictionaryFile
unfolding refill
read read_exact seek_position read_length d =
    if d.seek_position == seek_position && d.read_length == read_length
    then (ok (take read_length d.buffer), d)
    else refill (read_exact seek_position read_length) seek_position read_length d
