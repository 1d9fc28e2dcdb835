-- ===== src/CircularBuffer.antt =====
-- CircularBuffer.h and CircularBuffer.cpp: a byte ring over one heap array. Each method runs under
-- `bufferMutex`, so a call is one step. The `uint32_t` arithmetic is written with its wrap-around.
pub mod Invariant
pub mod Contents
pub mod Queue
mod Tests
use outgame_lobby_server.Prelude.{
  ℕ, ◌%◌, Bool, true, false, Bytes, replicate, memcpy, ltb, leb, if◌then◌else◌, add32, sub32,
}

-- `class CircularBuffer`
pub record CircularBuffer : Type 0 where
  pub buffer : Bytes
  pub buffer_size : ℕ
  pub write_pos : ℕ
  pub read_pos : ℕ
  pub current_size : ℕ

-- The constructor. `new char[bufferSize]` leaves the bytes unset: they are an argument.
unfoldable pub create : Bytes → ℕ → CircularBuffer
create storage size = record {
  buffer = storage;
  buffer_size = size;
  write_pos = 0;
  read_pos = 0;
  current_size = 0;
}

-- The copy of `Write`: in one piece, or in two round the end of the storage.
unfoldable pub copy_in : CircularBuffer → Bytes → ℕ → Bytes
copy_in c bytes size =
    let end_space = sub32 c.buffer_size c.write_pos in
    if leb size end_space
    then memcpy c.buffer c.write_pos bytes 0 size
    else memcpy (memcpy c.buffer c.write_pos bytes 0 end_space) 0 bytes end_space
        (sub32 size end_space)

-- `Write`: the flag that it returns, and the buffer after it.
unfoldable pub write : CircularBuffer → Bytes → ℕ → Bool × CircularBuffer
write c bytes size = if ltb (sub32 c.buffer_size c.current_size) size then (false, c) else (
  true,
  record c {
    buffer = copy_in c bytes size;
    write_pos = add32 c.write_pos size % c.buffer_size;
    current_size = add32 c.current_size size;
  },
)

-- The copy of `Read`, into the caller's array.
unfoldable pub copy_out : CircularBuffer → Bytes → ℕ → Bytes
copy_out c out size =
    let end_space = sub32 c.buffer_size c.read_pos in
    if leb size end_space
    then memcpy out 0 c.buffer c.read_pos size
    else memcpy (memcpy out 0 c.buffer c.read_pos end_space) end_space c.buffer 0
        (sub32 size end_space)

-- `Read`: the flag that it returns, the caller's array after it, and the buffer after it.
unfoldable pub read : CircularBuffer → Bytes → ℕ → Bool × Bytes × CircularBuffer
read c out size = if ltb c.current_size size then (false, out, c) else (
  true,
  copy_out c out size,
  record c {
    read_pos = add32 c.read_pos size % c.buffer_size;
    current_size = sub32 c.current_size size;
  },
)

-- `DataSize`
unfoldable pub data_size : CircularBuffer → ℕ
data_size c = c.current_size
