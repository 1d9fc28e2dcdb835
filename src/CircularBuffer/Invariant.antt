-- ===== src/CircularBuffer/Invariant.antt =====
-- The representation invariant of the ring, and that both methods keep it.
use outgame_lobby_server.Prelude.{
  ℕ, ◌+◌, ◌-◌, ◌^◌, ◌%◌, ◌≤◌, ◌<◌, ◌≡◌, Bytes, length, length-memcpy, memcpy, arith, sub32, ltb,
  if◌then◌else◌,
}
use native.Mathlib.Nat.{mod-eq_of_lt, mod-eq-sub-mod}
use outgame_lobby_server.CircularBuffer.{CircularBuffer, create, copy_in, write, read}

-- One turn round the ring, as a test.
abbrev pub wrap : ℕ → ℕ → ℕ
wrap n x = if ltb x n then x else x - n

pub mod-wrap : (n x : ℕ) → x < n + n → x % n ≡ wrap n x
mod-wrap n x h = ground (
  arith,
  mod-eq_of_lt {n = x} {m = n},
  mod-eq-sub-mod {n = x} {m = n},
  mod-eq_of_lt {n = x - n} {m = n},
)

-- The cursors lie in the storage, and `write_pos` is `current_size` bytes after `read_pos`.
pub record IsValid (c : CircularBuffer) : Type 0 where
  pub storage : length c.buffer ≡ c.buffer_size
  pub nonempty : 0 < c.buffer_size
  pub small : c.buffer_size ≤ 2 ^ 31
  pub reads_inside : c.read_pos < c.buffer_size
  pub fits : c.current_size ≤ c.buffer_size
  pub in_step : c.write_pos ≡ wrap c.buffer_size (c.read_pos + c.current_size)

-- A new ring of at least one byte is valid.
pub create-IsValid :
    (storage : Bytes) (size : ℕ)
    → length storage ≡ size
    → 0 < size
    → size ≤ 2 ^ 31
    → IsValid (create storage size)
unfolding create
create-IsValid storage size e pos small = ground arith

length-copy_in :
    (c : CircularBuffer) (bytes : Bytes) (size : ℕ)
    → length (copy_in c bytes size) ≡ length c.buffer
unfolding copy_in
length-copy_in c bytes size =
    let e = sub32 c.buffer_size c.write_pos in
    ground (
      arith,
      length-memcpy c.buffer c.write_pos bytes 0 size,
      length-memcpy c.buffer c.write_pos bytes 0 e,
      length-memcpy (memcpy c.buffer c.write_pos bytes 0 e) 0 bytes e (sub32 size e),
    )

-- `Write` of any size keeps a ring valid.
pub write-IsValid :
    {c : CircularBuffer} (bytes : Bytes) (size : ℕ)
    → IsValid c
    → size < 2 ^ 32
    → IsValid (write c bytes size).1
unfolding write
write-IsValid {c} bytes size v small =
    ground (arith, length-copy_in c bytes size, mod-wrap c.buffer_size (c.write_pos + size))

-- `Read` of any size keeps a ring valid.
pub read-IsValid :
    {c : CircularBuffer} (out : Bytes) (size : ℕ) → IsValid c → IsValid (read c out size).2
unfolding read
read-IsValid {c} out size v = ground (arith, mod-wrap c.buffer_size (c.read_pos + size))
