-- ===== src/CircularBuffer/Contents.antt =====
-- The bytes that a ring holds, oldest first, and what the two copies do to them.
use outgame_lobby_server.Prelude.{
  ℕ, ◌+◌, ◌-◌, ◌≤◌, ◌<◌, ◌≡◌, ◌++◌, Bytes, length, length-memcpy, length-tabulate, length-append,
  length-take, length-drop, get_or, get_or-memcpy, get_or-tabulate, get_or-append, get_or-take,
  get_or-drop, get_or_ext, tabulate_ext, tabulate, take, drop, memcpy, arith, sub32, ltb,
  if◌then◌else◌,
}
use outgame_lobby_server.CircularBuffer.{CircularBuffer, copy_in, copy_out}
use outgame_lobby_server.CircularBuffer.Invariant.{IsValid, wrap}

-- The byte `i` places behind the read cursor.
abbrev byte : CircularBuffer → ℕ → ℕ
byte c i = get_or c.buffer (wrap c.buffer_size (c.read_pos + i)) 0

abbrev pub contents : CircularBuffer → Bytes
contents c = tabulate (byte c) c.current_size

pub length-contents : (c : CircularBuffer) → length (contents c) ≡ c.current_size
length-contents c = length-tabulate (byte c) c.current_size

module _ {c : CircularBuffer} (v : IsValid c) (bytes : Bytes) (size : ℕ)
    (room : size ≤ c.buffer_size - c.current_size) (given : size ≤ length bytes) where
  get_or-copy_in :
      (k : ℕ)
      → k < c.current_size + size
      → get_or (copy_in c bytes size) (wrap c.buffer_size (c.read_pos + k)) 0
        ≡ (if ltb k c.current_size then byte c k else get_or bytes (k - c.current_size) 0)
  unfolding copy_in
  get_or-copy_in k h =
      let e = sub32 c.buffer_size c.write_pos in
      let p = wrap c.buffer_size (c.read_pos + k) in
      ground (
        arith,
        get_or-memcpy c.buffer c.write_pos bytes 0 size p 0,
        get_or-memcpy c.buffer c.write_pos bytes 0 e p 0,
        get_or-memcpy (memcpy c.buffer c.write_pos bytes 0 e) 0 bytes e (sub32 size e) p 0,
        length-memcpy c.buffer c.write_pos bytes 0 e,
      )

  -- The ring after an accepted `write` holds its old bytes and then the new ones.
  pub contents-copy_in :
      tabulate
        (λ i. get_or (copy_in c bytes size) (wrap c.buffer_size (c.read_pos + i)) 0)
        (c.current_size + size)
      ≡ contents c ++ take size bytes
  contents-copy_in =
      tabulate_ext _ (c.current_size + size) (contents c ++ take size bytes) 0
        (omega (
          arith,
          length-contents c,
          length-append (contents c) (take size bytes),
          length-take size bytes,
        ))
        (λ i h. ground (
          arith,
          get_or-copy_in i h,
          length-contents c,
          get_or-append (contents c) (take size bytes) i 0,
          get_or-tabulate (byte c) c.current_size i 0,
          get_or-take size bytes (i - c.current_size) 0,
        ))

module _ {c : CircularBuffer} (v : IsValid c) (out : Bytes) (size : ℕ)
    (held : size ≤ c.current_size) (room : size ≤ length out) where
  get_or-copy_out :
      (k : ℕ)
      → k < length out
      → get_or (copy_out c out size) k 0 ≡ (if ltb k size then byte c k else get_or out k 0)
  unfolding copy_out
  get_or-copy_out k h =
      let e = sub32 c.buffer_size c.read_pos in
      ground (
        arith,
        get_or-memcpy out 0 c.buffer c.read_pos size k 0,
        get_or-memcpy out 0 c.buffer c.read_pos e k 0,
        get_or-memcpy (memcpy out 0 c.buffer c.read_pos e) e c.buffer 0 (sub32 size e) k 0,
        length-memcpy out 0 c.buffer c.read_pos e,
      )

  length-copy_out : length (copy_out c out size) ≡ length out
  unfolding copy_out
  length-copy_out =
      let e = sub32 c.buffer_size c.read_pos in
      ground (
        arith,
        length-memcpy out 0 c.buffer c.read_pos size,
        length-memcpy out 0 c.buffer c.read_pos e,
        length-memcpy (memcpy out 0 c.buffer c.read_pos e) e c.buffer 0 (sub32 size e),
      )

  -- An accepted `read` puts the oldest bytes at the front of the caller's array.
  pub copy_out-contents : copy_out c out size ≡ take size (contents c) ++ drop size out
  copy_out-contents =
      get_or_ext _ _ 0
        (omega (
          arith,
          length-copy_out,
          length-contents c,
          length-append (take size (contents c)) (drop size out),
          length-take size (contents c),
          length-drop size out,
        ))
        (λ i h. ground (
          arith,
          get_or-copy_out i,
          length-copy_out,
          length-contents c,
          length-take size (contents c),
          get_or-append (take size (contents c)) (drop size out) i 0,
          get_or-take size (contents c) i 0,
          get_or-tabulate (byte c) c.current_size i 0,
          get_or-drop size out (i - size) 0,
        ))

  -- The ring after it holds the rest.
  pub contents-drop :
      tabulate
        (λ i. get_or c.buffer (wrap c.buffer_size (wrap c.buffer_size (c.read_pos + size) + i)) 0)
        (c.current_size - size)
      ≡ drop size (contents c)
  contents-drop =
      tabulate_ext _ (c.current_size - size) (drop size (contents c)) 0
        (omega (arith, length-contents c, length-drop size (contents c)))
        (λ i h. ground (
          arith,
          get_or-drop size (contents c) i 0,
          get_or-tabulate (byte c) c.current_size (size + i) 0,
        ))
