-- ===== src/CircularBuffer/Queue.antt =====
-- What the ring promises: a byte queue of bounded size. The ring refines it through `contents`.
use outgame_lobby_server.Prelude.{
  ℕ, ◌+◌, ◌-◌, ◌^◌, ◌≤◌, ◌<◌, ◌≡◌, refl, ◌++◌, List, [], ◌∷◌, Bool, true, false, Bytes, length,
  take, drop, replicate, length-replicate, arith, ltb, if◌then◌else◌,
}
use outgame_lobby_server.CircularBuffer.{CircularBuffer, write, read}
use outgame_lobby_server.CircularBuffer.Invariant.{IsValid, mod-wrap, write-IsValid, read-IsValid}
use outgame_lobby_server.CircularBuffer.Contents.{
  contents, length-contents, contents-copy_in, copy_out-contents, contents-drop,
}

-- The first `n` of `bytes` join the end, if they fit in `cap`.
unfoldable pub push : ℕ → Bytes → Bytes → ℕ → Bool × Bytes
push cap q bytes n = if ltb (cap - length q) n then (false, q) else (true, q ++ take n bytes)

-- The first `n` leave for the front of `out`, if there are so many.
unfoldable pub pop : Bytes → Bytes → ℕ → Bool × Bytes × Bytes
pop q out n = if ltb (length q) n then (false, out, q) else (true, take n q ++ drop n out, drop n q)

-- On a valid ring, `Write` of an array of at least `size` bytes appends its first `size` bytes to the
-- contents, or is refused and changes nothing, as the bounded queue does.
pub write_refines :
    {c : CircularBuffer} (bytes : Bytes) (size : ℕ)
    → IsValid c
    → size ≤ length bytes
    → size < 2 ^ 32
    → let (done, c') = write c bytes size in
      (done, contents c') ≡ push c.buffer_size (contents c) bytes size
unfolding push write
write_refines {c} bytes size v given small =
    ground (arith, length-contents c, contents-copy_in v bytes size)

-- On a valid ring, `Read` into an array of at least `size` bytes moves the first `size` bytes of the
-- contents to its front, or is refused and changes nothing, as the queue does.
pub read_refines :
    {c : CircularBuffer} (out : Bytes) (size : ℕ)
    → IsValid c
    → size ≤ length out
    → let (done, out', c') = read c out size in
      (done, out', contents c') ≡ pop (contents c) out size
unfolding pop read
read_refines {c} out size v room = ground (
  arith,
  length-contents c,
  copy_out-contents v out size,
  contents-drop v out size,
  mod-wrap c.buffer_size (c.read_pos + size),
)

-- A client's calls: `Write` of a whole array, `Read` into a fresh array of that size.
pub data Op : Type 0 where
  puts : Bytes → Op
  gets : ℕ → Op

-- What each call returns, in order.
unfoldable pub run : CircularBuffer → List Op → List (Bool × Bytes)
run c [] = []
run c (puts bytes ∷ ops) = let (done, c') = write c bytes (length bytes) in (done, []) ∷ run c' ops
run c (gets n ∷ ops) = let (done, out, c') = read c (replicate n 0) n in (done, out) ∷ run c' ops

-- The same calls on the queue.
unfoldable pub run_queue : ℕ → Bytes → List Op → List (Bool × Bytes)
run_queue cap q [] = []
run_queue cap q (puts bytes ∷ ops) =
    let (done, q') = push cap q bytes (length bytes) in (done, []) ∷ run_queue cap q' ops
run_queue cap q (gets n ∷ ops) =
    let (done, out, q') = pop q (replicate n 0) n in (done, out) ∷ run_queue cap q' ops

-- Array sizes are `uint32_t`.
abbrev pub AreSized : List Op → Type 0
AreSized [] = Unit {0}
AreSized (puts bytes ∷ ops) = (length bytes < 2 ^ 32) × AreSized ops
AreSized (gets n ∷ ops) = AreSized ops

buffer_size-write :
    (c : CircularBuffer) (bytes : Bytes) (n : ℕ) → (write c bytes n).1.buffer_size ≡ c.buffer_size
unfolding write
buffer_size-write c bytes n = ground arith

buffer_size-read :
    (c : CircularBuffer) (out : Bytes) (n : ℕ) → (read c out n).2.buffer_size ≡ c.buffer_size
unfolding read
buffer_size-read c out n = ground arith

-- No sequence of `Write` and `Read` calls, of arrays of `uint32_t` size, tells a valid ring from the
-- bounded queue of its contents: each call returns the same flag and the same bytes.
pub run_refines :
    (ops : List Op) {c : CircularBuffer}
    → IsValid c
    → AreSized ops
    → run c ops ≡ run_queue c.buffer_size (contents c) ops
unfolding run run_queue
run_refines [] v s = refl
run_refines (puts bytes ∷ ops) {c} v s = rw (
  run_refines ops (write-IsValid bytes (length bytes) v s.0) s.1,
  ← write_refines bytes (length bytes) v (omega arith) s.0,
  buffer_size-write c bytes (length bytes),
)
run_refines (gets n ∷ ops) {c} v s = rw (
  run_refines ops (read-IsValid (replicate n 0) n v) s,
  ← read_refines (replicate n 0) n v (omega (arith, length-replicate {A = ℕ} n 0)),
  buffer_size-read c (replicate n 0) n,
)
