-- ===== src/Redis/Stream/Ring.antt =====
-- `WriteRecvData` and `ReadRecvData` on a ring that holds the bytes of several packets.
use outgame_lobby_server.Prelude.{
  ℕ, ◌+◌, ◌^◌, ◌≤◌, ◌<◌, ◌≡◌, refl, ap, sym, ◌∙◌, List, [], ◌∷◌, ◌++◌, append_assoc, Option, some,
  Bytes, Bool, true, false, ltb, length, length-append, drop, length-memcpy, length-drop, memcpy,
  arith, ◌==◌, Bool-cases, inl, inr,
}
use outgame_lobby_server.Text.Find.{take-append, drop-append}
use outgame_lobby_server.Overlapped.{max_recv_size}
use outgame_lobby_server.CircularBuffer.{CircularBuffer, write, read}
use outgame_lobby_server.CircularBuffer.Invariant.{write-IsValid, read-IsValid}
use outgame_lobby_server.CircularBuffer.Contents.{contents}
use outgame_lobby_server.CircularBuffer.Queue.{push, pop, write_refines, read_refines}
use outgame_lobby_server.Packet.{PacketInfo}
use outgame_lobby_server.ConnUser.{ConnUser, write_recv_data, read_recv_data, packet_info}
use outgame_lobby_server.Redis.Delivery.{take_all, IsInfoOf, read_u16-front}
use outgame_lobby_server.Redis.Stream.{Parcel, stream, Holds}

pub stream-append : (k : ℕ) (ps qs : List Parcel) → stream k (ps ++ qs) ≡ stream k ps ++ stream k qs
stream-append k [] qs = refl
stream-append k ((num, bytes) ∷ ps) qs = elim (Bool-cases (num == k)) [
  | inl e ↦ rw (e, stream-append k ps qs) (sym (append_assoc bytes (stream k ps) (stream k qs)))
  | inr e ↦ rw (e, stream-append k ps qs) refl
]

-- `Write` of a packet that fits puts it behind what the ring holds.
pub write_recv_data-Holds :
    (k : ℕ) (held bytes : Bytes) (u : ConnUser)
    → Holds k held u
    → length held + length bytes ≤ u.circular_buffer.buffer_size
    → Holds k (held ++ bytes) (write_recv_data bytes (length bytes) u).1
unfolding write_recv_data push
write_recv_data-Holds k held bytes u h fits =
    let c : CircularBuffer = u.circular_buffer in
    let small : length bytes < 2 ^ 32 = omega (arith, h.valid.small) in
    let r : contents (write c bytes (length bytes)).1
        ≡ (push c.buffer_size (contents c) bytes (length bytes)).1 =
      ap (λ (p : Bool × Bytes). p.1)
        (write_refines bytes (length bytes) h.valid (omega arith) small) in
    record {
      valid = write-IsValid bytes (length bytes) h.valid small;
      full = r ∙ rw h.full (ground (arith, take_all bytes));
      own = h.own;
      room = h.room;
    }

pop-front :
    (bytes rest out : Bytes)
    → pop (bytes ++ rest) out (length bytes) ≡ (true, bytes ++ drop (length bytes) out, rest)
unfolding pop
pop-front bytes rest out =
    rw
      (
        take-append bytes rest (length bytes) refl,
        drop-append bytes rest 0 (length bytes) (omega arith),
      )
      (ground (arith, length-append bytes rest))

-- `ReadRecvData` of the size of the oldest packet takes that packet off the ring.
pub record Takes (k : ℕ) (bytes rest : Bytes) (r : Option PacketInfo × ConnUser) : Type 0 where
  pub info : PacketInfo
  pub found : r.0 ≡ some info
  pub is : IsInfoOf k bytes info
  pub left : Holds k rest r.1

pub read_recv_data-Takes :
    (k : ℕ) (bytes rest zeros : Bytes) (u : ConnUser)
    → Holds k (bytes ++ rest) u
    → 4 ≤ length bytes
    → length bytes ≤ max_recv_size
    → Takes k bytes rest (read_recv_data zeros (length bytes) u)
unfolding read_recv_data packet_info
read_recv_data-Takes k bytes rest zeros u h header fits =
    let c : CircularBuffer = u.circular_buffer in
    let n : ℕ = length bytes in
    let within : ltb (length u.read_data) n ≡ false = ground (arith, h.room) in
    let out : Bytes = memcpy u.read_data 0 zeros 0 n in
    let out_length : length out ≡ max_recv_size =
      omega (arith, length-memcpy u.read_data 0 zeros 0 n, h.room) in
    let r : ((read c out n).0, (read c out n).1, contents (read c out n).2)
        ≡ (true, bytes ++ drop n out, rest) =
      read_refines out n h.valid (omega arith)
      ∙ ap (λ (q : Bytes). pop q out n) h.full
      ∙ pop-front bytes rest out in
    let done = ap (λ (p : Bool × Bytes × Bytes). p.0) r in
    let moved = ap (λ (p : Bool × Bytes × Bytes). p.1) r in
    let emptied = ap (λ (p : Bool × Bytes × Bytes). p.2) r in
    rw (within, done, moved)
      (record {
        info = _;
        found = refl;
        is = record {
          id = read_u16-front bytes _ 2 header;
          size = read_u16-front bytes _ 0 (omega arith);
          sender = h.own;
          whole = take-append bytes _ n refl;
        };
        left = record {
          valid = read-IsValid out n h.valid;
          full = emptied;
          own = h.own;
          room = omega (arith, length-append bytes (drop n out), length-drop n out);
        };
      })
