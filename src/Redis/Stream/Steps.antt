-- ===== src/Redis/Stream/Steps.antt =====
-- `PushRedisPacket`, and the part of a round of `RedisThread` before the call of the handler.
use mathlib.Core.List.{map-append}
use mathlib.Core.Path.{subst}
use outgame_lobby_server.Prelude.{
  ℕ, ◌+◌, ◌≤◌, ◌≡◌, refl, ap, sym, ◌∙◌, List, [], ◌∷◌, ◌++◌, append-nil, map, Option, none, some,
  Bytes, false, length, replicate, ◌==◌, ==_iff, Bool-cases, Option-cases, inl, inr, ◌⊎◌, All-mono,
  All-append,
}
use outgame_lobby_server.Effects.{returned, fault, pure, modify, ◌>>=◌, ◌>>◌}
use outgame_lobby_server.Packet.{DataPacket, PacketInfo}
use outgame_lobby_server.ConnUser.{ConnUser, write_recv_data, read_recv_data}
use outgame_lobby_server.ConnUsersManager.{ConnUsersManager, find_user, insert_user}
use outgame_lobby_server.ConnUsersManager.Laws.{find_user-insert_user, find_user-lt}
use outgame_lobby_server.Redis.World.{Environment, State, Server, user_at, reach, put_user}
use outgame_lobby_server.Redis.Thread.{
  push_redis_packet, redis_thread_round, round, process_packet, handle_read, call_handler,
}
use outgame_lobby_server.Redis.Delivery.{IsInfoOf}
use outgame_lobby_server.Redis.Stream.{Parcel, stream, descriptor, IsSized, Holds, Carries}
use outgame_lobby_server.Redis.Stream.Ring.{
  stream-append, write_recv_data-Holds, read_recv_data-Takes,
}

-- Which object a look-up finds after the object `num` was changed to `v`.
pub find_user-changed :
    (num k : ℕ) (u v x : ConnUser) (m : ConnUsersManager)
    → find_user num m ≡ some u
    → find_user k (insert_user num v m) ≡ some x
    → ((num ≡ k) × (v ≡ x)) ⊎ (((num == k) ≡ false) × (find_user k m ≡ some x))
find_user-changed num k u v x m found e =
    let law = find_user-insert_user num k v m (find_user-lt num m u found) in
    elim (Bool-cases (num == k)) [
      | inl q ↦ let same : some v ≡ some x = sym (rw q at law) ∙ e in inl ((==_iff num k).0 q, cc)
      | inr q ↦ inr (q, sym (rw q at law) ∙ e)
    ]

-- The object is there still.
pub find_user-present :
    (num k : ℕ) (u v : ConnUser) (m : ConnUsersManager)
    → find_user num m ≡ some u
    → (x : ConnUser) × (find_user k m ≡ some x)
    → (x : ConnUser) × (find_user k (insert_user num v m) ≡ some x)
find_user-present num k u v m found (x, e) =
    let law = find_user-insert_user num k v m (find_user-lt num m u found) in
    elim (Bool-cases (num == k)) [ inl q ↦ (v, rw q at law) | inr q ↦ (x, rw q at law ∙ e) ]

module _ (env : Environment) where
  -- A change of one object, when each ring then holds its part of the packets `qs`.
  pub put_user-rings :
      (num : ℕ) (ps qs : List Parcel) (ds : List DataPacket) (u v : ConnUser) (w : State env)
      → Carries env ps ds w
      → find_user num w.manager ≡ some u
      → Holds num (stream num qs) v
      → ((k : ℕ) → (num == k) ≡ false → stream k ps ≡ stream k qs)
      → (k : ℕ) (x : ConnUser) → find_user k (insert_user num v w.manager) ≡ some x
      → Holds k (stream k qs) x
  put_user-rings num ps qs ds u v w c found holds same k x e =
      elim (find_user-changed num k u v x w.manager found e) [
        | inl (q, r) ↦
            subst (λ y. Holds k (stream k qs) y) r (subst (λ j. Holds j (stream j qs) v) q holds)
        | inr (ne, e') ↦ rw (same k ne) at (c.rings k x e')
      ]

  -- A packet of at least a header and at most 1024 bytes for a connection whose ring has room for it:
  -- `PushRedisPacket` returns, and it is under way behind the packets before it.
  pub push_redis_packet-Carries :
      (num : ℕ) (bytes : Bytes) (ps : List Parcel) (u : ConnUser) (w : State env)
      → Carries env ps [] w
      → find_user num w.manager ≡ some u
      → IsSized (num, bytes)
      → length (stream num ps) + length bytes ≤ u.circular_buffer.buffer_size
      → (w' : State env) × (push_redis_packet env num (length bytes) bytes w ≡ returned tt w')
        × Carries env (ps ++ (num, bytes) ∷ []) [] w'
  unfolding push_redis_packet user_at reach put_user
  push_redis_packet-Carries num bytes ps u w c found fits room =
      let v : ConnUser = (write_recv_data bytes (length bytes) u).1 in
      let qs : List Parcel = ps ++ (num, bytes) ∷ [] in
      let w' : State env = record w {
        manager = insert_user num v w.manager;
        proc_skt_queue = w.proc_skt_queue ++ descriptor (num, bytes) ∷ [];
      } in
      (
        w',
        rw found refl,
        record {
          queue =
              ap (λ q. q ++ descriptor (num, bytes) ∷ []) (c.queue ∙ append-nil (map descriptor ps))
              ∙ sym (map-append descriptor ps ((num, bytes) ∷ []))
              ∙ sym (append-nil (map descriptor (ps ++ (num, bytes) ∷ [])));
          rings =
              put_user-rings num ps qs [] u v w c found
                (rw (stream-append num ps ((num, bytes) ∷ []), (==_iff num num).1 refl)
                  (rw append-nil
                    (write_recv_data-Holds num (stream num ps) bytes u (c.rings num u found) room)))
                (λ k ne.
                  rw (stream-append k ps ((num, bytes) ∷ []), ne) (sym (append-nil (stream k ps))));
          sized = All-append _ ps _ c.sized (fits, tt);
          present =
              All-append _ ps _
                (All-mono (λ p h. find_user-present num p.0 u v w.manager found h) ps c.present)
                (find_user-present num num u v w.manager found (u, found), tt);
        },
      )

  -- A round of the loop before the call of the handler: the packet that it takes, if any.
  unfoldable pub settle_read : ℕ → Option PacketInfo × ConnUser → Server env (Option PacketInfo)
  settle_read num (none, u) = λ w. fault
  settle_read num (some info, u) = do put_user env num u; pure (some info)

  unfoldable pub front_packet : List DataPacket → Server env (Option PacketInfo)
  unfolding settle_read
  front_packet [] = pure none
  front_packet (d ∷ rest) = do
    modify λ w. record w { proc_skt_queue = rest }
    u ← user_at env d.conn_obj_num
    settle_read d.conn_obj_num (read_recv_data (replicate 1024 0) d.data_size u)

  unfoldable pub take_packet : Server env (Option PacketInfo)
  unfolding front_packet
  take_packet w = front_packet w.proc_skt_queue w

  -- The call of the handler.
  abbrev pub hand : Option PacketInfo → Server env (Unit {0})
  hand none = pure tt
  hand (some info) = call_handler env info

  handle_read_split :
      (num : ℕ) (r : Option PacketInfo × ConnUser) (w : State env)
      → handle_read env num r w ≡ (settle_read num r >>= hand) w
  unfolding handle_read settle_read put_user
  handle_read_split num (none, u) w = refl
  handle_read_split num (some info, u) w = refl

  process_packet_split :
      (d : DataPacket) (rest : List DataPacket) (w : State env)
      → round env (d ∷ rest) w ≡ (front_packet (d ∷ rest) >>= hand) w
  unfolding round process_packet front_packet user_at reach
  process_packet_split d rest w = elim (Option-cases (find_user d.conn_obj_num w.manager)) [
    | inl e ↦ rw e refl
    | inr (u, e) ↦ rw e (
        handle_read_split d.conn_obj_num (read_recv_data (replicate 1024 0) d.data_size u)
          (record w { proc_skt_queue = rest }))
  ]

  round_split : (q : List DataPacket) (w : State env) → round env q w ≡ (front_packet q >>= hand) w
  unfolding round front_packet
  round_split [] w = refl
  round_split (d ∷ rest) w = process_packet_split d rest w

  -- A round takes a packet and calls its handler, on every state.
  pub redis_thread_round_split :
      (w : State env) → redis_thread_round env w ≡ (take_packet >>= hand) w
  unfolding redis_thread_round take_packet
  redis_thread_round_split w = round_split w.proc_skt_queue w

  -- With packets under way, a round takes the oldest one, and the rest is under way.
  pub take_packet-Carries :
      (num : ℕ) (bytes : Bytes) (ps : List Parcel) (ds : List DataPacket) (w : State env)
      → Carries env ((num, bytes) ∷ ps) ds w
      → (info : PacketInfo) × (w' : State env) × IsInfoOf num bytes info
        × Carries env ps ds w'
        × (take_packet w ≡ returned (some info) w')
  unfolding take_packet front_packet settle_read user_at reach put_user
  take_packet-Carries num bytes ps ds w c =
      let (u, found) = c.present.0 in
      let here : stream num ((num, bytes) ∷ ps) ≡ bytes ++ stream num ps =
        rw ((==_iff num num).1 refl) refl in
      let t =
        read_recv_data-Takes num bytes (stream num ps) (replicate 1024 0) u
          (rw here at (c.rings num u found)) c.sized.0.0 c.sized.0.1 in
      let v : ConnUser = (read_recv_data (replicate 1024 0) (length bytes) u).1 in
      let w' : State env = record w {
        manager = insert_user num v w.manager;
        proc_skt_queue = map descriptor ps ++ ds;
      } in
      (
        t.info,
        w',
        t.is,
        record {
          queue = refl;
          rings =
              put_user-rings num ((num, bytes) ∷ ps) ps ds u v w c found t.left
                (λ k ne. rw ne refl);
          sized = c.sized.1;
          present =
              All-mono (λ p h. find_user-present num p.0 u v w.manager found h) ps c.present.1;
        },
        rw c.queue (rw found (rw t.found refl)),
      )

  -- With none under way, a round takes none and changes nothing.
  pub take_packet-nil : (w : State env) → Carries env [] [] w → take_packet w ≡ returned none w
  unfolding take_packet front_packet
  take_packet-nil w c = rw c.queue refl

  pub redis_thread_round-Carries :
      (num : ℕ) (bytes : Bytes) (ps : List Parcel) (ds : List DataPacket) (w : State env)
      → Carries env ((num, bytes) ∷ ps) ds w
      → (info : PacketInfo) × (w' : State env) × IsInfoOf num bytes info
        × Carries env ps ds w'
        × (redis_thread_round env w ≡ call_handler env info w')
  redis_thread_round-Carries num bytes ps ds w c =
      let (info, w', is, rest, e) = take_packet-Carries num bytes ps ds w c in
      (info, w', is, rest, redis_thread_round_split w ∙ rw e refl)
