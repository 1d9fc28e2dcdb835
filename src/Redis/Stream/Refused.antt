-- ===== src/Redis/Stream/Refused.antt =====
-- A packet that its ring refuses.
use outgame_lobby_server.Prelude.{
  ℕ, zero, suc, ◌<◌, ◌≡◌, refl, sym, ap, ◌∙◌, List, [], ◌∷◌, ◌++◌, append_assoc, map, some, Bytes,
  true, false, length, arith, Option-cases, Bool-cases, inl, inr, ltb, sub32, All-mono,
}
use outgame_lobby_server.Effects.{Outcome, returned, raised, fault, blocked, and_then, pure, ◌>>◌}
use outgame_lobby_server.CircularBuffer.{CircularBuffer, write, read}
use outgame_lobby_server.CircularBuffer.Contents.{contents, length-contents}
use outgame_lobby_server.Packet.{DataPacket}
use outgame_lobby_server.ConnUser.{ConnUser, write_recv_data, read_recv_data}
use outgame_lobby_server.ConnUsersManager.{find_user, insert_user}
use outgame_lobby_server.Redis.World.{Environment, State, Server, user_at, reach, put_user}
use outgame_lobby_server.Redis.Thread.{
  push_redis_packet, redis_thread_round, round, process_packet, handle_read, call_handler,
}
use outgame_lobby_server.Redis.Stream.{Parcel, stream, descriptor, Holds, Carries}
use outgame_lobby_server.Redis.Stream.Keeps.{Keeps, Holds-inbox}
use outgame_lobby_server.Redis.Stream.Handlers.{Keeps-call_handler}
use outgame_lobby_server.Redis.Stream.Steps.{
  put_user-rings, find_user-present, redis_thread_round-Carries,
}

write_refused :
    (c : CircularBuffer) (bytes : Bytes) (size : ℕ)
    → (write c bytes size).0 ≡ false
    → (write c bytes size).1 ≡ c
unfolding write
write_refused c bytes size e = elim (Bool-cases (ltb (sub32 c.buffer_size c.current_size) size)) [
  | inl q ↦ rw q refl
  | inr q ↦ let done : true ≡ false = rw q at e in let impossible : ⊥ = cc in absurd impossible
]

-- A ring that holds nothing gives nothing.
read-nil :
    (c : CircularBuffer) (out : Bytes) (size : ℕ)
    → contents c ≡ []
    → 0 < size
    → (read c out size).0 ≡ false
unfolding read
read-nil c out size e pos = ground (arith, length-contents c, ap length e)

-- The parts of a run that returned.
returned-and_then :
    {W A : Type 0} (r : Outcome W (Unit {0})) (f : Unit {0} → W → Outcome W A) (a : A) (x : W)
    → and_then r f ≡ returned a x
    → (v : W) × (r ≡ returned tt v) × (f tt v ≡ returned a x)
returned-and_then (returned b v) f a x e = (v, refl, e)
returned-and_then (raised y v) f a x e = absurd (let nobody : ⊥ = cc in nobody)
returned-and_then fault f a x e = absurd (let nobody : ⊥ = cc in nobody)
returned-and_then blocked f a x e = absurd (let nobody : ⊥ = cc in nobody)

module _ (env : Environment) where
  -- `n` rounds of the loop of `RedisThread`.
  abbrev pub rounds : ℕ → Server env (Unit {0})
  rounds zero = pure tt
  rounds (suc n) = redis_thread_round env >> rounds n

  -- `PushRedisPacket` all the same puts the descriptor into the queue.
  push_redis_packet-Carries_refused :
      (num : ℕ) (bytes : Bytes) (ps : List Parcel) (u : ConnUser) (w w' : State env)
      → Carries env ps [] w
      → find_user num w.manager ≡ some u
      → (write_recv_data bytes (length bytes) u).0 ≡ false
      → push_redis_packet env num (length bytes) bytes w ≡ returned tt w'
      → Carries env ps (descriptor (num, bytes) ∷ []) w'
  unfolding push_redis_packet user_at reach put_user write_recv_data
  push_redis_packet-Carries_refused num bytes ps u w w' c found refused ran =
      let v : ConnUser = (write_recv_data bytes (length bytes) u).1 in
      let same : v.circular_buffer ≡ u.circular_buffer =
        write_refused u.circular_buffer bytes (length bytes) refused in
      let d : DataPacket = descriptor (num, bytes) in
      let y : State env = record w {
        manager = insert_user num v w.manager;
        proc_skt_queue = w.proc_skt_queue ++ d ∷ [];
      } in
      let both : returned tt y ≡ returned tt w' = rw found at ran in
      let yw : y ≡ w' = cc in
      let holds : Holds num (stream num ps) v =
        Holds-inbox num (stream num ps) u v (ap (λ r. (r, u.read_data, u.conn_obj_num)) same)
          (c.rings num u found) in
      let carries : Carries env ps (d ∷ []) y = record {
        queue = ap (λ q. q ++ d ∷ []) c.queue ∙ append_assoc (map descriptor ps) [] (d ∷ []);
        rings = put_user-rings env num ps ps [] u v w c found holds (λ k ne. refl);
        sized = c.sized;
        present = All-mono (λ p h. find_user-present num p.0 u v w.manager found h) ps c.present;
      } in
      rw yw at carries

  -- The rounds serve the packets before it.
  rounds-Carries :
      (ps : List Parcel) (ds : List DataPacket) (w x : State env)
      → Carries env ps ds w
      → rounds (length ps) w ≡ returned tt x
      → Carries env [] ds x
  rounds-Carries [] ds w x c ran = let same : w ≡ x = cc in rw same at c
  rounds-Carries ((num, bytes) ∷ ps) ds w x c ran =
      let (info, w', is, rest, e) = redis_thread_round-Carries env num bytes ps ds w c in
      let (v, first, then_) =
        returned-and_then (redis_thread_round env w) (λ _. rounds (length ps)) tt x ran in
      let kept : Keeps env ps ds (call_handler env info w') =
        Keeps-call_handler env ps ds info w' rest in
      rounds-Carries ps ds v x (rw (sym e ∙ first) at kept) then_

  orphan-fault :
      (num : ℕ) (bytes : Bytes) (ds : List DataPacket) (w : State env)
      → Carries env [] (descriptor (num, bytes) ∷ ds) w
      → 0 < length bytes
      → redis_thread_round env w ≡ fault
  unfolding redis_thread_round round process_packet handle_read user_at reach read_recv_data
  orphan-fault num bytes ds w c pos = elim (Option-cases (find_user num w.manager)) [
    | inl e ↦ rw c.queue (rw e refl)
    | inr (u, e) ↦ elim (Bool-cases (ltb (length u.read_data) (length bytes))) [
      | inl q ↦ rw c.queue (rw e (rw q refl))
      | inr q ↦ rw c.queue (
          rw e (
            rw q
              (rw (read-nil u.circular_buffer _ (length bytes) (c.rings num u e).full pos) refl)))
    ]
  ]

  -- A packet of at least one byte that its ring refuses, pushed behind the packets `ps`: if the rounds that serve `ps` end
  -- normally, and no other packet is pushed, the next round meets undefined behaviour.
  pub push_redis_packet_refused :
      (num : ℕ) (bytes : Bytes) (ps : List Parcel) (u : ConnUser) (w w' x : State env)
      → Carries env ps [] w
      → find_user num w.manager ≡ some u
      → 0 < length bytes
      → (write_recv_data bytes (length bytes) u).0 ≡ false
      → push_redis_packet env num (length bytes) bytes w ≡ returned tt w'
      → rounds (length ps) w' ≡ returned tt x
      → redis_thread_round env x ≡ fault
  push_redis_packet_refused num bytes ps u w w' x c found pos refused ran served =
      orphan-fault num bytes [] x
        (rounds-Carries ps (descriptor (num, bytes) ∷ []) w' x
          (push_redis_packet-Carries_refused num bytes ps u w w' c found refused ran) served)
        pos
