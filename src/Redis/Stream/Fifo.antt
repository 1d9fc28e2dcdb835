-- ===== src/Redis/Stream/Fifo.antt =====
-- Runs in which the worker threads push packets, and one `RedisThread` takes them.
use outgame_lobby_server.Prelude.{
  ℕ, ◌+◌, ◌≤◌, ◌≡◌, refl, ap, sym, ◌∙◌, List, [], ◌∷◌, ◌++◌, append_assoc, none, some, Bytes, true,
  length, arith,
}
use outgame_lobby_server.Effects.{returned}
use outgame_lobby_server.CircularBuffer.{write}
use outgame_lobby_server.CircularBuffer.Contents.{length-contents}
use outgame_lobby_server.Packet.{PacketInfo}
use outgame_lobby_server.ConnUser.{ConnUser, write_recv_data}
use outgame_lobby_server.ConnUsersManager.{find_user}
use outgame_lobby_server.Redis.World.{Environment, State}
use outgame_lobby_server.Redis.Users.{send_friend_status_to_user}
use outgame_lobby_server.Redis.Thread.{push_redis_packet, call_handler}
use outgame_lobby_server.Redis.Delivery.{IsInfoOf}
use outgame_lobby_server.Redis.Stream.{Parcel, stream, IsSized, Holds, Carries}
use outgame_lobby_server.Redis.Stream.Keeps.{Keeps}
use outgame_lobby_server.Redis.Stream.Handlers.{
  Keeps-call_handler, Keeps-send_friend_status_to_user,
}
use outgame_lobby_server.Redis.Stream.Steps.{
  push_redis_packet-Carries, take_packet-Carries, take_packet-nil, take_packet,
}

-- Each packet info is that of the packet in its place.
abbrev pub AreInfosOf : List Parcel → List PacketInfo → Type 0
AreInfosOf [] [] = Unit {0}
AreInfosOf [] (info ∷ infos) = ⊥
AreInfosOf (p ∷ ps) [] = ⊥
AreInfosOf ((num, bytes) ∷ ps) (info ∷ infos) = IsInfoOf num bytes info × AreInfosOf ps infos

AreInfosOf-snoc :
    (ps : List Parcel) (infos : List PacketInfo) (num : ℕ) (bytes : Bytes) (info : PacketInfo)
    → AreInfosOf ps infos
    → IsInfoOf num bytes info
    → AreInfosOf (ps ++ (num, bytes) ∷ []) (infos ++ info ∷ [])
AreInfosOf-snoc [] [] num bytes info h i = (i, tt)
AreInfosOf-snoc [] (x ∷ infos) num bytes info h i = absurd h
AreInfosOf-snoc (p ∷ ps) [] num bytes info h i = absurd h
AreInfosOf-snoc (p ∷ ps) (x ∷ infos) num bytes info h i =
    (h.0, AreInfosOf-snoc ps infos num bytes info h.1 i)

-- A ring that takes a packet has room for it.
write-room :
    (k : ℕ) (held bytes : Bytes) (u : ConnUser)
    → Holds k held u
    → (write_recv_data bytes (length bytes) u).0 ≡ true
    → length held + length bytes ≤ u.circular_buffer.buffer_size
unfolding write_recv_data write
write-room k held bytes u h done =
    ground (arith, h.valid.fits, h.valid.small, ap length h.full, length-contents u.circular_buffer)

module _ (env : Environment) where
  -- A state, the packets that were pushed so far, and the packet infos that the handlers were called on.
  pub record Line : Type 0 where
    pub state : State env
    pub pushed : List Parcel
    pub handed : List PacketInfo

  -- A push of 4 to 1024 bytes that the ring takes; a round that finds a packet; a round that finds none; a notification.
  -- Each of them ends normally.
  pub data Step (s t : Line) : Type 0 where
    push :
        (num : ℕ) (bytes : Bytes) (u : ConnUser) (v : State env)
        → find_user num s.state.manager ≡ some u
        → IsSized (num, bytes)
        → (write_recv_data bytes (length bytes) u).0 ≡ true
        → push_redis_packet env num (length bytes) bytes s.state ≡ returned tt v
        → t ≡ record s { state = v; pushed = s.pushed ++ (num, bytes) ∷ [] }
        → Step s t
    serve :
        (info : PacketInfo) (x v : State env)
        → take_packet env s.state ≡ returned (some info) x
        → call_handler env info x ≡ returned tt v
        → t ≡ record s { state = v; handed = s.handed ++ info ∷ [] }
        → Step s t
    idle :
        (v : State env)
        → take_packet env s.state ≡ returned none v
        → t ≡ record s { state = v }
        → Step s t
    notify :
        (target_pk friend_pk status : ℕ) (v : State env)
        → send_friend_status_to_user env target_pk friend_pk status s.state ≡ returned tt v
        → t ≡ record s { state = v }
        → Step s t

  pub data Reach (s : Line) : Line → Type 0 where
    here : Reach s s
    next : {t u : Line} → Reach s t → Step t u → Reach s u

  -- The packets that were pushed are those that were handed over, in order and byte for byte, and
  -- then those under way.
  pub record InOrder (s : Line) : Type 0 where
    pub served : List Parcel
    pub waiting : List Parcel
    pub split : s.pushed ≡ served ++ waiting
    pub infos : AreInfosOf served s.handed
    pub carries : Carries env waiting [] s.state

  Carries-returned :
      (ps : List Parcel) (v : State env) {r : _}
      → r ≡ returned tt v
      → Keeps env ps [] r
      → Carries env ps [] v
  Carries-returned ps v e k = rw e at k

  push-InOrder :
      (s : Line) (num : ℕ) (bytes : Bytes) (u : ConnUser) (v : State env)
      → InOrder s
      → find_user num s.state.manager ≡ some u
      → IsSized (num, bytes)
      → (write_recv_data bytes (length bytes) u).0 ≡ true
      → push_redis_packet env num (length bytes) bytes s.state ≡ returned tt v
      → InOrder (record s { state = v; pushed = s.pushed ++ (num, bytes) ∷ [] })
  push-InOrder s num bytes u v o found sized done ran =
      let held = o.carries.rings num u found in
      let (w, run, carries) =
        push_redis_packet-Carries env num bytes o.waiting u s.state o.carries found sized
          (write-room num (stream num o.waiting) bytes u held done) in
      let same : returned tt w ≡ returned tt v = sym run ∙ ran in
      let wv : w ≡ v = cc in
      record {
        served = o.served;
        waiting = o.waiting ++ (num, bytes) ∷ [];
        split = rw o.split (append_assoc o.served o.waiting _);
        infos = o.infos;
        carries = rw wv at carries;
      }

  serve-InOrder :
      (s : Line) (info : PacketInfo) (x v : State env)
      → InOrder s
      → take_packet env s.state ≡ returned (some info) x
      → call_handler env info x ≡ returned tt v
      → InOrder (record s { state = v; handed = s.handed ++ info ∷ [] })
  serve-InOrder s info x v o took ran = taken o.waiting o.split o.carries
    where
      taken :
          (waiting : List Parcel)
          → s.pushed ≡ o.served ++ waiting
          → Carries env waiting [] s.state
          → InOrder (record s { state = v; handed = s.handed ++ info ∷ [] })
      taken [] split c =
          let both : returned none s.state ≡ returned (some info) x =
            sym (take_packet-nil env s.state c) ∙ took in
          let impossible : ⊥ = cc in absurd impossible
      taken ((num, bytes) ∷ rest) split c =
          let (found, w, is, carries, run) = take_packet-Carries env num bytes rest [] s.state c in
          let both : returned (some found) w ≡ returned (some info) x = sym run ∙ took in
          let same : found ≡ info = cc in
          let wx : w ≡ x = cc in
          record {
            served = o.served ++ (num, bytes) ∷ [];
            waiting = rest;
            split = split ∙ sym (append_assoc o.served ((num, bytes) ∷ []) rest);
            infos = AreInfosOf-snoc o.served s.handed num bytes info o.infos (rw same at is);
            carries =
                Carries-returned rest v ran
                  (Keeps-call_handler env rest [] info x (rw wx at carries));
          }

  idle-InOrder :
      (s : Line) (v : State env)
      → InOrder s
      → take_packet env s.state ≡ returned none v
      → InOrder (record s { state = v })
  idle-InOrder s v o took = none_left o.waiting o.split o.carries
    where
      none_left :
          (waiting : List Parcel)
          → s.pushed ≡ o.served ++ waiting
          → Carries env waiting [] s.state
          → InOrder (record s { state = v })
      none_left [] split c =
          let both : returned none s.state ≡ returned none v =
            sym (take_packet-nil env s.state c) ∙ took in
          let same : s.state ≡ v = cc in
          record {
            served = o.served;
            waiting = [];
            split = split;
            infos = o.infos;
            carries = rw same at c;
          }
      none_left ((num, bytes) ∷ rest) split c =
          let (found, w, is, carries, run) = take_packet-Carries env num bytes rest [] s.state c in
          let both : returned (some found) w ≡ returned none v = sym run ∙ took in
          let impossible : ⊥ = cc in absurd impossible

  Step-InOrder : {s t : Line} → Step s t → InOrder s → InOrder t
  Step-InOrder {s} (push num bytes u v found sized done ran e) o =
      rw e (push-InOrder s num bytes u v o found sized done ran)
  Step-InOrder {s} (serve info x v took ran e) o = rw e (serve-InOrder s info x v o took ran)
  Step-InOrder {s} (idle v took e) o = rw e (idle-InOrder s v o took)
  Step-InOrder {s} (notify target_pk friend_pk status v ran e) o = rw e (record {
    served = o.served;
    waiting = o.waiting;
    split = o.split;
    infos = o.infos;
    carries = Carries-returned o.waiting v ran (
        Keeps-send_friend_status_to_user env o.waiting [] target_pk friend_pk status s.state
          o.carries);
  })

  keeps_order : {s t : Line} → Reach s t → InOrder s → InOrder t
  keeps_order here o = o
  keeps_order (next r step) o = Step-InOrder step (keeps_order r o)

  -- From a state with no packet under way, after any run of pushes of packets of 4 to 1024 bytes (a header at least, and
  -- at most what `readData` takes) that the rings take, of rounds of one
  -- `RedisThread` and of notifications, all of which end normally: the handlers were called on the first of
  -- the pushed packets, in the order of the pushes and with their bytes, ids, sizes and senders, and
  -- the rest of them is under way, in order.
  pub Reach-InOrder :
      (w : State env) {s : Line}
      → Carries env [] [] w
      → Reach (record { state = w; pushed = []; handed = [] }) s
      → InOrder s
  Reach-InOrder w c r =
      keeps_order r (record { served = []; waiting = []; split = refl; infos = tt; carries = c })
