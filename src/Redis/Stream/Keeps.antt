-- ===== src/Redis/Stream/Keeps.antt =====
-- `UserConnect` and the packets that are under way.
use outgame_lobby_server.Prelude.{
  ℕ, ◌≡◌, refl, ap, sym, ◌∙◌, List, [], ◌∷◌, some, Bytes, Option-cases, Bool-cases, inl, inr,
  All-mono, length, ◌==◌,
}
use mathlib.Core.Path.{subst}
use outgame_lobby_server.Effects.{Outcome, returned, raised, fault, blocked, and_then, M, ◌>>=◌}
use outgame_lobby_server.Overlapped.{Overlapped}
use outgame_lobby_server.CircularBuffer.{CircularBuffer}
use outgame_lobby_server.CircularBuffer.Invariant.{IsValid}
use outgame_lobby_server.CircularBuffer.Contents.{contents}
use outgame_lobby_server.Packet.{DataPacket}
use outgame_lobby_server.ConnUser.{
  ConnUser, push_send_msg, enqueue, send_if_single, proc_send, send_front,
}
use outgame_lobby_server.ConnUsersManager.{find_user, insert_user}
use outgame_lobby_server.Mysql.{MySqlManager}
use outgame_lobby_server.Redis.Client.{Reply, answered, failed}
use outgame_lobby_server.Redis.World.{
  Environment, State, Server, ask, settle, on_sql, user_at, reach, put_user, send_from, push_to,
}
use outgame_lobby_server.Redis.Users.{change_user}
use outgame_lobby_server.Redis.Stream.{Parcel, stream, Holds, Carries}
use outgame_lobby_server.Redis.Stream.Steps.{find_user-changed, find_user-present}

-- What a packet on its way needs of a connection object.
abbrev pub inbox : ConnUser → CircularBuffer × Bytes × ℕ
inbox u = (u.circular_buffer, u.read_data, u.conn_obj_num)

send_front-inbox : (q : List Overlapped) (u : ConnUser) → inbox (send_front q u).0 ≡ inbox u
unfolding send_front
send_front-inbox [] u = refl
send_front-inbox (o ∷ q) u = refl

send_if_single-inbox : (u : ConnUser) → inbox (send_if_single u).0 ≡ inbox u
unfolding send_if_single proc_send
send_if_single-inbox u = elim (Bool-cases (u.send_queue_size == 1)) [
  | inl e ↦ rw e (send_front-inbox u.send_queue u)
  | inr e ↦ rw e refl
]

pub Holds-inbox :
    (k : ℕ) (bytes : Bytes) (u v : ConnUser) → inbox v ≡ inbox u → Holds k bytes u → Holds k bytes v
Holds-inbox k bytes u v e h =
    let ring : v.circular_buffer ≡ u.circular_buffer = ap (λ x. x.0) e in
    record {
      valid = subst IsValid (sym ring) h.valid;
      full = ap contents ring ∙ h.full;
      own = ap (λ x. x.2) e ∙ h.own;
      room = ap (λ x. length x.1) e ∙ h.room;
    }

module _ (env : Environment) (ps : List Parcel) (ds : List DataPacket) where
  -- Where a run ended, returned or thrown, the packets `ps` are under way.
  abbrev pub Keeps : {A : Type 0} → Outcome (State env) A → Type 0
  Keeps (returned a w) = Carries env ps ds w
  Keeps (raised e w) = Carries env ps ds w
  Keeps fault = Unit {0}
  Keeps blocked = Unit {0}

  pub Keeps-bind :
      {A B : Type 0} (r : Outcome (State env) A) (f : A → Server env B)
      → Keeps r
      → ((a : A) (w : State env) → Carries env ps ds w → Keeps (f a w))
      → Keeps (and_then r f)
  Keeps-bind (returned a w) f c g = g a w c
  Keeps-bind (raised e w) f c g = c
  Keeps-bind fault f c g = tt
  Keeps-bind blocked f c g = tt

  -- Packets depend on the connection objects and on the queue only.
  pub Carries-same :
      (w v : State env)
      → Carries env ps ds w
      → v.manager ≡ w.manager
      → v.proc_skt_queue ≡ w.proc_skt_queue
      → Carries env ps ds v
  Carries-same w v c m q = record {
    queue = q ∙ c.queue;
    rings = λ k u e. c.rings k u (ap (find_user k) (sym m) ∙ e);
    sized = c.sized;
    present = All-mono (λ p h. (h.0, ap (find_user p.0) m ∙ h.1)) ps c.present;
  }

  -- A change of an object that leaves its inbox alone.
  Carries-put :
      (num : ℕ) (u v : ConnUser) (w x : State env)
      → Carries env ps ds w
      → find_user num w.manager ≡ some u
      → inbox v ≡ inbox u
      → x.manager ≡ insert_user num v w.manager
      → x.proc_skt_queue ≡ w.proc_skt_queue
      → Carries env ps ds x
  Carries-put num u v w x c found e m q = record {
    queue = q ∙ c.queue;
    rings = λ k y f.
        elim (find_user-changed num k u v y w.manager found (ap (find_user k) (sym m) ∙ f)) [
          | inl (same, r) ↦
              let holds : Holds num (stream num ps) v =
                Holds-inbox num (stream num ps) u v e (c.rings num u found) in
              subst (λ z. Holds k (stream k ps) z) r
                (subst (λ j. Holds j (stream j ps) v) same holds)
          | inr (ne, f') ↦ c.rings k y f'
        ];
    sized = c.sized;
    present =
        All-mono
          (λ p h.
            let there = find_user-present num p.0 u v w.manager found h in
            (there.0, ap (find_user p.0) m ∙ there.1))
          ps c.present;
  }

  -- A call through the object `num`.
  Keeps-user :
      {B : Type 0} (num : ℕ) (f : ConnUser → Server env B) (w : State env)
      → ((u : ConnUser) → find_user num w.manager ≡ some u → Keeps (f u w))
      → Keeps ((user_at env num >>= f) w)
  unfolding user_at reach
  Keeps-user num f w h = elim (Option-cases (find_user num w.manager)) [
    | inl e ↦ rw e tt
    | inr (u, e) ↦ rw e (h u e)
  ]

  Keeps-settle :
      {A : Type 0} (r : Reply A) (w : State env) → Carries env ps ds w → Keeps (settle env r w)
  unfolding settle
  Keeps-settle (answered a) w c = c
  Keeps-settle failed w c = c

  pub Keeps-ask :
      {A : Type 0} (command : env.redis.Store → Reply A × env.redis.Store) (w : State env)
      → Carries env ps ds w
      → Keeps (ask env command w)
  unfolding ask
  Keeps-ask command w c =
      Keeps-settle (command w.store).0 (record w { store = (command w.store).1 })
        (Carries-same w _ c refl refl)

  pub Keeps-on_sql :
      {A : Type 0} (m : M (MySqlManager env.mysql.Db) A) (w : State env)
      → Carries env ps ds w
      → Keeps (on_sql env m w)
  Keeps-on_sql {A = A} m w c = settled (m w.sql) refl
    where
      settled : (r : Outcome (MySqlManager env.mysql.Db) A) → m w.sql ≡ r → Keeps (on_sql env m w)
      settled (returned a sql) e = rw e (Carries-same w _ c refl refl)
      settled (raised x sql) e = rw e (Carries-same w _ c refl refl)
      settled fault e = rw e tt
      settled blocked e = rw e tt

  pub Keeps-change_user :
      (num : ℕ) (change : ConnUser → ConnUser) (w : State env)
      → ((u : ConnUser) → inbox (change u) ≡ inbox u)
      → Carries env ps ds w
      → Keeps (change_user env num change w)
  unfolding change_user put_user
  Keeps-change_user num change w same c =
      Keeps-user num (λ u. put_user env num (change u)) w
        λ u found. Carries-put num u (change u) w _ c found (same u) refl refl

  pub Keeps-push_to :
      (num size : ℕ) (text : Bytes) (w : State env)
      → Carries env ps ds w
      → Keeps (push_to env num size text w)
  unfolding push_to send_from push_send_msg enqueue
  Keeps-push_to num size text w c =
      Keeps-user num (send_from env num size text) w
        λ u found. Carries-put num u _ w _ c found (send_if_single-inbox _) refl refl
