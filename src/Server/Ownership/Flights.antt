-- ===== src/Server/Ownership/Flights.antt =====
-- The server together with the objects that the system works on.
use outgame_lobby_server.Prelude.{
  ℕ, ◌+◌, ◌≤◌, ◌≡◌, refl, List, [], ◌∷◌, ◌++◌, Option, none, some, Bytes, arith, ltb, if◌then◌else◌,
  true, false, Bool,
}
use outgame_lobby_server.Effects.{returned}
use outgame_lobby_server.Overlapped.{Overlapped}
use outgame_lobby_server.ConnUser.{ConnUser}
use outgame_lobby_server.ConnUsersManager.{find_user}
use outgame_lobby_server.Server.{Lobby, Completion, Answers, work_round, accepter_round}
use outgame_lobby_server.Server.Run.{after_message}
use outgame_lobby_server.Server.Ownership.{count, waits, asked, held}
use outgame_lobby_server.Server.Ownership.Counts.{count-append}
use outgame_lobby_server.Server.Ownership.Rounds.{
  Spends, nothing, one, Spends-work_round, Spends-accepter_round, Spends-after_message,
}

-- The server, and the objects with which the system has not finished.
pub record Traffic : Type 0 where
  pub lobby : Lobby
  pub in_flight : List Overlapped

-- The completions of an object, and that of `ServerEnd`.
abbrev pub finished : Bool → ℕ → Option Bytes → Overlapped → Completion
finished success io_size buffer o = record {
  success = success;
  io_size = io_size;
  overlapped = some (record o { wsa_buf = buffer });
}

abbrev pub posted : Completion
posted = record { success = true; io_size = 0; overlapped = none }

-- The system took up objects of the requests that came between two states, each at most as often as it was
-- requested; one whose request failed it need not take up.
abbrev pub IsTakenUp : Lobby → Lobby → List Overlapped → Type 0
IsTakenUp l m os = (n : ℕ) → count n os + asked n l.requests ≤ asked n m.requests

-- The system finishes with an object once, and its completion goes to a worker; `ServerEnd` posts a
-- completion without an object; an accepter makes a round; a handler pushes a message.
pub data Step (s t : Traffic) : Type 0 where
  completes :
      (a : Answers) (success : Bool) (io_size : ℕ) (buffer : Option Bytes)
      (before : List Overlapped) (o : Overlapped) (after os : List Overlapped) (l : Lobby)
      → s.in_flight ≡ before ++ o ∷ after
      → work_round a (finished success io_size buffer o) s.lobby ≡ returned tt l
      → IsTakenUp s.lobby l os
      → t ≡ record { lobby = l; in_flight = (before ++ after) ++ os }
      → Step s t
  stops :
      (a : Answers) (l : Lobby)
      → work_round a posted s.lobby ≡ returned tt l
      → t ≡ record s { lobby = l }
      → Step s t
  accepts :
      (answer : Bool) (os : List Overlapped) (l : Lobby)
      → accepter_round answer s.lobby ≡ returned tt l
      → IsTakenUp s.lobby l os
      → t ≡ record { lobby = l; in_flight = s.in_flight ++ os }
      → Step s t
  tells :
      (unset : Bytes) (size : ℕ) (msg : Bytes) (num : ℕ) (u : ConnUser) (os : List Overlapped)
      (l : Lobby)
      → find_user num s.lobby.manager ≡ some u
      → after_message unset size msg num u s.lobby ≡ returned tt l
      → IsTakenUp s.lobby l os
      → t ≡ record { lobby = l; in_flight = s.in_flight ++ os }
      → Step s t

pub data Reach (s : Traffic) : Traffic → Type 0 where
  here : Reach s s
  next : {t u : Traffic} → Reach s t → Step t u → Reach s u

-- Each object that `new` made is in one place at most, once: the pool, the queue of one connection, or in
-- flight; one that is not made yet is in none.
pub record HaveOneHolder (s : Traffic) : Type 0 where
  pub single :
      (n : ℕ)
      → count n s.lobby.pool.ov_lap_pool + waits n s.lobby.manager.conn_users + count n s.in_flight
        ≤ (if ltb n s.lobby.pool.allocated then 1 else 0)

abbrev pub Once : Traffic → Type 0
Once s = (n : ℕ) → held n s.lobby + count n s.in_flight ≤ 1

HaveOneHolder-Once : (s : Traffic) → HaveOneHolder s → Once s
HaveOneHolder-Once s v n = ground (arith, v.single n)

pub Once-HaveOneHolder : (s : Traffic) → Once s → HaveOneHolder s
Once-HaveOneHolder s h = record { single = λ n. ground (arith, h n) }

-- A completed object is in flight no more.
count-completed :
    (n : ℕ) (before after : List Overlapped) (o : Overlapped)
    → count n (before ++ o ∷ after) ≡ count n (before ++ after) + count n (o ∷ [])
count-completed n before after o =
    omega (arith, count-append n before (o ∷ after), count-append n before after)

Step-Once : {s t : Traffic} → Step s t → Once s → Once t
unfolding work_round
Step-Once {s} (completes a success io_size buffer before o after os l flying ran taken e) h =
    let spends : Spends (one o) s.lobby (returned tt l) = rw ran at (
      Spends-work_round a (finished success io_size buffer o) (record o { wsa_buf = buffer })
        s.lobby refl) in
    rw e (λ n. omega (
      arith,
      rw flying at (h n),
      spends n,
      taken n,
      count-completed n before after o,
      count-append n (before ++ after) os,
    ))
Step-Once {s} (stops a l ran e) h =
    let same : returned tt (record s.lobby { work_run = false }) ≡ returned tt l = ran in
    let sl : record s.lobby { work_run = false } ≡ l = cc in rw (e, ← sl) (λ n. h n)
Step-Once {s} (accepts answer os l ran taken e) h =
    let spends : Spends nothing s.lobby (returned tt l) =
      rw ran at (Spends-accepter_round answer s.lobby) in
    rw e (λ n. omega (arith, h n, spends n, taken n, count-append n s.in_flight os))
Step-Once {s} (tells unset size msg num u os l found ran taken e) h =
    let spends : Spends nothing s.lobby (returned tt l) =
      rw ran at (Spends-after_message unset size msg num u s.lobby found) in
    rw e (λ n. omega (arith, h n, spends n, taken n, count-append n s.in_flight os))

Reach-Once : {s t : Traffic} → Reach s t → Once s → Once t
Reach-Once here h = h
Reach-Once (next r step) h = Step-Once step (Reach-Once r h)

-- From a server on which no object that `new` made is in two places, or twice in one: whatever the
-- threads do, in whatever order, while the system finishes with an object once each time that it took it up,
-- no such object is ever in two places or twice in one, of the pool, the queues of the connections
-- and the objects in flight.
pub Reach-HaveOneHolder : {s t : Traffic} → Reach s t → HaveOneHolder s → HaveOneHolder t
Reach-HaveOneHolder {s} {t} r v = Once-HaveOneHolder t (Reach-Once r (HaveOneHolder-Once s v))
