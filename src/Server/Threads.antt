-- ===== src/Server/Threads.antt =====
-- The threads of OutGameLobbyServer.cpp: their creation, their loops as steps, and `ServerEnd`.
pub mod Ending
pub mod Joined
mod Tests
use outgame_lobby_server.Prelude.{
  ℕ, zero, suc, ◌+◌, ◌/◌, ◌≡◌, Bool, true, false, List, [], ◌∷◌, ◌++◌, some, get_elem?, set, length,
  if◌then◌else◌,
}

abbrev pub max_thread_count : ℕ
max_thread_count = 4

-- A thread of `WorkThread` stands at the test of its loop, waits for a completion, or handles one; a thread
-- of `AccepterThread` stands at the test of its loop, or is in its body. A thread that has left can be joined.
pub data Thread : Type 0 where
  testing waiting handling : Thread
  checking polling : Thread
  left : Thread

-- What stands in the completion port: the null completion of `ServerEnd`, or that of a socket call.
pub data Notice : Type 0 where
  null socket_call : Notice

-- `unposted` null completions are still to be posted by `ServerEnd`.
pub record Crew : Type 0 where
  pub work_threads : List Thread
  pub accept_threads : List Thread
  pub port : List Notice
  pub unposted : ℕ
  pub max_thread_cnt : ℕ
  pub work_run : Bool
  pub accepter_run : Bool

-- `n` rounds of `emplace_back`, given whether a thread can be created beside so many others;
-- a `std::system_error` ends the loop.
unfoldable pub spawn : (ℕ → Bool) → Thread → ℕ → List Thread → Bool × List Thread
spawn can_create thread zero ts = (true, ts)
spawn can_create thread (suc n) ts =
    let more = spawn can_create thread n (ts ++ thread ∷ []) in
    if can_create (length ts) then more else (false, ts)

unfoldable pub create_work_thread : (ℕ → Bool) → Crew → Bool × Crew
unfolding spawn
create_work_thread can_create c =
    let (done, ts) = spawn can_create testing c.max_thread_cnt c.work_threads in
    (done, record c { work_run = true; work_threads = ts })

-- The accepters go to `workThreads`, too.
unfoldable pub create_accepter_thread : (ℕ → Bool) → Crew → Bool × Crew
unfolding spawn
create_accepter_thread can_create c =
    let (done, ts) = spawn can_create checking (c.max_thread_cnt / 4 + 1) c.work_threads in
    (done, record c { accepter_run = true; work_threads = ts })

-- The start of `ServerEnd`: the flags are cleared, and a null completion is due for each of `workThreads`.
unfoldable pub server_end : Crew → Crew
server_end c = record c { work_run = false; accepter_run = false; unposted = length c.work_threads }

-- The step of a thread of `WorkThread` or `AccepterThread`. The body of a round returns.
pub data Move (c : Crew) : Thread → Thread → Crew → Type 0 where
  wait : c.work_run ≡ true → Move c testing waiting c
  leave : c.work_run ≡ false → Move c testing left c
  see_null :
      (rest : List Notice)
      → c.port ≡ null ∷ rest
      → Move c waiting testing (record c { work_run = false; port = rest })
  see_call :
      (rest : List Notice)
      → c.port ≡ socket_call ∷ rest
      → Move c waiting handling (record c { port = rest })
  handled : Move c handling testing c
  poll : c.accepter_run ≡ true → Move c checking polling c
  stop_polling : c.accepter_run ≡ false → Move c checking left c
  polled : Move c polling checking c

-- A step of the server: of one of its threads, or of `ServerEnd`, which posts a null completion.
pub data Step (c : Crew) : Crew → Type 0 where
  move :
      (i : ℕ) {p q : Thread} {d : Crew}
      → get_elem? c.work_threads i ≡ some p
      → Move c p q d
      → Step c (record d { work_threads = set d.work_threads i q })
  post :
      (n : ℕ) → c.unposted ≡ suc n → Step c (record c { unposted = n; port = c.port ++ null ∷ [] })

-- `Run c d n`: from `c` the server comes to `d` in `n` steps, while completions of socket calls arrive
-- at any time.
pub data Run (c : Crew) : Crew → ℕ → Type 0 where
  here : Run c c 0
  stepped : {d e : Crew} {n : ℕ} → Run c d n → Step d e → Run c e (suc n)
  arrived :
      {d : Crew} {n : ℕ} → Run c d n → Run c (record d { port = d.port ++ socket_call ∷ [] }) n
