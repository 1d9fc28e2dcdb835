-- ===== src/Server/Threads/Tests.antt =====
-- The threads of a small server.
use outgame_lobby_server.Prelude.{◌*◌, ◌≤◌, ◌≡◌, ◌⊎◌, refl, true, false, [], ◌∷◌, ltb, All}
use outgame_lobby_server.Server.Threads.{
  Crew, testing, waiting, checking, polling, left, null, socket_call, create_work_thread,
  create_accepter_thread, max_thread_count, spawn, server_end, Step, here, stepped, post,
}
use outgame_lobby_server.Server.Threads.Joined.{server_end-terminates}

abbrev empty_crew : Crew
empty_crew = record {
  work_threads = [];
  accept_threads = [];
  port = [];
  unposted = 0;
  max_thread_cnt = max_thread_count;
  work_run = false;
  accepter_run = false;
}

created_test :
    (create_accepter_thread
      (λ n. true)
      (create_work_thread (λ n. true) empty_crew).1).1.work_threads
    ≡ testing ∷ testing ∷ testing ∷ testing ∷ checking ∷ checking ∷ []
unfolding create_work_thread create_accepter_thread spawn
created_test = refl

refused_test :
    create_work_thread (λ n. ltb n 2) empty_crew
    ≡ (false, record empty_crew { work_threads = testing ∷ testing ∷ []; work_run = true })
unfolding create_work_thread spawn
refused_test = refl

abbrev crew : Crew
crew = record empty_crew {
  work_threads = waiting ∷ polling ∷ [];
  port = socket_call ∷ [];
  work_run = true;
  accepter_run = true;
}

-- `ServerEnd` has posted one of two completions.
abbrev posted : Crew
posted = record crew {
  port = socket_call ∷ null ∷ [];
  unposted = 1;
  work_run = false;
  accepter_run = false;
}

server_end-terminates_example :
    (1 ≤ 4 * 2)
    × ((All (λ t. t ≡ left) posted.work_threads × (posted.unposted ≡ 0))
        ⊎ ((d : Crew) × Step posted d))
unfolding server_end
server_end-terminates_example = server_end-terminates crew (stepped here (post 1 refl))
