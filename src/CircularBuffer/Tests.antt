-- ===== src/CircularBuffer/Tests.antt =====
-- The ring at concrete inputs.
use outgame_lobby_server.Prelude.{◌≡◌, refl, List, [], ◌∷◌, true, false, memcpy, arith}
use outgame_lobby_server.CircularBuffer.{CircularBuffer, copy_in, copy_out, write, read}
use outgame_lobby_server.CircularBuffer.Invariant.{IsValid, write-IsValid, read-IsValid}
use outgame_lobby_server.CircularBuffer.Contents.{contents}
use outgame_lobby_server.CircularBuffer.Queue.{
  push, pop, Op, puts, gets, run, run_queue, write_refines, read_refines, run_refines,
}

-- 8, then 9, round the end of the storage.
abbrev wrapped : CircularBuffer
wrapped = record {
  buffer = 9 ∷ 6 ∷ 7 ∷ 8 ∷ [];
  buffer_size = 4;
  write_pos = 1;
  read_pos = 3;
  current_size = 2;
}

abbrev script : List Op
script = puts (1 ∷ 2 ∷ []) ∷ puts (3 ∷ []) ∷ gets 3 ∷ gets 2 ∷ gets 1 ∷ []

run-wrapped :
    run wrapped script
    ≡ (true, []) ∷ (false, []) ∷ (true, 8 ∷ 9 ∷ 1 ∷ []) ∷ (false, 0 ∷ 0 ∷ []) ∷ (true, 2 ∷ []) ∷ []
unfolding run write read copy_in copy_out memcpy
run-wrapped = refl

wrapped-IsValid : IsValid wrapped
wrapped-IsValid = omega arith

write-IsValid_example : IsValid (write wrapped (1 ∷ 2 ∷ []) 2).1
write-IsValid_example = write-IsValid (1 ∷ 2 ∷ []) 2 wrapped-IsValid (omega arith)

read-IsValid_example : IsValid (read wrapped (0 ∷ 0 ∷ []) 2).2
read-IsValid_example = read-IsValid (0 ∷ 0 ∷ []) 2 wrapped-IsValid

write_refines_example :
    let (done, c) = write wrapped (1 ∷ 2 ∷ []) 2 in
    (done, contents c) ≡ push 4 (8 ∷ 9 ∷ []) (1 ∷ 2 ∷ []) 2
write_refines_example = write_refines (1 ∷ 2 ∷ []) 2 wrapped-IsValid (omega arith) (omega arith)

read_refines_example :
    let (done, out, c) = read wrapped (0 ∷ 0 ∷ []) 1 in
    (done, out, contents c) ≡ pop (8 ∷ 9 ∷ []) (0 ∷ 0 ∷ []) 1
read_refines_example = read_refines (0 ∷ 0 ∷ []) 1 wrapped-IsValid (omega arith)

run_refines_example : run wrapped script ≡ run_queue 4 (8 ∷ 9 ∷ []) script
run_refines_example = run_refines script wrapped-IsValid (omega arith)
