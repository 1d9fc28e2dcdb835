-- ===== src/Overlapped/Tests.antt =====
-- The pool at a concrete state.
use outgame_lobby_server.Prelude.{◌≡◌, [], length}
use outgame_lobby_server.Overlapped.{OverLappedManager, init}
use outgame_lobby_server.Overlapped.Pool.{IsClean, init_lem}

abbrev empty_pool : OverLappedManager
empty_pool = record { ov_lap_pool = []; allocated = 0 }

init_lem_example : IsClean (init empty_pool) × (length (init empty_pool).ov_lap_pool ≡ 300)
init_lem_example = init_lem empty_pool tt
