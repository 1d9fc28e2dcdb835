-- ===== src/Server/Boot/Tests.antt =====
-- Starts of a concrete server.
use outgame_lobby_server.Prelude.{◌≡◌, refl, true, false, [], ◌∷◌, codes}
use outgame_lobby_server.Server.Channels.{
  access, entry, channel, get_server_name, lobby_server01, server_names_map,
}
use outgame_lobby_server.Server.Boot.{
  end_server, close_handle, close_socket, wsa_cleanup, Machine, wsa_startup, wsa_socket, bind,
  listen, init,
}
use outgame_lobby_server.Server.Boot.Order.{after, fresh, Comes, init-Comes}

-- The port is taken, so `listen` fails.
abbrev port_taken : Machine
port_taken = record {
  starts = true;
  has_socket = true;
  binds = true;
  listens = false;
  has_port = true;
  associates = true;
  redis_connected = true;
  mysql_ready = true;
}

calls_test :
    (after (init port_taken (fresh 1))).calls ≡ wsa_startup ∷ wsa_socket ∷ bind 9001 ∷ listen ∷ []
unfolding init
calls_test = refl

-- A server that has ended after this start.
ended_test :
    (end_server (after (init port_taken (fresh 1)))).calls
    ≡ wsa_startup ∷ wsa_socket ∷ bind 9001 ∷ listen ∷ close_handle ∷ close_socket ∷ wsa_cleanup ∷ []
unfolding init end_server
ended_test = refl

channel_test : channel lobby_server01 server_names_map ≡ codes "LobbyServer01:events"
unfolding channel get_server_name access entry
channel_test = refl

-- The channel of a server type that is none of the three.
unknown_test : channel 7 server_names_map ≡ codes ":events"
unfolding channel get_server_name access entry
unknown_test = refl

init-Comes_example : Comes port_taken (init port_taken (fresh 1))
init-Comes_example = init-Comes port_taken 1
