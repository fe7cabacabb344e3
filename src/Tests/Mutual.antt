-- ===== src/Tests/Mutual.antt =====
-- A server with one player, a newcomer, and their sessions.
use f4mp.Base.{true, ◌≡◌, refl, sym, ap, arith, some, List, [], ◌∷◌, codes, Bytes, from_le, to_le}
use f4mp.Protocol.Messages.{encode, write_hello, checked, read_header, read_hello}
use f4mp.Server.Service.{
  Event, connected, received, new_server, start, main_loop, before_stop, handle_event,
  handle_events, has_stop, one_pass, run_commands, service,
}
use f4mp.Server.State.{Player, new_player, Server, default_config, find_peer, set_player}
use f4mp.Protocol.Names.{sanitize_name}
use f4mp.Server.Handlers.{handle_packet, dispatch, on_packet}
use f4mp.Client.Session.{Link}
use f4mp.Roster.Mutual.{Mutual, handle_packet-Mutual}
use f4mp.Tests.Doors.{piper, piper_packet, piper_good}
use f4mp.Tests.Plugin.{waiting}
use f4mp.Tests.Sessions.{a_moment, a_session}
use f4mp.Packet.{get_str, get_u32, get_u8, max_string_bytes, put_str, put_u32, put_u8}
use f4mp.Server.Bots.{update_bots}
use f4mp.Server.Connections.{handle_connect}
use f4mp.Server.Joining.{
  announce, handle_hello, introduce_bots, introduce_players, joined_player, on_hello, register,
  welcome,
}
use f4mp.Server.Sending.{broadcast, broadcast_to, send, server_chat}
use f4mp.Tests.World.{test_env, hello_packet}

abbrev one_pass_of_events : List (List Event × List Bytes)
one_pass_of_events = (connected 8 ∷ received 8 hello_packet ∷ connected 7 ∷ [], []) ∷ []

abbrev crowd : Server
crowd = main_loop test_env one_pass_of_events (start true true (new_server default_config 5)).0

abbrev newcomer : Player
newcomer = new_player 7 20_001_000_000

abbrev resident : Player
resident = record (new_player 8 20_000_000_000) {
  id = 1;
  name = codes "Piper";
  game_version = 10;
  handshaked = true;
}

crowd_tables : (crowd.players ≡ resident ∷ newcomer ∷ []) × (crowd.next_id ≡ 2)
unfolding main_loop one_pass has_stop run_commands before_stop service start update_bots
    handle_events handle_event handle_connect find_peer handle_packet on_packet read_header get_u8
    encode write_hello put_str put_u32 put_u8 to_le max_string_bytes from_le dispatch handle_hello
    on_hello checked read_hello get_str get_u32 announce server_chat broadcast broadcast_to
    introduce_bots welcome send register introduce_players set_player joined_player sanitize_name
crowd_tables = (refl, refl)

newcomer_here : find_peer 7 crowd.players ≡ some newcomer
unfolding find_peer
newcomer_here = ap (find_peer 7) crowd_tables.0

resident_here : find_peer 8 crowd.players ≡ some resident
unfolding find_peer
resident_here = ap (find_peer 8) crowd_tables.0

-- The session of the newcomer, and that of the resident.
abbrev newcomers_link : Link
newcomers_link = (waiting, record a_session { my_id = 2 })

abbrev residents_link : Link
residents_link = (waiting, record a_session { my_id = 1 })

handle_packet-Mutual_example :
    Mutual newcomer resident crowd.next_id
      (sanitize_name piper.name)
      a_moment
      newcomers_link
      residents_link
      (handle_packet test_env 7 piper_packet crowd)
handle_packet-Mutual_example =
    handle_packet-Mutual test_env default_config 5 one_pass_of_events crowd a_moment newcomer
      resident piper piper_packet newcomers_link residents_link (λ b. refl) (omega arith) refl
      newcomer_here refl piper_good resident_here refl (sym crowd_tables.1) refl
