-- ===== src/Tests/Visits.antt =====
-- A player that joins the server of server/src/Server.cpp, leaves and joins again.
use f4mp.Base.{
  true, ◌≡◌, Fresh, subst, refl, sym, ap, ap₂, arith, List, [], ◌∷◌, codes, Bytes, from_le, to_le,
}
use f4mp.Protocol.Messages.{encode, write_hello, checked, read_header, read_hello}
use f4mp.Server.Service.{
  Event, connected, received, disconnected, new_server, start, main_loop, before_stop, handle_event,
  handle_events, has_stop, one_pass, run_commands, service,
}
use f4mp.Server.State.{Server, default_config, find_peer, set_player, erase_peer}
use f4mp.Protocol.Names.{sanitize_name}
use f4mp.Server.Handlers.{handle_packet, dispatch, on_packet}
use f4mp.Packet.{get_str, get_u32, get_u8, max_string_bytes, put_str, put_u32, put_u8}
use f4mp.Server.Bots.{update_bots}
use f4mp.Server.Connections.{handle_connect, handle_disconnect, say_goodbye}
use f4mp.Server.Joining.{
  announce, handle_hello, introduce_bots, introduce_players, joined_player, on_hello, register,
  welcome,
}
use f4mp.Server.Sending.{broadcast, broadcast_to, send, server_chat}
use f4mp.Server.Ids.{player_ids, bot_ids}
use f4mp.Server.Invariant.Once.{IsGone, main_loop-IsGone}
use f4mp.Tests.World.{test_env, hello_packet}

abbrev visit : List (List Event × List Bytes)
visit = (connected 8 ∷ received 8 hello_packet ∷ disconnected 8 ∷ [], []) ∷ []

abbrev second_visit : List (List Event × List Bytes)
second_visit = (connected 8 ∷ received 8 hello_packet ∷ [], codes "bot add" ∷ []) ∷ []

abbrev left_server : Server
left_server = main_loop test_env visit (start true true (new_server default_config 5)).0

left_tables : (left_server.players ≡ []) × (left_server.bots ≡ []) × (left_server.next_id ≡ 2)
unfolding main_loop one_pass has_stop run_commands before_stop service start update_bots
    handle_events handle_event handle_connect find_peer handle_packet on_packet read_header get_u8
    encode write_hello put_str put_u32 put_u8 to_le max_string_bytes from_le dispatch handle_hello
    on_hello checked read_hello get_str get_u32 announce server_chat broadcast broadcast_to
    introduce_bots welcome send register introduce_players set_player joined_player sanitize_name
    handle_disconnect erase_peer say_goodbye
left_tables = (refl, refl, refl)

id_one-IsGone : IsGone 1 left_server
id_one-IsGone =
    let (players, bots, next) = left_tables in
    (omega (arith, next), subst (Fresh 1) (sym (ap₂ player_ids players (ap bot_ids bots))) tt)

main_loop-IsGone_example : IsGone 1 (main_loop test_env second_visit left_server)
main_loop-IsGone_example =
    main_loop-IsGone test_env default_config 5 visit second_visit left_server 1 (omega arith) refl
      id_one-IsGone
