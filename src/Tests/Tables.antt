-- ===== src/Tests/Tables.antt =====
-- Connections, handshakes and chats of server/src/Server.cpp on small servers.
use f4mp.Base.{ap, from_le, ◌≡◌, refl, none, some, List, [], ◌∷◌, ◌++◌, Bytes, codes, arith, true}
use f4mp.Packet.{get_u8}
use f4mp.Protocol.Messages.{reliable, read_header, HelloMsg, id_hello}
use f4mp.Server.State.{default_config, find_peer}
use f4mp.Server.Sending.{broadcast}
use f4mp.Server.Handlers.{handle_packet}
use f4mp.Server.Service.{Event, new_server, start, connected, received, disconnected, main_loop}
use f4mp.Server.Invariant.{IsConsistent}
use f4mp.Server.Invariant.Loop.{main_loop-new_server-IsConsistent}
use f4mp.Server.Handshake.{OnlyTo, IsGoodHello, handle_packet_before_hello}
use f4mp.Server.Recipients.{deliveries, sent-broadcast}
use f4mp.Tests.World.{test_env, guest, busy_server, hello_packet, chat_packet}

abbrev some_passes : List (List Event × List Bytes)
some_passes =
    (
      connected 7 ∷ received 7 hello_packet ∷ received 7 chat_packet ∷ [],
      codes "bot add orbit" ∷ codes "kick 1" ∷ [],
    )
    ∷ (disconnected 7 ∷ [], codes "stop" ∷ [])
    ∷ []

main_loop-new_server-IsConsistent_example :
    IsConsistent (main_loop test_env some_passes (start true true (new_server default_config 5)).0)
main_loop-new_server-IsConsistent_example =
    main_loop-new_server-IsConsistent test_env default_config 5 some_passes (omega arith)

guest_found : find_peer 7 busy_server.players ≡ some guest
unfolding find_peer
guest_found = refl

no_hello : (hello : HelloMsg) → ¬ IsGoodHello (3 ∷ 0 ∷ 0 ∷ []) hello
unfolding read_header get_u8 from_le
no_hello hello g =
    let e : 3 ≡ id_hello = ap (λ o. elim o [ none ↦ 0 | some n ↦ n ]) g.header in omega (arith, e)

handle_packet_before_hello_example :
    OnlyTo 7 busy_server (handle_packet test_env 7 (3 ∷ 0 ∷ 0 ∷ []) busy_server)
handle_packet_before_hello_example =
    handle_packet_before_hello test_env 7 (3 ∷ 0 ∷ 0 ∷ []) guest busy_server guest_found refl
      no_hello

sent-broadcast_example :
    (broadcast test_env reliable (1 ∷ []) (some 8) busy_server).sent
    ≡ busy_server.sent ++ deliveries test_env reliable (1 ∷ []) (some 8) busy_server.players
sent-broadcast_example = sent-broadcast test_env reliable (1 ∷ []) (some 8) busy_server
