-- ===== src/Tests/Doors.antt =====
-- A client that joins a small server, and one that leaves it.
use f4mp.Base.{List, ◌≡◌, ◌++◌, ◌∷◌, refl, some, [], codes, arith, Bytes, true}
use f4mp.Packet.{max_string_bytes}
use f4mp.Protocol.Messages.{encode, HelloMsg, protocol_version}
use f4mp.Protocol.Layout.Kinds.{Kind, id_of, write_of, FitsKind}
use f4mp.Protocol.Layout.RoundTrip.{receive-encode}
use f4mp.Server.State.{default_config, find_peer}
use f4mp.Server.Handlers.{handle_packet}
use f4mp.Server.Connections.{handle_disconnect}
use f4mp.Server.Handshake.{IsGoodHello}
use f4mp.Server.Joined.{Joins, handle_packet-Joins}
use f4mp.Server.Leaving.{Leaves, handle_disconnect-Leaves}
use f4mp.Server.Invariant.{IsConsistent}
use f4mp.Server.Everyone.{Everyone}
use f4mp.Server.Plausible.{HasFinite, main_loop-AllFinite}
use f4mp.Server.Service.{Event, connected, received, disconnected, new_server, start, main_loop}
use f4mp.Tests.World.{test_env, guest, busy_server}

abbrev pub piper : HelloMsg
piper = record { protocol_version = protocol_version; game_version = 10; name = codes " Piper" }

abbrev pub piper_packet : Bytes
piper_packet = encode (id_of Kind.hello) (write_of Kind.hello piper) ++ []

piper_fits : FitsKind Kind.hello piper
unfolding max_string_bytes
piper_fits = record {
  protocol_version_fits = omega arith;
  game_version_fits = omega arith;
  name_fits = omega arith;
}

pub piper_good : IsGoodHello piper_packet piper
piper_good =
    let got = receive-encode Kind.hello piper [] piper_fits in
    record { header = got.0; read = got.1; version = refl }

guest_here : find_peer 7 busy_server.players ≡ some guest
unfolding find_peer
guest_here = refl

handle_packet-Joins_example :
    Joins 7 guest piper busy_server (handle_packet test_env 7 piper_packet busy_server)
handle_packet-Joins_example =
    handle_packet-Joins test_env 7 piper_packet guest piper busy_server guest_here refl piper_good

busy_server-IsConsistent : IsConsistent busy_server
busy_server-IsConsistent = record {
  peers_distinct = ((omega arith, (omega arith, tt)), ((omega arith, tt), (tt, tt)));
  ids_distinct = ((omega arith, tt), (tt, tt));
  ids_in_range = ((omega arith, omega arith), ((omega arith, omega arith), tt));
  counter = omega arith;
}

handle_disconnect-Leaves_example : Leaves 8 busy_server (handle_disconnect test_env 8 busy_server)
handle_disconnect-Leaves_example =
    handle_disconnect-Leaves test_env 8 busy_server busy_server-IsConsistent

abbrev some_passes : List (List Event × List Bytes)
some_passes =
    (
      connected 7 ∷ received 7 piper_packet ∷ disconnected 7 ∷ [],
      codes "bot add" ∷ codes "say hello" ∷ [],
    )
    ∷ []

main_loop-AllFinite_example :
    Everyone HasFinite
      (main_loop test_env some_passes (start true true (new_server default_config 5)).0)
main_loop-AllFinite_example = main_loop-AllFinite test_env default_config 5 some_passes
