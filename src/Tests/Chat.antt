-- ===== src/Tests/Chat.antt =====
-- Lines of chat on a small server.
use f4mp.Base.{
  ℕ, zero, suc, ◌+◌, ◌≡◌, refl, some, List, [], ◌∷◌, ◌++◌, map, Bytes, codes, arith, inr, ltb,
  if◌then◌else◌, Distinct, All,
}
use f4mp.Packet.{max_string_bytes}
use f4mp.Protocol.Messages.{encode, ChatMsg, max_chat_bytes}
use f4mp.Protocol.Layout.Kinds.{Kind, id_of, write_of, FitsKind}
use f4mp.Protocol.Layout.RoundTrip.{receive-encode}
use f4mp.Server.State.{Env, find_peer}
use f4mp.Server.Ids.{peers}
use f4mp.Server.ChatText.{Relays, handle_packet-Relays}
use f4mp.Server.Flood.Packets.{packets_to}
use f4mp.Server.Flood.Edge.{IsLinePacket, packets_to-handle_events_at_edge}
use f4mp.Server.Handlers.{handle_packet}
use f4mp.Server.Service.{received, handle_events}
use f4mp.Tests.World.{test_env, nora, preston, busy_server}

abbrev hi : ChatMsg
hi = record { text = codes "hi" }

abbrev hi_packet : Bytes
hi_packet = encode (id_of Kind.chat) (write_of Kind.chat hi) ++ []

hi_fits : FitsKind Kind.chat hi
unfolding max_string_bytes
hi_fits = record { text_fits = omega arith }

hi-IsLinePacket : IsLinePacket hi_packet
unfolding max_chat_bytes
hi-IsLinePacket =
    let got = receive-encode Kind.chat hi [] hi_fits in
    record {
      message = hi;
      header = got.0;
      read = got.1;
      full = refl;
      line = record {
        short = omega arith;
        printable = ((omega arith, λ e. omega arith), ((omega arith, λ e. omega arith), tt));
      };
    }

preston_here : find_peer 9 busy_server.players ≡ some preston
unfolding find_peer
preston_here = refl

nora_here : find_peer 8 busy_server.players ≡ some nora
unfolding find_peer
nora_here = refl

busy_peers : Distinct (peers busy_server.players)
busy_peers = ((omega arith, (omega arith, tt)), ((omega arith, tt), (tt, tt)))

handle_packet-Relays_example :
    Relays test_env preston
      (codes "hi")
      busy_server
      (handle_packet test_env 9 hi_packet busy_server)
handle_packet-Relays_example =
    handle_packet-Relays test_env 9 hi_packet preston hi busy_server preston_here refl
      (receive-encode Kind.chat hi [] hi_fits).0 (receive-encode Kind.chat hi [] hi_fits).1
      (inr (omega arith))

abbrev three : List Bytes
three = hi_packet ∷ hi_packet ∷ hi_packet ∷ []

-- The first five readings are the last nanosecond of Preston's window, and then comes the next one.
abbrev edge_env : Env
edge_env = record test_env { clock = λ n. if ltb n 5 then 24_999_999_999 else 25_000_000_000 }

abbrev copies : ℕ → List Bytes
copies zero = []
copies (suc n) = hi_packet ∷ copies n

abbrev eleven : List Bytes
eleven = copies 11

copies-IsLinePacket : (n : ℕ) → All IsLinePacket (copies n)
copies-IsLinePacket zero = tt
copies-IsLinePacket (suc n) = (hi-IsLinePacket, copies-IsLinePacket n)

packets_to-handle_events_at_edge_example :
    packets_to 8 (handle_events edge_env (map (received 9) eleven) busy_server).sent
    ≡ packets_to 8 busy_server.sent + 11
packets_to-handle_events_at_edge_example =
    packets_to-handle_events_at_edge edge_env 9 8 eleven preston nora busy_server (omega arith)
      (λ bytes. refl) preston_here refl nora_here refl busy_peers refl refl (copies-IsLinePacket 11)
      refl
