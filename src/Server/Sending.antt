-- ===== src/Server/Sending.antt =====
-- server/src/Server.cpp, "sending": `Send`, `Broadcast`, `ServerChat`, `Kick`.
use f4mp.Base.{
  ℕ, Bool, true, false, not, ◌||◌, Option, none, some, List, [], ◌∷◌, ◌==◌, if◌then◌else◌, Bytes,
}
use f4mp.Types.{server_id}
use f4mp.Protocol.Messages.{
  Channel, reliable, unreliable, encode, id_chat_broadcast, write_chat_broadcast, id_reject,
  write_reject,
}
use f4mp.Server.State.{Player, Server, Env, peer_send, host_flush, peer_disconnect_later, effect}

abbrev pub is_reliable : Channel → Bool
is_reliable reliable = true
is_reliable unreliable = false

-- `player.get() == a_except`, where the exception is given by its peer.
abbrev pub is_except : Option ℕ → Player → Bool
is_except none p = false
is_except (some peer) p = p.peer == peer

module _ (env : Env) where
  unfoldable pub send : ℕ → Channel → Bytes → Server → Server
  send peer channel bytes s =
      if env.packet_create bytes (is_reliable channel)
      then effect (peer_send peer channel bytes) s
      else s

  unfoldable pub broadcast_to : Channel → Bytes → Option ℕ → List Player → Server → Server
  broadcast_to channel bytes except [] s = s
  broadcast_to channel bytes except (p ∷ ps) s =
      broadcast_to channel bytes except ps
        (if not p.handshaked || is_except except p then s else send p.peer channel bytes s)

  unfoldable pub broadcast : Channel → Bytes → Option ℕ → Server → Server
  broadcast channel bytes except s = broadcast_to channel bytes except s.players s

  unfoldable pub server_chat : Bytes → Server → Server
  server_chat text =
      broadcast reliable
        (encode id_chat_broadcast (write_chat_broadcast (record { from = server_id; text = text })))
        none

  unfoldable pub kick : Player → Bytes → Server → Server
  kick p reason s = effect (peer_disconnect_later p.peer) (
      effect host_flush
        (send p.peer reliable (encode id_reject (write_reject (record { reason = reason }))) s))
