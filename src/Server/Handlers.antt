-- ===== src/Server/Handlers.antt =====
-- server/src/Server.cpp: `HandlePlayerState`, `HandleSetName` and `HandlePacket`.
use f4mp.Base.{
  ℕ, ◌/◌, ◌%◌, ◌^◌, Bool, true, not, ◌&&◌, Option, none, some, ◌==◌, if◌then◌else◌, bytes_eq, Bytes,
  codes,
}
use f4mp.Types.{Vec3, PlayerState}
use f4mp.Packet.{Reader, new_reader}
use f4mp.Protocol.Messages.{
  reliable, unreliable, encode, read_header, checked, PlayerStateMsg, read_player_state_msg,
  SetNameMsg, read_set_name, id_hello, id_player_state, id_chat, id_set_name,
  id_player_state_update, write_player_state_update, id_player_renamed, write_player_renamed,
}
use f4mp.Protocol.Names.{sanitize_name}
use f4mp.Server.State.{Player, Server, Env, tick_clock, now_ms, find_peer, put_player}
use f4mp.Server.Sending.{broadcast, kick}
use f4mp.Server.Joining.{handle_hello}
use f4mp.Server.Chatting.{handle_chat}

-- `std::isfinite` of a binary32 pattern: the exponent is not all ones.
abbrev is_finite : ℕ → Bool
is_finite w = not ((w / 2 ^ 23) % 256 == 255)

finite : Vec3 → Bool
finite v = is_finite v.x && is_finite v.y && is_finite v.z

unfoldable pub plausible : PlayerState → Bool
unfolding finite
plausible s = finite s.position && is_finite s.yaw && is_finite s.health && is_finite s.max_health

module _ (env : Env) where
  unfoldable pub on_player_state : Player → Option PlayerStateMsg → Server → Server
  on_player_state p none s = s
  on_player_state p (some msg) s =
      if not (plausible msg.state)
      then s
      else let known = put_player (record p { state = msg.state; has_state = true }) s in
        broadcast env unreliable
          (encode id_player_state_update (
            write_player_state_update
              (record { id = p.id; time_ms = now_ms env known; state = msg.state })))
          (some p.peer) (tick_clock known)

  unfoldable pub handle_player_state : Player → Reader → Server → Server
  handle_player_state p r s = on_player_state p (checked read_player_state_msg r).0 s

  unfoldable pub on_set_name : Player → Option SetNameMsg → Server → Server
  on_set_name p none s = s
  on_set_name p (some msg) s =
      let name = sanitize_name msg.name in
      if bytes_eq name p.name
      then s
      else broadcast env reliable
          (encode id_player_renamed (write_player_renamed (record { id = p.id; name = name }))) none
          (put_player (record p { name = name }) s)

  unfoldable pub handle_set_name : Player → Reader → Server → Server
  handle_set_name p r s = on_set_name p (checked read_set_name r).0 s

  -- `switch (id)` of `HandlePacket`; an unknown id is only logged.
  unfoldable pub dispatch : ℕ → Player → Reader → Server → Server
  dispatch id p r s =
      if id == id_hello
      then handle_hello env p r s
      else if id == id_player_state
      then handle_player_state p r s
      else if id == id_chat
      then handle_chat env p r s
      else if id == id_set_name
      then handle_set_name p r s
      else s

  unfoldable pub on_packet : Player → Option ℕ → Reader → Server → Server
  on_packet p none r s = s
  on_packet p (some id) r s =
      if not p.handshaked && not (id == id_hello)
      then kick env p (codes "Expected handshake") s
      else dispatch id p r s

  unfoldable pub handle_packet : ℕ → Bytes → Server → Server
  handle_packet peer bytes s = elim (find_peer peer s.players) [
    | none ↦ s
    | some p ↦ let (id, r) = read_header (new_reader bytes) in on_packet p id r s
  ]
