-- ===== src/Server/Joining.antt =====
-- server/src/Server.cpp, `HandleHello`.
use f4mp.Base.{
  ℕ, ◌+◌, ◌%◌, min, Bool, true, not, ◌||◌, Option, none, some, List, [], ◌∷◌, ◌==◌, if◌then◌else◌,
  Bytes, codes, u32_mod,
}
use f4mp.Types.{PlayerState}
use f4mp.Packet.{Reader}
use f4mp.Protocol.Messages.{
  reliable, encode, checked, protocol_version, HelloMsg, read_hello, id_welcome, write_welcome,
  id_player_joined, write_player_joined, id_player_state_update, write_player_state_update,
}
use f4mp.Protocol.Names.{sanitize_name}
use f4mp.Server.State.{Player, Bot, Server, Env, text, number, tick_clock, now_ms, put_player}
use f4mp.Server.Sending.{send, broadcast, server_chat, kick}

-- The player once the handshake is done.
unfoldable pub joined_player : Player → HelloMsg → ℕ → Player
joined_player p hello id = record p {
  id = id;
  name = sanitize_name hello.name;
  game_version = hello.game_version;
  handshaked = true;
}

-- `_nextId++`, and the new value of the player.
unfoldable pub register : Player → HelloMsg → Server → Server
register p hello s =
    put_player (joined_player p hello s.next_id) (record s { next_id = (s.next_id + 1) % u32_mod })

module _ (env : Env) where
  -- A `PlayerStateUpdateMsg` with the time of the call, which is one reading of the clock.
  unfoldable pub send_update : ℕ → ℕ → PlayerState → Server → Server
  send_update peer id state s =
      send env peer reliable
        (encode id_player_state_update
          (write_player_state_update (record { id = id; time_ms = now_ms env s; state = state })))
        (tick_clock s)

  -- The newcomer at `peer` is told of one player or bot, and where it is.
  unfoldable pub introduce : ℕ → ℕ → Bytes → Bool → PlayerState → Server → Server
  introduce peer id name has_state state s =
      let joined =
        send env peer reliable
          (encode id_player_joined (write_player_joined (record { id = id; name = name }))) s in
      if has_state then send_update peer id state joined else joined

  unfoldable pub introduce_players : ℕ → List Player → Server → Server
  introduce_players peer [] s = s
  introduce_players peer (q ∷ qs) s = introduce_players peer qs (
      if not q.handshaked || q.peer == peer
      then s
      else introduce peer q.id q.name q.has_state q.state s)

  unfoldable pub introduce_bots : ℕ → List Bot → Server → Server
  introduce_bots peer [] s = s
  introduce_bots peer (b ∷ bs) s =
      introduce_bots peer bs (introduce peer b.id b.name b.has_state b.state s)

  unfoldable pub welcome : Player → Server → Server
  welcome p s =
      send env p.peer reliable
        (encode id_welcome (
          write_welcome (record {
            id = p.id;
            tick_rate = min s.config.tick_rate 255;
            server_name = s.config.name;
            motd = s.config.motd;
          })))
        s

  -- What everybody is told of the player `p` that has just joined.
  unfoldable pub announce : Player → Server → Server
  announce p s =
      let welcomed = welcome p s in
      let met =
        introduce_bots p.peer welcomed.bots (introduce_players p.peer welcomed.players welcomed) in
      server_chat env (env.format (codes "{} joined the game") (text p.name ∷ [])) (
        broadcast env reliable
          (encode id_player_joined (write_player_joined (record { id = p.id; name = p.name })))
          (some p.peer) met)

  -- `HandleHello` on the result of `hello.Read`.
  unfoldable pub on_hello : Player → Option HelloMsg → Server → Server
  on_hello p none s = kick env p (codes "Malformed hello") s
  on_hello p (some hello) s =
      if not (hello.protocol_version == protocol_version)
      then kick env p
          (env.format (codes "Protocol mismatch (server v{}, client v{})")
            (number protocol_version ∷ number hello.protocol_version ∷ []))
          s
      else if p.handshaked
      then s
      else announce (joined_player p hello s.next_id) (register p hello s)

  unfoldable pub handle_hello : Player → Reader → Server → Server
  handle_hello p r s = on_hello p (checked read_hello r).0 s
