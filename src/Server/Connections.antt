-- ===== src/Server/Connections.antt =====
-- server/src/Server.cpp, "connection lifecycle": `HandleConnect` and `HandleDisconnect`.
use f4mp.Base.{ℕ, none, some, [], ◌∷◌, ◌++◌, if◌then◌else◌, codes}
use f4mp.Protocol.Messages.{reliable, encode, id_player_left, write_player_left}
use f4mp.Server.State.{
  Player, new_player, Server, Env, text, peer_timeout, effect, tick_clock, find_peer, erase_peer,
}
use f4mp.Server.Sending.{broadcast, server_chat}

abbrev peer_timeout_min_ms : ℕ
peer_timeout_min_ms = 60000

abbrev peer_timeout_max_ms : ℕ
peer_timeout_max_ms = 180000

module _ (env : Env) where
  unfoldable pub handle_connect : ℕ → Server → Server
  handle_connect peer s =
      let fresh = new_player peer (env.clock s.reads) in
      let timed =
        effect (peer_timeout peer peer_timeout_min_ms peer_timeout_max_ms) (tick_clock s) in
      elim (find_peer peer s.players) [
        | none ↦ record timed { players = s.players ++ fresh ∷ [] }
        | some _ ↦ timed
      ]

  -- What `HandleDisconnect` does with the player that it took out of the map.
  unfoldable pub say_goodbye : Player → Server → Server
  say_goodbye p s =
      if p.handshaked
      then server_chat env (env.format (codes "{} left the game") (text p.name ∷ [])) (
          broadcast env reliable (encode id_player_left (write_player_left (record { id = p.id })))
            none s)
      else s

  unfoldable pub handle_disconnect : ℕ → Server → Server
  handle_disconnect peer s = elim (find_peer peer s.players) [
    | none ↦ s
    | some p ↦ say_goodbye p (record s { players = erase_peer peer s.players })
  ]
