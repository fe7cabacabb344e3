-- ===== src/Server/Changes/Events.antt =====
-- Every event of server/src/Server.cpp is a series of changes that gives out one id at most.
use f4mp.Base.{
  ℕ, Bool, true, false, Option, none, some, ◌≡◌, refl, sym, subst, inl, inr, Option-cases,
  Bool-cases, if◌then◌else◌, Bytes, is_empty,
}
use f4mp.Packet.{Reader, new_reader}
use f4mp.Protocol.Messages.{read_header, HelloMsg, PlayerStateMsg, ChatMsg, SetNameMsg}
use f4mp.Protocol.Names.{sanitize_name}
use f4mp.Server.State.{Player, Server, Env, find_peer, erase_peer, put_player, tick_clock}
use f4mp.Server.Frame.{
  core-kick, core-announce, core-broadcast, core-counted_chat, core-say_goodbye,
}
use f4mp.Server.Ids.{find_peer-peer}
use f4mp.Server.Connections.{handle_connect, handle_disconnect}
use f4mp.Server.Joining.{joined_player, register, announce, on_hello, handle_hello}
use f4mp.Server.Chatting.{count_chat, counted_chat, on_chat, handle_chat}
use f4mp.Server.Handlers.{
  plausible, on_player_state, handle_player_state, on_set_name, handle_set_name, dispatch,
  on_packet, handle_packet,
}
use f4mp.Server.Service.{Event, connected, disconnected, received, other, handle_event}
use f4mp.Server.Changes.{
  states, chats, renames, connects, drops, alters, joins, Changes, quiet, idle, one_change,
  one_gift, Changes-if,
}

module _ (env : Env) (p : Player) (s : Server) (here : find_peer p.peer s.players ≡ some p) where
  on_hello-Changes : (o : Option HelloMsg) → Changes s 1 (on_hello env p o s)
  unfolding on_hello
  on_hello-Changes none = quiet (core-kick env p _ s)
  on_hello-Changes (some hello) =
      Changes-if _ _ _ (quiet (core-kick env p _ s)) (greeted p.handshaked refl)
    where
      after : Server
      after = announce env (joined_player p hello s.next_id) (register p hello s)

      greeted : (b : Bool) → p.handshaked ≡ b → Changes s 1 (if b then s else after)
      greeted true e = idle
      greeted false e =
          one_gift after (joins p hello here e)
            (core-announce env (joined_player p hello s.next_id) (register p hello s))

  on_player_state-Changes : (o : Option PlayerStateMsg) → Changes s 1 (on_player_state env p o s)
  unfolding on_player_state
  on_player_state-Changes none = idle
  on_player_state-Changes (some msg) = elim (Bool-cases (plausible msg.state)) [
    | inl fine ↦
        let q = record p { state = msg.state; has_state = true } in
        rw fine (
          one_change _ (alters p q here (states msg.state fine))
            (core-broadcast env _ _ (some p.peer) (tick_clock (put_player q s))))
    | inr bad ↦ rw bad idle
  ]

  on_chat-Changes : (o : Option ChatMsg) → Changes s 1 (on_chat env p o s)
  unfolding on_chat
  on_chat-Changes none = idle
  on_chat-Changes (some msg) =
      let q = count_chat (env.clock s.reads) p in
      let t = put_player q (tick_clock s) in
      Changes-if (is_empty msg.text) s (counted_chat env q msg.text t) idle (
        one_change (counted_chat env q msg.text t) (alters p q here (chats (env.clock s.reads)))
          (core-counted_chat env q msg.text t))

  on_set_name-Changes : (o : Option SetNameMsg) → Changes s 1 (on_set_name env p o s)
  unfolding on_set_name
  on_set_name-Changes none = idle
  on_set_name-Changes (some msg) =
      let q = record p { name = sanitize_name msg.name } in
      Changes-if _ s _ idle (
        one_change _ (alters p q here (renames msg.name))
          (core-broadcast env _ _ none (put_player q s)))

  on_packet-Changes : (o : Option ℕ) (r : Reader) → Changes s 1 (on_packet env p o r s)
  unfolding on_packet dispatch handle_hello handle_player_state handle_chat handle_set_name
  on_packet-Changes none r = idle
  on_packet-Changes (some id) r = Changes-if _ _ _ (quiet (core-kick env p _ s)) (
      Changes-if _ _ _ (on_hello-Changes _) (
        Changes-if _ _ _ (on_player_state-Changes _)
          (Changes-if _ _ _ (on_chat-Changes _) (Changes-if _ _ s (on_set_name-Changes _) idle))))

module _ (env : Env) (s : Server) where
  handle_connect-Changes : (peer : ℕ) → Changes s 1 (handle_connect env peer s)
  unfolding handle_connect
  handle_connect-Changes peer = elim (Option-cases (find_peer peer s.players)) [
    | inl e ↦ rw (e, handle_connect) (one_change _ (connects peer (env.clock s.reads) e) refl)
    | inr (p, e) ↦ rw (e, handle_connect) (quiet refl)
  ]

  handle_disconnect-Changes : (peer : ℕ) → Changes s 1 (handle_disconnect env peer s)
  unfolding handle_disconnect
  handle_disconnect-Changes peer = elim (Option-cases (find_peer peer s.players)) [
    | inl e ↦ rw (e, handle_disconnect) idle
    | inr (p, e) ↦
        rw (e, handle_disconnect)
          (one_change _ (drops peer p e)
            (core-say_goodbye env p (record s { players = erase_peer peer s.players })))
  ]

  handle_packet-Changes : (peer : ℕ) (bytes : Bytes) → Changes s 1 (handle_packet env peer bytes s)
  unfolding handle_packet
  handle_packet-Changes peer bytes = elim (Option-cases (find_peer peer s.players)) [
    | inl e ↦ rw (e, handle_packet) idle
    | inr (p, e) ↦
        let here =
          subst (λ k. find_peer k s.players ≡ some p) (sym (find_peer-peer peer s.players p e)) e in
        rw (e, handle_packet)
          (on_packet-Changes env p s here (read_header (new_reader bytes)).0
            (read_header (new_reader bytes)).1)
  ]

  -- An event of ENet.
  pub handle_event-Changes : (e : Event) → Changes s 1 (handle_event env e s)
  unfolding handle_event
  handle_event-Changes (connected peer) = handle_connect-Changes peer
  handle_event-Changes (disconnected peer) = handle_disconnect-Changes peer
  handle_event-Changes (received peer bytes) = handle_packet-Changes peer bytes
  handle_event-Changes other = idle
