-- ===== src/Roster/Introduced.antt =====
-- What a newcomer hears from server/src/Server.cpp of the players that are there before it.
use f4mp.Base.{
  ℕ, ◌≤◌, ◌<◌, Bool, true, false, not, ◌||◌, Option, some, List, [], ◌∷◌, ◌==◌, if◌then◌else◌,
  Bool-cases, inl, inr, Bytes, length, u32_mod, ◌≡◌, ◌≢◌, sym, ap, subst, ◌∙◌, arith, ne→==,
}
use f4mp.Packet.{max_string_bytes}
use f4mp.Types.{PlayerState}
use f4mp.Protocol.Messages.{Channel, reliable, HelloMsg}
use f4mp.Server.State.{Player, Bot, Server, Env, Effect, peer_send, find_peer}
use f4mp.Server.Frame.{Core, core-welcome}
use f4mp.Server.Handlers.{handle_packet}
use f4mp.Server.Handshake.{IsGoodHello}
use f4mp.Server.Isolation.{find_peer-set_player}
use f4mp.Server.Joining.{
  joined_player, register, announce, welcome, send_update, introduce, introduce_players,
  introduce_bots,
}
use f4mp.Server.Recipients.{sent-broadcast}
use f4mp.Server.Sending.{is_reliable, send, broadcast}
use f4mp.Client.Session.{Moment, Link}
use f4mp.Client.Session.Incoming
use f4mp.Roster.{
  Occurs, here, Occurs-left, Occurs-right, joined_packet, Knows, chat-Occurs, packet-Knows,
  different_peers, handle_packet-accepted,
}

module _ (env : Env) (e : Effect) where
  occurs_either :
      (b : Bool) (s t : Server)
      → Occurs e s.sent
      → Occurs e t.sent
      → Occurs e (if b then s else t).sent
  occurs_either true s t h k = h
  occurs_either false s t h k = k

  send_keeps :
      (peer : ℕ) (channel : Channel) (bytes : Bytes) (s : Server)
      → Occurs e s.sent
      → Occurs e (send env peer channel bytes s).sent
  unfolding send
  send_keeps peer channel bytes s h =
      occurs_either (env.packet_create bytes (is_reliable channel)) _ s (Occurs-left e s.sent _ h) h

  introduce_keeps :
      (peer id : ℕ) (name : Bytes) (has_state : Bool) (state : PlayerState) (s : Server)
      → Occurs e s.sent
      → Occurs e (introduce env peer id name has_state state s).sent
  unfolding introduce send_update
  introduce_keeps peer id name has_state state s h =
      let k = send_keeps peer reliable (joined_packet id name) s h in
      occurs_either has_state _ (send env peer reliable (joined_packet id name) s)
        (send_keeps peer reliable _ _ k) k

  introduce_players_keeps :
      (peer : ℕ) (ps : List Player) (s : Server)
      → Occurs e s.sent
      → Occurs e (introduce_players env peer ps s).sent
  unfolding introduce_players
  introduce_players_keeps peer [] s h = h
  introduce_players_keeps peer (p ∷ ps) s h = introduce_players_keeps peer ps _ (
      occurs_either (not p.handshaked || p.peer == peer) s _ h
        (introduce_keeps peer p.id p.name p.has_state p.state s h))

  introduce_bots_keeps :
      (peer : ℕ) (bs : List Bot) (s : Server)
      → Occurs e s.sent
      → Occurs e (introduce_bots env peer bs s).sent
  unfolding introduce_bots
  introduce_bots_keeps peer [] s h = h
  introduce_bots_keeps peer (b ∷ bs) s h =
      introduce_bots_keeps peer bs _ (introduce_keeps peer b.id b.name b.has_state b.state s h)

  broadcast_keeps :
      (bytes : Bytes) (except : Option ℕ) (s : Server)
      → Occurs e s.sent
      → Occurs e (broadcast env reliable bytes except s).sent
  broadcast_keeps bytes except s h =
      subst (Occurs e) (sym (sent-broadcast env reliable bytes except s)) (Occurs-left e s.sent _ h)

module _ (env : Env) (made : (bytes : Bytes) → env.packet_create bytes true ≡ true) where
  introduce-Occurs :
      (peer id : ℕ) (name : Bytes) (has_state : Bool) (state : PlayerState) (s : Server)
      → Occurs
          (peer_send peer reliable (joined_packet id name))
          (introduce env peer id name has_state state s).sent
  unfolding introduce send_update send
  introduce-Occurs peer id name has_state state s =
      let e = peer_send peer reliable (joined_packet id name) in
      let told : Occurs e (send env peer reliable (joined_packet id name) s).sent =
        rw (made (joined_packet id name)) (Occurs-right e s.sent _ here) in
      occurs_either env e has_state _ (send env peer reliable (joined_packet id name) s)
        (send_keeps env e peer reliable _ _ told) told

  introduce_players-Occurs :
      (peer : ℕ) (q : Player) (ps : List Player) (s : Server)
      → find_peer q.peer ps ≡ some q
      → q.handshaked ≡ true
      → q.peer ≢ peer
      → Occurs
          (peer_send peer reliable (joined_packet q.id q.name))
          (introduce_players env peer ps s).sent
  unfolding introduce_players find_peer
  introduce_players-Occurs peer q [] s found shaken apart = absurd (ground arith)
  introduce_players-Occurs peer q (p ∷ ps) s found shaken apart =
      elim (Bool-cases (p.peer == q.peer)) [
        | inl same ↦
            let one : p ≡ q = ground arith in
            introduce_players_keeps env (peer_send peer reliable (joined_packet q.id q.name)) peer
              ps _
              (subst
                (λ (r : Player).
                  Occurs (peer_send peer reliable (joined_packet q.id q.name))
                    (if not r.handshaked || r.peer == peer
                      then s
                      else introduce env peer r.id r.name r.has_state r.state s).sent)
                (sym one)
                (rw (shaken, ne→== q.peer peer apart)
                  (introduce-Occurs peer q.id q.name q.has_state q.state s)))
        | inr other ↦
            introduce_players-Occurs peer q ps _
              (subst (λ b. (if b then some p else find_peer q.peer ps) ≡ some q) other found) shaken
              apart
      ]

  announce-introduces :
      (p q : Player) (s : Server)
      → find_peer q.peer s.players ≡ some q
      → q.handshaked ≡ true
      → q.peer ≢ p.peer
      → Occurs (peer_send p.peer reliable (joined_packet q.id q.name)) (announce env p s).sent
  unfolding announce
  announce-introduces p q s found shaken other =
      let e = peer_send p.peer reliable (joined_packet q.id q.name) in
      let welcomed = welcome env p s in
      let there = ap (λ (k : Core). find_peer q.peer k.players) (core-welcome env p s) ∙ found in
      chat-Occurs env made e _ _ (
        broadcast_keeps env e _ (some p.peer) _ (
          introduce_bots_keeps env e p.peer welcomed.bots _
            (introduce_players-Occurs p.peer q welcomed.players welcomed there shaken other)))

-- When a client shakes hands, the server sends to it, for each other player that has shaken hands, a
-- packet that makes it list that player under the id and the name that the server has; if packets can
-- be created, the id fits in 32 bits and the name in a string, and the id is not its own.
pub newcomer-learns :
    (env : Env) (m : Moment) (p q : Player) (hello : HelloMsg) (bytes : Bytes) (s : Server)
    (w : Link)
    → ((b : Bytes) → env.packet_create b true ≡ true)
    → find_peer p.peer s.players ≡ some p
    → p.handshaked ≡ false
    → IsGoodHello bytes hello
    → find_peer q.peer s.players ≡ some q
    → q.handshaked ≡ true
    → q.id < u32_mod
    → length q.name ≤ max_string_bytes
    → (w.1).my_id ≢ q.id
    → let packet = joined_packet q.id q.name in
      Occurs (peer_send p.peer reliable packet) (handle_packet env p.peer bytes s).sent
      × Knows q.id q.name (f4mp.Client.Session.Incoming.handle_packet m packet w)
unfolding register joined_player
newcomer-learns env m p q hello bytes s w made here_p before good here_q shaken small short other =
    let apart = different_peers p q s.players here_p before here_q shaken in
    let new_player = joined_player p hello s.next_id in
    let kept = find_peer-set_player new_player q.peer s.players apart ∙ here_q in
    (
      subst (λ (t : Server). Occurs (peer_send p.peer reliable (joined_packet q.id q.name)) t.sent)
          (sym (handle_packet-accepted env p hello bytes s here_p before good))
          (announce-introduces env made new_player q (register p hello s) kept shaken apart),
      packet-Knows m q.id q.name w other small short,
    )
