-- ===== src/Roster.antt =====
-- From the handshake in server/src/Server.cpp to the list of players of the other clients in
-- client/src/Session.cpp and client/src/Sync/RemotePlayers.cpp.
pub mod Introduced
pub mod Mutual
use f4mp.Base.{
  ℕ, ◌≤◌, ◌<◌, Bool, true, false, Option, none, some, List, [], ◌∷◌, ◌++◌, ◌==◌, if◌then◌else◌,
  Bool-cases, inl, inr, Bytes, length, keep, append-nil, u32_mod, ◌≡◌, ◌≢◌, refl, sym, ap, subst,
  ◌∙◌, arith, ne→==,
}
use f4mp.Packet.{max_string_bytes}
use f4mp.Protocol.Layout.Kinds.{Kind, FitsKind}
use f4mp.Protocol.Messages.{
  Channel, reliable, encode, id_player_joined, write_player_joined, PlayerJoinedMsg, HelloMsg,
}
use f4mp.Protocol.Names.{sanitize_name}
use f4mp.Protocol.Names.Laws.{sanitize_name-IsName}
use f4mp.Server.State.{Player, Server, Env, Effect, peer_send, find_peer}
use f4mp.Server.Frame.{core, Core, core-welcome, core-introduce_players, core-introduce_bots}
use f4mp.Server.Handlers.{handle_packet}
use f4mp.Server.Handshake.{IsGoodHello}
use f4mp.Server.Isolation.{find_peer-set_player}
use f4mp.Server.Joined.{accepted_lem}
use f4mp.Server.Joining.{
  joined_player, register, announce, welcome, introduce_players, introduce_bots,
}
use f4mp.Server.Recipients.{is_recipient, sends, sent-broadcast}
use f4mp.Server.Sending.{broadcast, server_chat}
use f4mp.Client.RemoteState.{RemotePlayer}
use f4mp.Client.Remotes.{add, find, entry}
use f4mp.Client.Remotes.Late.{find-put}
use f4mp.Client.Session.{Moment, Link}
use f4mp.Client.Session.Delivery.{handle_packet-encode}
use f4mp.Client.Session.Incoming
use f4mp.Client.Session.Incoming.{on_player_joined}

-- A call is among the calls.
pub data Occurs (e : Effect) : List Effect → Type 0 where
  here : {es : List Effect} → Occurs e (e ∷ es)
  behind : {d : Effect} {es : List Effect} → Occurs e es → Occurs e (d ∷ es)

pub Occurs-left : (e : Effect) (ds es : List Effect) → Occurs e ds → Occurs e (ds ++ es)
Occurs-left e ds es here = here
Occurs-left e ds es (behind h) = behind (Occurs-left e _ es h)

pub Occurs-right : (e : Effect) (ds es : List Effect) → Occurs e es → Occurs e (ds ++ es)
Occurs-right e [] es h = h
Occurs-right e (d ∷ ds) es h = behind (Occurs-right e ds es h)

module _ (channel : Channel) (bytes : Bytes) (except : Option ℕ) where
  occurs_first :
      (p q : Player) (ps : List Player)
      → p ≡ q
      → is_recipient except q ≡ true
      → Occurs (peer_send q.peer channel bytes) (
          sends channel bytes (
            if is_recipient except p
            then p ∷ keep (is_recipient except) ps
            else keep (is_recipient except) ps))
  occurs_first p q ps e got =
      let mine = ap (is_recipient except) e ∙ got in
      rw mine (
        subst
          (λ (r : Player).
            Occurs (peer_send r.peer channel bytes) (
              peer_send p.peer channel bytes ∷ sends channel bytes (keep (is_recipient except) ps)))
          e here)

  occurs_if :
      (b : Bool) (e : Effect) (p : Player) (ps : List Player)
      → Occurs e (sends channel bytes ps)
      → Occurs e (sends channel bytes (if b then p ∷ ps else ps))
  occurs_if true e p ps h = behind h
  occurs_if false e p ps h = h

  sends-Occurs :
      (q : Player) (peer : ℕ) (ps : List Player)
      → find_peer peer ps ≡ some q
      → is_recipient except q ≡ true
      → Occurs
          (peer_send q.peer channel bytes)
          (sends channel bytes (keep (is_recipient except) ps))
  unfolding keep find_peer
  sends-Occurs q peer [] found got = absurd (ground arith)
  sends-Occurs q peer (p ∷ ps) found got = elim (Bool-cases (p.peer == peer)) [
    | inl e ↦ occurs_first p q ps (ground arith) got
    | inr e ↦ occurs_if (is_recipient except p) _ p _ (
        sends-Occurs q peer ps
          (subst (λ b. (if b then some p else find_peer peer ps) ≡ some q) e found) got)
  ]

-- The packet that tells of a player.
abbrev pub joined_packet : ℕ → Bytes → Bytes
joined_packet id name =
    encode id_player_joined (write_player_joined (record { id = id; name = name }))

-- The list of a client has a player with this id and name.
pub record Knows (id : ℕ) (name : Bytes) (w : Link) : Type 0 where
  pub player : RemotePlayer
  pub listed : find id ((w.1).remotes).players ≡ some player
  pub named : player.name ≡ name

module _ (env : Env) (made : (bytes : Bytes) → env.packet_create bytes true ≡ true) where
  broadcast-Occurs :
      (bytes : Bytes) (except : Option ℕ) (q : Player) (peer : ℕ) (s : Server)
      → find_peer peer s.players ≡ some q
      → is_recipient except q ≡ true
      → Occurs (peer_send q.peer reliable bytes) (broadcast env reliable bytes except s).sent
  broadcast-Occurs bytes except q peer s found got =
      subst (Occurs (peer_send q.peer reliable bytes))
        (sym (sent-broadcast env reliable bytes except s))
        (Occurs-right _ s.sent _
          (rw (made bytes) (sends-Occurs reliable bytes except q peer s.players found got)))

  pub chat-Occurs :
      (e : Effect) (line : Bytes) (s : Server)
      → Occurs e s.sent
      → Occurs e (server_chat env line s).sent
  unfolding server_chat
  chat-Occurs e line s h =
      subst (Occurs e) (sym (sent-broadcast env reliable _ none s)) (Occurs-left e s.sent _ h)

  -- Each other player that has shaken hands is told of a new one.
  announce-Occurs :
      (p q : Player) (s : Server)
      → find_peer q.peer s.players ≡ some q
      → q.handshaked ≡ true
      → q.peer ≢ p.peer
      → Occurs (peer_send q.peer reliable (joined_packet p.id p.name)) (announce env p s).sent
  unfolding announce
  announce-Occurs p q s found shaken other =
      let welcomed = welcome env p s in
      let met =
        introduce_bots env p.peer welcomed.bots
          (introduce_players env p.peer welcomed.players welcomed) in
      let same : core met ≡ core s =
        core-introduce_bots env p.peer welcomed.bots _
        ∙ (core-introduce_players env p.peer welcomed.players welcomed ∙ core-welcome env p s) in
      let there = ap (λ (k : Core). find_peer q.peer k.players) same ∙ found in
      let apart = ne→== q.peer p.peer other in
      chat-Occurs _ _ _ (
        broadcast-Occurs (joined_packet p.id p.name) (some p.peer) q q.peer met there
          (rw (shaken, apart) refl))

module _ (m : Moment) (id : ℕ) (name : Bytes) where
  joined-Knows :
      (w : Link)
      → (w.1).my_id ≢ id
      → Knows id name (on_player_joined m (some (record { id = id; name = name })) w)
  unfolding on_player_joined add
  joined-Knows (n, s) other = rw (ne→== id s.my_id (λ e. other (sym e))) (record {
    player = record (entry id s.remotes) { id = id; name = name };
    listed = find-put (record (entry id s.remotes) { id = id; name = name }) (s.remotes).players;
    named = refl;
  })

  pub packet-Knows :
      (w : Link)
      → (w.1).my_id ≢ id
      → id < u32_mod
      → length name ≤ max_string_bytes
      → Knows id name (f4mp.Client.Session.Incoming.handle_packet m (joined_packet id name) w)
  packet-Knows w other small short =
      let msg : PlayerJoinedMsg = record { id = id; name = name } in
      let fits : FitsKind Kind.player_joined msg = record { id_fits = small; name_fits = short } in
      let whole = append-nil (joined_packet id name) in
      subst (Knows id name)
        (sym (handle_packet-encode m Kind.player_joined msg [] w fits)
          ∙ ap (λ b. f4mp.Client.Session.Incoming.handle_packet m b w) whole)
        (joined-Knows w other)

short_name : (name : Bytes) → length (sanitize_name name) ≤ max_string_bytes
unfolding max_string_bytes sanitize_name
short_name name = omega (arith, (sanitize_name-IsName name).short)

pub different_peers :
    (p q : Player) (ps : List Player)
    → find_peer p.peer ps ≡ some p
    → p.handshaked ≡ false
    → find_peer q.peer ps ≡ some q
    → q.handshaked ≡ true
    → q.peer ≢ p.peer
different_peers p q ps here_p before here_q shaken e =
    let one : some q ≡ some p = sym (subst (λ k. find_peer k ps ≡ some q) e here_q) ∙ here_p in
    ground (arith, one)

pub handle_packet-accepted :
    (env : Env) (p : Player) (hello : HelloMsg) (bytes : Bytes) (s : Server)
    → find_peer p.peer s.players ≡ some p
    → p.handshaked ≡ false
    → IsGoodHello bytes hello
    → handle_packet env p.peer bytes s
      ≡ announce env (joined_player p hello s.next_id) (register p hello s)
unfolding handle_packet
handle_packet-accepted env p hello bytes s found before good =
    rw (found, handle_packet) (accepted_lem env p s before bytes hello good)

-- When a client shakes hands, the server sends to each other player that has shaken hands a packet that
-- makes its client list the new player, with the id that the server gave it and its sanitised name; if
-- packets can be created, the id fits in 32 bits and is not the own one of that other client.
pub newcomer-Knows :
    (env : Env) (m : Moment) (p q : Player) (hello : HelloMsg) (bytes : Bytes) (s : Server)
    (w : Link)
    → ((b : Bytes) → env.packet_create b true ≡ true)
    → find_peer p.peer s.players ≡ some p
    → p.handshaked ≡ false
    → IsGoodHello bytes hello
    → find_peer q.peer s.players ≡ some q
    → q.handshaked ≡ true
    → s.next_id < u32_mod
    → (w.1).my_id ≢ s.next_id
    → let packet = joined_packet s.next_id (sanitize_name hello.name) in
      Occurs (peer_send q.peer reliable packet) (handle_packet env p.peer bytes s).sent
      × Knows s.next_id
          (sanitize_name hello.name)
          (f4mp.Client.Session.Incoming.handle_packet m packet w)
unfolding register joined_player
newcomer-Knows env m p q hello bytes s w made here_p before good here_q shaken small other =
    let apart = different_peers p q s.players here_p before here_q shaken in
    let new_player = joined_player p hello s.next_id in
    let kept = find_peer-set_player new_player q.peer s.players apart ∙ here_q in
    (
      subst
          (λ (t : Server).
            Occurs (peer_send q.peer reliable (joined_packet s.next_id (sanitize_name hello.name)))
              t.sent)
          (sym (handle_packet-accepted env p hello bytes s here_p before good))
          (announce-Occurs env made new_player q (register p hello s) kept shaken apart),
      packet-Knows m s.next_id (sanitize_name hello.name) w other small (short_name hello.name),
    )
