-- ===== src/Roster/Mutual.antt =====
-- A newcomer and the players that are there before it, in the course of the loop in
-- server/src/main.cpp.
use f4mp.Base.{
  ℕ, ◌+◌, ◌≤◌, ◌<◌, Bool, true, false, some, List, [], ◌∷◌, ◌==◌, if◌then◌else◌, Bool-cases, inl,
  inr, Bytes, length, u32_mod, All, ◌≡◌, sym, subst, arith,
}
use f4mp.Packet.{max_string_bytes}
use f4mp.Protocol.Messages.{reliable, HelloMsg, max_player_name}
use f4mp.Protocol.Names.{sanitize_name}
use f4mp.Protocol.Names.Laws.{IsName}
use f4mp.Server.State.{Player, Server, Env, Config, peer_send, find_peer}
use f4mp.Server.Everyone.{Everyone, All-find_peer}
use f4mp.Server.Handlers.{handle_packet}
use f4mp.Server.Handshake.{IsGoodHello}
use f4mp.Server.Ids.{player_ids, bot_ids, with_id, All-with_id}
use f4mp.Server.Changes.Loop.{work}
use f4mp.Server.Invariant.{InRange}
use f4mp.Server.Invariant.Loop.{Within, served-Within}
use f4mp.Server.Named.{HasName, main_loop-AllNamed}
use f4mp.Server.Service.{Event, new_server, start, main_loop}
use f4mp.Client.Session.{Moment, Link}
use f4mp.Client.Session.Incoming
use f4mp.Roster.{Occurs, joined_packet, Knows, newcomer-Knows}
use f4mp.Roster.Introduced.{newcomer-learns}

own_id :
    (P : ℕ → Type 0) (b : Bool) (id : ℕ) (xs : List ℕ) → b ≡ true → All P (with_id b id xs) → P id
own_id P true id xs e h = h.0
own_id P false id xs e h = cc

name_fits : (name : Bytes) → IsName name → length name ≤ max_string_bytes
unfolding max_string_bytes max_player_name
name_fits name h = omega (arith, h.short)

-- The id of a player that has shaken hands is among those of the tables.
All-found :
    (P : ℕ → Type 0) (peer : ℕ) (ps : List Player) (rest : List ℕ) (q : Player)
    → All P (player_ids ps rest)
    → find_peer peer ps ≡ some q
    → q.handshaked ≡ true
    → P q.id
unfolding find_peer
All-found P peer [] rest q h found shaken = cc
All-found P peer (p ∷ ps) rest q h found shaken = elim (Bool-cases (p.peer == peer)) [
  | inl e ↦
      let one : p ≡ q = ground arith in
      subst (λ (r : Player). P r.id) one
        (own_id P p.handshaked p.id (player_ids ps rest) (ground arith) h)
  | inr e ↦
      All-found P peer ps rest q (All-with_id P p.handshaked p.id (player_ids ps rest) h)
        (subst (λ b. (if b then some p else find_peer peer ps) ≡ some q) e found) shaken
]

-- What two clients know of each other when one of them has shaken hands: the server has sent each a
-- packet that makes it list the other.
pub record Mutual (p q : Player) (id : ℕ) (name : Bytes) (m : Moment) (v w : Link) (t : Server)
    : Type 0 where
  pub told_old : Occurs (peer_send q.peer reliable (joined_packet id name)) t.sent
  pub old_knows :
      Knows id name (f4mp.Client.Session.Incoming.handle_packet m (joined_packet id name) w)
  pub told_new : Occurs (peer_send p.peer reliable (joined_packet q.id q.name)) t.sent
  pub new_knows :
      Knows q.id q.name (f4mp.Client.Session.Incoming.handle_packet m (joined_packet q.id q.name) v)

-- When a client shakes hands with a server that was started and has made any passes of its loop, it
-- and each player that has shaken hands before learn of each other: the server sends to either a
-- packet that makes its session list the other, the newcomer under the next id and its sanitised name,
-- the other under the id and the name that the server has. The conditions: packets can be created,
-- there were fewer than 2 ^ 32 - 1 events and lines, and each session knows its own id.
pub handle_packet-Mutual :
    (env : Env) (config : Config) (now : ℕ) (passes : List (List Event × List Bytes)) (s : Server)
    (m : Moment) (p q : Player) (hello : HelloMsg) (bytes : Bytes) (v w : Link)
    → ((b : Bytes) → env.packet_create b true ≡ true)
    → work passes + 1 < u32_mod
    → s ≡ main_loop env passes (start true true (new_server config now)).0
    → find_peer p.peer s.players ≡ some p
    → p.handshaked ≡ false
    → IsGoodHello bytes hello
    → find_peer q.peer s.players ≡ some q
    → q.handshaked ≡ true
    → (v.1).my_id ≡ s.next_id
    → (w.1).my_id ≡ q.id
    → Mutual p q s.next_id (sanitize_name hello.name) m v w (handle_packet env p.peer bytes s)
handle_packet-Mutual env config now passes s m p q hello bytes v w made room run here_p before good
      here_q shaken own_v own_w =
    let (tables, bound) =
      subst (Within (work passes + 1)) (sym run) (served-Within env config now passes room) in
    let named = subst (Everyone HasName) (sym run) (main_loop-AllNamed env config now passes) in
    let range =
      All-found (InRange s.next_id) q.peer s.players (bot_ids s.bots) q tables.ids_in_range here_q
        shaken in
    let clean = All-find_peer HasName q.peer s.players q named.all here_q shaken in
    let old =
      newcomer-Knows env m p q hello bytes s w made here_p before good here_q shaken (omega arith)
        (λ e. omega (arith, own_w, e, range.1)) in
    let new =
      newcomer-learns env m p q hello bytes s v made here_p before good here_q shaken (omega arith)
        (name_fits q.name clean) (λ e. omega (arith, own_v, e, range.1)) in
    record { told_old = old.0; old_knows = old.1; told_new = new.0; new_knows = new.1 }
