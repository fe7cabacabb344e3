-- ===== src/Server/Isolation.antt =====
-- What a packet of one client does to the others: server/src/Server.cpp, `HandlePacket`.
use f4mp.Base.{
  if_holds, ℕ, ◌+◌, Bool, true, false, Option, none, some, List, [], ◌∷◌, ◌==◌, ==→eq, ne→==, ◌≡◌,
  ◌≢◌, refl, sym, subst, ap, ◌∙◌, inl, inr, Bool-cases, Option-cases, if◌then◌else◌, Bytes, leb,
  is_empty,
}
use f4mp.Packet.{Reader, new_reader}
use f4mp.Protocol.Messages.{read_header, HelloMsg, PlayerStateMsg, ChatMsg, SetNameMsg}
use f4mp.Protocol.Names.{sanitize_name}
use f4mp.Server.State.{Player, Server, Env, find_peer, set_player, put_player, tick_clock}
use f4mp.Server.Frame.{core, Core, core-kick, core-announce, core-broadcast, core-counted_chat}
use f4mp.Server.Ids.{find_peer-peer}
use f4mp.Server.Joining.{joined_player, register, on_hello, handle_hello}
use f4mp.Server.Chatting.{chat_window, count_chat, counted_chat, on_chat, handle_chat}
use f4mp.Server.Handlers.{
  on_player_state, handle_player_state, on_set_name, handle_set_name, dispatch, on_packet,
  handle_packet,
}

-- Only the entry of `peer` may have changed: every other connection has the entry that it had, and
-- the bots are the same.
pub record Apart (peer : ℕ) (s t : Server) : Type 0 where
  pub others : (other : ℕ) → other ≢ peer → find_peer other t.players ≡ find_peer other s.players
  pub bots : t.bots ≡ s.bots

pub find_peer-set_player :
    (q : Player) (other : ℕ) (ps : List Player)
    → other ≢ q.peer
    → find_peer other (set_player q ps) ≡ find_peer other ps
unfolding find_peer set_player
find_peer-set_player q other [] h = refl
find_peer-set_player q other (p ∷ ps) h = elim (Bool-cases (p.peer == q.peer)) [
  | inl e ↦
      let same = ==→eq p.peer q.peer e in
      let mine : (q.peer == other) ≡ false = ne→== q.peer other (λ k. h (sym k)) in
      let his : (p.peer == other) ≡ false = ne→== p.peer other (λ k. h (sym k ∙ same)) in
      rw (e, find_peer, mine, his) refl
  | inr e ↦
      rw (e, find_peer)
        (ap (λ o. if p.peer == other then some p else o) (find_peer-set_player q other ps h))
]

Apart-same : (peer : ℕ) (s t : Server) → core t ≡ core s → Apart peer s t
Apart-same peer s t e = record {
  others = λ other h. ap (λ (k : Core). find_peer other k.players) e;
  bots = ap (λ (k : Core). k.bots) e;
}

-- The entry of `peer` was written, and then things were sent.
Apart-put : (q : Player) (s t : Server) → core t ≡ core (put_player q s) → Apart q.peer s t
Apart-put q s t e = record {
  others = λ other h.
      ap (λ (k : Core). find_peer other k.players) e ∙ find_peer-set_player q other s.players h;
  bots = ap (λ (k : Core). k.bots) e;
}

Apart-if :
    (b : Bool) (peer : ℕ) (s t u : Server)
    → Apart peer s t
    → Apart peer s u
    → Apart peer s (if b then t else u)
Apart-if b peer s t u = if_holds (Apart peer s) b t u

peer-count_chat : (now : ℕ) (p : Player) → (count_chat now p).peer ≡ p.peer
unfolding count_chat
peer-count_chat now p = elim (Bool-cases (leb (p.chat_window_start + chat_window) now)) [
  | inl e ↦ rw e refl
  | inr e ↦ rw e refl
]

module _ (env : Env) (p : Player) (s : Server) where
  on_hello-Apart : (o : Option HelloMsg) → Apart p.peer s (on_hello env p o s)
  unfolding on_hello register joined_player
  on_hello-Apart none = Apart-same p.peer s _ (core-kick env p _ s)
  on_hello-Apart (some hello) =
      Apart-if _ p.peer s _ _ (Apart-same p.peer s _ (core-kick env p _ s)) (
        Apart-if p.handshaked p.peer s s _ (Apart-same p.peer s s refl) (record {
          others = λ other h.
              ap (λ (k : Core). find_peer other k.players)
                (core-announce env (joined_player p hello s.next_id) (register p hello s))
              ∙ find_peer-set_player (joined_player p hello s.next_id) other s.players h;
          bots =
              ap (λ (k : Core). k.bots)
                (core-announce env (joined_player p hello s.next_id) (register p hello s));
        }))

  on_player_state-Apart : (o : Option PlayerStateMsg) → Apart p.peer s (on_player_state env p o s)
  unfolding on_player_state
  on_player_state-Apart none = Apart-same p.peer s s refl
  on_player_state-Apart (some msg) =
      let q = record p { state = msg.state; has_state = true } in
      Apart-if _ p.peer s s _ (Apart-same p.peer s s refl)
        (Apart-put q s _ (core-broadcast env _ _ (some p.peer) (tick_clock (put_player q s))))

  on_chat-Apart : (o : Option ChatMsg) → Apart p.peer s (on_chat env p o s)
  unfolding on_chat
  on_chat-Apart none = Apart-same p.peer s s refl
  on_chat-Apart (some msg) =
      let q = count_chat (env.clock s.reads) p in
      let t = put_player q (tick_clock s) in
      Apart-if (is_empty msg.text) p.peer s s (counted_chat env q msg.text t)
        (Apart-same p.peer s s refl)
        (subst (λ k. Apart k s (counted_chat env q msg.text t))
          (peer-count_chat (env.clock s.reads) p)
          (Apart-put q s (counted_chat env q msg.text t) (core-counted_chat env q msg.text t)))

  on_set_name-Apart : (o : Option SetNameMsg) → Apart p.peer s (on_set_name env p o s)
  unfolding on_set_name
  on_set_name-Apart none = Apart-same p.peer s s refl
  on_set_name-Apart (some msg) =
      let q = record p { name = sanitize_name msg.name } in
      Apart-if _ p.peer s s _ (Apart-same p.peer s s refl)
        (Apart-put q s _ (core-broadcast env _ _ none (put_player q s)))

  dispatch-Apart : (id : ℕ) (r : Reader) → Apart p.peer s (dispatch env id p r s)
  unfolding dispatch handle_hello handle_player_state handle_chat handle_set_name
  dispatch-Apart id r = Apart-if _ p.peer s _ _ (on_hello-Apart _) (
      Apart-if _ p.peer s _ _ (on_player_state-Apart _) (
        Apart-if _ p.peer s _ _ (on_chat-Apart _)
          (Apart-if _ p.peer s _ s (on_set_name-Apart _) (Apart-same p.peer s s refl))))

  on_packet-Apart : (o : Option ℕ) (r : Reader) → Apart p.peer s (on_packet env p o r s)
  unfolding on_packet
  on_packet-Apart none r = Apart-same p.peer s s refl
  on_packet-Apart (some id) r =
      Apart-if _ p.peer s _ _ (Apart-same p.peer s _ (core-kick env p _ s)) (dispatch-Apart id r)

-- Whatever bytes a client sends, the entries of the other connections stay what they were, and so do
-- the bots.
pub handle_packet-Apart :
    (env : Env) (peer : ℕ) (bytes : Bytes) (s : Server)
    → Apart peer s (handle_packet env peer bytes s)
unfolding handle_packet
handle_packet-Apart env peer bytes s = elim (Option-cases (find_peer peer s.players)) [
  | inl e ↦ rw (e, handle_packet) (Apart-same peer s s refl)
  | inr (p, e) ↦
      rw (e, handle_packet)
        (subst
          (λ k. Apart k s (
            on_packet env p (read_header (new_reader bytes)).0 (read_header (new_reader bytes)).1
              s))
          (find_peer-peer peer s.players p e)
          (on_packet-Apart env p s (read_header (new_reader bytes)).0
            (read_header (new_reader bytes)).1))
]
