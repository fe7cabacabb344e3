-- ===== src/Server/Flood/Relayed.antt =====
-- The chat limit of server/src/Server.cpp over a series of packets, by what another client gets.
use f4mp.Base.{
  if_holds, ℕ, ◌+◌, ◌≤◌, ◌<◌, not, ◌||◌, Option, none, some, List, [], ◌∷◌, ◌≡◌, ◌≢◌, refl, sym, ap,
  subst, ◌∙◌, ltb, is_empty, length, All, Bytes,
}
use f4mp.Packet.{new_reader}
use f4mp.Protocol.Messages.{Channel, read_header, id_chat}
use f4mp.Server.State.{
  Player, Server, Env, find_peer, set_player, put_player, tick_clock, effect, peer_send,
}
use f4mp.Server.Frame.{Core, core-counted_chat}
use f4mp.Server.Sending.{is_reliable, send, is_except, broadcast_to, broadcast}
use f4mp.Server.Ids.{peers, find_peer-peer, peers-set_player}
use f4mp.Server.Isolation.{find_peer-set_player}
use f4mp.Server.Joined.{find_peer-set_player_same}
use f4mp.Server.Changes.Ids.{count_chat-same}
use f4mp.Server.Chatting.{
  chat_window, chat_burst, count_chat, clean_chat, slow_down, relay_chat, counted_chat,
}
use f4mp.Server.Flood.{passed}
use f4mp.Server.Flood.Packets.{packets_to}

module _ (env : Env) where
  reads-send :
      (peer : ℕ) (channel : Channel) (bytes : Bytes) (s : Server)
      → (send env peer channel bytes s).reads ≡ s.reads
  unfolding send
  reads-send peer channel bytes s =
      if_holds (λ (t : Server). t.reads ≡ s.reads) (env.packet_create bytes (is_reliable channel))
        (effect (peer_send peer channel bytes) s) s refl refl

  reads-broadcast_to :
      (channel : Channel) (bytes : Bytes) (except : Option ℕ) (ps : List Player) (s : Server)
      → (broadcast_to env channel bytes except ps s).reads ≡ s.reads
  unfolding broadcast_to
  reads-broadcast_to channel bytes except [] s = refl
  reads-broadcast_to channel bytes except (p ∷ ps) s =
      reads-broadcast_to channel bytes except ps _
      ∙ if_holds (λ (t : Server). t.reads ≡ s.reads) (not p.handshaked || is_except except p) s
          (send env p.peer channel bytes s) refl (reads-send p.peer channel bytes s)

  reads-counted_chat :
      (p : Player) (text : Bytes) (s : Server) → (counted_chat env p text s).reads ≡ s.reads
  unfolding counted_chat slow_down relay_chat broadcast
  reads-counted_chat p text s =
      let same = λ (t : Server). t.reads ≡ s.reads in
      if_holds same (ltb chat_burst p.chat_window_count) _ _
        (if_holds same _ _ s (reads-send p.peer Channel.reliable _ s) refl)
        (if_holds same (is_empty (clean_chat text)) s _ refl
          (reads-broadcast_to Channel.reliable _ none s.players s))

module _ (env : Env) (peer q : ℕ) (other : q ≢ peer) where
  abbrev pub counted : Player → Server → Player
  counted p s = count_chat (env.clock s.reads) p

  abbrev pub chatted : Player → Bytes → Server → Server
  chatted p text s = counted_chat env (counted p s) text (put_player (counted p s) (tick_clock s))

  -- A message leaves the player with its new window, the other entries and one reading more.
  pub record Carries (p : Player) (s t : Server) : Type 0 where
    pub present : find_peer peer t.players ≡ some (counted p s)
    pub tables : peers t.players ≡ peers s.players
    pub listener : find_peer q t.players ≡ find_peer q s.players
    pub reads : t.reads ≡ s.reads + 1

  pub chatted-Carries :
      (p : Player) (text : Bytes) (s : Server)
      → find_peer peer s.players ≡ some p
      → Carries p s (chatted p text s)
  chatted-Carries p text s found =
      let a = counted p s in
      let at_peer : a.peer ≡ peer =
        (count_chat-same (env.clock s.reads) p).0 ∙ find_peer-peer peer s.players p found in
      let same =
        ap (λ (k : Core). k.players) (core-counted_chat env a text (put_player a (tick_clock s))) in
      record {
        present =
            ap (find_peer peer) same
            ∙ subst (λ k. find_peer k (set_player a s.players) ≡ some a) at_peer
                (find_peer-set_player_same a p s.players
                  (subst (λ k. find_peer k s.players ≡ some p) (sym at_peer) found));
        tables = ap peers same ∙ peers-set_player a s.players;
        listener =
            ap (find_peer q) same ∙ find_peer-set_player a q s.players (λ e. other (e ∙ at_peer));
        reads = reads-counted_chat env a text (put_player a (tick_clock s));
      }

  abbrev IsChat : Bytes → Type 0
  IsChat bytes = (read_header (new_reader bytes)).0 ≡ some id_chat

  abbrev InSpan : ℕ → ℕ → Type 0
  InSpan from t = (from ≤ t) × (t < from + chat_window)

  -- The packets that the other client got are at most the messages that pass at some times.
  record Bounded (from n : ℕ) (p : Player) (s t : Server) : Type 0 where
    times : List ℕ
    short : length times ≤ n
    span : All (InSpan from) times
    packets : packets_to q t.sent ≤ packets_to q s.sent + passed p times
