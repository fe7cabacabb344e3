-- ===== src/Server/Flood/Edge.antt =====
-- How many lines of chat pass the limit of server/src/Server.cpp at the edge of a window.
use f4mp.Base.{
  ℕ, zero, suc, ◌+◌, ◌-◌, true, false, some, List, [], ◌∷◌, map, ◌≡◌, ◌≢◌, refl, sym, ap, subst,
  ◌∙◌, inl, inr, arith, ltb, Bool-cases, if◌then◌else◌, is_empty, length, All, Bytes, Distinct,
}
use f4mp.Packet.{new_reader}
use f4mp.Protocol.Messages.{read_header, checked, ChatMsg, read_chat, id_chat}
use f4mp.Server.State.{Player, Server, Env, find_peer}
use f4mp.Server.Ids.{peers, find_peer-peer}
use f4mp.Server.Changes.Ids.{count_chat-same}
use f4mp.Server.Chatting.{chat_window, chat_burst, clean_chat, on_chat}
use f4mp.Server.ChatText.{IsLine, clean_chat_line, handle_packet_chat}
use f4mp.Server.Service.{received, handle_event, handle_events}
use f4mp.Server.Flood.{passed, repeat, passed_at_edge}
use f4mp.Server.Flood.Packets.{packets_to, packets_to-relayed, packets_to-counted_chat}
use f4mp.Server.Flood.Relayed.{chatted-Carries, counted, chatted}

-- A packet with a line of chat that is not empty.
pub record IsLinePacket (bytes : Bytes) : Type 0 where
  pub message : ChatMsg
  pub header : (read_header (new_reader bytes)).0 ≡ some id_chat
  pub read : (checked read_chat (read_header (new_reader bytes)).1).0 ≡ some message
  pub full : is_empty message.text ≡ false
  pub line : IsLine message.text

-- The next readings of the clock.
abbrev pub readings : Env → ℕ → ℕ → List ℕ
readings env from zero = []
readings env from (suc n) = env.clock from ∷ readings env (from + 1) n

module _ (env : Env) (peer q : ℕ) (other : q ≢ peer)
    (made : (bytes : Bytes) → env.packet_create bytes true ≡ true) (r : Player)
    (shaken_r : r.handshaked ≡ true) where
  packets_to-chatted :
      (p : Player) (text : Bytes) (s : Server)
      → find_peer peer s.players ≡ some p
      → Distinct (peers s.players)
      → find_peer q s.players ≡ some r
      → is_empty text ≡ false
      → IsLine text
      → packets_to q (chatted env peer q other p text s).sent
        ≡ packets_to q s.sent
          + (if ltb chat_burst (counted env peer q other p s).chat_window_count then 0 else 1)
  packets_to-chatted p text s found d heard full line =
      let at_peer = find_peer-peer peer s.players p found in
      let here = subst (λ k. find_peer k s.players ≡ some p) (sym at_peer) found in
      let e = packets_to-counted_chat env p s here q (λ k. other (k ∙ at_peer)) text in
      let whole : is_empty (clean_chat text) ≡ false =
        ap is_empty (clean_chat_line text line) ∙ full in
      let one =
        packets_to-relayed env q p.id (clean_chat text) r s.players made whole d heard shaken_r in
      elim (Bool-cases (ltb chat_burst (counted env peer q other p s).chat_window_count)) [
        | inl over ↦ rw (e, over) refl
        | inr within ↦ rw (e, within) (omega (arith, one))
      ]

  on_chat_full :
      (p : Player) (msg : ChatMsg) (s : Server)
      → is_empty msg.text ≡ false
      → on_chat env p (some msg) s ≡ chatted env peer q other p msg.text s
  unfolding on_chat
  on_chat_full p msg s full = rw full refl

  -- The other client gets exactly the lines that pass.
  packets_to-lines :
      (packets : List Bytes) (p : Player) (s : Server)
      → find_peer peer s.players ≡ some p
      → p.handshaked ≡ true
      → Distinct (peers s.players)
      → find_peer q s.players ≡ some r
      → All IsLinePacket packets
      → packets_to q (handle_events env (map (received peer) packets) s).sent
        ≡ packets_to q s.sent + passed p (readings env s.reads (length packets))
  unfolding handle_events handle_event passed
  packets_to-lines [] p s found shaken d heard lines = omega arith
  packets_to-lines (bytes ∷ rest) p s found shaken d heard (one, more) =
      let t = chatted env peer q other p (one.message).text s in
      let c = chatted-Carries env peer q other p (one.message).text s found in
      let e =
        handle_packet_chat env peer bytes p s found shaken one.header
        ∙ ap (λ o. on_chat env p o s) one.read
        ∙ on_chat_full p (one.message) s one.full in
      let got = packets_to-chatted p (one.message).text s found d heard one.full one.line in
      let b =
        packets_to-lines rest (counted env peer q other p s) t c.present
          ((count_chat-same (env.clock s.reads) p).1 ∙ shaken) (subst Distinct (sym c.tables) d)
          (c.listener ∙ heard) more in
      let later = λ (u : Server). handle_events env (map (received peer) rest) u in
      let next = λ (n : ℕ). passed (counted env peer q other p s) (readings env n (length rest)) in
      let sum = ap next c.reads in
      subst
        (λ (u : Server).
          packets_to q (later u).sent
          ≡ packets_to q s.sent + passed p (readings env s.reads (suc (length rest))))
        (sym e) (omega (arith, b, got, sum))

-- Yet another client can get 11 packets of chat of one client within two nanoseconds: where one message
-- opened the window of the sender, five lines that are read at its last nanosecond and six at the next
-- one are all passed on. The conditions are that both have shaken hands, that the peers in the map are
-- distinct, that the lines are not empty, and that ENet makes the packets.
pub packets_to-handle_events_at_edge :
    (env : Env) (peer q : ℕ) (packets : List Bytes) (p r : Player) (s : Server)
    → q ≢ peer
    → ((bytes : Bytes) → env.packet_create bytes true ≡ true)
    → find_peer peer s.players ≡ some p
    → p.handshaked ≡ true
    → find_peer q s.players ≡ some r
    → r.handshaked ≡ true
    → Distinct (peers s.players)
    → p.chat_window_count ≡ 1
    → length packets ≡ 11
    → All IsLinePacket packets
    → readings env s.reads 11
      ≡ repeat 5
          (p.chat_window_start + chat_window - 1)
          (repeat 6 (p.chat_window_start + chat_window) [])
    → packets_to q (handle_events env (map (received peer) packets) s).sent
      ≡ packets_to q s.sent + 11
packets_to-handle_events_at_edge env peer q packets p r s other made found shaken heard shaken_r d
      count eleven lines times =
    packets_to-lines env peer q other made r shaken_r packets p s found shaken d heard lines
    ∙ ap (λ k. packets_to q s.sent + k)
        (ap (λ n. passed p (readings env s.reads n)) eleven
          ∙ ap (passed p) times
          ∙ passed_at_edge p count)
