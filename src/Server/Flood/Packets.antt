-- ===== src/Server/Flood/Packets.antt =====
-- How many packets another client gets of a message of chat: server/src/Server.cpp, `HandleChat`.
use f4mp.Base.{
  if_holds, ℕ, ◌+◌, ◌≤◌, Bool, true, false, none, some, List, [], ◌∷◌, ◌++◌, ◌==◌, ==→eq, ne→==,
  ◌≡◌, ◌≢◌, refl, sym, ap, subst, ◌∙◌, inl, inr, arith, Bool-cases, ltb, if◌then◌else◌, is_empty,
  keep, Bytes, Distinct, Fresh,
}
use f4mp.Protocol.Messages.{Channel}
use f4mp.Server.State.{
  Player, Server, Env, Effect, peer_send, find_peer, put_player, tick_clock, effect,
}
use f4mp.Server.Sending.{is_reliable, send}
use f4mp.Server.Recipients.{is_recipient, sends}
use f4mp.Server.Ids.{peers}
use f4mp.Server.Changes.Ids.{count_chat-same}
use f4mp.Server.Chatting.{chat_burst, count_chat, clean_chat, slow_down, counted_chat}
use f4mp.Server.ChatText.{relayed, sent-relay_chat}

abbrev is_to : ℕ → Effect → Bool
is_to q (peer_send k channel bytes) = k == q
is_to q _ = false

-- How many packets are sent to a client.
abbrev pub packets_to : ℕ → List Effect → ℕ
packets_to q [] = 0
packets_to q (e ∷ es) = (if is_to q e then 1 else 0) + packets_to q es

packets_to-append :
    (q : ℕ) (es fs : List Effect) → packets_to q (es ++ fs) ≡ packets_to q es + packets_to q fs
packets_to-append q [] fs = omega arith
packets_to-append q (e ∷ es) fs = omega (arith, packets_to-append q es fs)

module _ (channel : Channel) (bytes : Bytes) (q : ℕ) where
  abbrev sent_to : List Player → ℕ
  sent_to ps = packets_to q (sends channel bytes (keep (is_recipient none) ps))

  sent_to-Fresh : (ps : List Player) → Fresh q (peers ps) → sent_to ps ≡ 0
  unfolding keep
  sent_to-Fresh [] h = refl
  sent_to-Fresh (p ∷ ps) h =
      let other = ne→== p.peer q h.0 in
      elim (Bool-cases p.handshaked) [
        | inl a ↦ rw (a, other) (omega (arith, sent_to-Fresh ps h.1))
        | inr a ↦ rw a (sent_to-Fresh ps h.1)
      ]

  -- A client that has shaken hands gets one, and no client gets more.
  sent_to-le : (ps : List Player) → Distinct (peers ps) → sent_to ps ≤ 1
  unfolding keep
  sent_to-le [] h = omega arith
  sent_to-le (p ∷ ps) h =
      let rest = sent_to-le ps h.1 in
      elim (Bool-cases p.handshaked) [
        | inl a ↦ elim (Bool-cases (p.peer == q)) [
          | inl e ↦
              let none_left =
                sent_to-Fresh ps (subst (λ k. Fresh k (peers ps)) (==→eq p.peer q e) h.0) in
              rw (a, e) (omega (arith, none_left))
          | inr e ↦ rw (a, e) (omega (arith, rest))
        ]
        | inr a ↦ rw a rest
      ]

  sent_to_listener :
      (r : Player) (ps : List Player)
      → Distinct (peers ps)
      → find_peer q ps ≡ some r
      → r.handshaked ≡ true
      → sent_to ps ≡ 1
  unfolding keep find_peer
  sent_to_listener r [] h f shaken = absurd (cc)
  sent_to_listener r (p ∷ ps) h f shaken = elim (Bool-cases (p.peer == q)) [
    | inl e ↦
        let same : p ≡ r = ground arith in
        let a : p.handshaked ≡ true = ap (λ (x : Player). x.handshaked) same ∙ shaken in
        let none_left = sent_to-Fresh ps (subst (λ k. Fresh k (peers ps)) (==→eq p.peer q e) h.0) in
        rw (a, e) (omega (arith, none_left))
    | inr e ↦
        let rest =
          sent_to_listener r ps h.1
            (subst (λ b. (if b then some p else find_peer q ps) ≡ some r) e f) shaken in
        elim (Bool-cases p.handshaked) [
          | inl a ↦ rw (a, e) (omega (arith, rest))
          | inr a ↦ rw a rest
        ]
  ]

module _ (env : Env) (q : ℕ) where
  made_if :
      (b : Bool) (bytes : Bytes) (ps : List Player)
      → Distinct (peers ps)
      → packets_to q (if b then sends Channel.reliable bytes (keep (is_recipient none) ps) else [])
        ≤ 1
  made_if true bytes ps h = sent_to-le Channel.reliable bytes q ps h
  made_if false bytes ps h = omega arith

  pub packets_to-relayed-le :
      (id : ℕ) (line : Bytes) (ps : List Player)
      → Distinct (peers ps)
      → packets_to q (relayed env id line ps) ≤ 1
  packets_to-relayed-le id [] ps h = omega arith
  packets_to-relayed-le id (c ∷ cs) ps h = made_if (env.packet_create _ true) _ ps h

  pub packets_to-relayed :
      (id : ℕ) (line : Bytes) (r : Player) (ps : List Player)
      → ((bytes : Bytes) → env.packet_create bytes true ≡ true)
      → is_empty line ≡ false
      → Distinct (peers ps)
      → find_peer q ps ≡ some r
      → r.handshaked ≡ true
      → packets_to q (relayed env id line ps) ≡ 1
  packets_to-relayed id line r ps made full h f shaken =
      rw (full, made _) (sent_to_listener Channel.reliable _ q r ps h f shaken)

packets_to-send :
    (env : Env) (q peer : ℕ) (channel : Channel) (bytes : Bytes) (u : Server)
    → q ≢ peer
    → packets_to q (send env peer channel bytes u).sent ≡ packets_to q u.sent
unfolding send
packets_to-send env q peer channel bytes u other =
    let unlike : (peer == q) ≡ false = ne→== peer q (λ e. other (sym e)) in
    if_holds (λ (t : Server). packets_to q t.sent ≡ packets_to q u.sent)
      (env.packet_create bytes (is_reliable channel)) (effect (peer_send peer channel bytes) u) u
      (packets_to-append q u.sent (peer_send peer channel bytes ∷ []) ∙ rw unlike (omega arith))
      refl

-- Only the sender is told to slow down.
packets_to-slow_down :
    (env : Env) (q : ℕ) (a : Player) (u : Server)
    → q ≢ a.peer
    → packets_to q (slow_down env a u).sent ≡ packets_to q u.sent
unfolding slow_down
packets_to-slow_down env q a u other =
    if_holds (λ (t : Server). packets_to q t.sent ≡ packets_to q u.sent)
      (a.chat_window_count == chat_burst + 1) _ u
      (packets_to-send env q a.peer Channel.reliable _ u other) refl

module _ (env : Env) (p : Player) (s : Server) (here : find_peer p.peer s.players ≡ some p) (q : ℕ)
    (other : q ≢ p.peer) where
  abbrev pub after : Player
  after = count_chat (env.clock s.reads) p

  abbrev pub stored : Server
  stored = put_player after (tick_clock s)

  pub packets_to-counted_chat :
      (text : Bytes)
      → packets_to q (counted_chat env after text stored).sent
        ≡ packets_to q s.sent
          + (if ltb chat_burst after.chat_window_count
              then 0
              else packets_to q (relayed env p.id (clean_chat text) s.players))
  unfolding counted_chat
  packets_to-counted_chat text = elim (Bool-cases (ltb chat_burst after.chat_window_count)) [
    | inl e ↦ rw e (
        packets_to-slow_down env q after stored
          (λ k. other (k ∙ (count_chat-same (env.clock s.reads) p).0))
        ∙ omega arith)
    | inr e ↦ rw e (
        ap (packets_to q) (
          sent-relay_chat env p s here after (clean_chat text)
            (count_chat-same (env.clock s.reads) p))
        ∙ packets_to-append q s.sent _)
  ]
