-- ===== src/Server/ChatText.antt =====
-- What `HandleChat` of server/src/Server.cpp passes on of a packet of chat.
use f4mp.Base.{
  ℕ, ◌+◌, ◌≤◌, ◌<◌, true, false, none, some, List, [], ◌∷◌, ◌++◌, ◌==◌, ==→eq, ◌≡◌, ◌≢◌, ◌⊎◌, refl,
  sym, ap, subst, ◌∙◌, inl, inr, arith, Bool-cases, ltb, if◌then◌else◌, is_empty, keep, keep-All,
  All-keep, length-keep-le, take, take_all, length, length-take-le, All, All-map, Bytes, append-nil,
}
use f4mp.Packet.{new_reader}
use f4mp.Protocol.Messages.{
  Channel, reliable, encode, read_header, checked, ChatMsg, read_chat, id_chat, id_chat_broadcast,
  write_chat_broadcast, max_chat_bytes,
}
use f4mp.Server.State.{Player, Server, Env, Effect, find_peer, set_player, put_player, tick_clock}
use f4mp.Server.Recipients.{is_recipient, sends, deliveries, sent-broadcast}
use f4mp.Server.Ids.{find_peer-peer}
use f4mp.Server.Changes.Ids.{count_chat-same}
use f4mp.Server.Chatting.{
  chat_burst, count_chat, is_text, clean_chat, relay_chat, counted_chat, on_chat, handle_chat,
}
use f4mp.Server.Handlers.{dispatch, on_packet, handle_packet}

-- A byte that is no control character.
abbrev pub IsPrintable : ℕ → Type 0
IsPrintable c = (0x20 ≤ c) × (c ≢ 0x7F)

-- The second text is the first without its control characters.
pub data Sifts : Bytes → Bytes → Type 0 where
  done : Sifts [] []
  kept : {c : ℕ} {xs ys : Bytes} → IsPrintable c → Sifts xs ys → Sifts (c ∷ xs) (c ∷ ys)
  dropped : {c : ℕ} {xs ys : Bytes} → ¬ IsPrintable c → Sifts xs ys → Sifts (c ∷ xs) ys

-- A line of chat: at most 512 bytes, and none of them a control character.
pub record IsLine (t : Bytes) : Type 0 where
  pub short : length t ≤ max_chat_bytes
  pub printable : All IsPrintable t

is_text-IsPrintable : (c : ℕ) → is_text c ≡ true → IsPrintable c
is_text-IsPrintable c e = (ground arith, λ h. ground arith)

IsPrintable-is_text : (c : ℕ) → IsPrintable c → is_text c ≡ true
IsPrintable-is_text c (low, other) = ground arith

keep-Sifts : (t : Bytes) → Sifts t (keep is_text t)
unfolding keep
keep-Sifts [] = done
keep-Sifts (c ∷ cs) = elim (Bool-cases (is_text c)) [
  | inl e ↦ rw e (kept (is_text-IsPrintable c e) (keep-Sifts cs))
  | inr e ↦ rw e (dropped (λ h. ground (arith, IsPrintable-is_text c h)) (keep-Sifts cs))
]

clean_chat_lem : (t : Bytes) → clean_chat t ≡ keep is_text (take max_chat_bytes t)
unfolding clean_chat
clean_chat_lem t = elim (Bool-cases (ltb max_chat_bytes (length t))) [
  | inl e ↦ rw e refl
  | inr e ↦ rw e (ap (keep is_text) (sym (take_all max_chat_bytes t (ground arith))))
]

clean_chat-Sifts : (t : Bytes) → Sifts (take max_chat_bytes t) (clean_chat t)
clean_chat-Sifts t = rw (clean_chat_lem t) (keep-Sifts (take max_chat_bytes t))

clean_chat-IsLine : (t : Bytes) → IsLine (clean_chat t)
clean_chat-IsLine t =
    let few = length-take-le max_chat_bytes t in
    let fewer = length-keep-le is_text (take max_chat_bytes t) in
    rw (clean_chat_lem t) (record {
      short = omega (arith, few, fewer);
      printable =
          All-map _ IsPrintable is_text-IsPrintable _ (keep-All is_text (take max_chat_bytes t));
    })

-- A line stays as it is.
pub clean_chat_line : (t : Bytes) → IsLine t → clean_chat t ≡ t
clean_chat_line t h =
    clean_chat_lem t
    ∙ (ap (keep is_text) (take_all max_chat_bytes t h.short)
        ∙ All-keep is_text t (All-map IsPrintable _ IsPrintable-is_text t h.printable))

-- `HandlePacket` with a packet of chat of a client that has shaken hands.
pub handle_packet_chat :
    (env : Env) (peer : ℕ) (bytes : Bytes) (p : Player) (s : Server)
    → find_peer peer s.players ≡ some p
    → p.handshaked ≡ true
    → (read_header (new_reader bytes)).0 ≡ some id_chat
    → handle_packet env peer bytes s
      ≡ on_chat env p (checked read_chat (read_header (new_reader bytes)).1).0 s
unfolding handle_packet on_packet dispatch handle_chat
handle_packet_chat env peer bytes p s found shaken header =
    rw (found, handle_packet) (rw header (rw shaken refl))

-- The new value of a player that keeps its peer and its handshake makes no difference to who hears.
sends-set_player :
    (channel : Channel) (bytes : Bytes) (p q : Player) (ps : List Player)
    → find_peer q.peer ps ≡ some p
    → q.handshaked ≡ p.handshaked
    → sends channel bytes (keep (is_recipient none) (set_player q ps))
      ≡ sends channel bytes (keep (is_recipient none) ps)
unfolding set_player find_peer keep
sends-set_player channel bytes p q [] f h = refl
sends-set_player channel bytes p q (r ∷ ps) f h = elim (Bool-cases (r.peer == q.peer)) [
  | inl e ↦
      let same : r ≡ p = ground arith in
      let shaken : q.handshaked ≡ r.handshaked = h ∙ ap (λ (x : Player). x.handshaked) (sym same) in
      let peer = ==→eq r.peer q.peer e in
      elim (Bool-cases r.handshaked) [
        | inl a ↦ rw (e, keep, shaken, a, sym peer) refl
        | inr a ↦ rw (e, keep, shaken, a) refl
      ]
  | inr e ↦
      let rest =
        sends-set_player channel bytes p q ps
          (subst (λ b. (if b then some r else find_peer q.peer ps) ≡ some p) e f) h in
      elim (Bool-cases r.handshaked) [
        | inl a ↦ rw (e, keep, a) (ap (◌∷◌ (Effect.peer_send r.peer channel bytes)) rest)
        | inr a ↦ rw (e, keep, a) rest
      ]
]

-- The calls that pass a line on: none for an empty one.
abbrev pub relayed : Env → ℕ → Bytes → List Player → List Effect
relayed env id line ps =
    if is_empty line
    then []
    else deliveries env reliable
        (encode id_chat_broadcast (write_chat_broadcast (record { from = id; text = line }))) none
        ps

-- What of a text is passed on: its first 512 bytes without the control characters, to each player that
-- has shaken hands under the id of the sender, if anything is left. A line is passed on as it is.
pub record Relays (env : Env) (p : Player) (text : Bytes) (s t : Server) : Type 0 where
  pub line : Bytes
  pub sifts : Sifts (take max_chat_bytes text) line
  pub fits : IsLine line
  pub whole : IsLine text → line ≡ text
  pub sent : t.sent ≡ s.sent ++ relayed env p.id line s.players

-- The limit leaves room for a message: the window of 5 seconds is over, or has had fewer than 6.
abbrev pub HasTurn : Player → ℕ → Type 0
HasTurn p now = (p.chat_window_start + 5_000_000_000 ≤ now) ⊎ (p.chat_window_count < 6)

HasTurn-count_chat :
    (p : Player) (now : ℕ)
    → HasTurn p now
    → ltb chat_burst (count_chat now p).chat_window_count ≡ false
unfolding count_chat
HasTurn-count_chat p now (inl over) = ground arith
HasTurn-count_chat p now (inr few) = ground arith

module _ (env : Env) (p : Player) (s : Server) (here : find_peer p.peer s.players ≡ some p) where
  pub sent-relay_chat :
      (q : Player) (line : Bytes)
      → (q.peer ≡ p.peer) × (q.handshaked ≡ p.handshaked) × (q.id ≡ p.id)
      → (relay_chat env q line (put_player q (tick_clock s))).sent
        ≡ s.sent ++ relayed env p.id line s.players
  unfolding relay_chat
  sent-relay_chat q [] same = sym (append-nil s.sent)
  sent-relay_chat q (c ∷ cs) (peer, shaken, id) =
      let bytes =
        encode id_chat_broadcast (write_chat_broadcast (record { from = q.id; text = c ∷ cs })) in
      let here_too = subst (λ k. find_peer k s.players ≡ some p) (sym peer) here in
      sent-broadcast env reliable bytes none (put_player q (tick_clock s))
      ∙ ap (λ es. s.sent ++ (if env.packet_create bytes true then es else []))
          (sends-set_player reliable bytes p q s.players here_too shaken)
      ∙ ap (λ k. s.sent ++ relayed env k (c ∷ cs) s.players) id

  sent-on_chat :
      (text : Bytes)
      → HasTurn p (env.clock s.reads)
      → (on_chat env p (some (record { text = text })) s).sent
        ≡ s.sent ++ relayed env p.id (clean_chat text) s.players
  unfolding on_chat counted_chat clean_chat keep max_chat_bytes
  sent-on_chat [] turn = sym (append-nil s.sent)
  sent-on_chat (c ∷ cs) turn = rw (HasTurn-count_chat p (env.clock s.reads) turn) (
      sent-relay_chat (count_chat (env.clock s.reads) p) (clean_chat (c ∷ cs))
        (count_chat-same (env.clock s.reads) p))

-- A packet of chat of a client that has shaken hands, while the limit leaves room: the first 512 bytes
-- of its text without the control characters are passed on, under the id of the client, to each player
-- that has shaken hands, and nothing else is sent; if nothing is left of the text, nothing is sent. What
-- is passed on has at most 512 bytes, and a text that has no more and no control character is passed on
-- as it is.
pub handle_packet-Relays :
    (env : Env) (peer : ℕ) (bytes : Bytes) (p : Player) (msg : ChatMsg) (s : Server)
    → find_peer peer s.players ≡ some p
    → p.handshaked ≡ true
    → (read_header (new_reader bytes)).0 ≡ some id_chat
    → (checked read_chat (read_header (new_reader bytes)).1).0 ≡ some msg
    → HasTurn p (env.clock s.reads)
    → Relays env p msg.text s (handle_packet env peer bytes s)
handle_packet-Relays env peer bytes p msg s found shaken header got turn =
    let here =
      subst (λ k. find_peer k s.players ≡ some p) (sym (find_peer-peer peer s.players p found))
        found in
    record {
      line = clean_chat msg.text;
      sifts = clean_chat-Sifts msg.text;
      fits = clean_chat-IsLine msg.text;
      whole = clean_chat_line msg.text;
      sent =
          ap (λ (t : Server). t.sent)
            (handle_packet_chat env peer bytes p s found shaken header
              ∙ ap (λ o. on_chat env p o s) got)
          ∙ sent-on_chat env p s here msg.text turn;
    }
