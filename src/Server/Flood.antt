-- ===== src/Server/Flood.antt =====
-- The windows of `HandleChat` in server/src/Server.cpp, apart from what is sent: which messages stay
-- within the limit.
pub mod Packets
pub mod Relayed
pub mod Edge
use f4mp.Base.{
  ℕ, zero, suc, ◌*◌, All-map, ◌+◌, ◌-◌, ◌%◌, ◌≤◌, ◌<◌, false, List, [], ◌∷◌, ◌≡◌, refl, ap, ◌∙◌,
  inl, inr, arith, ltb, leb, le→ltb, Bool-cases, if◌then◌else◌, length, All, u32_mod, min,
}
use f4mp.Server.State.{Player}
use f4mp.Server.Chatting.{chat_window, chat_burst, count_chat}

-- How many of the messages that a player sends at these times pass the limit.
pub passed : Player → List ℕ → ℕ
passed p [] = 0
passed p (t ∷ ts) =
    let q = count_chat t p in (if ltb chat_burst q.chat_window_count then 0 else 1) + passed q ts

-- Within the window of a player, no more pass than the window has left.
passed_in_window :
    (p : Player) (ts : List ℕ)
    → All (λ t. t < p.chat_window_start + chat_window) ts
    → p.chat_window_count + length ts < u32_mod
    → passed p ts + min p.chat_window_count chat_burst ≤ chat_burst
unfolding passed count_chat
passed_in_window p [] h room = omega arith
passed_in_window p (t ∷ ts) h room = elim (Bool-cases (leb (p.chat_window_start + chat_window) t)) [
  | inl e ↦ absurd (ground arith)
  | inr e ↦
      let q = record p { chat_window_count = (p.chat_window_count + 1) % u32_mod } in
      let rest = passed_in_window q ts h.1 (omega arith) in rw e (ground (arith, rest))
]

passed_in_span :
    (p : Player) (from : ℕ) (ts : List ℕ)
    → All (λ t. (from ≤ t) × (t < from + chat_window)) ts
    → p.chat_window_count + length ts < u32_mod
    → length ts + 1 < u32_mod
    → passed p ts + min p.chat_window_count chat_burst ≤ 2 * chat_burst
unfolding passed count_chat
passed_in_span p from [] h room rounds = omega arith
passed_in_span p from (t ∷ ts) h room rounds =
    elim (Bool-cases (leb (p.chat_window_start + chat_window) t)) [
      | inl e ↦
          let q = record p { chat_window_start = t; chat_window_count = 1 } in
          let within = All-map _ (λ k. k < t + chat_window) (λ k g. omega arith) ts h.1 in
          let rest = passed_in_window q ts within (omega arith) in rw e (ground (arith, rest))
      | inr e ↦
          let q = record p { chat_window_count = (p.chat_window_count + 1) % u32_mod } in
          let rest = passed_in_span q from ts h.1 (omega arith) (omega arith) in
          rw e (ground (arith, rest))
    ]

-- Whatever the window of a client holds, at most 12 of its messages that arrive within a span of 5
-- seconds pass the limit. The counter must not wrap: fewer than 2 ^ 32 messages.
pub passed-le :
    (p : Player) (from : ℕ) (ts : List ℕ)
    → All (λ t. (from ≤ t) × (t < from + chat_window)) ts
    → p.chat_window_count + length ts + 1 < u32_mod
    → passed p ts ≤ 2 * chat_burst
passed-le p from ts h room = omega (arith, passed_in_span p from ts h (omega arith) (omega arith))

abbrev pub repeat : ℕ → ℕ → List ℕ → List ℕ
repeat zero t ts = ts
repeat (suc n) t ts = t ∷ repeat n t ts

passed_none : (p : Player) → passed p [] ≡ 0
unfolding passed
passed_none p = refl

passed_new :
    (p : Player) (t : ℕ) (ts : List ℕ)
    → p.chat_window_start + chat_window ≤ t
    → passed p (t ∷ ts) ≡ 1 + passed (record p { chat_window_start = t; chat_window_count = 1 }) ts
unfolding passed count_chat
passed_new p t ts h = elim (Bool-cases (leb (p.chat_window_start + chat_window) t)) [
  | inl e ↦ rw e
  | inr e ↦ absurd (ground arith)
]

passed_old :
    (p : Player) (n t : ℕ) (ts : List ℕ)
    → t < p.chat_window_start + chat_window
    → p.chat_window_count + n ≤ chat_burst
    → passed p (repeat n t ts)
      ≡ n + passed (record p { chat_window_count = p.chat_window_count + n }) ts
unfolding passed count_chat
passed_old p zero t ts h k =
    let same : p.chat_window_count + 0 ≡ p.chat_window_count = omega arith in rw same (omega arith)
passed_old p (suc n) t ts h k = elim (Bool-cases (leb (p.chat_window_start + chat_window) t)) [
  | inl e ↦ absurd (ground arith)
  | inr e ↦
      let q = record p { chat_window_count = p.chat_window_count + 1 } in
      let one : (p.chat_window_count + 1) % u32_mod ≡ p.chat_window_count + 1 = omega arith in
      let low : ltb chat_burst (p.chat_window_count + 1) ≡ false = le→ltb _ _ (omega arith) in
      let sum : p.chat_window_count + 1 + n ≡ p.chat_window_count + suc n = omega arith in
      rw (e, one, low) (rw (passed_old q n t ts h (omega arith), sum) (omega arith))
]

-- Yet more than 6 can pass within 5 seconds: where one message opened a window, five messages at
-- its last nanosecond and six more at the next one all pass, 11 within two nanoseconds.
pub passed_at_edge :
    (p : Player)
    → p.chat_window_count ≡ 1
    → let close = p.chat_window_start + chat_window in
      passed p (repeat 5 (close - 1) (repeat 6 close [])) ≡ 11
passed_at_edge p count =
    let close = p.chat_window_start + chat_window in
    let full = record p { chat_window_count = p.chat_window_count + 5 } in
    let fresh = record p { chat_window_start = close; chat_window_count = 1 } in
    passed_old p 5 (close - 1) (repeat 6 close []) (omega arith) (omega arith)
    ∙ ap (◌+◌ 5) (
        passed_new full close (repeat 5 close []) (omega arith)
        ∙ ap (◌+◌ 1) (passed_old fresh 5 close [] (omega arith) (omega arith)))
    ∙ ap (λ k. 5 + (1 + (5 + k))) (passed_none (record fresh { chat_window_count = 6 }))
