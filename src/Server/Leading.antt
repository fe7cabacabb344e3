-- ===== src/Server/Leading.antt =====
-- `FirstPlayerWithState` of server/src/Server.cpp.
use f4mp.Base.{
  ◌≤◌, ◌<◌, Bool, true, false, ◌&&◌, Option, none, some, List, [], ◌∷◌, ◌++◌, ◌≡◌, sym, subst, inl,
  inr, arith, Bool-cases, if◌then◌else◌, All, All-map, All-append, append-nil, append_assoc,
}
use f4mp.Server.State.{Player}
use f4mp.Server.Bots.{is_better, first_from, first_player_with_state}

-- A player that a bot can follow.
abbrev is_leader : Player → Bool
is_leader p = p.handshaked && p.has_state

-- The choice among the players so far and the ones to come: a leader with the least id, if there is one.
abbrev pub LeastOf : Option Player → List Player → Type 0
LeastOf none ps = All (λ q. is_leader q ≡ false) ps
LeastOf (some p) ps = (is_leader p ≡ true) × All (λ q. is_leader q ≡ true → p.id ≤ q.id) ps

abbrev next_best : Option Player → Player → Option Player
next_best best p = if p.handshaked && p.has_state && is_better p best then some p else best

next_best-LeastOf :
    (best : Option Player) (seen : List Player) (p : Player)
    → LeastOf best seen
    → LeastOf (next_best best p) (seen ++ p ∷ [])
next_best-LeastOf none seen p h =
    elim (Bool-cases (p.handshaked && p.has_state && is_better p none)) [
      | inl c ↦
          let leads : is_leader p ≡ true = ground arith in
          let others =
            All-map (λ (q : Player). is_leader q ≡ false)
              (λ (q : Player). is_leader q ≡ true → p.id ≤ q.id) (λ q no yes. absurd (ground arith))
              seen h in
          rw c (
            leads,
            All-append (λ (q : Player). is_leader q ≡ true → p.id ≤ q.id) seen (p ∷ []) others
                ((λ yes. omega arith), tt),
          )
      | inr c ↦
          let idle : is_leader p ≡ false = ground arith in
          rw c (All-append (λ (q : Player). is_leader q ≡ false) seen (p ∷ []) h (idle, tt))
    ]
next_best-LeastOf (some b) seen p h =
    elim (Bool-cases (p.handshaked && p.has_state && is_better p (some b))) [
      | inl c ↦
          let leads : is_leader p ≡ true = ground arith in
          let less : p.id < b.id = ground arith in
          let others =
            All-map (λ (q : Player). is_leader q ≡ true → b.id ≤ q.id)
              (λ (q : Player). is_leader q ≡ true → p.id ≤ q.id)
              (λ q g yes. omega (arith, g yes, less)) seen h.1 in
          rw c (
            leads,
            All-append (λ (q : Player). is_leader q ≡ true → p.id ≤ q.id) seen (p ∷ []) others
                ((λ yes. omega arith), tt),
          )
      | inr c ↦ rw c (
        h.0,
        All-append (λ (q : Player). is_leader q ≡ true → b.id ≤ q.id) seen (p ∷ []) h.1
            ((λ yes. ground arith), tt),
      )
    ]

first_from-LeastOf :
    (ps seen : List Player) (best : Option Player)
    → LeastOf best seen
    → LeastOf (first_from best ps) (seen ++ ps)
unfolding first_from
first_from-LeastOf [] seen best h = subst (LeastOf best) (sym (append-nil seen)) h
first_from-LeastOf (p ∷ ps) seen best h =
    subst (LeastOf (first_from (next_best best p) ps)) (append_assoc seen (p ∷ []) ps)
      (first_from-LeastOf ps (seen ++ p ∷ []) (next_best best p) (next_best-LeastOf best seen p h))

-- The bots without a target follow the player with the least id among those that have shaken hands and
-- have a state; only if there is none such, they follow nobody. So the order of the map does not matter.
pub first_player_with_state-LeastOf : (ps : List Player) → LeastOf (first_player_with_state ps) ps
unfolding first_player_with_state
first_player_with_state-LeastOf ps = first_from-LeastOf ps [] none tt
