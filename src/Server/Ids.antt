-- ===== src/Server/Ids.antt =====
-- The ids in use on the server, and what the changes of the player map do to them.
use f4mp.Base.{
  ℕ, Bool, true, false, none, some, List, [], ◌∷◌, ◌++◌, ◌==◌, ==→eq, ◌≡◌, refl, sym, ap, subst,
  ◌∙◌, inl, inr, arith, Bool-cases, All, Distinct, Fresh, Adds, here, there, ==_ne,
}
use f4mp.Server.State.{Player, Bot, find_peer, set_player, erase_peer}
use f4mp.Server.Bots.{find_bot, erase_bot}

abbrev pub peers : List Player → List ℕ
peers [] = []
peers (p ∷ ps) = p.peer ∷ peers ps

-- Only a player that has shaken hands has an id.
abbrev pub with_id : Bool → ℕ → List ℕ → List ℕ
with_id true id ids = id ∷ ids
with_id false id ids = ids

abbrev pub player_ids : List Player → List ℕ → List ℕ
player_ids [] rest = rest
player_ids (p ∷ ps) rest = with_id p.handshaked p.id (player_ids ps rest)

abbrev pub bot_ids : List Bot → List ℕ
bot_ids [] = []
bot_ids (b ∷ bs) = b.id ∷ bot_ids bs

pub find_peer-peer :
    (peer : ℕ) (ps : List Player) (p : Player) → find_peer peer ps ≡ some p → p.peer ≡ peer
unfolding find_peer
find_peer-peer peer [] p h = cc
find_peer-peer peer (q ∷ ps) p h = elim (Bool-cases (q.peer == peer)) [
  | inl e ↦
      let same : q ≡ p = ground arith in
      subst (λ (r : Player). r.peer ≡ peer) same (==→eq q.peer peer e)
  | inr e ↦ find_peer-peer peer ps p (ground arith)
]

pub peers-set_player : (q : Player) (ps : List Player) → peers (set_player q ps) ≡ peers ps
unfolding set_player
peers-set_player q [] = refl
peers-set_player q (p ∷ ps) = elim (Bool-cases (p.peer == q.peer)) [
  | inl e ↦ rw e (ap (λ n. n ∷ peers ps) (sym (==→eq p.peer q.peer e)))
  | inr e ↦ rw e (ap (◌∷◌ p.peer) (peers-set_player q ps))
]

with_id-Adds :
    {n : ℕ} {xs ys : List ℕ} (b : Bool) (id : ℕ)
    → Adds n xs ys
    → Adds n (with_id b id xs) (with_id b id ys)
with_id-Adds true id a = there a
with_id-Adds false id a = a

pub player_ids-Adds :
    {n : ℕ} {xs ys : List ℕ} (ps : List Player)
    → Adds n xs ys
    → Adds n (player_ids ps xs) (player_ids ps ys)
player_ids-Adds [] a = a
player_ids-Adds (p ∷ ps) a = with_id-Adds p.handshaked p.id (player_ids-Adds ps a)

-- A player keeps its id, or has none before and after: the ids stay.
pub player_ids-set_player_same :
    (p q : Player) (ps : List Player) (rest : List ℕ)
    → find_peer q.peer ps ≡ some p
    → q.handshaked ≡ p.handshaked
    → q.id ≡ p.id
    → player_ids (set_player q ps) rest ≡ player_ids ps rest
unfolding set_player find_peer
player_ids-set_player_same p q [] rest f h i = refl
player_ids-set_player_same p q (r ∷ ps) rest f h i = elim (Bool-cases (r.peer == q.peer)) [
  | inl e ↦
      let same : r ≡ p = ground arith in
      rw (e, h, i) (ap (λ (x : Player). with_id x.handshaked x.id (player_ids ps rest)) (sym same))
  | inr e ↦
      rw e
        (ap (with_id r.handshaked r.id) (player_ids-set_player_same p q ps rest (ground arith) h i))
]

-- A player that had no id gets `q.id`.
pub player_ids-set_player :
    (p q : Player) (ps : List Player) (rest : List ℕ)
    → find_peer q.peer ps ≡ some p
    → p.handshaked ≡ false
    → q.handshaked ≡ true
    → Adds q.id (player_ids ps rest) (player_ids (set_player q ps) rest)
unfolding set_player find_peer
player_ids-set_player p q [] rest f h k = absurd (cc)
player_ids-set_player p q (r ∷ ps) rest f h k = elim (Bool-cases (r.peer == q.peer)) [
  | inl e ↦
      let same : r ≡ p = ground arith in
      let bare : r.handshaked ≡ false = ap (λ (x : Player). x.handshaked) same ∙ h in
      rw (e, k, bare) here
  | inr e ↦
      rw e (with_id-Adds r.handshaked r.id (player_ids-set_player p q ps rest (ground arith) h k))
]

-- The player at `peer` leaves: its peer goes, and its id if it had one.
pub peers-erase_peer :
    (peer : ℕ) (p : Player) (ps : List Player)
    → find_peer peer ps ≡ some p
    → Adds p.peer (peers (erase_peer peer ps)) (peers ps)
unfolding erase_peer find_peer
peers-erase_peer peer p [] f = absurd (cc)
peers-erase_peer peer p (r ∷ ps) f = elim (Bool-cases (r.peer == peer)) [
  | inl e ↦
      let same : r ≡ p = ground arith in
      rw e (subst (λ (x : Player). Adds x.peer (peers ps) (r.peer ∷ peers ps)) same here)
  | inr e ↦ rw e (there (peers-erase_peer peer p ps (ground arith)))
]

abbrev pub Loses : Bool → ℕ → List ℕ → List ℕ → Type 0
Loses true id xs ys = Adds id xs ys
Loses false id xs ys = xs ≡ ys

Loses-with_id :
    (b c : Bool) (id n : ℕ) (xs ys : List ℕ)
    → Loses b n xs ys
    → Loses b n (with_id c id xs) (with_id c id ys)
Loses-with_id true c id n xs ys a = with_id-Adds c id a
Loses-with_id false c id n xs ys e = ap (with_id c id) e

Loses-head : (b : Bool) (id : ℕ) (xs : List ℕ) → Loses b id xs (with_id b id xs)
Loses-head true id xs = here
Loses-head false id xs = refl

pub player_ids-erase_peer :
    (peer : ℕ) (p : Player) (ps : List Player) (rest : List ℕ)
    → find_peer peer ps ≡ some p
    → Loses p.handshaked p.id (player_ids (erase_peer peer ps) rest) (player_ids ps rest)
unfolding erase_peer find_peer
player_ids-erase_peer peer p [] rest f = absurd (cc)
player_ids-erase_peer peer p (r ∷ ps) rest f = elim (Bool-cases (r.peer == peer)) [
  | inl e ↦
      let same : r ≡ p = ground arith in
      rw e (
        subst
          (λ (x : Player).
            Loses x.handshaked x.id (player_ids ps rest)
              (with_id r.handshaked r.id (player_ids ps rest)))
          same (Loses-head r.handshaked r.id (player_ids ps rest)))
  | inr e ↦ rw e (
      Loses-with_id p.handshaked r.handshaked r.id p.id _ _
        (player_ids-erase_peer peer p ps rest (ground arith)))
]

pub bot_ids-append : (bs : List Bot) (b : Bot) → Adds b.id (bot_ids bs) (bot_ids (bs ++ b ∷ []))
bot_ids-append [] b = here
bot_ids-append (c ∷ bs) b = there (bot_ids-append bs b)

pub bot_ids-erase_bot :
    (id : ℕ) (b : Bot) (bs : List Bot)
    → find_bot id bs ≡ some b
    → Adds b.id (bot_ids (erase_bot id bs)) (bot_ids bs)
unfolding erase_bot find_bot
bot_ids-erase_bot id b [] f = absurd (cc)
bot_ids-erase_bot id b (c ∷ bs) f = elim (Bool-cases (c.id == id)) [
  | inl e ↦
      let same : c ≡ b = ground arith in
      rw e (subst (λ (x : Bot). Adds x.id (bot_ids bs) (c.id ∷ bot_ids bs)) same here)
  | inr e ↦ rw e (there (bot_ids-erase_bot id b bs (ground arith)))
]

pub find_peer-none :
    (peer : ℕ) (ps : List Player) → find_peer peer ps ≡ none → Fresh peer (peers ps)
unfolding find_peer
find_peer-none peer [] h = tt
find_peer-none peer (p ∷ ps) h = elim (Bool-cases (p.peer == peer)) [
  | inl e ↦ absurd (ground arith)
  | inr e ↦ (==_ne p.peer peer e, find_peer-none peer ps (ground arith))
]

pub peers-append : (ps : List Player) (p : Player) → Adds p.peer (peers ps) (peers (ps ++ p ∷ []))
peers-append [] p = here
peers-append (q ∷ ps) p = there (peers-append ps p)

pub player_ids-append :
    (ps : List Player) (p : Player) (rest : List ℕ)
    → p.handshaked ≡ false
    → player_ids (ps ++ p ∷ []) rest ≡ player_ids ps rest
player_ids-append [] p rest h = rw h
player_ids-append (q ∷ ps) p rest h = ap (with_id q.handshaked q.id) (player_ids-append ps p rest h)

-- What holds of the ids of the players and of others holds of the others.
Distinct-with_id : (b : Bool) (id : ℕ) (xs : List ℕ) → Distinct (with_id b id xs) → Distinct xs
Distinct-with_id true id xs h = h.1
Distinct-with_id false id xs h = h

pub All-with_id :
    (P : ℕ → Type 0) (b : Bool) (id : ℕ) (xs : List ℕ) → All P (with_id b id xs) → All P xs
All-with_id P true id xs h = h.1
All-with_id P false id xs h = h

pub Distinct-player_ids :
    (ps : List Player) (xs : List ℕ) → Distinct (player_ids ps xs) → Distinct xs
Distinct-player_ids [] xs h = h
Distinct-player_ids (p ∷ ps) xs h =
    Distinct-player_ids ps xs (Distinct-with_id p.handshaked p.id (player_ids ps xs) h)

pub All-player_ids :
    (P : ℕ → Type 0) (ps : List Player) (xs : List ℕ) → All P (player_ids ps xs) → All P xs
All-player_ids P [] xs h = h
All-player_ids P (p ∷ ps) xs h =
    All-player_ids P ps xs (All-with_id P p.handshaked p.id (player_ids ps xs) h)
