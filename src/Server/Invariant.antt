-- ===== src/Server/Invariant.antt =====
-- The invariant of the tables of server/src/Server.cpp, kept by every change that can happen to them.
pub mod Loop
pub mod Once
use f4mp.Base.{
  ℕ, ◌+◌, ◌%◌, ◌≤◌, ◌<◌, List, [], ◌∷◌, ◌≡◌, refl, sym, ap, subst, ◌∙◌, arith, u32_mod, All,
  All-map, Distinct, Fresh, Fresh-above, Adds-All, Adds-Distinct, Adds-Distinct_back,
}
use f4mp.Server.State.{Player, Server, new_player}
use f4mp.Server.Frame.{Core, core}
use f4mp.Server.Ids.{peers, find_peer-none, peers-set_player, peers-append, peers-erase_peer}
use f4mp.Server.Joining.{joined_player, register}
use f4mp.Server.Changes.{
  Change, connects, drops, alters, dismisses, moves, closes, Gives, joins, adds, Changes, quiet,
  keeps, gives, next_id-core, next_id-Change, next_id-Gives, Changes-grows,
}
use f4mp.Server.Changes.Ids.{ids, ids-core, Shrinks, ids-Change, ids-Gives}

abbrev pub InRange : ℕ → ℕ → Type 0
InRange next id = (1 ≤ id) × (id < next)

-- No two entries of the map have one peer; no two of the players that have shaken hands and the
-- bots have one id, and these ids were all given out by the counter, so none of them is 0.
pub record IsConsistent (s : Server) : Type 0 where
  pub peers_distinct : Distinct (peers s.players)
  pub ids_distinct : Distinct (ids s)
  pub ids_in_range : All (InRange s.next_id) (ids s)
  pub counter : 1 ≤ s.next_id

-- Ids stay in range when the counter moves up.
InRange-suc : (n : ℕ) (xs : List ℕ) → All (InRange n) xs → All (InRange (n + 1)) xs
InRange-suc n = All-map (InRange n) (InRange (n + 1)) (λ i h. omega arith)

next-Fresh : (n : ℕ) (xs : List ℕ) → All (InRange n) xs → Fresh n xs
next-Fresh n xs h = Fresh-above n xs (All-map (InRange n) (λ k. k < n) (λ k g. g.1) xs h)

-- The counter has not come to its end.
abbrev HasRoom : Server → Type 0
HasRoom s = s.next_id + 1 < u32_mod

pub next_of_room : (s : Server) → HasRoom s → (s.next_id + 1) % u32_mod ≡ s.next_id + 1
next_of_room s h = omega arith

IsConsistent-of : (s t : Server) → core t ≡ core s → IsConsistent s → IsConsistent t
IsConsistent-of s t e c =
    let same = ids-core s t e in
    let next = next_id-core s t e in
    record {
      peers_distinct = subst (λ (k : Core). Distinct (peers k.players)) (sym e) c.peers_distinct;
      ids_distinct = subst Distinct (sym same) c.ids_distinct;
      ids_in_range =
          subst (λ n. All (InRange n) (ids t)) (sym next)
            (subst (All (InRange s.next_id)) (sym same) c.ids_in_range);
      counter = omega (arith, next, c.counter);
    }

peers-Change : (s t : Server) → Change s t → Distinct (peers s.players) → Distinct (peers t.players)
peers-Change s _ (connects peer now e) d =
    Adds-Distinct (peers-append s.players (new_player peer now)) (find_peer-none peer s.players e) d
peers-Change s _ (drops peer p e) d = Adds-Distinct_back (peers-erase_peer peer p s.players e) d
peers-Change s _ (alters p q e a) d = rw (peers-set_player q s.players) d
peers-Change s _ (dismisses id b e) d = d
peers-Change s _ (moves now bs e) d = d
peers-Change s _ closes d = tt

peers-Gives : (s t : Server) → Gives s t → Distinct (peers s.players) → Distinct (peers t.players)
unfolding register
peers-Gives s _ (joins p hello e h) d =
    rw (peers-set_player (joined_player p hello s.next_id) s.players) d
peers-Gives s _ (adds b e) d = d

Change-IsConsistent : (s t : Server) → Change s t → IsConsistent s → IsConsistent t
Change-IsConsistent s t k c =
    let fewer = ids-Change s t k in
    let next = next_id-Change k in
    record {
      peers_distinct = peers-Change s t k c.peers_distinct;
      ids_distinct = fewer.distinct c.ids_distinct;
      ids_in_range =
          subst (λ n. All (InRange n) (ids t)) (sym next)
            (fewer.all (InRange s.next_id) c.ids_in_range);
      counter = omega (arith, next, c.counter);
    }

Gives-IsConsistent : (s t : Server) → Gives s t → HasRoom s → IsConsistent s → IsConsistent t
Gives-IsConsistent s t g room c =
    let more = ids-Gives s t g in
    let next = next_id-Gives g ∙ next_of_room s room in
    record {
      peers_distinct = peers-Gives s t g c.peers_distinct;
      ids_distinct =
          Adds-Distinct more (next-Fresh s.next_id (ids s) c.ids_in_range) c.ids_distinct;
      ids_in_range =
          subst (λ n. All (InRange n) (ids t)) (sym next)
            (Adds-All (InRange (s.next_id + 1)) more (c.counter, omega arith)
              (InRange-suc s.next_id (ids s) c.ids_in_range));
      counter = omega (arith, next);
    }

-- The tables stay consistent as long as the counter does not come to its end.
pub Changes-IsConsistent :
    {s : Server} {n : ℕ} (t : Server)
    → Changes s n t
    → s.next_id + n < u32_mod
    → IsConsistent s
    → IsConsistent t
Changes-IsConsistent {s} t (quiet e) room c = IsConsistent-of s t e c
Changes-IsConsistent t (keeps {t = u} {t' = v} cs k e) room c =
    IsConsistent-of v t e (Change-IsConsistent u v k (Changes-IsConsistent u cs room c))
Changes-IsConsistent t (gives {t = u} {t' = v} cs g e l) room c = IsConsistent-of v t e (
    Gives-IsConsistent u v g (omega (arith, Changes-grows cs))
      (Changes-IsConsistent u cs (omega arith) c))
