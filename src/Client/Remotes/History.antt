-- ===== src/Client/Remotes/History.antt =====
-- The snapshots that client/src/Sync/RemotePlayers.cpp keeps of each player.
use f4mp.Base.{
  ℕ, ◌-◌, ◌≤◌, zero, suc, Bool, true, false, not, Option, none, some, List, [], ◌∷◌, ◌++◌, ◌==◌,
  ◌≡◌, refl, sym, subst, inl, inr, arith, Bool-cases, Option-cases, ltb, if◌then◌else◌, length,
  length-append, length-drop, drop, back, All, Bytes, ℤ, int_ltb,
}
use f4mp.Types.{PlayerState}
use f4mp.Client.Clock.{unwrap}
use f4mp.Client.RemoteState.{EngineCall, TimedState, RemotePlayer, World, Remotes, engine}
use f4mp.Client.Remotes.{
  find, put, erase, entry, entry_of, add, max_snapshots, push_snapshot, is_stale, take_snapshot,
  despawn_one, each, despawn_all, fresh_clone, respawn, set_clone_base, set_pacify, set_ghost,
  set_duplicate, forget_actor, forget_actors, clear, remove, relabel, rename, placeholder,
  note_server_time, ensure, hear, apply_state, Operation, adding, renaming, removing, applying,
  despawning, respawning, setting_base, setting_pacify, setting_ghost, setting_duplicate,
  setting_drive, setting_move, forgetting, clearing, perform,
}

-- The time of a snapshot is before the one of the next, if there is one.
abbrev Before : TimedState → List TimedState → Type 0
Before t [] = Unit
Before t (u ∷ us) = int_ltb t.time_ms u.time_ms ≡ true

abbrev pub Increasing : List TimedState → Type 0
Increasing [] = Unit
Increasing (t ∷ ts) = Before t ts × Increasing ts

-- What `SampleAt` relies on: the snapshots are in the order of time, with no two at one time, and
-- there are at most 64 of them.
pub record IsHistory (ts : List TimedState) : Type 0 where
  pub ordered : Increasing ts
  pub bounded : length ts ≤ 64

Increasing-drop : (n : ℕ) (ts : List TimedState) → Increasing ts → Increasing (drop n ts)
Increasing-drop zero ts h = h
Increasing-drop (suc n) [] h = h
Increasing-drop (suc n) (t ∷ ts) h = Increasing-drop n ts h.1

Increasing-append :
    (t : TimedState) (ts : List TimedState)
    → is_stale t.time_ms (back ts) ≡ false
    → Increasing ts
    → Increasing (ts ++ t ∷ [])
Increasing-append t [] fresh h = (tt, tt)
Increasing-append t (u ∷ []) fresh h = (ground arith, (tt, tt))
Increasing-append t (u ∷ v ∷ ts) fresh h = (h.0, Increasing-append t (v ∷ ts) fresh h.1)

push_snapshot-IsHistory :
    (t : TimedState) (ts : List TimedState)
    → is_stale t.time_ms (back ts) ≡ false
    → IsHistory ts
    → IsHistory (push_snapshot t ts)
unfolding push_snapshot
push_snapshot-IsHistory t ts fresh h =
    let longer = ts ++ t ∷ [] in
    let order = Increasing-append t ts fresh h.ordered in
    let size = length-append ts (t ∷ []) in
    elim (Bool-cases (ltb max_snapshots (length longer))) [
      | inl e ↦ rw e (record {
        ordered = Increasing-drop _ longer order;
        bounded = omega (arith, length-drop (length longer - max_snapshots) longer);
      })
      | inr e ↦ rw e (record { ordered = order; bounded = ground (arith, size) })
    ]

take_snapshot-IsHistory :
    (t : TimedState) (ts : List TimedState) → IsHistory ts → IsHistory (take_snapshot t ts)
unfolding take_snapshot
take_snapshot-IsHistory t ts h = elim (Bool-cases (is_stale t.time_ms (back ts))) [
  | inl e ↦ rw e h
  | inr e ↦ rw e (push_snapshot-IsHistory t ts e h)
]

abbrev Kept : List RemotePlayer → Type 0
Kept = All (λ p. IsHistory p.snapshots)

-- The histories of all players.
pub record HasHistories (r : Remotes) : Type 0 where
  pub all : All (λ p. IsHistory p.snapshots) r.players

Kept-put :
    (q : RemotePlayer) (ps : List RemotePlayer) → IsHistory q.snapshots → Kept ps → Kept (put q ps)
unfolding put
Kept-put q [] h k = (h, tt)
Kept-put q (p ∷ ps) h k = elim (Bool-cases (p.id == q.id)) [
  | inl e ↦ rw e (h, k.1)
  | inr e ↦ rw e (k.0, Kept-put q ps h k.1)
]

Kept-erase : (id : ℕ) (ps : List RemotePlayer) → Kept ps → Kept (erase id ps)
unfolding erase
Kept-erase id [] k = tt
Kept-erase id (p ∷ ps) k = elim (Bool-cases (p.id == id)) [
  | inl e ↦ rw e k.1
  | inr e ↦ rw e (k.0, Kept-erase id ps k.1)
]

Kept-each :
    (f : RemotePlayer → RemotePlayer)
    → ((p : RemotePlayer) → (f p).snapshots ≡ p.snapshots)
    → (ps : List RemotePlayer) → Kept ps
    → Kept (each f ps)
unfolding each
Kept-each f same [] k = tt
Kept-each f same (p ∷ ps) k = (subst IsHistory (sym (same p)) k.0, Kept-each f same ps k.1)

abbrev KeptOne : Option RemotePlayer → Type 0
KeptOne none = Unit
KeptOne (some p) = IsHistory p.snapshots

find-KeptOne : (id : ℕ) (ps : List RemotePlayer) → Kept ps → KeptOne (find id ps)
unfolding find
find-KeptOne id [] k = tt
find-KeptOne id (p ∷ ps) k = elim (Bool-cases (p.id == id)) [
  | inl e ↦ rw e k.0
  | inr e ↦ rw e (find-KeptOne id ps k.1)
]

nothing-IsHistory : IsHistory []
nothing-IsHistory = record { ordered = tt; bounded = omega arith }

entry-IsHistory : (id : ℕ) (r : Remotes) → HasHistories r → IsHistory (entry id r).snapshots
entry-IsHistory id r h = go (find id r.players) (find-KeptOne id r.players h.all)
  where
    go : (o : Option RemotePlayer) → KeptOne o → IsHistory (entry_of id o).snapshots
    go none k = nothing-IsHistory
    go (some p) k = k

add-HasHistories :
    (id : ℕ) (name : Bytes) (r : Remotes) → HasHistories r → HasHistories (add id name r)
unfolding add
add-HasHistories id name r h = record { all = Kept-put _ r.players (entry-IsHistory id r h) h.all }

despawn_all-HasHistories : (r : Remotes) → HasHistories r → HasHistories (despawn_all r)
unfolding despawn_all
despawn_all-HasHistories r h = record { all = Kept-each despawn_one (λ p. refl) r.players h.all }

forget_actors-HasHistories : (r : Remotes) → HasHistories r → HasHistories (forget_actors r)
unfolding forget_actors
forget_actors-HasHistories r h = record { all = Kept-each forget_actor (λ p. refl) r.players h.all }

respawn-HasHistories : (r : Remotes) → HasHistories r → HasHistories (respawn r)
unfolding respawn
respawn-HasHistories r h = record {
  all = Kept-each fresh_clone (λ p. refl) _ (despawn_all-HasHistories r h).all;
}

remove-HasHistories : (id : ℕ) (r : Remotes) → HasHistories r → HasHistories (remove id r)
unfolding remove
remove-HasHistories id r h = go (find id r.players)
  where
    go :
        (o : Option RemotePlayer)
        → HasHistories (elim o [
          | none ↦ r
          | some p ↦ record (engine (EngineCall.despawn p.actor) r) { players = erase id r.players }
        ])
    go none = h
    go (some p) = record { all = Kept-erase id r.players h.all }

module _ (world : World) where
  relabel-HasHistories :
      (o : Option ℕ) (name : Bytes) (r : Remotes)
      → HasHistories r
      → HasHistories (relabel world o name r)
  unfolding relabel
  relabel-HasHistories none name r h = h
  relabel-HasHistories (some handle) name r h = elim (Bool-cases (world.exists handle)) [
    | inl e ↦ rw e (record { all = h.all })
    | inr e ↦ rw e h
  ]

  rename-HasHistories :
      (id : ℕ) (name : Bytes) (r : Remotes) → HasHistories r → HasHistories (rename world id name r)
  unfolding rename
  rename-HasHistories id name r h = elim (Option-cases (find id r.players)) [
    | inl e ↦ rw (e, rename) (add-HasHistories id name r h)
    | inr (p, e) ↦
        rw (e, rename)
          (relabel-HasHistories p.actor name _ (record {
            all =
                Kept-put (record p { name = name }) r.players
                  (subst KeptOne e (find-KeptOne id r.players h.all)) h.all;
          }))
  ]

  players-note : (time : ℤ) (r : Remotes) → (note_server_time world time r).players ≡ r.players
  unfolding note_server_time
  players-note time r =
      same (not r.has_offset) _ _ refl
        (same (world.less (world.local_minus time) r.offset_ms) _ _ refl refl)
    where
      same :
          (b : Bool) (s t : Remotes)
          → s.players ≡ r.players
          → t.players ≡ r.players
          → (if b then s else t).players ≡ r.players
      same true s t h k = h
      same false s t h k = k

  ensure-HasHistories : (id : ℕ) (r : Remotes) → HasHistories r → HasHistories (ensure world id r)
  unfolding ensure
  ensure-HasHistories id r h = elim (Option-cases (find id r.players)) [
    | inl e ↦ rw (e, ensure) (add-HasHistories id (placeholder world id) r h)
    | inr (p, e) ↦ rw (e, ensure) h
  ]

  pub players-hear :
      (id server_ms : ℕ) (r : Remotes)
      → (hear world id server_ms r).players ≡ (ensure world id r).players
  unfolding hear
  players-hear id server_ms r =
      players-note _
        (record (ensure world id r) { clock = unwrap server_ms (ensure world id r).clock })

  apply_state-HasHistories :
      (id : ℕ) (state : PlayerState) (server_ms : ℕ) (r : Remotes)
      → HasHistories r
      → HasHistories (apply_state world id state server_ms r)
  unfolding apply_state
  apply_state-HasHistories id state server_ms r h =
      let heard = hear world id server_ms r in
      let k : HasHistories heard = record {
        all = subst Kept (sym (players-hear id server_ms r)) (ensure-HasHistories id r h).all;
      } in
      record {
        all =
            Kept-put _ heard.players (take_snapshot-IsHistory _ _ (entry-IsHistory id heard k))
              k.all;
      }

  pub perform-HasHistories :
      (o : Operation) (r : Remotes) → HasHistories r → HasHistories (perform world o r)
  unfolding perform set_clone_base set_pacify set_ghost set_duplicate forget_actors clear
  perform-HasHistories (adding id name) r h = add-HasHistories id name r h
  perform-HasHistories (renaming id name) r h = rename-HasHistories id name r h
  perform-HasHistories (removing id) r h = remove-HasHistories id r h
  perform-HasHistories (applying id state server_ms) r h =
      apply_state-HasHistories id state server_ms r h
  perform-HasHistories despawning r h = despawn_all-HasHistories r h
  perform-HasHistories respawning r h = respawn-HasHistories r h
  perform-HasHistories (setting_base form) r h = respawn-HasHistories _ (record { all = h.all })
  perform-HasHistories (setting_pacify b) r h = respawn-HasHistories _ (record { all = h.all })
  perform-HasHistories (setting_ghost b) r h = respawn-HasHistories _ (record { all = h.all })
  perform-HasHistories (setting_duplicate b) r h = respawn-HasHistories _ (record { all = h.all })
  perform-HasHistories (setting_drive b) r h = record { all = h.all }
  perform-HasHistories (setting_move b) r h = record { all = h.all }
  perform-HasHistories forgetting r h = forget_actors-HasHistories r h
  perform-HasHistories clearing r h = record { all = tt }
