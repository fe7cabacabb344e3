-- ===== src/Client/Remotes/Late.antt =====
-- A state that arrives behind the message that its player left: client/src/Sync/RemotePlayers.cpp.
use f4mp.Base.{
  ℕ, Option, none, some, List, [], ◌∷◌, ◌==◌, ==→eq, ◌≡◌, ◌≢◌, refl, sym, subst, inl, inr, arith,
  Bool-cases, Option-cases, Distinct, Fresh,
}
use f4mp.Types.{PlayerState}
use f4mp.Client.RemoteState.{TimedState, RemotePlayer, World, Remotes}
use f4mp.Client.Remotes.{
  find, put, erase, entry, entry_of, add, remove, placeholder, ensure, hear, apply_state, name_of,
}
use f4mp.Client.Remotes.History.{players-hear}

abbrev pub remote_ids : List RemotePlayer → List ℕ
remote_ids [] = []
remote_ids (p ∷ ps) = p.id ∷ remote_ids ps

pub find-Fresh : (id : ℕ) (ps : List RemotePlayer) → Fresh id (remote_ids ps) → find id ps ≡ none
unfolding find
find-Fresh id [] h = refl
find-Fresh id (p ∷ ps) h = elim (Bool-cases (p.id == id)) [
  | inl e ↦ absurd (h.0 (==→eq p.id id e))
  | inr e ↦ rw e (find-Fresh id ps h.1)
]

pub find-erase :
    (id : ℕ) (ps : List RemotePlayer) → Distinct (remote_ids ps) → find id (erase id ps) ≡ none
unfolding find erase
find-erase id [] h = refl
find-erase id (p ∷ ps) h = elim (Bool-cases (p.id == id)) [
  | inl e ↦ rw e (subst (λ k. find k ps ≡ none) (==→eq p.id id e) (find-Fresh p.id ps h.0))
  | inr e ↦ rw (e, find, e) (find-erase id ps h.1)
]

pub find-put : (q : RemotePlayer) (ps : List RemotePlayer) → find q.id (put q ps) ≡ some q
unfolding find put
find-put q [] = ground arith
find-put q (p ∷ ps) = elim (Bool-cases (p.id == q.id)) [
  | inl e ↦ rw e (ground arith)
  | inr e ↦ rw (e, find, e) (find-put q ps)
]

find-remove :
    (id : ℕ) (r : Remotes) → Distinct (remote_ids r.players) → find id (remove id r).players ≡ none
unfolding remove
find-remove id r h = elim (Option-cases (find id r.players)) [
  | inl e ↦ rw (e, remove) e
  | inr (p, e) ↦ rw (e, remove) (find-erase id r.players h)
]

-- The entry of `id` that a state finds: a new one with a placeholder for its name.
record IsPlaceholder (world : World) (id : ℕ) (p : RemotePlayer) : Type 0 where
  same_id : p.id ≡ id
  name : p.name ≡ placeholder world id

module _ (world : World) (id : ℕ) where
  entry-add :
      (r : Remotes)
      → find id r.players ≡ none
      → IsPlaceholder world id (entry id (add id (placeholder world id) r))
  unfolding add
  entry-add r e =
      rw (find-put (record (entry id r) { id = id; name = placeholder world id }) r.players)
        (record { same_id = refl; name = refl })

  entry-ensure :
      (r : Remotes)
      → find id r.players ≡ none
      → IsPlaceholder world id (entry id (ensure world id r))
  unfolding ensure
  entry-ensure r e = rw (e, ensure) (entry-add r e)

  entry-hear :
      (server_ms : ℕ) (r : Remotes)
      → find id r.players ≡ none
      → IsPlaceholder world id (entry id (hear world id server_ms r))
  entry-hear server_ms r e =
      subst (λ ps. IsPlaceholder world id (entry_of id (find id ps)))
        (sym (players-hear world id server_ms r)) (entry-ensure r e)

  -- The list names the player by its placeholder.
  abbrev IsNamed : Option RemotePlayer → Type 0
  IsNamed none = ⊥
  IsNamed (some p) = p.name ≡ placeholder world id

  find-put_placeholder :
      (p : RemotePlayer) (ts : List TimedState) (ps : List RemotePlayer)
      → IsPlaceholder world id p
      → IsNamed (find id (put (record p { snapshots = ts }) ps))
  find-put_placeholder p ts ps h =
      subst (λ k. IsNamed (find k (put (record p { snapshots = ts }) ps))) h.same_id
        (subst IsNamed (sym (find-put (record p { snapshots = ts }) ps)) h.name)

  apply_state-IsNamed :
      (state : PlayerState) (server_ms : ℕ) (r : Remotes)
      → find id r.players ≡ none
      → IsNamed (find id (apply_state world id state server_ms r).players)
  unfolding apply_state
  apply_state-IsNamed state server_ms r e =
      let heard = hear world id server_ms r in
      find-put_placeholder (entry id heard) _ heard.players (entry-hear server_ms r e)

  named :
      (o : Option RemotePlayer)
      → IsNamed o
      → (o ≢ none)
        × ((elim o [ none ↦ placeholder world id | some p ↦ p.name ]) ≡ placeholder world id)
  named none h = absurd h
  named (some p) h = (λ e. cc, h)

-- A player that leaves is taken from the list; yet a state of it that arrives later, as it may on the
-- unreliable channel, puts it back into the list, under a placeholder for its name.
pub apply_state-remove :
    (world : World) (id : ℕ) (state : PlayerState) (server_ms : ℕ) (r : Remotes)
    → Distinct (remote_ids r.players)
    → let late = apply_state world id state server_ms (remove id r) in
      (find id (remove id r).players ≡ none)
      × ((find id late.players ≢ none) × (name_of world id late ≡ placeholder world id))
unfolding name_of
apply_state-remove world id state server_ms r h =
    let gone = find-remove id r h in
    let late = apply_state world id state server_ms (remove id r) in
    (
      gone,
      named world id (find id late.players)
          (apply_state-IsNamed world id state server_ms (remove id r) gone),
    )
