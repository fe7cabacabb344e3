-- ===== src/Client/Remotes/Directory/Steps.antt =====
-- The list of client/src/Sync/RemotePlayers.cpp follows its directory, whatever is done with it.
use f4mp.Base.{
  ℕ, Option, none, some, List, [], ◌∷◌, ◌==◌, ==→eq, if◌then◌else◌, Bytes, ◌≡◌, refl, sym, ap,
  subst, ◌∙◌, inl, inr, arith, Bool-cases, Option-cases,
}
use f4mp.Types.{PlayerState}
use f4mp.Client.Remotes.History.{players-hear}
use f4mp.Client.RemoteState.{TimedState, RemotePlayer, World, Remotes, new_remotes}
use f4mp.Client.Remotes.{
  adding, renaming, removing, applying, despawning, respawning, setting_base, setting_pacify,
  setting_ghost, setting_duplicate, setting_drive, setting_move, forgetting, clearing, find, put,
  erase, entry, entry_of, add, rename, relabel, remove, placeholder, ensure, hear, apply_state,
  forget_actors, clear, set_clone_base, set_pacify, set_ghost, set_duplicate, perform, forget_actor,
}
use f4mp.Client.Remotes.Drawing.{update_remotes}
use f4mp.Client.Remotes.Late.{find-erase}
use f4mp.Client.Remotes.Turns.{Turn, operated, drawn, take_turn, take_turns}
use f4mp.Client.Remotes.Directory.{
  Directory, enter, strike, known_as, note, note_all, name_in, Agrees, found_id, names-put,
  find-erase_other, Distinct-put, Distinct-erase,
}
use f4mp.Client.Remotes.Directory.Names.{
  Agrees-labels, labels-each, labels-drawn, labels-despawn_all, labels-respawn,
}

Agrees-put :
    (d : Directory) (q : RemotePlayer) (ps : List RemotePlayer)
    → Agrees d ps
    → Agrees (enter q.id q.name d) (put q ps)
unfolding enter
Agrees-put d q ps h = record {
  distinct = Distinct-put q ps h.distinct;
  names = λ k. names-put k q ps ∙ ap (λ o. if q.id == k then some q.name else o) (h.names k);
}

Agrees-erase :
    (d : Directory) (id : ℕ) (ps : List RemotePlayer)
    → Agrees d ps
    → Agrees (strike id d) (erase id ps)
unfolding strike
Agrees-erase d id ps h = record {
  distinct = Distinct-erase id ps h.distinct;
  names = λ k. elim (Bool-cases (id == k)) [
    | inl e ↦ rw e (
        ap name_in
          (subst (λ j. find j (erase id ps) ≡ none) (==→eq id k e) (find-erase id ps h.distinct)))
    | inr e ↦ rw e (ap name_in (find-erase_other k id ps e) ∙ h.names k)
  ];
}

-- To strike what is not there changes nothing.
Agrees-absent :
    (d : Directory) (id : ℕ) (ps : List RemotePlayer)
    → find id ps ≡ none
    → Agrees d ps
    → Agrees (strike id d) ps
unfolding strike
Agrees-absent d id ps gone h = record {
  distinct = h.distinct;
  names = λ k. elim (Bool-cases (id == k)) [
    | inl e ↦ rw e (ap name_in (subst (λ j. find j ps ≡ none) (==→eq id k e) gone))
    | inr e ↦ rw e (h.names k)
  ];
}

pub Agrees-nobody : Agrees (λ k. none) []
unfolding find
Agrees-nobody = record { distinct = tt; names = λ k. refl }

Agrees-to :
    (d e : Directory) (ps : List RemotePlayer) → ((k : ℕ) → d k ≡ e k) → Agrees d ps → Agrees e ps
Agrees-to d e ps same h = record { distinct = h.distinct; names = λ k. h.names k ∙ same k }

-- To enter what is there changes nothing.
enter_again :
    (d : Directory) (id : ℕ) (name : Bytes) → d id ≡ some name → (k : ℕ) → d k ≡ enter id name d k
unfolding enter
enter_again d id name there k = elim (Bool-cases (id == k)) [
  | inl e ↦ rw e (subst (λ j. d j ≡ some name) (==→eq id k e) there)
  | inr e ↦ rw e refl
]

entered : (d : Directory) (id : ℕ) (name : Bytes) → enter id name d id ≡ some name
unfolding enter
entered d id name = ground arith

-- A new history changes no name.
refreshed-Agrees :
    (d : Directory) (id : ℕ) (name : Bytes) (ps : List RemotePlayer) (ts : List TimedState)
    (o : Option RemotePlayer)
    → find id ps ≡ o
    → d id ≡ some name
    → Agrees d ps
    → Agrees d (put (record (entry_of id o) { snapshots = ts }) ps)
refreshed-Agrees d id name ps ts none e there h = absurd (cc (h.names id))
refreshed-Agrees d id name ps ts (some p) e there h =
    let same = found_id id ps p e in
    let known : d id ≡ some p.name = sym (h.names id) ∙ ap name_in e in
    Agrees-to (enter p.id p.name d) d _
      (λ k. sym (enter_again d p.id p.name (subst (λ j. d j ≡ some p.name) (sym same) known) k))
      (Agrees-put d (record p { snapshots = ts }) ps h)

add-Agrees :
    (d : Directory) (id : ℕ) (name : Bytes) (r : Remotes)
    → Agrees d r.players
    → Agrees (enter id name d) (add id name r).players
unfolding add
add-Agrees d id name r h = Agrees-put d (record (entry id r) { id = id; name = name }) r.players h

remove-Agrees :
    (d : Directory) (id : ℕ) (r : Remotes)
    → Agrees d r.players
    → Agrees (strike id d) (remove id r).players
unfolding remove
remove-Agrees d id r h = elim (Option-cases (find id r.players)) [
  | inl e ↦ rw (e, remove) (Agrees-absent d id r.players e h)
  | inr (p, e) ↦ rw (e, remove) (Agrees-erase d id r.players h)
]

module _ (world : World) where
  players-relabel :
      (o : Option ℕ) (name : Bytes) (r : Remotes) → (relabel world o name r).players ≡ r.players
  unfolding relabel
  players-relabel none name r = refl
  players-relabel (some handle) name r = ground arith

  rename-Agrees :
      (d : Directory) (id : ℕ) (name : Bytes) (r : Remotes)
      → Agrees d r.players
      → Agrees (enter id name d) (rename world id name r).players
  unfolding rename
  rename-Agrees d id name r h = elim (Option-cases (find id r.players)) [
    | inl e ↦ rw (e, rename) (add-Agrees d id name r h)
    | inr (p, e) ↦
        rw (e, rename)
          (subst (Agrees (enter id name d)) (sym (players-relabel p.actor name _)) (
            subst (λ k. Agrees (enter k name d) (put (record p { name = name }) r.players))
              (found_id id r.players p e) (Agrees-put d (record p { name = name }) r.players h)))
  ]

  ensure-Agrees :
      (d : Directory) (id : ℕ) (r : Remotes)
      → Agrees d r.players
      → Agrees (enter id (known_as (placeholder world id) (d id)) d) (ensure world id r).players
  unfolding ensure
  ensure-Agrees d id r h = elim (Option-cases (find id r.players)) [
    | inl e ↦
        let gone : none ≡ d id = ap name_in (sym e) ∙ h.names id in
        rw (e, ensure)
          (subst
            (λ o.
              Agrees (enter id (known_as (placeholder world id) o) d)
                (add id (placeholder world id) r).players)
            gone (add-Agrees d id (placeholder world id) r h))
    | inr (p, e) ↦
        let known : some p.name ≡ d id = ap name_in (sym e) ∙ h.names id in
        rw (e, ensure)
          (subst (λ o. Agrees (enter id (known_as (placeholder world id) o) d) r.players) known
            (Agrees-to d (enter id p.name d) r.players (enter_again d id p.name (sym known)) h))
  ]

  apply_state-Agrees :
      (d : Directory) (id : ℕ) (state : PlayerState) (server_ms : ℕ) (r : Remotes)
      → Agrees d r.players
      → Agrees
          (enter id (known_as (placeholder world id) (d id)) d)
          (apply_state world id state server_ms r).players
  unfolding apply_state
  apply_state-Agrees d id state server_ms r h =
      let heard = hear world id server_ms r in
      let name = known_as (placeholder world id) (d id) in
      let k : Agrees (enter id name d) heard.players =
        subst (Agrees (enter id name d)) (sym (players-hear world id server_ms r))
          (ensure-Agrees d id r h) in
      refreshed-Agrees (enter id name d) id name heard.players _ (find id heard.players) refl
        (entered d id name) k

pub take_turn-Agrees :
    (t : Turn) (d : Directory) (r : Remotes)
    → Agrees d r.players
    → Agrees (note t d) (take_turn t r).players
unfolding note take_turn update_remotes perform set_clone_base set_pacify set_ghost set_duplicate
    forget_actors clear
take_turn-Agrees (operated world (adding id name)) d r h = add-Agrees d id name r h
take_turn-Agrees (operated world (renaming id name)) d r h = rename-Agrees world d id name r h
take_turn-Agrees (operated world (removing id)) d r h = remove-Agrees d id r h
take_turn-Agrees (operated world (applying id state server_ms)) d r h =
    apply_state-Agrees world d id state server_ms r h
take_turn-Agrees (operated world despawning) d r h =
    Agrees-labels d r.players _ (labels-despawn_all r) h
take_turn-Agrees (operated world respawning) d r h =
    Agrees-labels d r.players _ (labels-respawn r) h
take_turn-Agrees (operated world (setting_base form)) d r h =
    Agrees-labels d r.players _ (labels-respawn (record r { base_form_id = form })) h
take_turn-Agrees (operated world (setting_pacify b)) d r h =
    Agrees-labels d r.players _ (labels-respawn (record r { pacify = b })) h
take_turn-Agrees (operated world (setting_ghost b)) d r h =
    Agrees-labels d r.players _ (labels-respawn (record r { ghost = b })) h
take_turn-Agrees (operated world (setting_duplicate b)) d r h =
    Agrees-labels d r.players _ (labels-respawn (record r { duplicate = b })) h
take_turn-Agrees (operated world (setting_drive b)) d r h = h
take_turn-Agrees (operated world (setting_move b)) d r h = h
take_turn-Agrees (operated world forgetting) d r h =
    Agrees-labels d r.players _ (labels-each forget_actor (λ p. refl) r.players) h
take_turn-Agrees (operated world clearing) d r h = Agrees-nobody
take_turn-Agrees (drawn f g now) d r h = Agrees-labels d r.players _ (labels-drawn f g now _ r) h

turns-Agrees :
    (ts : List Turn) (d : Directory) (r : Remotes)
    → Agrees d r.players
    → Agrees (note_all ts d) (take_turns ts r).players
unfolding note_all take_turns
turns-Agrees [] d r h = h
turns-Agrees (t ∷ ts) d r h = turns-Agrees ts (note t d) (take_turn t r) (take_turn-Agrees t d r h)

-- Whatever operations and frames the list goes through, in any order, no id is listed twice, and the
-- list names exactly whom a directory names that only knows of ids and names: one enters, is renamed
-- or sends a state, under its last name or a placeholder, one leaves, or all do; nothing else counts.
pub take_turns-Agrees :
    (ts : List Turn) → Agrees (note_all ts (λ k. none)) (take_turns ts new_remotes).players
take_turns-Agrees ts = turns-Agrees ts (λ k. none) new_remotes Agrees-nobody
