-- ===== src/Client/Remotes/Directory.antt =====
-- Whom the list of client/src/Sync/RemotePlayers.cpp names, against a directory of ids and names.
mod Names
pub mod Steps
use f4mp.Base.{
  ℕ, Bool, true, false, Option, none, some, List, [], ◌∷◌, ◌++◌, ◌==◌, ==→eq, ne→==, if◌then◌else◌,
  Bytes, ◌≡◌, ◌≢◌, refl, sym, ap, subst, ◌∙◌, inl, inr, arith, Bool-cases, Option-cases, Distinct,
  Fresh,
}
use f4mp.Client.Game.{Space, Engine, get_space, get_player}
use f4mp.Types.{PlayerState}
use f4mp.Client.Remotes.History.{players-hear}
use f4mp.Client.RemoteState.{TimedState, RemotePlayer, World, Remotes, new_remotes}
use f4mp.Client.Remotes.{
  Operation, adding, renaming, removing, applying, despawning, respawning, setting_base,
  setting_pacify, setting_ghost, setting_duplicate, setting_drive, setting_move, forgetting,
  clearing, find, put, erase, entry, entry_of, each, add, rename, relabel, remove, placeholder,
  ensure, hear, apply_state, despawn_all, respawn, forget_actors, clear, set_clone_base, set_pacify,
  set_ghost, set_duplicate, perform, despawn_one, fresh_clone, forget_actor,
}
use f4mp.Client.Remotes.Drawing.{Motion, update_one, update_each, update_in_space, update_remotes}
use f4mp.Client.Remotes.Late.{remote_ids, find-Fresh, find-put, find-erase}
use f4mp.Client.Remotes.Snapshots.{Lasting, lasting, update_one-lasting}
use f4mp.Client.Remotes.Turns.{Turn, operated, drawn, take_turn, take_turns}

-- The specification: the name of each id that is listed.
abbrev pub Directory : Type 0
Directory = ℕ → Option Bytes

pub enter : ℕ → Bytes → Directory → Directory
enter id name d k = if id == k then some name else d k

pub strike : ℕ → Directory → Directory
strike id d k = if id == k then none else d k

-- The name that is there, or a placeholder.
abbrev pub known_as : Bytes → Option Bytes → Bytes
known_as other none = other
known_as other (some name) = name

-- What an operation does to the directory.
pub note : Turn → Directory → Directory
note (operated world (adding id name)) d = enter id name d
note (operated world (renaming id name)) d = enter id name d
note (operated world (removing id)) d = strike id d
note (operated world (applying id state server_ms)) d =
    enter id (known_as (placeholder world id) (d id)) d
note (operated world clearing) d = λ k. none
note t d = d

pub note_all : List Turn → Directory → Directory
note_all [] d = d
note_all (t ∷ ts) d = note_all ts (note t d)

abbrev pub name_in : Option RemotePlayer → Option Bytes
name_in none = none
name_in (some p) = some p.name

-- The list has no two entries of one id, and names whom the directory names.
pub record Agrees (d : Directory) (ps : List RemotePlayer) : Type 0 where
  pub distinct : Distinct (remote_ids ps)
  pub names : (k : ℕ) → name_in (find k ps) ≡ d k

pub found_id :
    (id : ℕ) (ps : List RemotePlayer) (p : RemotePlayer) → find id ps ≡ some p → p.id ≡ id
unfolding find
found_id id [] p e = cc
found_id id (q ∷ ps) p found = elim (Bool-cases (q.id == id)) [
  | inl e ↦ ground arith
  | inr e ↦ found_id id ps p (subst (λ b. (if b then some q else find id ps) ≡ some p) e found)
]

find-put_other :
    (k : ℕ) (q : RemotePlayer) (ps : List RemotePlayer)
    → (q.id == k) ≡ false
    → find k (put q ps) ≡ find k ps
unfolding find put
find-put_other k q [] other = rw other
find-put_other k q (p ∷ ps) other = elim (Bool-cases (p.id == q.id)) [
  | inl e ↦ let same : (p.id == k) ≡ false = ground arith in rw (e, other, same) refl
  | inr e ↦ rw (e, find, find-put_other k q ps other) refl
]

pub names-put :
    (k : ℕ) (q : RemotePlayer) (ps : List RemotePlayer)
    → name_in (find k (put q ps)) ≡ (if q.id == k then some q.name else name_in (find k ps))
names-put k q ps = elim (Bool-cases (q.id == k)) [
  | inl e ↦ rw e (
      subst (λ j. name_in (find j (put q ps)) ≡ some q.name) (==→eq q.id k e)
        (ap name_in (find-put q ps)))
  | inr e ↦ rw e (ap name_in (find-put_other k q ps e))
]

pub find-erase_other :
    (k id : ℕ) (ps : List RemotePlayer) → (id == k) ≡ false → find k (erase id ps) ≡ find k ps
unfolding find erase
find-erase_other k id [] other = refl
find-erase_other k id (p ∷ ps) other = elim (Bool-cases (p.id == id)) [
  | inl e ↦ let same : (p.id == k) ≡ false = ground arith in rw (e, same) refl
  | inr e ↦ rw (e, find, find-erase_other k id ps other) refl
]

Fresh-put :
    (n : ℕ) (q : RemotePlayer) (ps : List RemotePlayer)
    → q.id ≢ n
    → Fresh n (remote_ids ps)
    → Fresh n (remote_ids (put q ps))
unfolding put
Fresh-put n q [] other h = (other, tt)
Fresh-put n q (p ∷ ps) other h = elim (Bool-cases (p.id == q.id)) [
  | inl e ↦ rw e (other, h.1)
  | inr e ↦ rw e (h.0, Fresh-put n q ps other h.1)
]

pub Distinct-put :
    (q : RemotePlayer) (ps : List RemotePlayer)
    → Distinct (remote_ids ps)
    → Distinct (remote_ids (put q ps))
unfolding put
Distinct-put q [] h = (tt, tt)
Distinct-put q (p ∷ ps) h = elim (Bool-cases (p.id == q.id)) [
  | inl e ↦ rw e (subst (λ k. Fresh k (remote_ids ps)) (==→eq p.id q.id e) h.0, h.1)
  | inr e ↦ rw e (Fresh-put p.id q ps (λ s. ground arith) h.0, Distinct-put q ps h.1)
]

Fresh-erase :
    (n id : ℕ) (ps : List RemotePlayer)
    → Fresh n (remote_ids ps)
    → Fresh n (remote_ids (erase id ps))
unfolding erase
Fresh-erase n id [] h = tt
Fresh-erase n id (p ∷ ps) h = elim (Bool-cases (p.id == id)) [
  | inl e ↦ rw e h.1
  | inr e ↦ rw e (h.0, Fresh-erase n id ps h.1)
]

pub Distinct-erase :
    (id : ℕ) (ps : List RemotePlayer)
    → Distinct (remote_ids ps)
    → Distinct (remote_ids (erase id ps))
unfolding erase
Distinct-erase id [] h = tt
Distinct-erase id (p ∷ ps) h = elim (Bool-cases (p.id == id)) [
  | inl e ↦ rw e h.1
  | inr e ↦ rw e (Fresh-erase p.id id ps h.0, Distinct-erase id ps h.1)
]
