-- ===== src/Client/Remotes/Directory/Names.antt =====
-- What changes no id and no name in the list of client/src/Sync/RemotePlayers.cpp.
use f4mp.Base.{
  ℕ, Option, none, some, List, [], ◌∷◌, ◌++◌, ◌==◌, if◌then◌else◌, Bytes, ◌≡◌, refl, sym, ap, subst,
  ◌∙◌, inl, inr, Bool-cases, Distinct,
}
use f4mp.Client.Game.{Space, Engine}
use f4mp.Client.RemoteState.{RemotePlayer, Remotes}
use f4mp.Client.Remotes.{find, each, despawn_all, respawn, despawn_one, fresh_clone}
use f4mp.Client.Remotes.Drawing.{Motion, update_each, update_in_space}
use f4mp.Client.Remotes.Late.{remote_ids}
use f4mp.Client.Remotes.Snapshots.{Lasting, update_one-lasting}
use f4mp.Client.Remotes.Directory.{Directory, name_in, Agrees}

-- The entries but for all that is not their id and name.
abbrev labels : List RemotePlayer → List (ℕ × Bytes)
labels [] = []
labels (p ∷ ps) = (p.id, p.name) ∷ labels ps

abbrev ids_of : List (ℕ × Bytes) → List ℕ
ids_of [] = []
ids_of ((id, name) ∷ ls) = id ∷ ids_of ls

abbrev look : ℕ → List (ℕ × Bytes) → Option Bytes
look k [] = none
look k ((id, name) ∷ ls) = if id == k then some name else look k ls

remote_ids-labels : (ps : List RemotePlayer) → remote_ids ps ≡ ids_of (labels ps)
remote_ids-labels [] = refl
remote_ids-labels (p ∷ ps) = ap (λ ids. p.id ∷ ids) (remote_ids-labels ps)

find-labels : (k : ℕ) (ps : List RemotePlayer) → name_in (find k ps) ≡ look k (labels ps)
unfolding find
find-labels k [] = refl
find-labels k (p ∷ ps) = elim (Bool-cases (p.id == k)) [
  | inl e ↦ rw e refl
  | inr e ↦ rw e (find-labels k ps)
]

pub Agrees-labels :
    (d : Directory) (ps qs : List RemotePlayer) → labels qs ≡ labels ps → Agrees d ps → Agrees d qs
Agrees-labels d ps qs e h = record {
  distinct =
      subst Distinct (remote_ids-labels ps ∙ (ap ids_of (sym e) ∙ sym (remote_ids-labels qs)))
        h.distinct;
  names = λ k. find-labels k qs ∙ (ap (look k) e ∙ (sym (find-labels k ps) ∙ h.names k));
}

pub labels-each :
    (f : RemotePlayer → RemotePlayer)
    → ((p : RemotePlayer) → labels (f p ∷ []) ≡ labels (p ∷ []))
    → (ps : List RemotePlayer) → labels (each f ps) ≡ labels ps
unfolding each
labels-each f same [] = refl
labels-each f same (p ∷ ps) =
    ap (λ ls. ls ++ labels (each f ps)) (same p)
    ∙ ap (λ ls. (p.id, p.name) ∷ ls) (labels-each f same ps)

module _ (f : Motion) (g : Engine) (r : Remotes) where
  labels-update_each :
      (local : Space) (now render : ℕ) (ps : List RemotePlayer)
      → labels (update_each f g r local now render ps).0 ≡ labels ps
  unfolding update_each
  labels-update_each local now render [] = refl
  labels-update_each local now render (p ∷ ps) =
      ap (λ (l : Lasting). (l.id, l.name) ∷ labels (update_each f g r local now render ps).0)
        (update_one-lasting f g r local now render p)
      ∙ ap (λ ls. (p.id, p.name) ∷ ls) (labels-update_each local now render ps)

pub labels-drawn :
    (f : Motion) (g : Engine) (now : ℕ) (o : Option Space) (r : Remotes)
    → labels (update_in_space f g now o r).players ≡ labels r.players
unfolding update_in_space
labels-drawn f g now none r = refl
labels-drawn f g now (some local) r =
    labels-update_each f g r local now (f.render_ms r.offset_ms r.interp_delay_ms) r.players

pub labels-despawn_all : (r : Remotes) → labels (despawn_all r).players ≡ labels r.players
unfolding despawn_all
labels-despawn_all r = labels-each despawn_one (λ p. refl) r.players

pub labels-respawn : (r : Remotes) → labels (respawn r).players ≡ labels r.players
unfolding respawn
labels-respawn r =
    labels-each fresh_clone (λ p. refl) (despawn_all r).players ∙ labels-despawn_all r
