-- ===== src/Client/Game/Forms.antt =====
-- `CreateCloneBase` and `RenameCloneBase` of client/src/Game/GameUtil.cpp: what they do to forms.
use f4mp.Base.{ℕ, Bool, Option, none, some, List, [], ◌∷◌, if◌then◌else◌, map, Bytes}
use f4mp.Client.Game.{Engine}
use f4mp.Client.RemoteState.{EngineCall, rename_clone_base, create_clone_base}

-- The flags of an actor's base that are reset.
data BaseFlag : Type 0 where
  unique essential protected chargen_face_preset : BaseFlag

data FormDeed : Type 0 where
  set_is_ghost : Bool → FormDeed
  reset_flag : BaseFlag → FormDeed
  set_aggression set_assistance set_use_aggro_radius : ℕ → FormDeed
  set_full_name : Bytes → FormDeed

-- What a new base gets.
unfoldable base_deeds : Bytes → Bool → List FormDeed
base_deeds name ghost =
    set_is_ghost ghost
    ∷ reset_flag unique
    ∷ reset_flag essential
    ∷ reset_flag protected
    ∷ reset_flag chargen_face_preset
    ∷ set_aggression 0
    ∷ set_assistance 0
    ∷ set_use_aggro_radius 0
    ∷ set_full_name name
    ∷ []

abbrev at_form : Option ℕ → List FormDeed → List (ℕ × FormDeed)
at_form none deeds = []
at_form (some form) deeds = map (λ d. (form, d)) deeds

-- The copy of the source, if it is an NPC and can be copied.
unfoldable new_base : Engine → ℕ → Option ℕ
new_base g source = if g.is_npc source then g.duplicate_form source else none

-- What a call does to forms.
unfoldable form_effects : Engine → EngineCall → List (ℕ × FormDeed)
form_effects g (rename_clone_base base name) = at_form base (set_full_name name ∷ [])
form_effects g (create_clone_base source name ghost) =
    at_form (new_base g source) (base_deeds name ghost)
form_effects g _ = []
