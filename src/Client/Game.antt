-- ===== src/Client/Game.antt =====
-- client/src/Game/GameUtil.cpp and GameUtil.hpp: where a reference is, and what the plugin reads of the
-- game's engine. A pointer to a reference or to a form, and a handle, is a number.
pub mod Effects
pub mod Forms
pub mod Restore
pub mod Spared
use f4mp.Base.{
  ℕ, Bool, true, false, not, Option, none, some, List, ◌==◌, if◌then◌else◌, is_empty, Bytes, codes,
  ◌++◌, ◌∷◌, [],
}
use f4mp.Types.{PlayerState, Vec3}

pub record Space : Type 0 where
  pub worldspace_id : ℕ
  pub cell_id : ℕ
  pub interior : Bool

abbrev pub new_space : Space
new_space = record { worldspace_id = 0; cell_id = 0; interior = false }

-- `SameArea`, of the other space and the first.
unfoldable pub is_same_area : Space → Space → Bool
is_same_area other space =
    if bool_ne space.interior other.interior
    then false
    else if space.interior
    then space.cell_id == other.cell_id
    else space.worldspace_id == other.worldspace_id
  where
    bool_ne : Bool → Bool → Bool
    bool_ne true b = not b
    bool_ne false b = b

unfoldable pub space_from_state : PlayerState → Space
space_from_state s = record {
  worldspace_id = s.worldspace_id;
  cell_id = s.cell_id;
  interior = s.worldspace_id == 0;
}

-- What `SpawnPlayerClone` gives to `CreateReferenceAtLocation`: the base, the place and the heading,
-- with the interior cell or the worldspace.
pub record Placement : Type 0 where
  pub base : ℕ
  pub location : Vec3
  pub heading : ℕ
  pub cell : Option ℕ
  pub world : Option ℕ

-- The engine as one call sees it: the local player, the cell of a reference with its kind and its
-- worldspace, the name of the player's base if it has one, the reference of a handle, whether it is an
-- actor, has an artificial mind, is in combat or is transparent, its place, the variables of its graph
-- of animations, which forms there are, the handle of a reference that is created, and the copy of a
-- form.
pub record Engine : Type 0 where
  pub player : Option ℕ
  pub parent_cell : ℕ → Option ℕ
  pub is_interior : ℕ → Bool
  pub worldspace : ℕ → Option ℕ
  pub full_name : ℕ → Option Bytes
  pub resolve : ℕ → Option ℕ
  pub is_actor : ℕ → Bool
  pub has_process : ℕ → Bool
  pub is_in_combat : ℕ → Bool
  pub is_transparent : ℕ → Bool
  pub position : ℕ → Vec3
  pub has_float : ℕ → Bytes → Bool
  pub has_bool : ℕ → Bytes → Bool
  pub is_npc : ℕ → Bool
  pub is_cell : ℕ → Bool
  pub is_world : ℕ → Bool
  pub has_data_handler : Bool
  pub create_reference : Placement → Option ℕ
  pub duplicate_form : ℕ → Option ℕ

abbrev with_cell : ℕ → Option ℕ → Option ℕ
with_cell player none = none
with_cell player (some cell) = some player

abbrev pub id_or_zero : Option ℕ → ℕ
id_or_zero none = 0
id_or_zero (some id) = id

-- `if (name && *name)` of `GetPlayerName`.
abbrev name_or_default : Option Bytes → Bytes
name_or_default none = codes "Wastelander"
name_or_default (some name) = if is_empty name then codes "Wastelander" else name

module _ (g : Engine) where
  unfoldable pub get_player : Option ℕ → Option ℕ
  get_player none = none
  get_player (some player) = with_cell player (g.parent_cell player)

  unfoldable pub space_of_cell : Option ℕ → Option Space
  space_of_cell none = none
  space_of_cell (some cell) = some (record {
    worldspace_id = id_or_zero (g.worldspace cell);
    cell_id = cell;
    interior = g.is_interior cell;
  })

  unfoldable pub get_space : Option ℕ → Option Space
  get_space none = none
  get_space (some ref) = space_of_cell (g.parent_cell ref)

  unfoldable pub get_player_name : Option ℕ → Bytes
  get_player_name none = codes "Wastelander"
  get_player_name (some player) = name_or_default (g.full_name player)

  abbrev if_form : Bool → ℕ → Option ℕ
  if_form true id = some id
  if_form false id = none

  unfoldable pub placement : ℕ → Vec3 → ℕ → Space → Placement
  placement base location heading space = record {
    base = base;
    location = location;
    heading = heading;
    cell = if space.interior then if_form (g.is_cell space.cell_id) space.cell_id else none;
    world =
        if space.interior
        then none
        else if_form (g.is_world space.worldspace_id) space.worldspace_id;
  }

  -- Whether a reference is the local player.
  abbrev pub is_player : ℕ → Bool
  is_player ref = same g.player ref
    where
      same : Option ℕ → ℕ → Bool
      same none ref = false
      same (some player) ref = ref == player

  abbrev pub is_placed : Placement → Bool
  is_placed p = known p.cell p.world
    where
      known : Option ℕ → Option ℕ → Bool
      known none none = false
      known none (some world) = true
      known (some cell) world = true

  -- A handle whose reference is the local player is not given out.
  abbrev pub refuse_player : ℕ → Option ℕ → Option ℕ
  refuse_player handle none = some handle
  refuse_player handle (some ref) = if is_player ref then none else some handle

  abbrev pub checked_handle : Option ℕ → Option ℕ
  checked_handle none = none
  checked_handle (some handle) = refuse_player handle (g.resolve handle)

  -- `SpawnPlayerClone` for a base that exists: the new handle.
  pub spawn_player_clone : ℕ → Vec3 → ℕ → Space → Option ℕ
  spawn_player_clone base location heading space =
      let p = placement base location heading space in
      if not g.has_data_handler
      then none
      else if not (is_placed p)
      then none
      else checked_handle (g.create_reference p)
