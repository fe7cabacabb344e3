-- ===== src/Client/Game/Effects.antt =====
-- client/src/Game/GameUtil.cpp: what its calls do to references of the engine.
use f4mp.Base.{
  ℕ, Bool, false, not, ◌&&◌, Option, none, some, List, [], ◌∷◌, ◌++◌, map, if◌then◌else◌, Bytes,
  codes,
}
use f4mp.Types.{Vec3}
use f4mp.Client.Game.{Engine, is_player}
use f4mp.Client.RemoteState.{
  EngineCall, rename_clone_base, apply_clone_identity, despawn, create_clone_base, place_clone,
  pacify_clone, set_opaque, drive_clone, drive_clone_by_move, kill, resurrect, apply_state_flags,
  set_locomotion,
}
use f4mp.Client.Remotes.Drawing.{Motion, has_bit}

-- The calls of one reference or actor of the engine, and the console's line for one.
pub data Deed : Type 0 where
  disable set_delete initiate_do_nothing stop_combat update_3d_position : Deed
  kill_impl resurrect_now set_alpha_one : Deed
  set_display_name console_line : Bytes → Deed
  set_sneaking draw_weapon : Bool → Deed
  set_sprinting : ℕ → Deed
  set_position : Vec3 → Deed
  set_heading : ℕ → Deed
  advance : ℕ → Vec3 → Deed
  write_float : Bytes → ℕ → Deed
  write_bool : Bytes → Bool → Deed

-- A deed at a reference.
abbrev pub Action : Type 0
Action = ℕ × Deed

-- The tests of `float` in `DriveCloneByMove` and `SetLocomotion`: `> 250`, `std::clamp(_, 0, 900)`,
-- `< 8` and `>= 260`.
pub record Speeds : Type 0 where
  pub is_far : ℕ → Bool
  pub clamp_speed : ℕ → ℕ
  pub is_standing : ℕ → Bool
  pub is_run : ℕ → Bool

abbrev pub at_reference : ℕ → List Deed → List Action
at_reference ref deeds = map (λ d. (ref, d)) deeds

abbrev when : Bool → Deed → List Deed
when b d = if b then d ∷ [] else []

-- `changed & bit`.
abbrev bit_changed : ℕ → ℕ → ℕ → Bool
bit_changed flags previous bit =
    if has_bit flags bit then not (has_bit previous bit) else has_bit previous bit

unfoldable pub state_flag_deeds : ℕ → ℕ → List Deed
state_flag_deeds flags previous =
    when (bit_changed flags previous 1) (set_sneaking (has_bit flags 1))
    ++ (when (bit_changed flags previous 2) (draw_weapon (has_bit flags 2))
        ++ when (bit_changed flags previous 8) (set_sprinting (if has_bit flags 8 then 1 else 0)))

unfoldable pub drive_deeds : Vec3 → ℕ → List Deed
drive_deeds position yaw = set_position position ∷ set_heading yaw ∷ update_3d_position ∷ []

abbrev speed_names : List Bytes
speed_names =
    codes "SpeedSampled"
    ∷ codes "Speed"
    ∷ codes "SpeedDamped"
    ∷ codes "fSpeed"
    ∷ codes "MoveSpeed"
    ∷ []

abbrev run_names : List Bytes
run_names = codes "IsRunning" ∷ codes "bIsRunning" ∷ []

abbrev sprint_names : List Bytes
sprint_names = codes "IsSprinting" ∷ codes "bIsSprinting" ∷ []

unfoldable pub identity_deeds : Bytes → Bool → List Deed
identity_deeds name ghost = set_display_name name ∷ when ghost (console_line (codes "SetGhost 1"))

module _ (g : Engine) where
  -- The lambdas `writeFloat` and `writeBool`, over the names of a list.
  unfoldable pub write_floats : ℕ → ℕ → List Bytes → List Deed
  write_floats actor value [] = []
  write_floats actor value (name ∷ names) =
      when (g.has_float actor name) (write_float name value) ++ write_floats actor value names

  unfoldable pub write_bools : ℕ → Bool → List Bytes → List Deed
  write_bools actor value [] = []
  write_bools actor value (name ∷ names) =
      when (g.has_bool actor name) (write_bool name value) ++ write_bools actor value names

  unfoldable pub pacify_deeds : ℕ → List Deed
  pacify_deeds actor =
      if not (g.has_process actor)
      then []
      else initiate_do_nothing ∷ when (g.is_in_combat actor) stop_combat

  -- `Despawn` but for the handle.
  unfoldable pub despawn_ref : Option ℕ → List Action
  despawn_ref none = []
  despawn_ref (some ref) =
      if is_player g ref then [] else at_reference ref (disable ∷ set_delete ∷ [])

  unfoldable pub identify_ref : Bytes → Bool → Option ℕ → List Action
  identify_ref name ghost none = []
  identify_ref name ghost (some ref) = at_reference ref (identity_deeds name ghost)

  abbrev pub resolve_handle : Option ℕ → Option ℕ
  resolve_handle none = none
  resolve_handle (some handle) = g.resolve handle

module _ (f : Motion) (s : Speeds) (g : Engine) where
  unfoldable pub move_deeds : ℕ → Vec3 → ℕ → ℕ → List Deed
  move_deeds actor position yaw dt =
      let m = f.maths in
      let current = g.position actor in
      let dx = m.sub position.x current.x in
      let dy = m.sub position.y current.y in
      let dz = m.sub position.z current.z in
      let distance = f.root (m.add (m.add (m.mul dx dx) (m.mul dy dy)) (m.mul dz dz)) in
      if s.is_far distance
      then drive_deeds position yaw
      else set_heading yaw ∷ advance dt (record { x = dx; y = dy; z = dz }) ∷ []

  unfoldable pub locomotion_speed : ℕ → ℕ
  locomotion_speed speed =
      let clamped = s.clamp_speed speed in if s.is_standing clamped then 0 else clamped

  unfoldable pub locomotion_deeds : ℕ → ℕ → Bool → Bool → List Deed
  locomotion_deeds actor asked sprinting first =
      let speed = locomotion_speed asked in
      (if first
        then write_bools g actor false (codes "bAnimationDriven" ∷ codes "bMotionDriven" ∷ [])
        else [])
      ++ (write_floats g actor speed speed_names
          ++ (write_floats g actor 0 (codes "Direction" ∷ [])
              ++ (write_bools g actor (s.is_run speed) run_names
                  ++ write_bools g actor (sprinting && f.is_positive speed) sprint_names)))

  -- What a call does to references; of forms and of new references it says nothing.
  unfoldable pub effects : EngineCall → List Action
  effects (rename_clone_base base name) = []
  effects (create_clone_base source name ghost) = []
  effects (place_clone base location heading space) = []
  effects (apply_clone_identity handle name ghost) = identify_ref g name ghost (g.resolve handle)
  effects (despawn handle) = despawn_ref g (resolve_handle g handle)
  effects (pacify_clone actor) = at_reference actor (pacify_deeds g actor)
  effects (set_opaque actor) = at_reference actor (set_alpha_one ∷ [])
  effects (drive_clone actor position yaw) = at_reference actor (drive_deeds position yaw)
  effects (drive_clone_by_move actor position yaw dt) =
      at_reference actor (move_deeds actor position yaw dt)
  effects (kill actor) = at_reference actor (kill_impl ∷ [])
  effects (resurrect actor) = at_reference actor (resurrect_now ∷ [])
  effects (apply_state_flags actor flags previous) =
      at_reference actor (state_flag_deeds flags previous)
  effects (set_locomotion actor speed sprinting first) =
      at_reference actor (locomotion_deeds actor speed sprinting first)
