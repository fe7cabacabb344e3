-- ===== src/Client/LocalPlayer.antt =====
-- client/src/Sync/LocalPlayer.cpp: the state of the player that is sent.
pub mod Fits
use f4mp.Base.{
  ℕ, ◌+◌, ◌<◌, Bool, true, false, Option, none, some, if◌then◌else◌, ◌==◌, ◌%◌, ◌/◌, ◌≡◌, arith,
}
use f4mp.Types.{
  PlayerState, initial_state, state_none, state_sneaking, state_weapon_drawn, state_dead,
  state_sprinting,
}
use f4mp.Client.Game.{Space, Engine, get_player, get_space}

-- What the engine says of the player: the yaw, the flags, and the health with its maximum where the
-- values of actors are known. Each is the pattern of a `float`.
pub record Body : Type 0 where
  pub angle_z : ℕ
  pub sneaking : Bool
  pub weapon_drawn : Bool
  pub dead : Bool
  pub sprinting : Bool
  pub health : Option (ℕ × ℕ)

abbrev pub flag_if : Bool → ℕ → ℕ
flag_if b bit = if b then bit else state_none

-- The `|=` of different bits adds them.
unfoldable pub flags_of : Body → ℕ
flags_of b =
    flag_if b.sneaking state_sneaking
    + (flag_if b.weapon_drawn state_weapon_drawn
        + (flag_if b.dead state_dead + flag_if b.sprinting state_sprinting))

abbrev pub with_health : Option (ℕ × ℕ) → PlayerState → PlayerState
with_health none out = out
with_health (some (health, max_health)) out = record out {
  health = health;
  max_health = max_health;
}

module _ (g : Engine) (b : Body) where
  unfoldable pub sample_in : ℕ → Option Space → PlayerState → Option PlayerState
  sample_in player none out = none
  sample_in player (some space) out = some (
      with_health b.health (record out {
        position = g.position player;
        yaw = b.angle_z;
        worldspace_id = space.worldspace_id;
        cell_id = space.cell_id;
        flags = flags_of b;
      }))

  unfoldable pub sample_player : Option ℕ → PlayerState → Option PlayerState
  sample_player none out = none
  sample_player (some player) out = sample_in player (get_space g (some player)) out

  -- `Sample` on the given record: what it becomes, where it returns true.
  unfoldable pub sample : PlayerState → Option PlayerState
  sample out = sample_player (get_player g g.player) out
