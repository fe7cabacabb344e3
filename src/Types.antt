-- ===== src/Types.antt =====
-- shared/include/f4mp/Types.hpp. A `float` is its 32-bit pattern (IEEE 754 binary32), so every
-- field is a number below the modulus of its width.
use f4mp.Base.{ℕ, ◌<◌, u8_max, u32_mod}

abbrev pub server_id : ℕ
server_id = 0

abbrev pub invalid_player_id : ℕ
invalid_player_id = 0xFFFF_FFFF

pub record Vec3 : Type 0 where
  pub x : ℕ
  pub y : ℕ
  pub z : ℕ

-- The bits of `StateFlags`.
abbrev pub state_none : ℕ
state_none = 0

abbrev pub state_sneaking : ℕ
state_sneaking = 1

abbrev pub state_weapon_drawn : ℕ
state_weapon_drawn = 2

abbrev pub state_dead : ℕ
state_dead = 4

abbrev pub state_sprinting : ℕ
state_sprinting = 8

pub record PlayerState : Type 0 where
  pub position : Vec3
  pub yaw : ℕ
  pub worldspace_id : ℕ
  pub cell_id : ℕ
  pub flags : ℕ
  pub health : ℕ
  pub max_health : ℕ

-- The value initialisers of the struct.
abbrev pub initial_state : PlayerState
initial_state = record {
  position = record { x = 0; y = 0; z = 0 };
  yaw = 0;
  worldspace_id = 0;
  cell_id = 0;
  flags = state_none;
  health = 0;
  max_health = 0;
}

-- Every field is a value of its C++ type.
pub record IsVec3 (v : Vec3) : Type 0 where
  pub x_fits : v.x < u32_mod
  pub y_fits : v.y < u32_mod
  pub z_fits : v.z < u32_mod

pub record IsPlayerState (s : PlayerState) : Type 0 where
  pub position_fits : IsVec3 s.position
  pub yaw_fits : s.yaw < u32_mod
  pub worldspace_fits : s.worldspace_id < u32_mod
  pub cell_fits : s.cell_id < u32_mod
  pub flags_fits : s.flags < u8_max
  pub health_fits : s.health < u32_mod
  pub max_health_fits : s.max_health < u32_mod
