-- ===== src/Client/LocalPlayer/Fits.antt =====
-- client/src/Sync/LocalPlayer.cpp: what is sent fits its types, and the flags say what the player does.
use f4mp.Base.{ℕ, ◌+◌, ◌<◌, Bool, Option, none, some, ◌≡◌, refl, subst, sym, u32_mod, u8_max, arith}
use f4mp.Types.{
  IsVec3, PlayerState, IsPlayerState, state_sneaking, state_weapon_drawn, state_dead,
  state_sprinting,
}
use f4mp.Client.Game.{Engine, get_player, get_space, space_of_cell, id_or_zero}
use f4mp.Client.LocalPlayer.{Body, flag_if, flags_of, with_health, sample_in, sample_player, sample}
use f4mp.Client.Remotes.Drawing.{has_bit}

-- The engine's numbers are 32-bit patterns and ids.
pub record FitsEngine (g : Engine) : Type 0 where
  pub positions : (ref : ℕ) → IsVec3 (g.position ref)
  pub cells : (ref cell : ℕ) → g.parent_cell ref ≡ some cell → cell < u32_mod
  pub worlds : (cell : ℕ) → id_or_zero (g.worldspace cell) < u32_mod

pub record FitsBody (b : Body) : Type 0 where
  pub angle_fits : b.angle_z < u32_mod
  pub health_fits : (value : ℕ × ℕ) → b.health ≡ some value → value.0 < u32_mod
  pub max_fits : (value : ℕ × ℕ) → b.health ≡ some value → value.1 < u32_mod

-- The flags of the state are what the player does.
pub record Tells (b : Body) (flags : ℕ) : Type 0 where
  pub sneaks : has_bit flags 1 ≡ b.sneaking
  pub draws : has_bit flags 2 ≡ b.weapon_drawn
  pub dies : has_bit flags 4 ≡ b.dead
  pub sprints : has_bit flags 8 ≡ b.sprinting

four_flags : Bool → Bool → Bool → Bool → ℕ
four_flags a b c d =
    flag_if a state_sneaking
    + (flag_if b state_weapon_drawn + (flag_if c state_dead + flag_if d state_sprinting))

four_small : (a b c d : Bool) → four_flags a b c d < u8_max
unfolding four_flags
four_small a b c d = ground arith

bit_one : (a b c d : Bool) → has_bit (four_flags a b c d) 1 ≡ a
unfolding four_flags
bit_one a b c d = ground arith

bit_two : (a b c d : Bool) → has_bit (four_flags a b c d) 2 ≡ b
unfolding four_flags
bit_two a b c d = ground arith

bit_four : (a b c d : Bool) → has_bit (four_flags a b c d) 4 ≡ c
unfolding four_flags
bit_four a b c d = ground arith

bit_eight : (a b c d : Bool) → has_bit (four_flags a b c d) 8 ≡ d
unfolding four_flags
bit_eight a b c d = ground arith

flags_of-Tells : (b : Body) → Tells b (flags_of b)
unfolding flags_of four_flags
flags_of-Tells b = record {
  sneaks = bit_one b.sneaking b.weapon_drawn b.dead b.sprinting;
  draws = bit_two b.sneaking b.weapon_drawn b.dead b.sprinting;
  dies = bit_four b.sneaking b.weapon_drawn b.dead b.sprinting;
  sprints = bit_eight b.sneaking b.weapon_drawn b.dead b.sprinting;
}

flags_of-small : (b : Body) → flags_of b < u8_max
unfolding flags_of four_flags
flags_of-small b = four_small b.sneaking b.weapon_drawn b.dead b.sprinting

with_health-IsPlayerState :
    (o : Option (ℕ × ℕ)) (out : PlayerState)
    → ((value : ℕ × ℕ) → o ≡ some value → value.0 < u32_mod)
    → ((value : ℕ × ℕ) → o ≡ some value → value.1 < u32_mod)
    → IsPlayerState out
    → IsPlayerState (with_health o out)
with_health-IsPlayerState none out h m k = k
with_health-IsPlayerState (some (health, max_health)) out h m k = record {
  position_fits = k.position_fits;
  yaw_fits = k.yaw_fits;
  worldspace_fits = k.worldspace_fits;
  cell_fits = k.cell_fits;
  flags_fits = k.flags_fits;
  health_fits = h (health, max_health) refl;
  max_health_fits = m (health, max_health) refl;
}

with_health-flags : (o : Option (ℕ × ℕ)) (out : PlayerState) → (with_health o out).flags ≡ out.flags
with_health-flags none out = refl
with_health-flags (some (health, max_health)) out = refl

-- A result that fits, and tells of the player.
record IsSample (b : Body) (o : Option PlayerState) : Type 0 where
  fits : (state : PlayerState) → o ≡ some state → IsPlayerState state × Tells b state.flags

module _ (g : Engine) (b : Body) (h : FitsEngine g) (k : FitsBody b) where
  none-IsSample : IsSample b none
  none-IsSample = record { fits = λ state e. absurd (ground arith) }

  some-IsSample :
      (state : PlayerState)
      → IsPlayerState state
      → state.flags ≡ flags_of b
      → IsSample b (some state)
  some-IsSample state p e = record {
    fits = λ other q.
        subst (λ (s : PlayerState). IsPlayerState s × Tells b s.flags) (some_same state other q)
          (p, subst (Tells b) (sym e) (flags_of-Tells b));
  }
    where
      some_same : (s t : PlayerState) → some s ≡ some t → s ≡ t
      some_same s t q = cc

  sample_in-IsSample :
      (player : ℕ) (o : Option ℕ) (out : PlayerState)
      → g.parent_cell player ≡ o
      → IsPlayerState out
      → IsSample b (sample_in g b player (space_of_cell g o) out)
  unfolding sample_in space_of_cell
  sample_in-IsSample player none out e p = none-IsSample
  sample_in-IsSample player (some cell) out e p =
      let filled = record out {
        position = g.position player;
        yaw = b.angle_z;
        worldspace_id = id_or_zero (g.worldspace cell);
        cell_id = cell;
        flags = flags_of b;
      } in
      some-IsSample (with_health b.health filled)
        (with_health-IsPlayerState b.health filled k.health_fits k.max_fits (record {
          position_fits = h.positions player;
          yaw_fits = k.angle_fits;
          worldspace_fits = h.worlds cell;
          cell_fits = h.cells player cell e;
          flags_fits = flags_of-small b;
          health_fits = p.health_fits;
          max_health_fits = p.max_health_fits;
        }))
        (with_health-flags b.health filled)

  sample_player-IsSample :
      (o : Option ℕ) (out : PlayerState) → IsPlayerState out → IsSample b (sample_player g b o out)
  unfolding sample_player get_space
  sample_player-IsSample none out p = none-IsSample
  sample_player-IsSample (some player) out p =
      sample_in-IsSample player (g.parent_cell player) out refl p

-- What `Sample` gives is a state whose fields fit their C++ types, if the numbers of the engine do, and
-- each of its flags says whether the player sneaks, has a weapon drawn, is dead or sprints.
pub sample-IsPlayerState :
    (g : Engine) (b : Body) (out state : PlayerState)
    → FitsEngine g
    → FitsBody b
    → IsPlayerState out
    → sample g b out ≡ some state
    → IsPlayerState state × Tells b state.flags
unfolding sample
sample-IsPlayerState g b out state h k p e =
    (sample_player-IsSample g b h k (get_player g g.player) out p).fits state e
