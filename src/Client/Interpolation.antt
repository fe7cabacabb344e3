-- ===== src/Client/Interpolation.antt =====
-- shared/include/f4mp/Interp.hpp: the state of a player at a time between its snapshots. The arithmetic
-- of `float` and `double` is a parameter, on patterns.
pub mod Sampling
use f4mp.Base.{ℕ, Bool, ◌||◌, List, [], ◌∷◌, if◌then◌else◌, ℤ}
use f4mp.Types.{PlayerState, Vec3}
use f4mp.Client.RemoteState.{TimedState}

-- `float`: sums, differences, products, `std::fmod`, `<`, the constants 0.5, pi and 2 pi, and minus pi.
-- `double`: the difference of a render time and a snapshot's time, the gap between two times, and the
-- tests and quotients that `SampleAt` makes of them.
pub record Maths : Type 0 where
  pub add : ℕ → ℕ → ℕ
  pub sub : ℕ → ℕ → ℕ
  pub mul : ℕ → ℕ → ℕ
  pub fmod : ℕ → ℕ → ℕ
  pub less : ℕ → ℕ → Bool
  pub half : ℕ
  pub pi : ℕ
  pub minus_pi : ℕ
  pub two_pi : ℕ
  pub one : ℕ
  pub clamp_unit : ℕ → ℕ
  pub at_most : ℕ → ℤ → Bool
  pub before : ℕ → ℤ → Bool
  pub after : ℕ → ℤ → Bool
  pub at_least : ℕ → ℤ → Bool
  pub has_velocity : ℕ → ℤ → ℤ → Bool
  pub ahead_of : ℕ → ℤ → ℤ → ℕ
  pub has_span : ℤ → ℤ → Bool
  pub share : ℕ → ℤ → ℤ → ℕ

module _ (f : Maths) where
  unfoldable pub lerp : ℕ → ℕ → ℕ → ℕ
  lerp a b t = f.add a (f.mul (f.sub b a) t)

  -- The angle from one to the other on the shortest arc.
  unfoldable pub shortest : ℕ → ℕ
  shortest delta =
      if f.less f.pi delta
      then f.sub delta f.two_pi
      else if f.less delta f.minus_pi
      then f.add delta f.two_pi
      else delta

  unfoldable pub lerp_angle : ℕ → ℕ → ℕ → ℕ
  lerp_angle a b t = f.add a (f.mul (shortest (f.fmod (f.sub b a) f.two_pi)) t)

  pub blend : PlayerState → PlayerState → ℕ → PlayerState
  blend a b t =
      let out = if f.less t f.half then a else b in
      record out {
        position = record {
          x = lerp a.position.x b.position.x t;
          y = lerp a.position.y b.position.y t;
          z = lerp a.position.z b.position.z t;
        };
        yaw = lerp_angle a.yaw b.yaw t;
        health = lerp a.health b.health t;
      }

  -- The position carried forward from `last` with the velocity since `prev`.
  pub carry : PlayerState → PlayerState → ℕ → PlayerState
  carry prev last t =
      let go = λ (p l : ℕ). f.add l (f.mul (f.sub l p) t) in
      record last {
        position = record {
          x = go prev.position.x last.position.x;
          y = go prev.position.y last.position.y;
          z = go prev.position.z last.position.z;
        };
      }

  -- The loop over the pairs of neighbours.
  unfoldable pub between : ℕ → TimedState → List TimedState → PlayerState
  between render a [] = a.state
  between render a (b ∷ ts) =
      let rest = between render b ts in
      if f.before render a.time_ms || f.after render b.time_ms
      then rest
      else blend a.state b.state (
          f.clamp_unit
            (if f.has_span a.time_ms b.time_ms then f.share render a.time_ms b.time_ms else f.one))

  -- The last two of at least two snapshots.
  unfoldable pub last_two : TimedState → TimedState → List TimedState → TimedState × TimedState
  last_two a b [] = (a, b)
  last_two a b (c ∷ ts) = last_two b c ts

  pub beyond : ℕ → TimedState × TimedState → PlayerState
  beyond render (prev, last) =
      if f.has_velocity render prev.time_ms last.time_ms
      then carry prev.state last.state (f.ahead_of render prev.time_ms last.time_ms)
      else last.state

  -- `SampleAt`; there is always a first snapshot.
  unfoldable pub sample_at : TimedState → List TimedState → ℕ → PlayerState
  sample_at first [] render = first.state
  sample_at first (second ∷ ts) render =
      if f.at_most render first.time_ms
      then first.state
      else if f.at_least render (last_two first second ts).1.time_ms
      then beyond render (last_two first second ts)
      else between render first (second ∷ ts)
