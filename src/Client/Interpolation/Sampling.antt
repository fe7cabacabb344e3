-- ===== src/Client/Interpolation/Sampling.antt =====
-- Where the discrete fields of a state of `SampleAt` in shared/include/f4mp/Interp.hpp come from.
use f4mp.Base.{List, ◌∷◌, ◌≡◌}
use f4mp.Types.{PlayerState}
use f4mp.Client.RemoteState.{TimedState}

-- The fields that are not blended are the ones of `t`.
pub record SameArea (s t : PlayerState) : Type 0 where
  pub worldspace : s.worldspace_id ≡ t.worldspace_id
  pub cell : s.cell_id ≡ t.cell_id
  pub flags : s.flags ≡ t.flags
  pub max_health : s.max_health ≡ t.max_health

-- All of them are the ones of a single snapshot.
pub data FromOne (s : PlayerState) : List TimedState → Type 0 where
  here : {t : TimedState} {ts : List TimedState} → SameArea s t.state → FromOne s (t ∷ ts)
  later : {t : TimedState} {ts : List TimedState} → FromOne s ts → FromOne s (t ∷ ts)
