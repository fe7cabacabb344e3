-- ===== src/Tests/Samples.antt =====
-- A player between two snapshots.
use f4mp.Base.{◌+◌, ◌-◌, true, false, ltb, pos}
use f4mp.Types.{initial_state}
use f4mp.Client.RemoteState.{TimedState}
use f4mp.Client.Interpolation.{Maths}

abbrev some_maths : Maths
some_maths = record {
  add = λ a b. a + b;
  sub = λ a b. a - b;
  mul = λ a b. a;
  fmod = λ a b. a;
  less = ltb;
  half = 5;
  pi = 3;
  minus_pi = 0;
  two_pi = 6;
  one = 10;
  clamp_unit = λ t. t;
  at_most = λ render t. false;
  before = λ render t. false;
  after = λ render t. false;
  at_least = λ render t. false;
  has_velocity = λ render a b. true;
  ahead_of = λ render a b. 1;
  has_span = λ a b. true;
  share = λ render a b. 7;
}

abbrev old : TimedState
old = record { state = initial_state; time_ms = pos 100 }

abbrev new : TimedState
new = record { state = record initial_state { cell_id = 12; flags = 1 }; time_ms = pos 150 }
