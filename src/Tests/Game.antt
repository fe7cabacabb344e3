-- ===== src/Tests/Game.antt =====
-- The engine of the game, the skip of the prologue and the drawing of the other players.
use f4mp.Base.{
  ℕ, ◌+◌, ◌-◌, ◌*◌, ◌/◌, true, false, Option, none, some, ltb, leb, ◌==◌, codes, ℤ, pos, negsuc,
}
use f4mp.Client.Game.{Engine}
use f4mp.Client.Interpolation.{Maths}
use f4mp.Client.Prologue.{Sight}
use f4mp.Client.Remotes.Drawing.{Motion}

-- Whole numbers in place of floating-point ones; a time before zero counts as zero.
abbrev pub at_least_zero : ℤ → ℕ
at_least_zero (pos n) = n
at_least_zero (negsuc n) = 0

abbrev pub whole_maths : Maths
whole_maths = record {
  add = λ a b. a + b;
  sub = λ a b. a - b;
  mul = λ a b. a * b;
  fmod = λ a b. a;
  less = ltb;
  half = 1;
  pi = 3;
  minus_pi = 0;
  two_pi = 6;
  one = 1;
  clamp_unit = λ a. a;
  at_most = λ r t. leb r (at_least_zero t);
  before = λ r t. ltb r (at_least_zero t);
  after = λ r t. ltb (at_least_zero t) r;
  at_least = λ r t. leb (at_least_zero t) r;
  has_velocity = λ r a b. false;
  ahead_of = λ r a b. 0;
  has_span = λ a b. false;
  share = λ r a b. 0;
}

abbrev pub a_motion : Motion
a_motion = record {
  maths = whole_maths;
  render_ms = λ offset delay. 5000;
  is_old = λ r t. ltb (at_least_zero t + 1500) r;
  seconds_between = λ a b. b - a;
  zero_seconds = 0;
  is_positive = λ a. ltb 0 a;
  cap_step = λ a. a;
  root = λ a. a;
  divide = λ a b. a / (b + 1);
  gain = λ a. 1;
}

-- The player is reference 20 in cell 5; handle 7 is an actor, and handle 8 the player.
abbrev some_references : ℕ → Option ℕ
some_references handle = elim (handle == 8) [ true ↦ some 20 | false ↦ some 7 ]

abbrev pub an_engine : Engine
an_engine = record {
  player = some 20;
  parent_cell = λ ref. some 5;
  is_interior = λ cell. true;
  worldspace = λ cell. none;
  full_name = λ player. some (codes "Nora");
  resolve = some_references;
  is_actor = λ ref. true;
  has_process = λ actor. true;
  is_in_combat = λ actor. true;
  is_transparent = λ actor. true;
  position = λ ref. record { x = 1; y = 2; z = 3 };
  has_float = λ actor name. true;
  has_bool = λ actor name. true;
  is_npc = λ form. true;
  is_cell = λ form. true;
  is_world = λ form. false;
  has_data_handler = true;
  create_reference = λ p. some 7;
  duplicate_form = λ form. some 99;
}

-- An hour into the game, with the prologue's quest at its start.
abbrev pub a_sight : Sight
a_sight = record {
  now = 3_600_000_000_000;
  placed = true;
  exists = true;
  sex = 0;
  is_3d_loaded = true;
  quest = λ id. some 10;
  menu = λ name. some false;
  has_queue = true;
  has_manager = true;
  has_vm = true;
  seconds = λ f. pos 1_000_000_000;
  read_float = λ text. none;
}
