-- ===== src/Tests/Console.antt =====
-- Lines of the game's console, and the player's own state.
use f4mp.Base.{
  ℕ, ◌≤◌, ◌++◌, true, false, some, none, List, [], ◌∷◌, All, Bytes, codes, length, trim_back,
  trim_front, ◌≡◌, refl, arith,
}
use f4mp.Ini.{is_space, trim, lower}
use f4mp.Types.{PlayerState, IsPlayerState, initial_state}
use f4mp.Client.Console.{
  Terminal, is_command_token, behind_dot, next_token, split_word, execute, words,
}
use f4mp.Client.Console.Optional.{execute-optional}
use f4mp.Client.Console.Words.{join, IsWord, words-join}
use f4mp.Client.Game.{get_player, get_space, space_of_cell}
use f4mp.Client.LocalPlayer.{sample, sample_player, sample_in, flags_of}
use f4mp.Client.LocalPlayer.Fits.{FitsEngine, FitsBody, Tells, sample-IsPlayerState}
use f4mp.Client.Session.Debug.{Facts, Formats}
use f4mp.Client.Session.Graph.{Graph, no_value}
use f4mp.Tests.Game.{an_engine}
use f4mp.Tests.Plugin.{waiting}
use f4mp.Tests.Sessions.{a_body, a_moment, a_session}

abbrev a_graph : Graph
a_graph = record { variable = λ actor name. no_value; fixed_2 = λ f. []; show_int = λ i. [] }

abbrev some_facts : Facts
some_facts = record {
  form_id = 20;
  base = some (record { form_id = 7; heads = 12; skin = none; sex = 0 });
  is_3d_loaded = true;
  node_flags = some 14;
  alpha = 0;
  ghost = false;
  disabled = false;
  dead = false;
  bool_flags = 0;
  form_flags = 0;
  process_level = some 0;
  ni_flags = 0;
  in_game_flags = 0;
  life_state = 0;
  weapon_state = 0;
  sneaking = 0;
  sprinting = 0;
  sit_sleep_state = 0;
  float_variable = λ name. none;
  bool_variable = λ name. none;
}

abbrev a_formats : Formats
a_formats = record {
  facts = λ actor. some_facts;
  int = λ n. codes "0";
  float = λ n. codes "0";
  fixed = λ decimals n. codes "0";
  hex = λ n. codes "0";
}

abbrev pub a_terminal : Terminal
a_terminal = record {
  moment = a_moment;
  round_trip = λ peer. 30;
  graph = a_graph;
  controls = record {
    layers = none;
    has_vm = true;
    has_ui = true;
    has_queue = true;
    hud_open = none;
  };
  formats = a_formats;
  version = codes "0.1.0";
}

prefix_is_command : is_command_token (codes "player.F4MP") ≡ true
unfolding is_command_token behind_dot lower
prefix_is_command = refl

line_is_no_command : is_command_token (next_token (codes "say hello there")).0 ≡ false
unfolding is_command_token behind_dot lower next_token split_word trim trim_back trim_front
line_is_no_command = refl

prefix_has_no_blanks : All (λ (c : ℕ). is_space c ≡ false) (codes "player.F4MP")
prefix_has_no_blanks =
    (refl, (refl, (refl, (refl, (refl, (refl, (refl, (refl, (refl, (refl, (refl, tt)))))))))))

execute-optional_example :
    execute a_terminal (codes "player.F4MP" ++ 32 ∷ codes "say hello there") (waiting, a_session)
    ≡ execute a_terminal (codes "say hello there") (waiting, a_session)
execute-optional_example =
    execute-optional a_terminal b'p' (codes "layer.F4MP") (codes "say hello there")
      (waiting, a_session) prefix_has_no_blanks prefix_is_command line_is_no_command

abbrev two_names : List Bytes
two_names = codes "Speed" ∷ codes "f" ∷ []

two_names_are_words : All IsWord two_names
two_names_are_words = (
  record { full = refl; solid = (refl, (refl, (refl, (refl, (refl, tt))))) },
  (record { full = refl; solid = (refl, tt) }, tt),
)

two_names_fit : length (join two_names) ≤ 9
unfolding join
two_names_fit = omega arith

words-join_example : words 9 (join two_names) ≡ two_names
words-join_example = words-join 9 two_names two_names_are_words two_names_fit

engine_fits : FitsEngine an_engine
engine_fits = record {
  positions = λ ref. record { x_fits = omega arith; y_fits = omega arith; z_fits = omega arith };
  cells = λ ref cell e. ground (arith, e);
  worlds = λ cell. omega arith;
}

body_fits : FitsBody a_body
body_fits = record {
  angle_fits = omega arith;
  health_fits = λ value e. ground (arith, e);
  max_fits = λ value e. ground (arith, e);
}

initial_fits : IsPlayerState initial_state
initial_fits = record {
  position_fits = record { x_fits = omega arith; y_fits = omega arith; z_fits = omega arith };
  yaw_fits = omega arith;
  worldspace_fits = omega arith;
  cell_fits = omega arith;
  flags_fits = omega arith;
  health_fits = omega arith;
  max_health_fits = omega arith;
}

abbrev sneaking_state : PlayerState
sneaking_state = record {
  position = record { x = 1; y = 2; z = 3 };
  yaw = 0;
  worldspace_id = 0;
  cell_id = 5;
  flags = 1;
  health = 100;
  max_health = 100;
}

sampled_state : sample an_engine a_body initial_state ≡ some sneaking_state
unfolding sample sample_player sample_in flags_of get_player get_space space_of_cell
sampled_state = refl

sample-IsPlayerState_example : IsPlayerState sneaking_state × Tells a_body 1
sample-IsPlayerState_example =
    sample-IsPlayerState an_engine a_body initial_state sneaking_state engine_fits body_fits
      initial_fits sampled_state
