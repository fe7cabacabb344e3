-- ===== src/Client/Session/Debug/Reading.antt =====
-- What `PrintDebug` of client/src/Session.cpp reads of the engine.
use f4mp.Base.{ℕ, Bool, false, Option, none, some, List, [], ◌∷◌, ◌++◌, Bytes, codes}
use f4mp.Client.Game.{id_or_zero}
use f4mp.Client.Session.Printing.{hex_text}

-- The base of an actor: its form, the number of its head parts, its skin and its sex.
pub record BaseFacts : Type 0 where
  pub form_id : ℕ
  pub heads : ℕ
  pub skin : Option ℕ
  pub sex : ℕ

-- What the engine tells of an actor.
pub record Facts : Type 0 where
  pub form_id : ℕ
  pub base : Option BaseFacts
  pub is_3d_loaded : Bool
  pub node_flags : Option ℕ
  pub alpha : ℕ
  pub ghost : Bool
  pub disabled : Bool
  pub dead : Bool
  pub bool_flags : ℕ
  pub form_flags : ℕ
  pub process_level : Option ℕ
  pub ni_flags : ℕ
  pub in_game_flags : ℕ
  pub life_state : ℕ
  pub weapon_state : ℕ
  pub sneaking : ℕ
  pub sprinting : ℕ
  pub sit_sleep_state : ℕ
  pub float_variable : Bytes → Option ℕ
  pub bool_variable : Bytes → Option Bool

-- The texts that `std::format` makes: of an integer, of a float without and with decimals, and of a
-- number in hexadecimal digits; with the facts of an actor.
pub record Formats : Type 0 where
  pub facts : ℕ → Facts
  pub int : ℕ → Bytes
  pub float : ℕ → Bytes
  pub fixed : ℕ → ℕ → Bytes
  pub hex : ℕ → Bytes

-- `-1.0f`.
abbrev pub minus_one : ℕ
minus_one = 0xBF80_0000

-- `ReadGraphFloat` and `ReadGraphBool`: the variable, or the value that the engine leaves.
abbrev pub or_minus_one : Option ℕ → ℕ
or_minus_one none = minus_one
or_minus_one (some v) = v

abbrev pub read_graph_float : Facts → Bytes → ℕ
read_graph_float f name = or_minus_one (f.float_variable name)

abbrev pub or_false : Option Bool → Bool
or_false none = false
or_false (some b) = b

abbrev pub read_graph_bool : Facts → Bytes → Bool
read_graph_bool f name = or_false (f.bool_variable name)

unfoldable pub concat : List Bytes → Bytes
concat [] = []
concat (b ∷ bs) = b ++ concat bs

-- `0x{:08X}`.
abbrev pub hex_id : ℕ → Bytes
hex_id id = codes "0x" ++ hex_text 8 id

abbrev pub base_id : Option BaseFacts → ℕ
base_id none = 0
base_id (some b) = b.form_id

abbrev pub heads_of : Option BaseFacts → ℕ
heads_of none = 0
heads_of (some b) = b.heads

abbrev pub skin_of : Option BaseFacts → ℕ
skin_of none = 0
skin_of (some b) = id_or_zero b.skin
