-- ===== src/Client/Console/Registration.antt =====
-- client/src/Game/ConsoleCommands.cpp: the entry of the game's table of commands that becomes "f4mp",
-- and the handler that it gets.
use f4mp.Base.{
  ℕ, zero, suc, ◌%◌, ◌^◌, Bool, true, false, Option, none, some, List, [], ◌∷◌, length, Bytes,
  codes,
}
use f4mp.Client.Console.{Terminal, Result, execute}
use f4mp.Client.Session.{Link}

abbrev max_words : ℕ
max_words = 24

-- Of `SCRIPT_PARAMETER`: whether the type is `kChar`.
record Parameter : Type 0 where
  pub param_name : Bytes
  pub has_char_type : Bool
  pub optional : Bool

-- What runs a command: `ExecuteCommand`, or a function of the game.
data Handler : Type 0 where
  execute_command_handler : Handler
  game_handler : ℕ → Handler

record ScriptFunction : Type 0 where
  pub function_name : Bytes
  pub short_name : Bytes
  pub help_string : Bytes
  pub reference_function : Bool
  pub param_count : ℕ
  pub parameters : List Parameter
  pub execute_function : Handler
  pub condition_function : Option ℕ
  pub editor_filter : Bool
  pub invalidates_cell_list : Bool

-- `InitParameters`, for so many entries.
unfoldable init_parameters : ℕ → List Parameter
init_parameters zero = []
init_parameters (suc n) =
    record { param_name = codes "Word"; has_char_type = true; optional = true } ∷ init_parameters n

abbrev command_help : Bytes
command_help =
    codes
      "F4MP multiplayer. Usage: f4mp help | status | connect [host[:port]] | disconnect | say <text> | list | name <name> | unstick"

unfoldable install : ScriptFunction → ScriptFunction
install f =
    let parameters = init_parameters max_words in
    record f {
      function_name = codes "F4MP";
      short_name = codes "f4mp";
      help_string = command_help;
      reference_function = false;
      param_count = length parameters % 2 ^ 16;
      parameters = parameters;
      execute_function = execute_command_handler;
      condition_function = none;
      editor_filter = false;
      invalidates_cell_list = false;
    }

-- `Register`, on the game's entry of "TestSeenData", if there is one.
unfoldable register_command : Option ScriptFunction → Option ScriptFunction × Bool
register_command none = (none, false)
register_command (some f) = (some (install f), true)

-- `ExecuteCommand`, on the text of the script, if there is one.
abbrev pub line_of : Option Bytes → Bytes
line_of none = []
line_of (some text) = text

abbrev pub execute_command : Terminal → Option Bytes → Link → Result × Bool
execute_command t text w = (execute t (line_of text) w, true)
