-- ===== src/Client/Config.antt =====
-- client/src/Config.cpp and Config.hpp. A `float` or a `double` is its pattern.
pub mod Bounds
use f4mp.Base.{
  ℕ, ◌+◌, ◌-◌, ◌*◌, ◌%◌, ◌^◌, Bool, true, false, not, ◌&&◌, ◌||◌, Option, none, some, List, [], ◌∷◌,
  ◌++◌, ltb, leb, ◌==◌, if◌then◌else◌, is_empty, bytes_eq, trim_front, trim_back, Bytes, codes, ℤ,
  pos, negsuc, clamp,
}
use f4mp.Protocol.Messages.{default_port}
use f4mp.Ini.{Values, load, get, get_int, get_bool, get_float, cut_at}

pub record Config : Type 0 where
  pub host : Bytes
  pub port : ℕ
  pub auto_connect : Bool
  pub send_rate : ℕ
  pub interp_delay_ms : ℕ
  pub player_name : Bytes
  pub console_messages : Bool
  pub skip_prologue : Bool
  pub skip_delay : ℕ
  pub pod_timeout : ℕ
  pub skip_commands : List Bytes
  pub chargen : Bool
  pub chargen_mode : ℕ
  pub clone_base : ℕ

-- The floats are 100, 2 and 120.
abbrev pub default_config : Config
default_config = record {
  host = codes "127.0.0.1";
  port = default_port;
  auto_connect = true;
  send_rate = 20;
  interp_delay_ms = 0x42C8_0000;
  player_name = [];
  console_messages = true;
  skip_prologue = true;
  skip_delay = 0x4000_0000;
  pod_timeout = 0x42F0_0000;
  skip_commands = codes "setstage MQ101 900" ∷ codes "removemusic 1A8676" ∷ [];
  chargen = true;
  chargen_mode = 0;
  clone_base = 7;
}

-- What the loading uses of the standard library on floats and hexadecimal numbers: `from_chars` on a
-- whole string, a `float` as a `double` and back, `std::clamp` between two doubles given as integers,
-- and `std::stoul` to the base 16, which is `none` where it throws.
pub record Numbers : Type 0 where
  pub whole_double : Bytes → Option ℕ
  pub widen : ℕ → ℕ
  pub narrow : ℕ → ℕ
  pub clamp_double : ℕ → ℕ → ℕ → ℕ
  pub hex : Bytes → Option ℕ

abbrev is_gap : ℕ → Bool
is_gap c = c == b' ' || c == 9

-- One item of the list of commands, without the blanks around it.
unfoldable pub add_command : Bytes → List Bytes → List Bytes
add_command item rest =
    let t = trim_back is_gap (trim_front is_gap item) in if is_empty t then rest else t ∷ rest

-- The items between semicolons; `item` is what has been read of the current one.
unfoldable pub commands_onto : Bytes → Bytes → List Bytes
commands_onto item [] = add_command item []
commands_onto item (c ∷ cs) =
    let fresh = commands_onto [] cs in
    let longer = commands_onto (item ++ c ∷ []) cs in
    if c == b';' then add_command item fresh else longer

unfoldable pub load_commands : List Bytes → Bytes → List Bytes
load_commands before list = if bytes_eq list (1 ∷ []) then before else commands_onto [] list

unfoldable pub load_base : Numbers → ℕ → Bytes → ℕ
load_base numbers before text =
    if is_empty text
    then before
    else elim (numbers.hex text) [ none ↦ before | some n ↦ n % 2 ^ 32 ]

module _ (numbers : Numbers) where
  abbrev get_clamped : Bytes → Bytes → ℕ → ℕ → ℕ → Values → ℕ
  get_clamped section key low high before vs = numbers.narrow (
      numbers.clamp_double low high
        (get_float numbers.whole_double section key (numbers.widen before) vs))

  -- `Load` behind the reading of the file.
  unfoldable pub load_values : Values → Config → Config
  load_values vs c = record {
    host = get (codes "Network") (codes "Host") c.host vs;
    port = clamp 1 65535 (get_int (codes "Network") (codes "Port") (pos c.port) vs) % 2 ^ 16;
    auto_connect = get_bool (codes "Network") (codes "AutoConnect") c.auto_connect vs;
    send_rate =
        clamp 1 60 (get_int (codes "Network") (codes "SendRate") (pos c.send_rate) vs) % 2 ^ 32;
    interp_delay_ms =
        get_clamped (codes "Network") (codes "InterpDelayMs") 0 1000 c.interp_delay_ms vs;
    player_name = get (codes "Player") (codes "Name") c.player_name vs;
    console_messages = get_bool (codes "Debug") (codes "ConsoleMessages") c.console_messages vs;
    skip_prologue = get_bool (codes "NewGame") (codes "SkipPrologue") c.skip_prologue vs;
    skip_delay = get_clamped (codes "NewGame") (codes "SkipDelay") 0 60 c.skip_delay vs;
    pod_timeout = get_clamped (codes "NewGame") (codes "PodTimeout") 5 600 c.pod_timeout vs;
    skip_commands =
        load_commands c.skip_commands (get (codes "NewGame") (codes "SkipCommands") (1 ∷ []) vs);
    chargen = get_bool (codes "NewGame") (codes "Chargen") c.chargen vs;
    chargen_mode =
        clamp 0 1 (get_int (codes "NewGame") (codes "ChargenMode") (pos c.chargen_mode) vs)
        % 2 ^ 32;
    clone_base = load_base numbers c.clone_base (get (codes "Sync") (codes "CloneBase") [] vs);
  }

  -- `Config::Load` on the content of the file.
  unfoldable pub load_config : Option Bytes → Config
  load_config content =
      let (vs, read) = load content [] in
      if read then load_values vs default_config else default_config
