-- ===== src/Client/Console.antt =====
-- client/src/Game/ConsoleCommands.cpp: the words of a line of the game's console, and the command
-- "f4mp". `std::isspace` and `std::tolower` are those of the C locale.
pub mod Words
pub mod Optional
pub mod Registration
use f4mp.Base.{
  ℕ, zero, suc, ◌+◌, ◌-◌, ◌*◌, ◌^◌, Bool, true, false, not, ◌&&◌, ◌||◌, Option, none, some, List,
  [], ◌∷◌, ◌++◌, ltb, leb, ◌==◌, if◌then◌else◌, is_empty, front, back, bytes_eq, take, drop, length,
  Bytes, codes,
}
use f4mp.Ini.{is_space, trim, lower, is_char}
use f4mp.Client.Game.Restore.{Controls, ControlCall, restore_control}
use f4mp.Client.Session.{Session, Moment, Link, console}
use f4mp.Client.Session.Commands.{set_server, set_player_name, send_chat}
use f4mp.Client.Session.Debug.{Formats, print_debug}
use f4mp.Client.Session.Graph.{Graph, print_graph, print_lines}
use f4mp.Client.Session.Incoming.{in_session, session_connect, session_disconnect}
use f4mp.Client.Session.Printing.{set_base, set_option, print_status, print_players}

-- The bytes in front of the first blank, and the rest from that on.
unfoldable pub split_word : Bytes → Bytes × Bytes
split_word [] = ([], [])
split_word (c ∷ cs) =
    let (word, rest) = split_word cs in if is_space c then ([], c ∷ cs) else (c ∷ word, rest)

-- `NextToken`: the token, and what is left.
unfoldable pub next_token : Bytes → Bytes × Bytes
next_token s = let (token, rest) = split_word (trim s) in (token, trim rest)

abbrev pub is_same_word : Bytes → Bytes → Bool
is_same_word a b = bytes_eq (lower a) (lower b)

-- What is behind the last dot, if there is one.
unfoldable pub behind_dot : Bytes → Option Bytes
behind_dot [] = none
behind_dot (c ∷ cs) = later (behind_dot cs)
  where
    later : Option Bytes → Option Bytes
    later none = if c == b'.' then some cs else none
    later (some t) = some t

abbrev or_whole : Bytes → Option Bytes → Bytes
or_whole token none = token
or_whole token (some t) = t

unfoldable pub is_command_token : Bytes → Bool
is_command_token token = is_same_word (or_whole token (behind_dot token)) (codes "f4mp")

abbrev is_quoted : Bytes → Bool
is_quoted s = leb 2 (length s) && (is_char b'"' (front s) && is_char b'"' (back s))

unfoldable pub strip_quotes : Bytes → Bytes
strip_quotes s = trim (if is_quoted s then drop 1 (take (length s - 1) s) else s)

-- `while (!remaining.empty())` of "graph", at most `fuel` times.
pub words : ℕ → Bytes → List Bytes
words zero s = []
words (suc fuel) s =
    let (token, rest) = next_token s in
    let more = words fuel rest in
    if is_empty s then [] else if is_empty token then [] else token ∷ more

-- `std::from_chars` to the base 16 for a 32-bit `unsigned long`, on the whole text.
abbrev hex_value : ℕ → Option ℕ
hex_value c =
    if leb b'0' c && leb c b'9'
    then some (c - b'0')
    else if leb b'a' c && leb c b'f'
    then some (c - b'a' + 10)
    else if leb b'A' c && leb c b'F'
    then some (c - b'A' + 10)
    else none

unfoldable pub hex_onto : ℕ → Bytes → Option ℕ
hex_onto n [] = some n
hex_onto n (c ∷ cs) = elim (hex_value c) [ none ↦ none | some d ↦ hex_onto (n * 16 + d) cs ]

abbrev fitting : Option ℕ → Option ℕ
fitting none = none
fitting (some n) = if ltb n (2 ^ 32) then some n else none

unfoldable pub read_hex : Bytes → Option ℕ
read_hex text = if is_empty text then none else fitting (hex_onto 0 text)

-- The text without "0x" in front of something.
abbrev without_0x : Bytes → Bytes
without_0x text =
    if ltb 2 (length text)
      && (bytes_eq (take 2 text) (codes "0x") || bytes_eq (take 2 text) (codes "0X"))
    then drop 2 text
    else text

-- What a line sees: the game and the libraries, ENet's round trip times, the variables of animations,
-- the layers of control, the facts of the engine's objects and the formats of numbers, and the version
-- that the build puts in.
pub record Terminal : Type 0 where
  pub moment : Moment
  pub round_trip : ℕ → ℕ
  pub graph : Graph
  pub controls : Controls
  pub formats : Formats
  pub version : Bytes

-- A line's result: the client, and what it asks of the engine.
abbrev pub Result : Type 0
Result = Link × List ControlCall

abbrev pub calm : Link → Result
calm w = (w, [])

abbrev pub say_line : Bytes → Link → Result
say_line line w = calm (in_session (console line) w)

module _ (t : Terminal) where
  unfoldable pub usage_lines : List Bytes
  usage_lines =
      (codes "F4MP v" ++ (t.version ++ codes " commands:"))
      ∷ codes "  f4mp status                  connection state"
      ∷ codes "  f4mp connect [host[:port]]   connect, optionally to another server"
      ∷ codes "  f4mp disconnect              leave the server (no auto-reconnect)"
      ∷ codes "  f4mp say <text>              chat (quote very long messages: f4mp say \"...\")"
      ∷ codes "  f4mp list                    players on the server"
      ∷ codes "  f4mp name <name>             change your name"
      ∷ codes
          "  f4mp unstick                 restore controls, HUD and camera after a menu froze you"
      ∷ codes
          "  f4mp debug                   engine facts about every clone (3D, alpha, base record)"
      ∷ codes
          "  f4mp graph [names...]        animation variables, you vs a clone; run it while moving"
      ∷ codes
          "  f4mp clonebase <hex id>      NPC record to copy clones from (default 7), respawns them"
      ∷ codes
          "  f4mp sync|pacify|ghost|duplicate|move on|off   clone experiments; f4mp respawn recreates them"
      ∷ []

  unfoldable pub usage : Link → Link
  usage w = in_session (print_lines usage_lines) w

  unfoldable pub connect_command : Bytes → Link → Result
  connect_command args (n, s) =
      let (config, fine) = set_server (strip_quotes args) s.config in
      if is_empty args
      then calm (session_connect t.moment true (n, s))
      else if not fine
      then say_line (codes "[F4MP] Usage: f4mp connect [host[:port]]") (n, s)
      else calm (session_connect t.moment true (n, record s { config = config }))

  unfoldable pub chat_command : Bytes → Link → Result
  chat_command args w =
      let text = strip_quotes args in
      if is_empty text
      then say_line (codes "[F4MP] Usage: f4mp say <text>") w
      else calm (send_chat t.moment text w)

  unfoldable pub name_command : Bytes → Link → Result
  name_command args w =
      let name = strip_quotes args in
      if is_empty name
      then say_line (codes "[F4MP] Usage: f4mp name <name>") w
      else calm (in_session (set_player_name name) w)

  unfoldable pub unstick_command : Link → Result
  unstick_command w = (
    in_session (console (codes "[F4MP] Controls, HUD and camera restored.")) w,
    restore_control t.controls,
  )

  unfoldable pub option_command : Bytes → Bytes → Link → Result
  option_command cmd args (n, s) =
      let word = (next_token args).0 in
      let off =
        is_same_word word (codes "off")
        || (is_same_word word (codes "0") || is_same_word word (codes "false")) in
      calm (n, (set_option (lower cmd) (not off) s).0)

  unfoldable pub base_or_usage : Option ℕ → Link → Result
  base_or_usage none w =
      say_line (codes "[F4MP] Usage: f4mp clonebase <NPC form id in hex, e.g. 7 or A7D34>") w
  base_or_usage (some form) w = calm (in_session (set_base form) w)

  unfoldable pub clonebase_command : Bytes → Link → Result
  clonebase_command args w = base_or_usage (read_hex (without_0x (strip_quotes args))) w

  abbrev pub is_option : Bytes → Bool
  is_option cmd =
      is_same_word cmd (codes "sync")
      || (is_same_word cmd (codes "pacify")
          || (is_same_word cmd (codes "ghost")
              || (is_same_word cmd (codes "duplicate")
                  || (is_same_word cmd (codes "move") || is_same_word cmd (codes "respawn")))))

  unfoldable pub unknown_command : Bytes → Link → Result
  unknown_command cmd w =
      calm
        (usage (in_session (console (codes "[F4MP] Unknown command \"" ++ (cmd ++ codes "\""))) w))

  -- `Execute` from the command and its arguments on.
  unfoldable pub do_command : Bytes → Bytes → Link → Result
  do_command cmd args w =
      if is_empty cmd || is_same_word cmd (codes "help")
      then calm (usage w)
      else if is_same_word cmd (codes "status")
      then calm (print_status t.moment t.round_trip w)
      else if is_same_word cmd (codes "connect")
      then connect_command args w
      else if is_same_word cmd (codes "disconnect")
      then calm (session_disconnect t.moment true w)
      else if is_same_word cmd (codes "say")
      then chat_command args w
      else if is_same_word cmd (codes "list") || is_same_word cmd (codes "players")
      then calm (print_players t.moment w)
      else if is_same_word cmd (codes "name")
      then name_command args w
      else if is_same_word cmd (codes "unstick")
      then unstick_command w
      else if is_same_word cmd (codes "debug")
      then calm (in_session (print_debug t.moment t.formats) w)
      else if is_same_word cmd (codes "graph")
      then calm (in_session (print_graph t.moment t.graph (words (length args) args)) w)
      else if is_option cmd
      then option_command cmd args w
      else if is_same_word cmd (codes "clonebase")
      then clonebase_command args w
      else unknown_command cmd w

  unfoldable pub run_rest : Bytes → Link → Result
  run_rest rest w = let (cmd, args) = next_token rest in do_command cmd args w

  unfoldable pub execute : Bytes → Link → Result
  execute line w =
      let (first, behind) = next_token (trim line) in
      run_rest (if is_command_token first then behind else trim line) w
