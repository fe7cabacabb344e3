-- ===== src/Server/Launch.antt =====
-- server/src/main.cpp up to the loop, and server/src/Console.cpp.
use f4mp.Base.{
  ℕ, ◌%◌, ◌^◌, Bool, not, ◌||◌, Option, none, some, List, [], ◌∷◌, ◌++◌, ◌==◌, if◌then◌else◌, Bytes,
  bytes_eq, codes,
}
use f4mp.Server.Service.{Event, new_server, start, main_loop}
use f4mp.Server.Settings.{load_config}
use f4mp.Server.State.{Config, default_config, Server, Env}

record Arguments : Type 0 where
  pub config_path : Bytes
  pub port_override : Option ℕ

-- How the arguments turn out: to run, to print the usage, or an exception of `std::stoul`.
data Launch : Type 0 where
  run : Arguments → Launch
  helped thrown : Launch

abbrev is_word : Bytes → Bytes → Bytes → Bool
is_word long short arg = bytes_eq arg long || bytes_eq arg short

abbrev is_config : Bytes → Bool
is_config = is_word (codes "--config") (codes "-c")

abbrev is_port : Bytes → Bool
is_port = is_word (codes "--port") (codes "-p")

abbrev is_help : Bytes → Bool
is_help = is_word (codes "--help") (codes "-h")

-- The port that is cast, or the exception.
abbrev cast_port : Option ℕ → (ℕ → Launch) → Launch
cast_port none go = thrown
cast_port (some n) go = go (n % 2 ^ 16)

-- The loop over the arguments behind the program's name. `stoul` is `none` where it throws.
unfoldable parse_arguments : (Bytes → Option ℕ) → List Bytes → Arguments → Launch
parse_arguments stoul [] a = run a
parse_arguments stoul (arg ∷ []) a = if is_help arg then helped else run a
parse_arguments stoul (arg ∷ next ∷ args) a =
    let configured = parse_arguments stoul args (record a { config_path = next }) in
    let ported =
      cast_port (stoul next)
        (λ port. parse_arguments stoul args (record a { port_override = some port })) in
    let ignored = parse_arguments stoul (next ∷ args) a in
    if is_config arg
    then configured
    else if is_port arg
    then ported
    else if is_help arg
    then helped
    else ignored

abbrev new_arguments : Arguments
new_arguments = record { config_path = codes "server.ini"; port_override = none }

abbrev override_port : Option ℕ → Config → Config
override_port none c = c
override_port (some port) c = record c { port = port }

-- The configuration of the server, with the content of the file at a path.
unfoldable launch_config : (Bytes → Option Bytes) → Arguments → Config
launch_config file a =
    override_port a.port_override (load_config (file a.config_path) default_config).0

-- `main` behind the arguments, with the results of ENet's start, the passes of the loop so far, and the
-- exit code.
unfoldable run_server :
    Env
    → (Bytes → Option Bytes)
    → ℕ
    → Bool
    → Bool
    → List (List Event × List Bytes)
    → Arguments
    → Server × ℕ
run_server env file now initialized created passes a =
    let (s, started) = start initialized created (new_server (launch_config file a) now) in
    if not started then (s, 1) else (main_loop env passes s, 0)

-- `_lines` of the console's reader, oldest first.
abbrev Lines : Type 0
Lines = List Bytes

-- The line without a carriage return at its end.
unfoldable without_return : Bytes → Bytes
without_return [] = []
without_return (c ∷ []) = if c == 13 then [] else c ∷ []
without_return (c ∷ d ∷ cs) = c ∷ without_return (d ∷ cs)

-- One round of `ReadLoop`, and `TryPop`.
unfoldable read_line : Bytes → Lines → Lines
read_line line lines = lines ++ without_return line ∷ []

unfoldable try_pop : Lines → Option Bytes × Lines
try_pop [] = (none, [])
try_pop (line ∷ lines) = (some line, lines)
