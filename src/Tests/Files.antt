-- ===== src/Tests/Files.antt =====
-- A settings file, for the server and the client.
use f4mp.Base.{◌≡◌, none, some, [], ◌∷◌, ◌++◌, Bytes, codes, arith}
use f4mp.Ini.{load, get, or_else, lower}
use f4mp.Ini.Lookup.{HasNoSlash, last_in, entries, get-load}
use f4mp.Server.State.{default_config}
use f4mp.Server.Settings.{load_config}
use f4mp.Server.Settings.Bounds.{IsUsable, load_config-IsUsable}
use f4mp.Client.Config.{Numbers}

abbrev pub some_file : Bytes
some_file =
    codes "; hi"
    ++ (10 ∷ codes "[Server]"
        ++ (10 ∷ codes "Port = 0" ++ (10 ∷ codes "TICKRATE=900 ; fast" ++ (10 ∷ codes "port=7"))))

server-HasNoSlash : HasNoSlash (codes "server")
server-HasNoSlash =
    (omega arith, (omega arith, (omega arith, (omega arith, (omega arith, (omega arith, tt))))))

port-HasNoSlash : HasNoSlash (codes "Port")
port-HasNoSlash = (omega arith, (omega arith, (omega arith, (omega arith, tt))))

get-load_example :
    get (codes "server") (codes "Port") [] (load (some some_file) []).0
    ≡ or_else [] (last_in (lower (codes "server")) (lower (codes "Port")) none (entries some_file))
get-load_example =
    get-load some_file (codes "server") (codes "Port") [] server-HasNoSlash port-HasNoSlash

default_config-IsUsable : IsUsable default_config
default_config-IsUsable = record {
  port_low = omega arith;
  port_high = omega arith;
  players_low = omega arith;
  players_high = omega arith;
  tick_low = omega arith;
  tick_high = omega arith;
}

load_config-IsUsable_example : IsUsable (load_config (some some_file) default_config).0
load_config-IsUsable_example =
    load_config-IsUsable (some some_file) default_config default_config-IsUsable

abbrev pub no_numbers : Numbers
no_numbers = record {
  whole_double = λ s. none;
  widen = λ n. n;
  narrow = λ n. n;
  clamp_double = λ low high n. n;
  hex = λ s. none;
}
