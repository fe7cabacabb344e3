-- ===== src/Server/Settings.antt =====
-- server/src/Config.cpp: the settings of the server, read from server.ini.
pub mod Bounds
use f4mp.Base.{
  ℕ, ◌/◌, ◌%◌, ◌^◌, max, Bool, true, false, Option, none, some, List, [], ◌∷◌, if◌then◌else◌, Bytes,
  codes, ℤ, pos, clamp,
}
use f4mp.Ini.{Values, load, get, get_int}
use f4mp.Server.State.{Config}

abbrev pub server_section : Bytes
server_section = codes "Server"

-- `Config::Load` behind the reading of the file.
unfoldable pub load_values : Values → Config → Config
load_values vs c = record {
  name = get server_section (codes "Name") c.name vs;
  motd = get server_section (codes "Motd") c.motd vs;
  port = clamp 1 65535 (get_int server_section (codes "Port") (pos c.port) vs) % 2 ^ 16;
  max_players =
      clamp 1 4095 (get_int server_section (codes "MaxPlayers") (pos c.max_players) vs) % 2 ^ 32;
  tick_rate = clamp 1 240 (get_int server_section (codes "TickRate") (pos c.tick_rate) vs) % 2 ^ 32;
  log_file = get (codes "Logging") (codes "File") c.log_file vs;
  log_level = get (codes "Logging") (codes "Level") c.log_level vs;
}

-- `Config::Load` on the content of the file.
unfoldable pub load_config : Option Bytes → Config → Config × Bool
load_config content c =
    let (vs, read) = load content [] in if read then (load_values vs c, true) else (c, false)

-- `tickMs` of `main`: how long one call of `Service` waits.
unfoldable tick_ms : Config → ℕ
tick_ms c = max 1 (1000 / c.tick_rate)
