-- ===== src/Server/Settings/Bounds.antt =====
-- The settings that `Config::Load` of server/src/Config.cpp can give.
use f4mp.Base.{◌≤◌, Option, none, some, Bytes, codes, pos, clamp-le, arith}
use f4mp.Ini.{Values, load, get_int}
use f4mp.Server.State.{Config}
use f4mp.Server.Settings.{server_section, load_values, load_config}

-- Settings with which `enet_host_create` and the division by the tick rate in `main` make sense.
pub record IsUsable (c : Config) : Type 0 where
  pub port_low : 1 ≤ c.port
  pub port_high : c.port ≤ 65535
  pub players_low : 1 ≤ c.max_players
  pub players_high : c.max_players ≤ 4095
  pub tick_low : 1 ≤ c.tick_rate
  pub tick_high : c.tick_rate ≤ 240

load_values-IsUsable : (vs : Values) (c : Config) → IsUsable (load_values vs c)
unfolding load_values
load_values-IsUsable vs c =
    let port =
      clamp-le 1 65535 (get_int server_section (codes "Port") (pos c.port) vs) (omega arith) in
    let players =
      clamp-le 1 4095 (get_int server_section (codes "MaxPlayers") (pos c.max_players) vs)
        (omega arith) in
    let tick =
      clamp-le 1 240 (get_int server_section (codes "TickRate") (pos c.tick_rate) vs)
        (omega arith) in
    record {
      port_low = omega (arith, port.0, port.1);
      port_high = omega (arith, port.0, port.1);
      players_low = omega (arith, players.0, players.1);
      players_high = omega (arith, players.0, players.1);
      tick_low = omega (arith, tick.0, tick.1);
      tick_high = omega (arith, tick.0, tick.1);
    }

-- Whatever is in the file, and also if it cannot be read, settings that were usable stay so: the
-- port is from 1 to 65535, there are from 1 to 4095 players, and from 1 to 240 ticks in a second.
pub load_config-IsUsable :
    (content : Option Bytes) (c : Config) → IsUsable c → IsUsable (load_config content c).0
unfolding load_config load
load_config-IsUsable none c h = h
load_config-IsUsable (some text) c h = load_values-IsUsable _ c
