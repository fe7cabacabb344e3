-- ===== src/Client/Config/Bounds.antt =====
-- The settings that `Config::Load` of client/src/Config.cpp can give.
use f4mp.Base.{◌≤◌, Option, none, some, Bytes, codes, pos, clamp-le, arith}
use f4mp.Ini.{Values, load, get_int}
use f4mp.Client.Config.{Config, Numbers, default_config, load_values, load_config}

-- A port that a server can have, from 1 to 60 states in a second, and a mode of character generation.
pub record IsUsable (c : Config) : Type 0 where
  pub port_low : 1 ≤ c.port
  pub port_high : c.port ≤ 65535
  pub rate_low : 1 ≤ c.send_rate
  pub rate_high : c.send_rate ≤ 60
  pub chargen_high : c.chargen_mode ≤ 1

load_values-IsUsable :
    (numbers : Numbers) (vs : Values) (c : Config) → IsUsable (load_values numbers vs c)
unfolding load_values
load_values-IsUsable numbers vs c =
    let port =
      clamp-le 1 65535 (get_int (codes "Network") (codes "Port") (pos c.port) vs) (omega arith) in
    let rate =
      clamp-le 1 60 (get_int (codes "Network") (codes "SendRate") (pos c.send_rate) vs)
        (omega arith) in
    let mode =
      clamp-le 0 1 (get_int (codes "NewGame") (codes "ChargenMode") (pos c.chargen_mode) vs)
        (omega arith) in
    record {
      port_low = omega (arith, port.0, port.1);
      port_high = omega (arith, port.0, port.1);
      rate_low = omega (arith, rate.0, rate.1);
      rate_high = omega (arith, rate.0, rate.1);
      chargen_high = omega (arith, mode.0, mode.1);
    }

-- Whatever is in the file, and also if it cannot be read, the port is from 1 to 65535, there are from
-- 1 to 60 states in a second, and the mode of character generation is 0 or 1.
pub client_load_config-IsUsable :
    (numbers : Numbers) (content : Option Bytes) → IsUsable (load_config numbers content)
unfolding load_config load
client_load_config-IsUsable numbers none = record {
  port_low = omega arith;
  port_high = omega arith;
  rate_low = omega arith;
  rate_high = omega arith;
  chargen_high = omega arith;
}
client_load_config-IsUsable numbers (some text) = load_values-IsUsable numbers _ default_config
