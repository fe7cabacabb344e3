-- ===== src/Client/Session.antt =====
-- client/src/Session.cpp: the session, which ties the connection to the list of the other players, to
-- the local player and to the skip of the prologue. Of log lines nothing is kept.
pub mod Incoming
pub mod Commands
pub mod Careful
pub mod Delivery
pub mod Printing
pub mod Graph
pub mod Debug
pub mod Fit
use f4mp.Base.{
  ℕ, ◌+◌, ◌*◌, ◌/◌, max, Bool, true, false, not, ◌&&◌, ◌||◌, Option, none, some, List, [], ◌∷◌,
  ◌++◌, ltb, leb, ◌==◌, bytes_eq, if◌then◌else◌, is_empty, Bytes, codes,
}
use f4mp.Types.{PlayerState, initial_state, invalid_player_id}
use f4mp.Protocol.Messages.{
  Channel, reliable, unreliable, protocol_version, encode, id_hello, write_hello, id_player_state,
  write_player_state_msg, id_set_name, write_set_name,
}
use f4mp.Client.Config.{Config, default_config}
use f4mp.Client.Net.{NetClient, Attempt, is_connected, is_disconnected}
use f4mp.Client.Net
use f4mp.Client.Game.{Engine, get_player_name}
use f4mp.Client.Interpolation.{Maths}
use f4mp.Client.LocalPlayer.{Body, sample}
use f4mp.Client.Prologue.{
  Skip, Sight, Settings, default_settings, new_skip, configure, on_new_game, on_leave_world,
}
use f4mp.Client.Remotes.Drawing.{Motion}
use f4mp.Client.RemoteState.{new_remotes, World, Remotes}
use f4mp.Client.Remotes.{set_clone_base, clear, forget_actors, despawn_all}

-- `printed` lists the lines on the game's console, oldest first.
pub record Session : Type 0 where
  pub config : Config
  pub remotes : Remotes
  pub skip : Skip
  pub my_id : ℕ
  pub server_name : Bytes
  pub sent_name : Bytes
  pub last_name_check : ℕ
  pub in_world : Bool
  pub welcomed : Bool
  pub manual_disconnect : Bool
  pub last_send : ℕ
  pub last_reconnect_attempt : ℕ
  pub last_sent : PlayerState
  pub has_last_sent : Bool
  pub printed : List Bytes

-- The arithmetic of `float` in `Changed`, on patterns: `<`, `std::fabs`, and the bounds 0.5 * 0.5,
-- 0.005 and 0.5.
pub record Shifts : Type 0 where
  pub maths : Maths
  pub fabs : ℕ → ℕ
  pub move_bound : ℕ
  pub yaw_epsilon : ℕ
  pub health_epsilon : ℕ

unfoldable pub changed : Shifts → PlayerState → PlayerState → Bool
changed f a b =
    let m = f.maths in
    let dx = m.sub a.position.x b.position.x in
    let dy = m.sub a.position.y b.position.y in
    let dz = m.sub a.position.z b.position.z in
    let square = m.add (m.add (m.mul dx dx) (m.mul dy dy)) (m.mul dz dz) in
    if m.less f.move_bound square
    then true
    else m.less f.yaw_epsilon (f.fabs (m.sub a.yaw b.yaw))
      || (not (a.worldspace_id == b.worldspace_id)
          || (not (a.cell_id == b.cell_id)
              || (not (a.flags == b.flags)
                  || m.less f.health_epsilon (f.fabs (m.sub a.health b.health)))))

-- What a call sees of the game and of the libraries: the time, of which all readings in one call are
-- the same, the version of the game, its engine with the player's body and the sight of the skip, the
-- arithmetic of `Changed`, whether `enet_packet_create` returns a packet, how an attempt to
-- connect turns out, the arithmetic of the drawing, and what the list of players uses.
pub record Moment : Type 0 where
  pub now : ℕ
  pub game_version : ℕ
  pub engine : Engine
  pub body : Body
  pub sight : Sight
  pub shifts : Shifts
  pub packet_create : Bytes → Bool → Bool
  pub attempt : Attempt
  pub motion : Motion
  pub world : World

-- `GetPlayerName` and `_local.Sample(state)` at the moment.
abbrev game_player_name : Moment → Bytes
game_player_name m = get_player_name m.engine m.engine.player

abbrev pub local_sample : Moment → Option PlayerState
local_sample m = sample m.engine m.body initial_state

-- The connection with the session that owns it.
abbrev pub Link : Type 0
Link = NetClient × Session

abbrev pub console : Bytes → Session → Session
console line s = record s { printed = s.printed ++ line ∷ [] }

-- `Print`.
pub print : Bytes → Session → Session
print line s = if s.config.console_messages then console line s else s

abbrev pub own_name : Moment → Session → Bytes
own_name m s = if is_empty s.config.player_name then game_player_name m else s.config.player_name

abbrev pub reconnect_interval : ℕ
reconnect_interval = 10_000_000_000

abbrev heartbeat_interval : ℕ
heartbeat_interval = 1_000_000_000

abbrev pub name_check_interval : ℕ
name_check_interval = 2_000_000_000

-- `IsConnected`.
abbrev pub is_ready : Link → Bool
is_ready w = is_connected (w.0).state && (w.1).welcomed

module _ (m : Moment) where
  unfoldable pub server_address : Session → Bytes
  server_address s = s.config.host ++ (codes ":" ++ m.world.show s.config.port)

  abbrev pub net_send : Channel → Bytes → NetClient → NetClient
  net_send = f4mp.Client.Net.send m.packet_create

  -- The callback `onConnected`.
  pub greet : Link → Link
  greet (n, s) =
      let name = own_name m s in
      (
        net_send reliable
            (encode id_hello (
              write_hello (record {
                protocol_version = protocol_version;
                game_version = m.game_version;
                name = name;
              })))
            n,
        record s { sent_name = name },
      )

  -- The callback `onDisconnected`.
  pub part : Bytes → Link → Link
  part reason (n, s) =
      let gone = record s {
        welcomed = false;
        my_id = invalid_player_id;
        server_name = [];
        has_last_sent = false;
        remotes = clear s.remotes;
      } in
      (n, print (codes "[F4MP] " ++ reason) gone)

  -- The time between two states, in nanoseconds.
  abbrev send_interval : Session → ℕ
  send_interval s = 1000 / max 1 s.config.send_rate * 1_000_000

  -- Whether `SendState` keeps a state back.
  unfoldable pub holds_back : Bool → PlayerState → Session → Bool
  holds_back force state s =
      not force
      && (ltb m.now (s.last_send + send_interval s)
          || not (leb (s.last_send + heartbeat_interval) m.now)
            && (s.has_last_sent && not (changed m.shifts state s.last_sent)))

  pub send_sample : Bool → Option PlayerState → Link → Link
  send_sample force none w = w
  send_sample force (some state) (n, s) = if holds_back force state s then (n, s) else (
    net_send unreliable (encode id_player_state (write_player_state_msg (record { state = state })))
        n,
    record s { last_sent = state; has_last_sent = true; last_send = m.now },
  )

  pub send_state : Bool → Link → Link
  send_state force w = send_sample force (local_sample m) w

  pub tell_name : Bytes → Link → Link
  tell_name name (n, s) = (
    net_send reliable (encode id_set_name (write_set_name (record { name = name }))) n,
    record s { sent_name = name },
  )

  pub sync_name : Link → Link
  sync_name (n, s) =
      let checked = record s { last_name_check = m.now } in
      if ltb m.now (s.last_name_check + name_check_interval)
      then (n, s)
      else if bytes_eq (own_name m s) s.sent_name
      then (n, checked)
      else tell_name (own_name m s) (n, checked)

-- `OnEnterWorld`, `OnNewGame`, `OnLeaveWorld` and `OnPreSave`.
pub enter_world : Session → Session
enter_world s = record s {
  in_world = true;
  has_last_sent = false;
  manual_disconnect = false;
  last_reconnect_attempt = 0;
  remotes = forget_actors s.remotes;
}

pub new_game : ℕ → Session → Session
new_game now s =
    let entered = enter_world s in record entered { skip = on_new_game now entered.skip }

pub leave_world : Session → Session
leave_world s = record s {
  in_world = false;
  skip = on_leave_world s.skip;
  remotes = forget_actors s.remotes;
}

pub pre_save : Session → Session
pre_save s = record s { remotes = despawn_all s.remotes }

abbrev pub skip_settings : Config → Settings
skip_settings c = record {
  enabled = c.skip_prologue;
  start_delay = c.skip_delay;
  pod_timeout = c.pod_timeout;
  commands = c.skip_commands;
  chargen = c.chargen;
  chargen_mode = c.chargen_mode;
}

-- The session before `Init`, with the initial values of its members.
abbrev pub new_session : Session
new_session = record {
  config = default_config;
  remotes = new_remotes;
  skip = new_skip default_settings;
  my_id = invalid_player_id;
  server_name = [];
  sent_name = [];
  last_name_check = 0;
  in_world = false;
  welcomed = false;
  manual_disconnect = false;
  last_send = 0;
  last_reconnect_attempt = 0;
  last_sent = initial_state;
  has_last_sent = false;
  printed = [];
}

-- `Init` but for the callbacks.
unfoldable pub init : Config → Session → Session
init c s =
    let delayed = record (s.remotes) { interp_delay_ms = c.interp_delay_ms } in
    record s {
      config = c;
      remotes = set_clone_base c.clone_base delayed;
      skip = configure (skip_settings c) s.skip;
    }
