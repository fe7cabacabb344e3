-- ===== src/Tests/Sessions.antt =====
-- Sessions of the client.
use f4mp.Base.{◌≡◌, ◌++◌, some, List, [], ◌∷◌, codes, arith, refl, true, false}
use f4mp.Types.{initial_state, invalid_player_id}
use f4mp.Packet.{max_string_bytes}
use f4mp.Protocol.Messages.{encode, PlayerJoinedMsg}
use f4mp.Protocol.Layout.Kinds.{player_joined, id_of, write_of, FitsKind}
use f4mp.Client.Config.{default_config}
use f4mp.Client.Net.{opened, closed, received, other, Event}
use f4mp.Client.Net.Soundness.{IsSound}
use f4mp.Client.RemoteState.{new_remotes}
use f4mp.Client.LocalPlayer.{Body}
use f4mp.Client.Plugin.{
  Callback, message, frame, new_game_started, pre_save_game, call_back, call_back_all,
}
use f4mp.Client.Plugin.Lifetime.{call_back_all-IsSound}
use f4mp.Client.Prologue.{new_skip}
use f4mp.Client.Session.{Session, Shifts, Moment, skip_settings}
use f4mp.Tests.Game.{an_engine, a_motion, a_sight, whole_maths}
use f4mp.Client.Session.Incoming.{handle_packet}
use f4mp.Client.Session.Delivery.{react, handle_packet-encode}
use f4mp.Client.Session.Commands.{set_server}
use f4mp.Client.Session.Commands.Server.{Settled, set_server-Settled}
use f4mp.Tests.Plugin.{good_luck, waiting, peer_here, some_world}

abbrev pub a_session : Session
a_session = record {
  config = default_config;
  remotes = new_remotes;
  skip = new_skip (skip_settings default_config);
  my_id = invalid_player_id;
  server_name = [];
  sent_name = [];
  last_name_check = 0;
  in_world = true;
  welcomed = false;
  manual_disconnect = false;
  last_send = 0;
  last_reconnect_attempt = 0;
  last_sent = initial_state;
  has_last_sent = false;
  printed = [];
}

abbrev pub a_body : Body
a_body = record {
  angle_z = 0;
  sneaking = true;
  weapon_drawn = false;
  dead = false;
  sprinting = false;
  health = some (100, 100);
}

abbrev some_shifts : Shifts
some_shifts = record {
  maths = whole_maths;
  fabs = λ a. a;
  move_bound = 1;
  yaw_epsilon = 1;
  health_epsilon = 1;
}

abbrev pub a_moment : Moment
a_moment = record {
  now = 20_000_000_000;
  game_version = 10;
  engine = an_engine;
  body = a_body;
  sight = a_sight;
  shifts = some_shifts;
  packet_create = λ bytes reliable. true;
  attempt = good_luck;
  motion = a_motion;
  world = some_world;
}

abbrev some_events : List Event
some_events = opened ∷ received (1 ∷ 2 ∷ []) ∷ other ∷ closed ∷ []

abbrev pub some_callbacks : List Callback
some_callbacks =
    message 5 new_game_started ∷ frame a_moment some_events ∷ message 9 pre_save_game ∷ []

call_back_all-IsSound_example : IsSound (call_back_all some_callbacks (waiting, a_session)).0
unfolding call_back
call_back_all-IsSound_example =
    call_back_all-IsSound some_callbacks (waiting, a_session) (tt, ((peer_here, tt), (tt, tt)))
      (record { agrees = refl })

abbrev nora_joined : PlayerJoinedMsg
nora_joined = record { id = 4; name = codes "Nora" }

nora_fits : FitsKind player_joined nora_joined
unfolding max_string_bytes
nora_fits = record { id_fits = omega arith; name_fits = omega arith }

handle_packet-encode_example :
    handle_packet a_moment
      (encode (id_of player_joined) (write_of player_joined nora_joined) ++ [])
      (waiting, a_session)
    ≡ react a_moment player_joined nora_joined (waiting, a_session)
handle_packet-encode_example =
    handle_packet-encode a_moment player_joined nora_joined [] (waiting, a_session) nora_fits

set_server-Settled_example :
    Settled default_config (set_server (codes "example.org:70000") default_config)
set_server-Settled_example =
    set_server-Settled (codes "example.org:70000") default_config (omega arith, omega arith)
