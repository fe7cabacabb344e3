-- ===== src/Server/Service.antt =====
-- server/src/Server.cpp: `Start`, `Stop` and `Service`, and the calls that the main loop makes.
use f4mp.Base.{
  ℕ, Bool, true, false, not, ◌||◌, List, [], ◌∷◌, if◌then◌else◌, Bytes, bytes_eq, codes,
}
use f4mp.Server.State.{Config, Player, Server, Env, peer_disconnect_now, host_destroy, effect}
use f4mp.Server.Connections.{handle_connect, handle_disconnect}
use f4mp.Server.Handlers.{handle_packet}
use f4mp.Server.Bots.{update_bots}
use f4mp.Server.Commands.{execute_command}

-- What `enet_host_service` hands out.
pub data Event : Type 0 where
  connected : ℕ → Event
  disconnected : ℕ → Event
  received : ℕ → Bytes → Event
  other : Event

-- A server that was constructed at the time `now`.
abbrev pub new_server : Config → ℕ → Server
new_server config now = record {
  config = config;
  host = false;
  players = [];
  bots = [];
  last_bot_update = 0;
  start_time = now;
  next_id = 1;
  reads = 0;
  sent = [];
}

-- `Start`, given whether `enet_initialize` and `enet_host_create` succeed.
unfoldable pub start : Bool → Bool → Server → Server × Bool
start initialized created s =
    if not initialized
    then (s, false)
    else if not created
    then (record s { host = false }, false)
    else (record s { host = true }, true)

unfoldable pub hang_up : List Player → Server → Server
hang_up [] s = s
hang_up (p ∷ ps) s = hang_up ps (effect (peer_disconnect_now p.peer) s)

unfoldable pub stop : Server → Server
stop s =
    let left = hang_up s.players s in
    if not s.host then s else effect host_destroy (record left { players = []; host = false })

-- The lines of the console that end the loop in `main`.
unfoldable pub is_stop : Bytes → Bool
is_stop line =
    bytes_eq line (codes "stop") || bytes_eq line (codes "quit") || bytes_eq line (codes "exit")

unfoldable pub has_stop : List Bytes → Bool
has_stop [] = false
has_stop (line ∷ lines) = is_stop line || has_stop lines

unfoldable pub before_stop : List Bytes → List Bytes
before_stop [] = []
before_stop (line ∷ lines) =
    let rest = before_stop lines in if is_stop line then [] else line ∷ rest

module _ (env : Env) where
  unfoldable pub handle_event : Event → Server → Server
  handle_event (connected peer) s = handle_connect env peer s
  handle_event (disconnected peer) s = handle_disconnect env peer s
  handle_event (received peer bytes) s = handle_packet env peer bytes s
  handle_event other s = s

  unfoldable pub handle_events : List Event → Server → Server
  handle_events [] s = s
  handle_events (e ∷ es) s = handle_events es (handle_event e s)

  -- `Service`, with the events that ENet reports during the call.
  unfoldable pub service : List Event → Server → Server
  service events s = if not s.host then s else update_bots env (handle_events events s)

  unfoldable pub run_commands : List Bytes → Server → Server
  run_commands [] s = s
  run_commands (line ∷ lines) s = run_commands lines (execute_command env line s)

  -- One pass of the loop in `main`: `Service` and the lines that were typed meanwhile, and whether
  -- the loop goes on. A line that stops the server ends the pass.
  unfoldable pub one_pass : List Event → List Bytes → Server → Server × Bool
  one_pass events lines s =
      (run_commands (before_stop lines) (service events s), not (has_stop lines))

  -- The loop in `main` on the events and lines of its passes so far, and `Stop` behind it.
  unfoldable pub main_loop : List (List Event × List Bytes) → Server → Server
  main_loop [] s = s
  main_loop ((events, lines) ∷ passes) s =
      let (t, running) = one_pass events lines s in
      let rest = main_loop passes t in if running then rest else stop t
