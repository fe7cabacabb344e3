-- ===== src/Client/Plugin.antt =====
-- client/src/Main.cpp: the messages of F4SE and the frames, with the lines of the game's console.
pub mod Lifetime
pub mod Fitness
use f4mp.Base.{ℕ, Bool, Option, List, [], ◌∷◌, Bytes}
use f4mp.Client.Config.{Numbers, load_config}
use f4mp.Client.Console.{Terminal}
use f4mp.Client.Console.Registration.{execute_command}
use f4mp.Client.Net.{Event, new_client}
use f4mp.Client.Session.{
  Session, Moment, Link, enter_world, new_game, leave_world, pre_save, new_session, init,
}
use f4mp.Client.Session.Incoming.{in_session, tick}

-- `MessageType`, with one constructor for all that the plugin ignores.
pub data Message : Type 0 where
  game_data_ready post_load_game new_game_started pre_load_game pre_save_game ignored : Message

-- `OnF4SEMessage`, at a time of the clock. `OnGameDataReady` only logs.
pub on_message : ℕ → Message → Session → Session
on_message now game_data_ready s = s
on_message now post_load_game s = enter_world s
on_message now new_game_started s = new_game now s
on_message now pre_load_game s = leave_world s
on_message now pre_save_game s = pre_save s
on_message now ignored s = s

-- What the plugin is called with: a message or `Tick` from F4SE, or `ExecuteCommand` for a
-- line of the console.
pub data Callback : Type 0 where
  message : ℕ → Message → Callback
  frame : Moment → List Event → Callback
  typed : Terminal → Option Bytes → Callback

unfoldable pub call_back : Callback → Link → Link
call_back (message now m) w = in_session (on_message now m) w
call_back (frame m events) w = tick m events w
call_back (typed t text) w = ((execute_command t text w).0).0

pub call_back_all : List Callback → Link → Link
call_back_all [] w = w
call_back_all (c ∷ cs) w = call_back_all cs (call_back c w)

-- What `F4SE_PLUGIN_LOAD` leaves, given whether ENet could be set up and the content of the settings'
-- file: a session with the settings, which is not connected.
pub load_plugin : Numbers → Bool → Option Bytes → Link
load_plugin numbers ready content =
    (new_client ready, init (load_config numbers content) new_session)
