-- ===== src/Client/Plugin/Fitness.antt =====
-- client/src/Main.cpp: the settings and the list of players over the whole life of the plugin.
use f4mp.Base.{
  if_holds, ℕ, Bool, true, not, Option, none, some, List, [], ◌∷◌, is_empty, Bytes, codes, ◌||◌,
  ◌≡◌, refl, sym, subst,
}
use f4mp.Client.Config.{Numbers}
use f4mp.Client.Config.Bounds.{client_load_config-IsUsable}
use f4mp.Client.Console.{
  Terminal, Result, calm, say_line, strip_quotes, is_same_word, is_option, usage, usage_lines,
  connect_command, chat_command, name_command, unstick_command, option_command, base_or_usage,
  clonebase_command, unknown_command, do_command, run_rest, execute,
}
use f4mp.Client.Console.Registration.{line_of}
use f4mp.Client.Plugin.{
  Callback, message, frame, typed, Message, game_data_ready, post_load_game, new_game_started,
  pre_load_game, pre_save_game, ignored, on_message, call_back, call_back_all, load_plugin,
}
use f4mp.Client.Remotes.{perform, setting_base}
use f4mp.Client.Remotes.Reached.{empty, performed, some_world, IsOrderly, Reached-IsOrderly}
use f4mp.Client.Session.{Session, Link, console, init}
use f4mp.Client.Session.Commands.{set_server}
use f4mp.Client.Session.Fit.{Fit, enter_world-Fit, new_game-Fit, leave_world-Fit, pre_save-Fit}
use f4mp.Client.Session.Fit.Frame.{session_connect-Fit, session_disconnect-Fit, tick-Fit}
use f4mp.Client.Session.Incoming.{session_connect}
use f4mp.Client.Session.Printing.{print_status}
use f4mp.Client.Session.Fit.Helpers.{
  set_server-IsUsable, print_lines-Fit, set_player_name-Fit, set_base-Fit, set_option-Fit,
  print_players-Fit, print_graph-Fit, print_debug-Fit, send_chat-Fit,
}

-- A result with fit settings and histories.
record FitResult (r : Result) : Type 0 where
  fit : Fit r.0.1

module _ (t : Terminal) (w : Link) (h : Fit w.1) where
  usage-Fit : Fit (usage t w).1
  unfolding usage
  usage-Fit = print_lines-Fit (usage_lines t) w.1 h

  connect_command-FitResult : (args : Bytes) → FitResult (connect_command t args w)
  unfolding connect_command
  connect_command-FitResult args =
      let taken = set_server (strip_quotes args) (w.1).config in
      let moved : Link = (w.0, record (w.1) { config = taken.0 }) in
      if_holds FitResult (is_empty args) (calm (session_connect t.moment true w)) _
        (record { fit = session_connect-Fit t.moment true w h })
        (if_holds FitResult (not taken.1) (say_line _ w)
          (calm (session_connect t.moment true moved)) (record { fit = h })
          (record {
            fit = session_connect-Fit t.moment true moved (record {
              usable = set_server-IsUsable (strip_quotes args) (w.1).config h.usable;
              reached = h.reached;
            });
          }))

  chat_command-FitResult : (args : Bytes) → FitResult (chat_command t args w)
  unfolding chat_command
  chat_command-FitResult args =
      if_holds FitResult (is_empty (strip_quotes args)) _ _ (record { fit = h })
        (record { fit = send_chat-Fit t.moment (strip_quotes args) w h })

  name_command-FitResult : (args : Bytes) → FitResult (name_command t args w)
  unfolding name_command
  name_command-FitResult args =
      if_holds FitResult (is_empty (strip_quotes args)) _ _ (record { fit = h })
        (record { fit = set_player_name-Fit (strip_quotes args) w.1 h })

  base_or_usage-FitResult : (o : Option ℕ) → FitResult (base_or_usage t o w)
  unfolding base_or_usage
  base_or_usage-FitResult none = record { fit = h }
  base_or_usage-FitResult (some form) = record { fit = set_base-Fit (t.moment).world form w.1 h }

  unknown_command-FitResult : (cmd : Bytes) → FitResult (unknown_command t cmd w)
  unfolding unknown_command usage
  unknown_command-FitResult cmd = record { fit = print_lines-Fit (usage_lines t) (console _ w.1) h }

  option_command-FitResult : (cmd args : Bytes) → FitResult (option_command t cmd args w)
  unfolding option_command
  option_command-FitResult cmd args = record { fit = set_option-Fit (t.moment).world _ _ w.1 h }

  do_command-FitResult : (cmd args : Bytes) → FitResult (do_command t cmd args w)
  unfolding do_command print_status unstick_command clonebase_command
  do_command-FitResult cmd args =
      if_holds FitResult (is_empty cmd || is_same_word cmd (codes "help")) _ _
        (record { fit = usage-Fit })
        (if_holds FitResult (is_same_word cmd (codes "status")) _ _ (record { fit = h })
          (if_holds FitResult (is_same_word cmd (codes "connect")) _ _
            (connect_command-FitResult args)
            (if_holds FitResult (is_same_word cmd (codes "disconnect")) _ _
              (record { fit = session_disconnect-Fit t.moment true w h })
              (if_holds FitResult (is_same_word cmd (codes "say")) _ _ (chat_command-FitResult args)
                (if_holds FitResult
                  (is_same_word cmd (codes "list") || is_same_word cmd (codes "players")) _ _
                  (record { fit = print_players-Fit t.moment w h })
                  (if_holds FitResult (is_same_word cmd (codes "name")) _ _
                    (name_command-FitResult args)
                    (if_holds FitResult (is_same_word cmd (codes "unstick")) _ _
                      (record { fit = h })
                      (if_holds FitResult (is_same_word cmd (codes "debug")) _ _
                        (record { fit = print_debug-Fit t.moment t.formats w.1 h })
                        (if_holds FitResult (is_same_word cmd (codes "graph")) _ _
                          (record { fit = print_graph-Fit t.moment t.graph _ w.1 h })
                          (if_holds FitResult (is_option t cmd) _ _
                            (option_command-FitResult cmd args)
                            (if_holds FitResult (is_same_word cmd (codes "clonebase")) _ _
                              (base_or_usage-FitResult _) (unknown_command-FitResult cmd))))))))))))

  execute-Fit : (line : Bytes) → Fit ((execute t line w).0).1
  unfolding execute run_rest
  execute-Fit line = (do_command-FitResult _ _).fit

on_message-Fit : (now : ℕ) (m : Message) (s : Session) → Fit s → Fit (on_message now m s)
unfolding on_message
on_message-Fit now game_data_ready s h = h
on_message-Fit now post_load_game s h = enter_world-Fit s h
on_message-Fit now new_game_started s h = new_game-Fit s h now
on_message-Fit now pre_load_game s h = leave_world-Fit s h
on_message-Fit now pre_save_game s h = pre_save-Fit s h
on_message-Fit now ignored s h = h

call_back-Fit : (c : Callback) (w : Link) → Fit w.1 → Fit (call_back c w).1
unfolding call_back
call_back-Fit (message now m) (n, s) h = on_message-Fit now m s h
call_back-Fit (frame m events) w h = tick-Fit m events w h
call_back-Fit (typed t text) w h = execute-Fit t w h (line_of text)

call_back_all-Fit : (cs : List Callback) (w : Link) → Fit w.1 → Fit (call_back_all cs w).1
unfolding call_back_all
call_back_all-Fit [] w h = h
call_back_all-Fit (c ∷ cs) w h = call_back_all-Fit cs (call_back c w) (call_back-Fit c w h)

-- From the loading of the plugin on, whatever is in the settings' file, whatever the game announces,
-- whatever arrives in its frames and whatever is typed on its console: the port stays from 1 to 65535,
-- the states from 1 to 60 in a second and the mode of character generation 0 or 1; the list of players
-- is one that its operations and frames have made from an empty one, no id is in it twice, and the
-- snapshots of each player stay in the strict order of time and at most 64.
pub load_plugin-Fit :
    (numbers : Numbers) (ready : Bool) (content : Option Bytes) (cs : List Callback) (w : Link)
    → w ≡ call_back_all cs (load_plugin numbers ready content)
    → Fit w.1 × IsOrderly (w.1).remotes
unfolding load_plugin init perform
load_plugin-Fit numbers ready content cs w e =
    let loaded : Fit (load_plugin numbers ready content).1 = record {
      usable = client_load_config-IsUsable numbers content;
      reached = performed some_world (setting_base _) (empty refl);
    } in
    let kept = subst (λ (v : Link). Fit v.1) (sym e) (call_back_all-Fit cs _ loaded) in
    (kept, Reached-IsOrderly _ kept.reached)
