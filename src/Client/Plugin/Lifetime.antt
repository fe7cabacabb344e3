-- ===== src/Client/Plugin/Lifetime.antt =====
-- client/src/Main.cpp: the connection over the whole life of the plugin.
use f4mp.Base.{
  if_holds, ℕ, Bool, true, not, Option, none, some, List, [], ◌∷◌, is_empty, Bytes, codes, ◌||◌,
}
use f4mp.Client.Console.{
  Terminal, Result, strip_quotes, is_same_word, is_option, usage, connect_command, chat_command,
  name_command, unstick_command, option_command, base_or_usage, clonebase_command, unknown_command,
  do_command, run_rest, execute,
}
use f4mp.Client.Console.Registration.{line_of}
use f4mp.Client.Net.Soundness.{IsSound, Possible}
use f4mp.Client.Plugin.{Callback, message, frame, typed, call_back, call_back_all}
use f4mp.Client.Session.{Moment, Link, is_ready}
use f4mp.Client.Session.Careful.{
  IsSound-line, IsSound-link_if, line-send, disconnect-IsSound, session_connect-IsSound,
  tick-IsSound,
}
use f4mp.Client.Session.Commands.{send_chat}
use f4mp.Client.Session.Incoming.{session_owner, session_disconnect}
use f4mp.Client.Session.Printing.{print_status, print_players}
use f4mp.Client.Net.{is_disconnected}

-- A result with a sound connection.
record SoundResult (r : Result) : Type 0 where
  sound : IsSound r.0.0

session_disconnect-IsSound :
    (m : Moment) (manual : Bool) (w : Link)
    → IsSound w.0
    → IsSound (session_disconnect m manual w).0
unfolding session_disconnect
session_disconnect-IsSound m manual (n, s) h =
    IsSound-link_if (not manual) _ _ (disconnect-IsSound m (n, s) h)
      (IsSound-link_if (is_disconnected n.state) (n, _) _ h (disconnect-IsSound m (n, _) h))

send_chat-IsSound :
    (m : Moment) (text : Bytes) (w : Link) → IsSound w.0 → IsSound (send_chat m text w).0
unfolding send_chat
send_chat-IsSound m text (n, s) h =
    IsSound-link_if (is_empty text) (n, s) _ h
      (IsSound-link_if (not (is_ready (n, s))) (n, _) _ h
        (IsSound-line n _ (line-send m.packet_create _ _ n) h))

module _ (t : Terminal) (w : Link) (h : IsSound w.0) where
  connect_command-SoundResult : (args : Bytes) → SoundResult (connect_command t args w)
  unfolding connect_command
  connect_command-SoundResult args =
      if_holds SoundResult (is_empty args) _ _
        (record { sound = session_connect-IsSound t.moment true w h })
        (if_holds SoundResult _ _ _ (record { sound = h })
          (record { sound = session_connect-IsSound t.moment true (w.0, _) h }))

  chat_command-SoundResult : (args : Bytes) → SoundResult (chat_command t args w)
  unfolding chat_command
  chat_command-SoundResult args =
      if_holds SoundResult (is_empty (strip_quotes args)) _ _ (record { sound = h })
        (record { sound = send_chat-IsSound t.moment (strip_quotes args) w h })

  name_command-SoundResult : (args : Bytes) → SoundResult (name_command t args w)
  unfolding name_command
  name_command-SoundResult args =
      if_holds SoundResult (is_empty (strip_quotes args)) _ _ (record { sound = h })
        (record { sound = h })

  base_or_usage-SoundResult : (o : Option ℕ) → SoundResult (base_or_usage t o w)
  unfolding base_or_usage
  base_or_usage-SoundResult none = record { sound = h }
  base_or_usage-SoundResult (some form) = record { sound = h }

  clonebase_command-SoundResult : (args : Bytes) → SoundResult (clonebase_command t args w)
  unfolding clonebase_command
  clonebase_command-SoundResult args = base_or_usage-SoundResult _

  players-IsSound : IsSound (print_players t.moment w).0
  unfolding print_players
  players-IsSound = IsSound-link_if (not (is_ready w)) (w.0, _) (w.0, _) h h

  do_command-SoundResult : (cmd args : Bytes) → SoundResult (do_command t cmd args w)
  unfolding do_command print_status option_command unstick_command usage unknown_command
  do_command-SoundResult cmd args =
      if_holds SoundResult (is_empty cmd || is_same_word cmd (codes "help")) _ _
        (record { sound = h })
        (if_holds SoundResult (is_same_word cmd (codes "status")) _ _ (record { sound = h })
          (if_holds SoundResult (is_same_word cmd (codes "connect")) _ _
            (connect_command-SoundResult args)
            (if_holds SoundResult (is_same_word cmd (codes "disconnect")) _ _
              (record { sound = session_disconnect-IsSound t.moment true w h })
              (if_holds SoundResult (is_same_word cmd (codes "say")) _ _
                (chat_command-SoundResult args)
                (if_holds SoundResult
                  (is_same_word cmd (codes "list") || is_same_word cmd (codes "players")) _ _
                  (record { sound = players-IsSound })
                  (if_holds SoundResult (is_same_word cmd (codes "name")) _ _
                    (name_command-SoundResult args)
                    (if_holds SoundResult (is_same_word cmd (codes "unstick")) _ _
                      (record { sound = h })
                      (if_holds SoundResult (is_same_word cmd (codes "debug")) _ _
                        (record { sound = h })
                        (if_holds SoundResult (is_same_word cmd (codes "graph")) _ _
                          (record { sound = h })
                          (if_holds SoundResult (is_option t cmd) _ _ (record { sound = h })
                            (if_holds SoundResult (is_same_word cmd (codes "clonebase")) _ _
                              (clonebase_command-SoundResult args) (record { sound = h }))))))))))))

  execute-IsSound : (line : Bytes) → IsSound ((execute t line w).0).0
  unfolding execute run_rest
  execute-IsSound line = (do_command-SoundResult _ _).sound

-- ENet reports an opened connection only while there is a peer, in every frame.
abbrev PossibleNow : Callback → Link → Type 0
PossibleNow (message now m) w = Unit
PossibleNow (frame m events) w = Possible (session_owner m) events w
PossibleNow (typed t text) w = Unit

abbrev PossibleAll : List Callback → Link → Type 0
PossibleAll [] w = Unit
PossibleAll (c ∷ cs) w = PossibleNow c w × PossibleAll cs (call_back c w)

call_back-IsSound :
    (c : Callback) (w : Link) → PossibleNow c w → IsSound w.0 → IsSound (call_back c w).0
unfolding call_back
call_back-IsSound (message now m) w p h = h
call_back-IsSound (frame m events) w p h = tick-IsSound m events w p h
call_back-IsSound (typed t text) w p h = execute-IsSound t w h (line_of text)

-- Over the whole life of the plugin, whatever the game announces, whatever arrives in its frames and
-- whatever is typed on its console, the state of the connection and its peer stay in agreement, if ENet
-- reports an opened connection only while there is a peer.
pub call_back_all-IsSound :
    (cs : List Callback) (w : Link)
    → PossibleAll cs w
    → IsSound w.0
    → IsSound (call_back_all cs w).0
unfolding call_back_all
call_back_all-IsSound [] w p h = h
call_back_all-IsSound (c ∷ cs) w p h =
    call_back_all-IsSound cs (call_back c w) p.1 (call_back-IsSound c w p.0 h)
