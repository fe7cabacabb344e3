-- ===== src/Client/Session/Fit/Helpers.antt =====
-- The settings of the session of client/src/Session.cpp and its list of players, through the
-- console helpers.
use f4mp.Base.{
  if_holds, ℕ, Bool, true, false, not, Option, none, some, List, [], ◌∷◌, if◌then◌else◌, is_empty,
  Bytes, codes, bytes_eq,
}
use f4mp.Client.Config.{Config}
use f4mp.Client.Config.Bounds.{IsUsable}
use f4mp.Client.RemoteState.{RemotePlayer, World, Remotes}
use f4mp.Client.Remotes.{
  perform, setting_base, setting_pacify, setting_ghost, setting_duplicate, setting_drive,
  setting_move, respawning,
}
use f4mp.Client.Session.{Session, Moment, Link, is_ready, console}
use f4mp.Client.Session.Commands.{
  take_server, set_server, set_player_name, set_clone_option, send_chat,
}
use f4mp.Client.Session.Commands.Server.{IsPort, set_server-Settled}
use f4mp.Client.Session.Debug.{Formats, print_debug}
use f4mp.Client.Session.Fit.{IsFit, Fit, Fit-link_if, performed-Fit}
use f4mp.Client.Session.Graph.{Graph, print_graph, print_lines}
use f4mp.Client.Session.Printing.{set_base, set_option, options_line, print_remotes, print_players}

take_server-IsUsable :
    (o : Option (Bytes × ℕ)) (c : Config)
    → IsUsable c
    → IsPort ((take_server o c).0).port
    → IsUsable (take_server o c).0
take_server-IsUsable none c h k = h
take_server-IsUsable (some ([], port)) c h k = h
take_server-IsUsable (some (x ∷ host, port)) c h k = record {
  port_low = k.0;
  port_high = k.1;
  rate_low = h.rate_low;
  rate_high = h.rate_high;
  chargen_high = h.chargen_high;
}

pub set_server-IsUsable : (text : Bytes) (c : Config) → IsUsable c → IsUsable (set_server text c).0
unfolding set_server
set_server-IsUsable text c h =
    take_server-IsUsable _ c h (set_server-Settled text c (h.port_low, h.port_high)).port_ok

pub print_lines-Fit : (lines : List Bytes) (s : Session) → Fit s → Fit (print_lines lines s)
unfolding print_lines
print_lines-Fit [] s h = h
print_lines-Fit (line ∷ lines) s h = print_lines-Fit lines (console line s) h

pub set_player_name-Fit : (name : Bytes) (s : Session) → Fit s → Fit (set_player_name name s)
unfolding set_player_name
set_player_name-Fit name s h = record {
  usable = record {
    port_low = (h.usable).port_low;
    port_high = (h.usable).port_high;
    rate_low = (h.usable).rate_low;
    rate_high = (h.usable).rate_high;
    chargen_high = (h.usable).chargen_high;
  };
  reached = h.reached;
}

module _ (world : World) where
  pub set_base-Fit : (form : ℕ) (s : Session) → Fit s → Fit (set_base form s)
  unfolding set_base perform
  set_base-Fit form s h = performed-Fit world (setting_base form) s h

  option_if :
      (c : Config) (b : Bool) (r q : Remotes × Bool)
      → IsFit c r.0
      → IsFit c q.0
      → IsFit c (if b then r else q).0
  option_if c = if_holds (λ (r : Remotes × Bool). IsFit c r.0)

  set_clone_option-IsFit :
      (option : Bytes) (on : Bool) (s : Session)
      → Fit s
      → IsFit s.config (set_clone_option option on s.remotes).0
  unfolding set_clone_option perform
  set_clone_option-IsFit option on s h =
      let c = s.config in
      option_if c (bytes_eq option (codes "sync")) _ _ (performed-Fit world (setting_drive on) s h)
        (option_if c (bytes_eq option (codes "pacify")) _ _
          (performed-Fit world (setting_pacify on) s h)
          (option_if c (bytes_eq option (codes "ghost")) _ _
            (performed-Fit world (setting_ghost on) s h)
            (option_if c (bytes_eq option (codes "duplicate")) _ _
              (performed-Fit world (setting_duplicate on) s h)
              (option_if c (bytes_eq option (codes "move")) _ _
                (performed-Fit world (setting_move on) s h)
                (option_if c (bytes_eq option (codes "respawn")) _ (s.remotes, false)
                  (performed-Fit world respawning s h) h)))))

  pub set_option-Fit :
      (option : Bytes) (on : Bool) (s : Session) → Fit s → Fit (set_option option on s).0
  unfolding set_option
  set_option-Fit option on s h =
      go (set_clone_option option on s.remotes) (set_clone_option-IsFit option on s h)
    where
      go :
          (r : Remotes × Bool)
          → IsFit s.config r.0
          → let answer : Session × Bool =
              if r.1
              then (console (options_line r.0) (record s { remotes = r.0 }), true)
              else (s, false) in
            Fit answer.0
      go (r, true) k = k
      go (r, false) k = h

print_remotes-Fit :
    (m : Moment) (ps : List RemotePlayer) (s : Session) → Fit s → Fit (print_remotes m ps s)
unfolding print_remotes
print_remotes-Fit m [] s h = h
print_remotes-Fit m (p ∷ ps) s h = print_remotes-Fit m ps (console _ s) h

pub print_players-Fit : (m : Moment) (w : Link) → Fit w.1 → Fit (print_players m w).1
unfolding print_players
print_players-Fit m (n, s) h =
    Fit-link_if (not (is_ready (n, s))) (n, _) (n, _) h
      (print_remotes-Fit m (s.remotes).players (console _ (console _ s)) h)

pub print_graph-Fit :
    (m : Moment) (graph : Graph) (given : List Bytes) (s : Session)
    → Fit s
    → Fit (print_graph m graph given s)
unfolding print_graph
print_graph-Fit m graph given s h = print_lines-Fit _ (console _ s) h

pub print_debug-Fit : (m : Moment) (t : Formats) (s : Session) → Fit s → Fit (print_debug m t s)
unfolding print_debug
print_debug-Fit m t s h = print_lines-Fit _ s h

pub send_chat-Fit : (m : Moment) (text : Bytes) (w : Link) → Fit w.1 → Fit (send_chat m text w).1
unfolding send_chat
send_chat-Fit m text (n, s) h =
    Fit-link_if (is_empty text) (n, s) _ h (Fit-link_if (not (is_ready (n, s))) (n, _) (_, s) h h)
