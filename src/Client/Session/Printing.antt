-- ===== src/Client/Session/Printing.antt =====
-- The console helpers of client/src/Session.cpp that print: `SetCloneBase`, `SetCloneOption`,
-- `PrintStatus` and `PrintPlayers`.
use f4mp.Base.{
  ℕ, zero, suc, ◌+◌, ◌-◌, ◌%◌, ◌/◌, Bool, true, false, not, Option, none, some, List, [], ◌∷◌, ◌++◌,
  ltb, length, if◌then◌else◌, is_empty, Bytes, codes,
}
use f4mp.Client.Net.{State, connected, connecting, disconnected}
use f4mp.Client.RemoteState.{RemotePlayer, Remotes}
use f4mp.Client.Remotes.{set_clone_base}
use f4mp.Client.Session.{Session, Moment, Link, console, is_ready, server_address, own_name}
use f4mp.Client.Session.Commands.{set_clone_option}

-- `{:08X}` of a 32-bit number.
abbrev hex_digit : ℕ → ℕ
hex_digit d = if ltb d 10 then b'0' + d else b'A' + (d - 10)

unfoldable pub hex_text : ℕ → ℕ → Bytes
hex_text zero n = []
hex_text (suc digits) n = hex_text digits (n / 16) ++ hex_digit (n % 16) ∷ []

-- `{}` of a `bool`.
abbrev pub bool_text : Bool → Bytes
bool_text true = codes "true"
bool_text false = codes "false"

unfoldable pub set_base : ℕ → Session → Session
set_base form s =
    console (codes "[F4MP] Clone base set to 0x" ++ (hex_text 8 form ++ codes "; clones respawn."))
      (record s { remotes = set_clone_base form s.remotes })

unfoldable pub options_line : Remotes → Bytes
options_line r =
    codes "[F4MP] clones: sync "
    ++ (bool_text r.drive
        ++ (codes " pacify "
            ++ (bool_text r.pacify
                ++ (codes " ghost "
                    ++ (bool_text r.ghost
                        ++ (codes " duplicate "
                            ++ (bool_text r.duplicate ++ (codes " move " ++ bool_text r.move))))))))

-- `SetCloneOption` with its line.
unfoldable pub set_option : Bytes → Bool → Session → Session × Bool
set_option option on s =
    let (remotes, known) = set_clone_option option on s.remotes in
    if known
    then (console (options_line remotes) (record s { remotes = remotes }), true)
    else (s, false)

-- `GetPingMs`, with the round trip time of ENet's peer.
abbrev ping_ms : (ℕ → ℕ) → Option ℕ → ℕ
ping_ms round_trip none = 0
ping_ms round_trip (some peer) = round_trip peer

module _ (m : Moment) where
  unfoldable pub welcomed_line : ℕ → Session → Bytes
  welcomed_line ping s =
      codes "Connected to \""
      ++ (s.server_name
          ++ (codes "\" ("
              ++ (server_address m s
                  ++ (codes ") as #"
                      ++ (m.world.show s.my_id
                          ++ (codes ", ping "
                              ++ (m.world.show ping
                                  ++ (codes " ms, "
                                      ++ (m.world.show (length (s.remotes).players)
                                          ++ codes " other player(s)")))))))))

  unfoldable pub idle_note : Session → Bytes
  idle_note s =
      if not s.in_world
      then codes ", not in a game yet"
      else if s.manual_disconnect
      then codes ", auto-connect paused until \"f4mp connect\""
      else if s.config.auto_connect
      then codes ", auto-connect on"
      else []

  unfoldable pub state_line : State → ℕ → Session → Bytes
  state_line connected ping s =
      if s.welcomed
      then welcomed_line ping s
      else codes "Connected to "
        ++ (server_address m s ++ codes ", waiting for the server to answer")
  state_line connecting ping s = codes "Connecting to " ++ (server_address m s ++ codes "...")
  state_line disconnected ping s =
      codes "Disconnected (" ++ (server_address m s ++ (codes ")" ++ idle_note s))

  unfoldable pub print_status : (ℕ → ℕ) → Link → Link
  print_status round_trip (n, s) =
      (n, console (codes "[F4MP] " ++ state_line n.state (ping_ms round_trip n.peer) s) s)

  -- `actor.get() != nullptr`.
  abbrev is_spawned : Option ℕ → Bool
  is_spawned none = false
  is_spawned (some handle) = found (m.engine.resolve handle)
    where
      found : Option ℕ → Bool
      found none = false
      found (some ref) = true

  unfoldable pub where_line : RemotePlayer → Bytes
  where_line p =
      if is_empty p.snapshots
      then codes "no position yet"
      else if is_spawned p.actor
      then codes "in view"
      else codes "elsewhere"

  unfoldable pub player_line : RemotePlayer → Bytes
  player_line p =
      codes "  #"
      ++ (m.world.show p.id
          ++ (codes " " ++ (p.name ++ (codes " (" ++ (where_line p ++ codes ")")))))

  unfoldable pub print_remotes : List RemotePlayer → Session → Session
  print_remotes [] s = s
  print_remotes (p ∷ ps) s = print_remotes ps (console (player_line p) s)

  unfoldable pub print_players : Link → Link
  print_players (n, s) =
      let titled = console (codes "[F4MP] Players on \"" ++ (s.server_name ++ codes "\":")) s in
      let own =
        console
          (codes "  #" ++ (m.world.show s.my_id ++ (codes " " ++ (own_name m s ++ codes " (you)"))))
          titled in
      if not (is_ready (n, s))
      then (n, console (codes "[F4MP] Not connected.") s)
      else (n, print_remotes (s.remotes).players own)
