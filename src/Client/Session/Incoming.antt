-- ===== src/Client/Session/Incoming.antt =====
-- `HandlePacket` of client/src/Session.cpp, and the frame and the connection of the session.
use f4mp.Base.{
  ℕ, ◌+◌, Bool, true, false, not, ◌&&◌, Option, none, some, List, ◌++◌, leb, ◌==◌, if◌then◌else◌,
  is_empty, Bytes, codes,
}
use f4mp.Types.{server_id}
use f4mp.Packet.{Reader, new_reader}
use f4mp.Protocol.Messages.{
  read_header, checked, id_welcome, WelcomeMsg, read_welcome, id_reject, RejectMsg, read_reject,
  id_player_joined, PlayerJoinedMsg, read_player_joined, id_player_left, PlayerLeftMsg,
  read_player_left, id_player_renamed, PlayerRenamedMsg, read_player_renamed,
  id_player_state_update, PlayerStateUpdateMsg, read_player_state_update, id_chat_broadcast,
  ChatBroadcastMsg, read_chat_broadcast,
}
use f4mp.Client.Net.{Owner, Event, pump, connect, disconnect, is_disconnected}
use f4mp.Client.Prologue.{update}
use f4mp.Client.Remotes.Drawing.{update_remotes}
use f4mp.Client.Remotes.{add, remove, rename, apply_state, name_of}
use f4mp.Client.Session.{
  Session, Moment, Link, console, print, server_address, greet, part, send_state, sync_name,
  is_ready, reconnect_interval,
}

-- A change of the session alone.
abbrev pub in_session : (Session → Session) → Link → Link
in_session f (n, s) = (n, f s)

module _ (m : Moment) where
  unfoldable pub on_welcome : Option WelcomeMsg → Link → Link
  on_welcome none w = w
  on_welcome (some msg) (n, s) =
      let met = record s { my_id = msg.id; server_name = msg.server_name; welcomed = true } in
      let told =
        print
          (codes "[F4MP] Connected to "
            ++ (msg.server_name ++ (codes " as player #" ++ m.world.show msg.id)))
          met in
      send_state m true
        (n, (if is_empty msg.motd then told else print (codes "[F4MP] " ++ msg.motd) told))

  unfoldable pub on_reject : Option RejectMsg → Link → Link
  on_reject none w = w
  on_reject (some msg) w = in_session (print (codes "[F4MP] Rejected: " ++ msg.reason)) w

  unfoldable pub on_player_joined : Option PlayerJoinedMsg → Link → Link
  on_player_joined none w = w
  on_player_joined (some msg) (n, s) =
      if msg.id == s.my_id
      then (n, s)
      else (n, record s { remotes = add msg.id msg.name s.remotes })

  unfoldable pub on_player_left : Option PlayerLeftMsg → Link → Link
  on_player_left none w = w
  on_player_left (some msg) (n, s) = (n, record s { remotes = remove msg.id s.remotes })

  unfoldable pub on_player_renamed : Option PlayerRenamedMsg → Link → Link
  on_player_renamed none w = w
  on_player_renamed (some msg) (n, s) =
      if msg.id == s.my_id
      then (n, print (codes "[F4MP] You are now known as " ++ msg.name) s)
      else let old = name_of m.world msg.id s.remotes in
        (
          n,
          print (codes "[F4MP] " ++ (old ++ (codes " is now known as " ++ msg.name)))
              (record s { remotes = rename m.world msg.id msg.name s.remotes }),
        )

  unfoldable pub on_state_update : Option PlayerStateUpdateMsg → Link → Link
  on_state_update none w = w
  on_state_update (some msg) (n, s) =
      if msg.id == s.my_id
      then (n, s)
      else (n, record s { remotes = apply_state m.world msg.id msg.state msg.time_ms s.remotes })

  -- Who said it, on the console.
  abbrev speaker : ℕ → Session → Bytes
  speaker from s = if from == s.my_id then codes "You" else name_of m.world from s.remotes

  unfoldable pub on_chat_broadcast : Option ChatBroadcastMsg → Link → Link
  on_chat_broadcast none w = w
  on_chat_broadcast (some msg) (n, s) =
      if msg.from == server_id
      then (n, print (codes "[Server] " ++ msg.text) s)
      else (n, print (speaker msg.from s ++ (codes ": " ++ msg.text)) s)

  -- `switch (id)` of `HandlePacket`; an unknown id is only logged.
  unfoldable pub dispatch : ℕ → Reader → Link → Link
  dispatch id r w =
      if id == id_welcome
      then on_welcome (checked read_welcome r).0 w
      else if id == id_reject
      then on_reject (checked read_reject r).0 w
      else if id == id_player_joined
      then on_player_joined (checked read_player_joined r).0 w
      else if id == id_player_left
      then on_player_left (checked read_player_left r).0 w
      else if id == id_player_renamed
      then on_player_renamed (checked read_player_renamed r).0 w
      else if id == id_player_state_update
      then on_state_update (checked read_player_state_update r).0 w
      else if id == id_chat_broadcast
      then on_chat_broadcast (checked read_chat_broadcast r).0 w
      else w

  unfoldable pub on_header : Option ℕ → Reader → Link → Link
  on_header none r w = w
  on_header (some id) r w = dispatch id r w

  unfoldable pub handle_packet : Bytes → Link → Link
  handle_packet bytes w = let (id, r) = read_header (new_reader bytes) in on_header id r w

  -- `Init`: the callbacks of the connection.
  abbrev pub session_owner : Owner Session
  session_owner = record {
    on_connected = greet m;
    on_disconnected = part m;
    on_packet = handle_packet;
  }

  -- `Connect` from `Print` on.
  unfoldable pub start_connection : Link → Link
  start_connection (n, s) =
      let told = print (codes "[F4MP] Connecting to " ++ (server_address m s ++ codes "...")) s in
      let (dialled, ok) = connect m.attempt m.now n in
      (
        dialled,
        (if ok
            then told
            else print (codes "[F4MP] Could not start connection (see F4MP.log)") told),
      )

  unfoldable pub session_connect : Bool → Link → Link
  session_connect manual (n, s) =
      if not s.in_world
      then (
        n,
        (if manual then console (codes "[F4MP] Load a save or start a new game first.") s else s),
      )
      else if manual
      then start_connection (
          disconnect session_owner
            (n, record s { manual_disconnect = false; last_reconnect_attempt = m.now }))
      else if not (is_disconnected n.state)
      then (n, s)
      else start_connection (n, s)

  unfoldable pub session_disconnect : Bool → Link → Link
  session_disconnect manual (n, s) =
      if not manual
      then disconnect session_owner (n, s)
      else let held = record s { manual_disconnect = true } in
        if is_disconnected n.state
        then (n, console (codes "[F4MP] Not connected.") held)
        else disconnect session_owner (n, held)

  -- The automatic reconnection of `Tick`.
  unfoldable pub reconnect : Link → Link
  reconnect (n, s) =
      if is_disconnected n.state
        && (s.config.auto_connect
            && (not s.manual_disconnect
                && leb (s.last_reconnect_attempt + reconnect_interval) m.now))
      then session_connect false (n, record s { last_reconnect_attempt = m.now })
      else (n, s)

  -- What `Tick` does while connected.
  unfoldable pub run_frame : Link → Link
  run_frame w =
      if is_ready w
      then in_session (λ s. record s { remotes = update_remotes m.motion m.engine m.now s.remotes })
          (sync_name m (send_state m false w))
      else w

  -- `Tick`, with the events that ENet reports during it.
  unfoldable pub tick : List Event → Link → Link
  tick events w =
      let pumped = pump session_owner events m.now w in
      if not (pumped.1).in_world
      then pumped
      else run_frame
          (reconnect (in_session (λ s. record s { skip = update m.sight s.skip }) pumped))
