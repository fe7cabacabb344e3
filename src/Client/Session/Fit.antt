-- ===== src/Client/Session/Fit.antt =====
-- The settings of the session of client/src/Session.cpp and its list of players, through packets.
pub mod Frame
pub mod Helpers
use f4mp.Base.{
  if_holds, ℕ, ◌+◌, Bool, true, false, not, Option, none, some, List, ◌==◌, if◌then◌else◌, is_empty,
  Bytes, bytes_eq, ltb,
}
use f4mp.Types.{PlayerState, server_id}
use f4mp.Packet.{Reader, new_reader}
use f4mp.Protocol.Messages.{
  read_header, checked, WelcomeMsg, RejectMsg, PlayerJoinedMsg, PlayerLeftMsg, PlayerRenamedMsg,
  PlayerStateUpdateMsg, ChatBroadcastMsg, id_welcome, read_welcome, id_reject, read_reject,
  id_player_joined, read_player_joined, id_player_left, read_player_left, id_player_renamed,
  read_player_renamed, id_player_state_update, read_player_state_update, id_chat_broadcast,
  read_chat_broadcast,
}
use f4mp.Client.Config.{Config}
use f4mp.Client.Config.Bounds.{IsUsable}
use f4mp.Client.Net.{Event, connect, disconnect, is_disconnected, pump}
use f4mp.Client.Net.Kept.{IsKept, disconnect-kept, pump-kept}
use f4mp.Client.Prologue.{update}
use f4mp.Client.RemoteState.{World, Remotes}
use f4mp.Client.Remotes.{
  Operation, perform, adding, renaming, removing, applying, clearing, forgetting, despawning,
}
use f4mp.Client.Remotes.Reached.{Reached, performed, some_world}
use f4mp.Client.Remotes.Turns.{drawn, take_turn, take_turn-HasHistories}
use f4mp.Client.Session.{
  Session, Moment, Link, print, greet, part, holds_back, send_sample, send_state, tell_name,
  sync_name, own_name, name_check_interval, is_ready, local_sample, enter_world, new_game,
  leave_world, pre_save,
}
use f4mp.Client.Session.Incoming.{
  on_welcome, on_reject, on_player_joined, on_player_left, on_player_renamed, on_state_update,
  on_chat_broadcast, dispatch, on_header, handle_packet, session_owner, start_connection,
  in_session, session_connect, session_disconnect, reconnect, run_frame, tick,
}

-- Usable settings, and a list of players that operations and frames have made.
pub record IsFit (c : Config) (r : Remotes) : Type 0 where
  pub usable : IsUsable c
  pub reached : Reached r

abbrev pub Fit : Session → Type 0
Fit s = IsFit s.config s.remotes

pub Fit-link_if : (b : Bool) (v w : Link) → Fit v.1 → Fit w.1 → Fit (if b then v else w).1
Fit-link_if = if_holds (λ (w : Link). Fit w.1)

pub print-Fit : (line : Bytes) (s : Session) → Fit s → Fit (print line s)
unfolding print
print-Fit line s h = if_holds Fit (s.config.console_messages) _ s h h

pub performed-Fit :
    (world : World) (o : Operation) (s : Session)
    → Fit s
    → IsFit s.config (perform world o s.remotes)
performed-Fit world o s h = record { usable = h.usable; reached = performed world o h.reached }

module _ (s : Session) (h : Fit s) where
  pub enter_world-Fit : Fit (enter_world s)
  unfolding enter_world perform
  enter_world-Fit = performed-Fit some_world forgetting s h

  pub new_game-Fit : (now : ℕ) → Fit (new_game now s)
  unfolding new_game
  new_game-Fit now = enter_world-Fit

  pub leave_world-Fit : Fit (leave_world s)
  unfolding leave_world perform
  leave_world-Fit = performed-Fit some_world forgetting s h

  pub pre_save-Fit : Fit (pre_save s)
  unfolding pre_save perform
  pre_save-Fit = performed-Fit some_world despawning s h

module _ (m : Moment) where
  pub send_sample-Fit :
      (force : Bool) (o : Option PlayerState) (w : Link) → Fit w.1 → Fit (send_sample m force o w).1
  unfolding send_sample
  send_sample-Fit force none w h = h
  send_sample-Fit force (some state) (n, s) h =
      Fit-link_if (holds_back m force state s) (n, s) _ h h

  on_welcome-Fit : (o : Option WelcomeMsg) (w : Link) → Fit w.1 → Fit (on_welcome m o w).1
  unfolding on_welcome send_state
  on_welcome-Fit none w h = h
  on_welcome-Fit (some msg) (n, s) h =
      let met = record s { my_id = msg.id; server_name = msg.server_name; welcomed = true } in
      let told = print-Fit _ met h in
      send_sample-Fit true (local_sample m) (n, _)
        (if_holds Fit (is_empty msg.motd) (print _ met) (print _ (print _ met)) told
          (print-Fit _ (print _ met) told))

  on_reject-Fit : (o : Option RejectMsg) (w : Link) → Fit w.1 → Fit (on_reject m o w).1
  unfolding on_reject
  on_reject-Fit none w h = h
  on_reject-Fit (some msg) (n, s) h = print-Fit _ s h

  on_player_joined-Fit :
      (o : Option PlayerJoinedMsg) (w : Link) → Fit w.1 → Fit (on_player_joined m o w).1
  unfolding on_player_joined perform
  on_player_joined-Fit none w h = h
  on_player_joined-Fit (some msg) (n, s) h =
      Fit-link_if (msg.id == s.my_id) (n, s) (n, _) h
        (performed-Fit m.world (adding msg.id msg.name) s h)

  on_player_left-Fit :
      (o : Option PlayerLeftMsg) (w : Link) → Fit w.1 → Fit (on_player_left m o w).1
  unfolding on_player_left perform
  on_player_left-Fit none w h = h
  on_player_left-Fit (some msg) (n, s) h = performed-Fit m.world (removing msg.id) s h

  on_player_renamed-Fit :
      (o : Option PlayerRenamedMsg) (w : Link) → Fit w.1 → Fit (on_player_renamed m o w).1
  unfolding on_player_renamed perform
  on_player_renamed-Fit none w h = h
  on_player_renamed-Fit (some msg) (n, s) h =
      let renamed = record s { remotes = perform m.world (renaming msg.id msg.name) s.remotes } in
      Fit-link_if (msg.id == s.my_id) (n, _) (n, _) (print-Fit _ s h)
        (print-Fit _ renamed (performed-Fit m.world (renaming msg.id msg.name) s h))

  on_state_update-Fit :
      (o : Option PlayerStateUpdateMsg) (w : Link) → Fit w.1 → Fit (on_state_update m o w).1
  unfolding on_state_update perform
  on_state_update-Fit none w h = h
  on_state_update-Fit (some msg) (n, s) h =
      Fit-link_if (msg.id == s.my_id) (n, s) (n, _) h
        (performed-Fit m.world (applying msg.id msg.state msg.time_ms) s h)

  on_chat_broadcast-Fit :
      (o : Option ChatBroadcastMsg) (w : Link) → Fit w.1 → Fit (on_chat_broadcast m o w).1
  unfolding on_chat_broadcast
  on_chat_broadcast-Fit none w h = h
  on_chat_broadcast-Fit (some msg) (n, s) h =
      Fit-link_if (msg.from == server_id) (n, _) (n, _) (print-Fit _ s h) (print-Fit _ s h)

  dispatch-Fit : (id : ℕ) (r : Reader) (w : Link) → Fit w.1 → Fit (dispatch m id r w).1
  unfolding dispatch
  dispatch-Fit id r w h =
      Fit-link_if (id == id_welcome) _ _ (on_welcome-Fit (checked read_welcome r).0 w h) (
        Fit-link_if (id == id_reject) _ _ (on_reject-Fit (checked read_reject r).0 w h) (
          Fit-link_if (id == id_player_joined) _ _
            (on_player_joined-Fit (checked read_player_joined r).0 w h)
            (Fit-link_if (id == id_player_left) _ _
              (on_player_left-Fit (checked read_player_left r).0 w h)
              (Fit-link_if (id == id_player_renamed) _ _
                (on_player_renamed-Fit (checked read_player_renamed r).0 w h)
                (Fit-link_if (id == id_player_state_update) _ _
                  (on_state_update-Fit (checked read_player_state_update r).0 w h)
                  (Fit-link_if (id == id_chat_broadcast) _ w
                    (on_chat_broadcast-Fit (checked read_chat_broadcast r).0 w h) h))))))

  on_header-Fit : (o : Option ℕ) (r : Reader) (w : Link) → Fit w.1 → Fit (on_header m o r w).1
  unfolding on_header
  on_header-Fit none r w h = h
  on_header-Fit (some id) r w h = dispatch-Fit id r w h

  handle_packet-Fit : (bytes : Bytes) (w : Link) → Fit w.1 → Fit (handle_packet m bytes w).1
  unfolding handle_packet
  handle_packet-Fit bytes w h =
      on_header-Fit (read_header (new_reader bytes)).0 (read_header (new_reader bytes)).1 w h

  greet-Fit : (w : Link) → Fit w.1 → Fit (greet m w).1
  unfolding greet
  greet-Fit (n, s) h = h

  part-Fit : (reason : Bytes) (w : Link) → Fit w.1 → Fit (part m reason w).1
  unfolding part perform
  part-Fit reason (n, s) h = print-Fit _ _ (performed-Fit m.world clearing s h)

  pub session_owner-IsKept : IsKept (session_owner m) Fit
  session_owner-IsKept = record {
    connected_ok = greet-Fit;
    disconnected_ok = part-Fit;
    packet_ok = handle_packet-Fit;
  }
