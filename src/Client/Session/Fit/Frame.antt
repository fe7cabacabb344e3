-- ===== src/Client/Session/Fit/Frame.antt =====
-- The settings of the session of client/src/Session.cpp and its list of players, through
-- connections and frames.
use f4mp.Base.{if_holds, ◌+◌, Bool, false, not, List, bytes_eq, ltb}
use f4mp.Client.Net.{Event, connect, is_disconnected, pump}
use f4mp.Client.Net.Kept.{disconnect-kept, pump-kept}
use f4mp.Client.Prologue.{update}
use f4mp.Client.Remotes.Turns.{drawn, take_turn}
use f4mp.Client.Remotes.Reached.{turned}
use f4mp.Client.Session.{
  Moment, Link, print, send_sample, send_state, tell_name, sync_name, own_name, name_check_interval,
  is_ready, local_sample,
}
use f4mp.Client.Session.Incoming.{
  session_owner, start_connection, in_session, session_connect, session_disconnect, reconnect,
  run_frame, tick,
}
use f4mp.Client.Session.Fit.{Fit, Fit-link_if, print-Fit, send_sample-Fit, session_owner-IsKept}

module _ (m : Moment) where
  start_connection-Fit : (w : Link) → Fit w.1 → Fit (start_connection m w).1
  unfolding start_connection
  start_connection-Fit (n, s) h =
      let told = print-Fit _ s h in
      if_holds Fit (connect m.attempt m.now n).1 (print _ s) (print _ (print _ s)) told
        (print-Fit _ (print _ s) told)

  pub session_connect-Fit :
      (manual : Bool) (w : Link) → Fit w.1 → Fit (session_connect m manual w).1
  unfolding session_connect
  session_connect-Fit manual (n, s) h =
      Fit-link_if (not s.in_world) (n, _) _ (if_holds Fit manual _ s h h)
        (Fit-link_if manual _ _
          (start_connection-Fit _
            (disconnect-kept (session_owner m) Fit (session_owner-IsKept m) (n, _) h))
          (Fit-link_if (not (is_disconnected n.state)) (n, s) _ h (start_connection-Fit (n, s) h)))

  pub session_disconnect-Fit :
      (manual : Bool) (w : Link) → Fit w.1 → Fit (session_disconnect m manual w).1
  unfolding session_disconnect
  session_disconnect-Fit manual (n, s) h =
      Fit-link_if (not manual) _ _
        (disconnect-kept (session_owner m) Fit (session_owner-IsKept m) (n, s) h)
        (Fit-link_if (is_disconnected n.state) (n, _) _ h
          (disconnect-kept (session_owner m) Fit (session_owner-IsKept m) (n, _) h))

  reconnect-Fit : (w : Link) → Fit w.1 → Fit (reconnect m w).1
  unfolding reconnect
  reconnect-Fit (n, s) h = Fit-link_if _ _ (n, s) (session_connect-Fit false (n, _) h) h

  sync_name-Fit : (w : Link) → Fit w.1 → Fit (sync_name m w).1
  unfolding sync_name tell_name
  sync_name-Fit (n, s) h =
      Fit-link_if (ltb m.now (s.last_name_check + name_check_interval)) (n, s) _ h
        (Fit-link_if (bytes_eq (own_name m s) s.sent_name) (n, _) (_, _) h h)

  run_frame-Fit : (w : Link) → Fit w.1 → Fit (run_frame m w).1
  unfolding run_frame send_state take_turn
  run_frame-Fit w h =
      let sent = sync_name m (send_sample m false (local_sample m) w) in
      let k = sync_name-Fit _ (send_sample-Fit m false (local_sample m) w h) in
      Fit-link_if (is_ready w) _ w
        (record { usable = k.usable; reached = turned (drawn m.motion m.engine m.now) k.reached }) h

  pub tick-Fit : (events : List Event) (w : Link) → Fit w.1 → Fit (tick m events w).1
  unfolding tick
  tick-Fit events w h =
      let pumped = pump (session_owner m) events m.now w in
      let k = pump-kept (session_owner m) Fit (session_owner-IsKept m) events m.now w h in
      let skipped = in_session (λ s. record s { skip = update m.sight s.skip }) pumped in
      Fit-link_if (not (pumped.1).in_world) pumped _ k
        (run_frame-Fit (reconnect m skipped) (reconnect-Fit skipped k))
