-- ===== src/Client/Session/Careful.antt =====
-- What the callbacks that client/src/Session.cpp gives to the connection do to its state and peer.
use f4mp.Base.{
  if_holds, ℕ, Bool, true, false, not, Option, none, some, List, ◌==◌, ◌≡◌, refl, sym, subst, ◌∙◌,
  if◌then◌else◌, Bytes, ltb, bytes_eq, ◌+◌,
}
use f4mp.Types.{PlayerState, server_id}
use f4mp.Packet.{Reader, new_reader}
use f4mp.Protocol.Messages.{
  Channel, read_header, checked, WelcomeMsg, RejectMsg, PlayerJoinedMsg, PlayerLeftMsg,
  PlayerRenamedMsg, PlayerStateUpdateMsg, ChatBroadcastMsg, id_welcome, read_welcome, id_reject,
  read_reject, id_player_joined, read_player_joined, id_player_left, read_player_left,
  id_player_renamed, read_player_renamed, id_player_state_update, read_player_state_update,
  id_chat_broadcast, read_chat_broadcast,
}
use f4mp.Client.Net.{
  NetClient, Call, State, Event, send, send_to, is_connected, is_disconnected, call, pump,
  disconnect,
}
use f4mp.Client.Net.Soundness.{
  Agrees, IsSound, IsCareful, Possible, pump-IsSound, reset-IsSound, connect-Dialled,
}
use f4mp.Client.Session.{
  Moment, Link, greet, part, holds_back, send_sample, send_state, tell_name, sync_name, own_name,
  name_check_interval, is_ready, local_sample,
}
use f4mp.Client.Prologue.{update}
use f4mp.Client.Session.Incoming.{
  on_welcome, on_reject, on_player_joined, on_player_left, on_player_renamed, on_state_update,
  on_chat_broadcast, dispatch, on_header, handle_packet, session_owner, start_connection,
  in_session, session_connect, reconnect, run_frame, tick,
}

-- What of the connection does not hang on what was sent.
record Line : Type 0 where
  host : Bool
  peer : Option ℕ
  state : State

abbrev line : NetClient → Line
line n = record { host = n.host; peer = n.peer; state = n.state }

pub IsSound-line : (n k : NetClient) → line k ≡ line n → IsSound n → IsSound k
IsSound-line n k e h = record {
  agrees = subst (λ (l : Line). Agrees l.state l.peer l.host) (sym e) h.agrees;
}

line_if :
    (b : Bool) (j k n : NetClient)
    → line j ≡ line n
    → line k ≡ line n
    → line (if b then j else k) ≡ line n
line_if b j k n = if_holds (λ (l : NetClient). line l ≡ line n) b j k

line-send_to :
    (o : Option ℕ) (created : Bool) (c : Channel) (bytes : Bytes) (n : NetClient)
    → line (send_to o created c bytes n) ≡ line n
line-send_to none created c bytes n = refl
line-send_to (some p) created c bytes n =
    line_if (not (is_connected n.state)) n _ n refl
      (line_if created (call (Call.peer_send p c bytes) n) n n refl refl)

pub line-send :
    (create : Bytes → Bool → Bool) (c : Channel) (bytes : Bytes) (n : NetClient)
    → line (send create c bytes n) ≡ line n
unfolding send
line-send create c bytes n = line-send_to n.peer _ c bytes n

link_if :
    (b : Bool) (v w u : Link)
    → line v.0 ≡ line u.0
    → line w.0 ≡ line u.0
    → line (if b then v else w).0 ≡ line u.0
link_if b v w u = if_holds (λ (l : Link). line l.0 ≡ line u.0) b v w

pub IsSound-link_if :
    (b : Bool) (v w : Link) → IsSound v.0 → IsSound w.0 → IsSound (if b then v else w).0
IsSound-link_if = if_holds (λ (w : Link). IsSound w.0)

module _ (m : Moment) where
  line-greet : (w : Link) → line (greet m w).0 ≡ line w.0
  unfolding greet
  line-greet (n, s) = line-send m.packet_create _ _ n

  line-send_sample :
      (force : Bool) (o : Option PlayerState) (w : Link)
      → line (send_sample m force o w).0 ≡ line w.0
  unfolding send_sample
  line-send_sample force none w = refl
  line-send_sample force (some state) (n, s) =
      link_if (holds_back m force state s) (n, s) _ (n, s) refl (line-send m.packet_create _ _ n)

  line-on_welcome : (o : Option WelcomeMsg) (w : Link) → line (on_welcome m o w).0 ≡ line w.0
  unfolding on_welcome send_state
  line-on_welcome none w = refl
  line-on_welcome (some msg) (n, s) = line-send_sample true (local_sample m) (n, _)

  line-on_reject : (o : Option RejectMsg) (w : Link) → line (on_reject m o w).0 ≡ line w.0
  unfolding on_reject
  line-on_reject none w = refl
  line-on_reject (some msg) w = refl

  line-on_player_joined :
      (o : Option PlayerJoinedMsg) (w : Link) → line (on_player_joined m o w).0 ≡ line w.0
  unfolding on_player_joined
  line-on_player_joined none w = refl
  line-on_player_joined (some msg) (n, s) =
      link_if (msg.id == s.my_id) (n, s) (n, _) (n, s) refl refl

  line-on_player_left :
      (o : Option PlayerLeftMsg) (w : Link) → line (on_player_left m o w).0 ≡ line w.0
  unfolding on_player_left
  line-on_player_left none w = refl
  line-on_player_left (some msg) w = refl

  line-on_player_renamed :
      (o : Option PlayerRenamedMsg) (w : Link) → line (on_player_renamed m o w).0 ≡ line w.0
  unfolding on_player_renamed
  line-on_player_renamed none w = refl
  line-on_player_renamed (some msg) (n, s) =
      link_if (msg.id == s.my_id) (n, _) (n, _) (n, s) refl refl

  line-on_state_update :
      (o : Option PlayerStateUpdateMsg) (w : Link) → line (on_state_update m o w).0 ≡ line w.0
  unfolding on_state_update
  line-on_state_update none w = refl
  line-on_state_update (some msg) (n, s) =
      link_if (msg.id == s.my_id) (n, s) (n, _) (n, s) refl refl

  line-on_chat_broadcast :
      (o : Option ChatBroadcastMsg) (w : Link) → line (on_chat_broadcast m o w).0 ≡ line w.0
  unfolding on_chat_broadcast
  line-on_chat_broadcast none w = refl
  line-on_chat_broadcast (some msg) (n, s) =
      link_if (msg.from == server_id) (n, _) (n, _) (n, s) refl refl

  line-dispatch : (id : ℕ) (r : Reader) (w : Link) → line (dispatch m id r w).0 ≡ line w.0
  unfolding dispatch
  line-dispatch id r w =
      link_if (id == id_welcome) _ _ w (line-on_welcome (checked read_welcome r).0 w) (
        link_if (id == id_reject) _ _ w (line-on_reject (checked read_reject r).0 w) (
          link_if (id == id_player_joined) _ _ w
            (line-on_player_joined (checked read_player_joined r).0 w)
            (link_if (id == id_player_left) _ _ w
              (line-on_player_left (checked read_player_left r).0 w)
              (link_if (id == id_player_renamed) _ _ w
                (line-on_player_renamed (checked read_player_renamed r).0 w)
                (link_if (id == id_player_state_update) _ _ w
                  (line-on_state_update (checked read_player_state_update r).0 w)
                  (link_if (id == id_chat_broadcast) _ w w
                    (line-on_chat_broadcast (checked read_chat_broadcast r).0 w) refl))))))

  line-on_header : (o : Option ℕ) (r : Reader) (w : Link) → line (on_header m o r w).0 ≡ line w.0
  unfolding on_header
  line-on_header none r w = refl
  line-on_header (some id) r w = line-dispatch id r w

  line-handle_packet : (bytes : Bytes) (w : Link) → line (handle_packet m bytes w).0 ≡ line w.0
  unfolding handle_packet
  line-handle_packet bytes w =
      line-on_header (read_header (new_reader bytes)).0 (read_header (new_reader bytes)).1 w

  session_owner-IsCareful : IsCareful (session_owner m)
  unfolding part
  session_owner-IsCareful = record {
    connecting_ok = λ w h. IsSound-line w.0 _ (line-greet w) h;
    closing_ok = λ reason w h. h;
    packet_ok = λ bytes w h. IsSound-line w.0 _ (line-handle_packet bytes w) h;
  }

  pub disconnect-IsSound : (w : Link) → IsSound w.0 → IsSound (disconnect (session_owner m) w).0
  unfolding disconnect part
  disconnect-IsSound (n, s) h =
      IsSound-link_if (is_disconnected n.state) (n, s) _ h (reset-IsSound n)

  start_connection-IsSound : (w : Link) → IsSound w.0 → IsSound (start_connection m w).0
  unfolding start_connection
  start_connection-IsSound (n, s) h = (connect-Dialled m.attempt m.now n h).sound

  -- However the player asks for a connection, and on every path of `Connect`, the state of the
  -- connection and its peer stay in agreement.
  pub session_connect-IsSound :
      (manual : Bool) (w : Link) → IsSound w.0 → IsSound (session_connect m manual w).0
  unfolding session_connect
  session_connect-IsSound manual (n, s) h =
      IsSound-link_if (not s.in_world) (n, _) _ h
        (IsSound-link_if manual _ _ (start_connection-IsSound _ (disconnect-IsSound (n, _) h)) (
          IsSound-link_if (not (is_disconnected n.state)) (n, s) _ h
            (start_connection-IsSound (n, s) h)))

  reconnect-IsSound : (w : Link) → IsSound w.0 → IsSound (reconnect m w).0
  unfolding reconnect
  reconnect-IsSound (n, s) h = IsSound-link_if _ _ (n, s) (session_connect-IsSound false (n, _) h) h

  line-tell_name : (name : Bytes) (w : Link) → line (tell_name m name w).0 ≡ line w.0
  unfolding tell_name
  line-tell_name name (n, s) = line-send m.packet_create _ _ n

  line-sync_name : (w : Link) → line (sync_name m w).0 ≡ line w.0
  unfolding sync_name
  line-sync_name (n, s) =
      let checked = record s { last_name_check = m.now } in
      link_if (ltb m.now (s.last_name_check + name_check_interval)) (n, s) _ (n, s) refl
        (link_if (bytes_eq (own_name m s) s.sent_name) (n, checked)
          (tell_name m (own_name m s) (n, checked)) (n, s) refl
          (line-tell_name (own_name m s) (n, checked)))

  line-run_frame : (w : Link) → line (run_frame m w).0 ≡ line w.0
  unfolding run_frame send_state
  line-run_frame w =
      link_if (is_ready w) _ w w
        (line-sync_name (send_sample m false (local_sample m) w)
          ∙ line-send_sample false (local_sample m) w)
        refl

-- A frame of the client keeps the state of its connection and its peer in agreement: whatever packets
-- and events arrive, with the timeout, the automatic reconnection and what is sent, if ENet reports an
-- opened connection only while there is a peer.
pub tick-IsSound :
    (m : Moment) (events : List Event) (w : Link)
    → Possible (session_owner m) events w
    → IsSound w.0
    → IsSound (tick m events w).0
unfolding tick
tick-IsSound m events w poss h =
    let pumped = pump (session_owner m) events m.now w in
    let k : IsSound pumped.0 =
      pump-IsSound (session_owner m) (session_owner-IsCareful m) events m.now w poss h in
    IsSound-link_if (not (pumped.1).in_world) pumped _ k (
      let skipped = in_session (λ s. record s { skip = update m.sight s.skip }) pumped in
      IsSound-line (reconnect m skipped).0 _ (line-run_frame m (reconnect m skipped))
        (reconnect-IsSound m skipped k))
