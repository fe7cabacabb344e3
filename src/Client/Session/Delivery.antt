-- ===== src/Client/Session/Delivery.antt =====
-- From the server to the client: what client/src/Session.cpp does with each message of
-- shared/include/f4mp/Protocol.hpp.
use f4mp.Base.{some, ◌++◌, ◌≡◌, refl, ap, ◌∙◌, Bytes}
use f4mp.Packet.{Reader, new_reader}
use f4mp.Protocol.Messages.{encode, read_header, checked}
use f4mp.Protocol.Layout.Kinds.{
  Kind, hello, player_state, chat, set_name, welcome, reject, player_joined, player_left,
  player_state_update, chat_broadcast, player_renamed, Msg, id_of, write_of, read_of, FitsKind,
}
use f4mp.Protocol.Layout.RoundTrip.{receive-encode}
use f4mp.Client.Session.{Moment, Link}
use f4mp.Client.Session.Incoming.{
  on_welcome, on_reject, on_player_joined, on_player_left, on_player_renamed, on_state_update,
  on_chat_broadcast, dispatch, on_header, handle_packet,
}

-- The reaction of the session to a message; the ones that only a client sends are ignored.
abbrev pub react : Moment → (k : Kind) → Msg k → Link → Link
react m welcome msg = on_welcome m (some msg)
react m reject msg = on_reject m (some msg)
react m player_joined msg = on_player_joined m (some msg)
react m player_left msg = on_player_left m (some msg)
react m player_renamed msg = on_player_renamed m (some msg)
react m player_state_update msg = on_state_update m (some msg)
react m chat_broadcast msg = on_chat_broadcast m (some msg)
react m _ msg = λ w. w

dispatch-react :
    (m : Moment) (k : Kind) (msg : Msg k) (r : Reader) (w : Link)
    → (checked (read_of k) r).0 ≡ some msg
    → dispatch m (id_of k) r w ≡ react m k msg w
unfolding dispatch
dispatch-react m hello msg r w e = refl
dispatch-react m player_state msg r w e = refl
dispatch-react m chat msg r w e = refl
dispatch-react m set_name msg r w e = refl
dispatch-react m welcome msg r w e = ap (λ o. on_welcome m o w) e
dispatch-react m reject msg r w e = ap (λ o. on_reject m o w) e
dispatch-react m player_joined msg r w e = ap (λ o. on_player_joined m o w) e
dispatch-react m player_left msg r w e = ap (λ o. on_player_left m o w) e
dispatch-react m player_renamed msg r w e = ap (λ o. on_player_renamed m o w) e
dispatch-react m player_state_update msg r w e = ap (λ o. on_state_update m o w) e
dispatch-react m chat_broadcast msg r w e = ap (λ o. on_chat_broadcast m o w) e

-- A packet that `Encode` made of any message whose fields fit, with any bytes behind it, makes the session react to
-- exactly this message: of the seven kinds that a server sends, to the message with the same fields; a
-- packet of a kind that only a client sends changes nothing.
pub handle_packet-encode :
    (m : Moment) (k : Kind) (msg : Msg k) (tail : Bytes) (w : Link)
    → FitsKind k msg
    → handle_packet m (encode (id_of k) (write_of k msg) ++ tail) w ≡ react m k msg w
unfolding handle_packet on_header
handle_packet-encode m k msg tail w fits =
    let bytes = encode (id_of k) (write_of k msg) ++ tail in
    let got = receive-encode k msg tail fits in
    ap (λ o. on_header m o (read_header (new_reader bytes)).1 w) got.0
    ∙ dispatch-react m k msg (read_header (new_reader bytes)).1 w got.1
