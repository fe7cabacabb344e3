-- ===== src/Protocol/Layout/ToServer.antt =====
-- The layouts of the messages from a client to the server.
use f4mp.Base.{◌<◌, ◌≤◌, ◌≡◌, ◌++◌, Bytes, length, to_le, u32_mod}
use f4mp.Types.{IsPlayerState}
use f4mp.Packet.{max_string_bytes}
use f4mp.Packet.Writing.{Appends, Appends-compose, str_bytes, put_u32-Appends, put_str-Appends}
use f4mp.Packet.Reading.{Parses, Parses->>=, Parses-map, get_u32-Parses, get_str_whole}
use f4mp.Packet.Exactness.{Exact, Exact->>=, Exact-map, get_u32-Exact, get_str-Exact}
use f4mp.Packet.Safety.{Safe, Safe->>=, Safe-map, get_u32-Safe, get_str-Safe}
use f4mp.Protocol.Messages.{
  HelloMsg, write_hello, read_hello, PlayerStateMsg, write_player_state_msg, read_player_state_msg,
  ChatMsg, write_chat, read_chat, SetNameMsg, write_set_name, read_set_name,
}
use f4mp.Protocol.Layout.Format.{IsFormat}
use f4mp.Protocol.Layout.State.{player_state_bytes, IsPlayerState-IsFormat}

pub record HelloFits (m : HelloMsg) : Type 0 where
  pub protocol_version_fits : m.protocol_version < u32_mod
  pub game_version_fits : m.game_version < u32_mod
  pub name_fits : length m.name ≤ max_string_bytes

abbrev pub hello_bytes : HelloMsg → Bytes
hello_bytes m = to_le 4 m.protocol_version ++ (to_le 4 m.game_version ++ (str_bytes m.name))

hello-Appends : (m : HelloMsg) → Appends (write_hello m) (hello_bytes m)
unfolding write_hello
hello-Appends m =
    Appends-compose _ _ _ _ (put_u32-Appends m.protocol_version)
      (Appends-compose _ _ _ _ (put_u32-Appends m.game_version) (put_str-Appends m.name))

hello-Parses : (m : HelloMsg) → HelloFits m → Parses read_hello (hello_bytes m) m
unfolding read_hello
hello-Parses m h =
    Parses->>= _ _ _ _ m.protocol_version m
      (get_u32-Parses m.protocol_version h.protocol_version_fits)
      λ protocol_version e0.
        Parses->>= _ _ _ _ m.game_version m (get_u32-Parses m.game_version h.game_version_fits)
          λ game_version e1.
            Parses-map _
              (λ name. record {
                protocol_version = protocol_version;
                game_version = game_version;
                name = name;
              })
              _ m.name m (get_str_whole m.name h.name_fits) λ name e2. cc

hello-Exact : Exact read_hello (λ m xs. (xs ≡ hello_bytes m) × HelloFits m)
unfolding read_hello
hello-Exact = Exact->>= _ _ _ _ get_u32-Exact λ protocol_version.
    Exact->>= _ _ _ _ get_u32-Exact λ game_version.
      Exact-map _
        (λ name. record {
          protocol_version = protocol_version;
          game_version = game_version;
          name = name;
        })
        _ _ get_str-Exact
        λ name xs2 p2 xs1 p1 xs0 p0.
          (cc, record { protocol_version_fits = p0.1; game_version_fits = p1.1; name_fits = p2.1 })

hello-Safe : Safe read_hello
unfolding read_hello
hello-Safe = Safe->>= _ _ get_u32-Safe λ protocol_version. Safe->>= _ _ get_u32-Safe λ game_version.
    Safe-map _
      (λ name. record {
        protocol_version = protocol_version;
        game_version = game_version;
        name = name;
      })
      get_str-Safe

pub hello-IsFormat : IsFormat write_hello read_hello hello_bytes HelloFits
hello-IsFormat = record {
  writes = hello-Appends;
  reads = hello-Parses;
  exact = hello-Exact;
  safe = hello-Safe;
}

pub record PlayerStateFits (m : PlayerStateMsg) : Type 0 where
  pub state_fits : IsPlayerState m.state

abbrev pub player_state_msg_bytes : PlayerStateMsg → Bytes
player_state_msg_bytes m = player_state_bytes m.state

player_state_msg-Appends :
    (m : PlayerStateMsg) → Appends (write_player_state_msg m) (player_state_msg_bytes m)
unfolding write_player_state_msg
player_state_msg-Appends m = IsPlayerState-IsFormat.writes m.state

player_state_msg-Parses :
    (m : PlayerStateMsg)
    → PlayerStateFits m
    → Parses read_player_state_msg (player_state_msg_bytes m) m
unfolding read_player_state_msg
player_state_msg-Parses m h =
    Parses-map _ (λ state. record { state = state }) _ m.state m
      (IsPlayerState-IsFormat.reads m.state h.state_fits) λ state e0. cc

player_state_msg-Exact :
    Exact read_player_state_msg (λ m xs. (xs ≡ player_state_msg_bytes m) × PlayerStateFits m)
unfolding read_player_state_msg
player_state_msg-Exact =
    Exact-map _ (λ state. record { state = state }) _ _ IsPlayerState-IsFormat.exact
      λ state xs0 p0. (p0.0, record { state_fits = p0.1 })

player_state_msg-Safe : Safe read_player_state_msg
unfolding read_player_state_msg
player_state_msg-Safe = Safe-map _ (λ state. record { state = state }) IsPlayerState-IsFormat.safe

pub player_state_msg-IsFormat :
    IsFormat write_player_state_msg read_player_state_msg player_state_msg_bytes PlayerStateFits
player_state_msg-IsFormat = record {
  writes = player_state_msg-Appends;
  reads = player_state_msg-Parses;
  exact = player_state_msg-Exact;
  safe = player_state_msg-Safe;
}

pub record ChatFits (m : ChatMsg) : Type 0 where
  pub text_fits : length m.text ≤ max_string_bytes

abbrev pub chat_bytes : ChatMsg → Bytes
chat_bytes m = str_bytes m.text

chat-Appends : (m : ChatMsg) → Appends (write_chat m) (chat_bytes m)
unfolding write_chat
chat-Appends m = put_str-Appends m.text

chat-Parses : (m : ChatMsg) → ChatFits m → Parses read_chat (chat_bytes m) m
unfolding read_chat
chat-Parses m h =
    Parses-map _ (λ text. record { text = text }) _ m.text m (get_str_whole m.text h.text_fits)
      λ text e0. cc

chat-Exact : Exact read_chat (λ m xs. (xs ≡ chat_bytes m) × ChatFits m)
unfolding read_chat
chat-Exact =
    Exact-map _ (λ text. record { text = text }) _ _ get_str-Exact
      λ text xs0 p0. (p0.0, record { text_fits = p0.1 })

chat-Safe : Safe read_chat
unfolding read_chat
chat-Safe = Safe-map _ (λ text. record { text = text }) get_str-Safe

pub chat-IsFormat : IsFormat write_chat read_chat chat_bytes ChatFits
chat-IsFormat = record {
  writes = chat-Appends;
  reads = chat-Parses;
  exact = chat-Exact;
  safe = chat-Safe;
}

pub record SetNameFits (m : SetNameMsg) : Type 0 where
  pub name_fits : length m.name ≤ max_string_bytes

abbrev pub set_name_bytes : SetNameMsg → Bytes
set_name_bytes m = str_bytes m.name

set_name-Appends : (m : SetNameMsg) → Appends (write_set_name m) (set_name_bytes m)
unfolding write_set_name
set_name-Appends m = put_str-Appends m.name

set_name-Parses : (m : SetNameMsg) → SetNameFits m → Parses read_set_name (set_name_bytes m) m
unfolding read_set_name
set_name-Parses m h =
    Parses-map _ (λ name. record { name = name }) _ m.name m (get_str_whole m.name h.name_fits)
      λ name e0. cc

set_name-Exact : Exact read_set_name (λ m xs. (xs ≡ set_name_bytes m) × SetNameFits m)
unfolding read_set_name
set_name-Exact =
    Exact-map _ (λ name. record { name = name }) _ _ get_str-Exact
      λ name xs0 p0. (p0.0, record { name_fits = p0.1 })

set_name-Safe : Safe read_set_name
unfolding read_set_name
set_name-Safe = Safe-map _ (λ name. record { name = name }) get_str-Safe

pub set_name-IsFormat : IsFormat write_set_name read_set_name set_name_bytes SetNameFits
set_name-IsFormat = record {
  writes = set_name-Appends;
  reads = set_name-Parses;
  exact = set_name-Exact;
  safe = set_name-Safe;
}
