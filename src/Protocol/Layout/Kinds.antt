-- ===== src/Protocol/Layout/Kinds.antt =====
-- All messages of shared/include/f4mp/Protocol.hpp as one family.
use f4mp.Base.{ℕ, Bytes}
use f4mp.Packet.{Writer, Read}
use f4mp.Protocol.Messages.{
  HelloMsg, id_hello, write_hello, read_hello, PlayerStateMsg, id_player_state,
  write_player_state_msg, read_player_state_msg, ChatMsg, id_chat, write_chat, read_chat,
  SetNameMsg, id_set_name, write_set_name, read_set_name, WelcomeMsg, id_welcome, write_welcome,
  read_welcome, RejectMsg, id_reject, write_reject, read_reject, PlayerJoinedMsg, id_player_joined,
  write_player_joined, read_player_joined, PlayerLeftMsg, id_player_left, write_player_left,
  read_player_left, PlayerStateUpdateMsg, id_player_state_update, write_player_state_update,
  read_player_state_update, ChatBroadcastMsg, id_chat_broadcast, write_chat_broadcast,
  read_chat_broadcast, PlayerRenamedMsg, id_player_renamed, write_player_renamed,
  read_player_renamed,
}
use f4mp.Protocol.Layout.Format.{IsFormat}
use f4mp.Protocol.Layout.ToServer.{
  HelloFits, hello_bytes, hello-IsFormat, PlayerStateFits, player_state_msg_bytes,
  player_state_msg-IsFormat, ChatFits, chat_bytes, chat-IsFormat, SetNameFits, set_name_bytes,
  set_name-IsFormat,
}
use f4mp.Protocol.Layout.ToClient.{
  WelcomeFits, welcome_bytes, welcome-IsFormat, RejectFits, reject_bytes, reject-IsFormat,
  PlayerJoinedFits, player_joined_bytes, player_joined-IsFormat, PlayerLeftFits, player_left_bytes,
  player_left-IsFormat,
}
use f4mp.Protocol.Layout.Relayed.{
  PlayerStateUpdateFits, player_state_update_bytes, player_state_update-IsFormat, ChatBroadcastFits,
  chat_broadcast_bytes, chat_broadcast-IsFormat, PlayerRenamedFits, player_renamed_bytes,
  player_renamed-IsFormat,
}

pub data Kind : Type 0 where
  hello player_state chat set_name welcome reject player_joined player_left player_state_update
        chat_broadcast player_renamed :
      Kind

abbrev pub Msg : Kind → Type 0
Msg hello = HelloMsg
Msg player_state = PlayerStateMsg
Msg chat = ChatMsg
Msg set_name = SetNameMsg
Msg welcome = WelcomeMsg
Msg reject = RejectMsg
Msg player_joined = PlayerJoinedMsg
Msg player_left = PlayerLeftMsg
Msg player_state_update = PlayerStateUpdateMsg
Msg chat_broadcast = ChatBroadcastMsg
Msg player_renamed = PlayerRenamedMsg

abbrev pub id_of : Kind → ℕ
id_of hello = id_hello
id_of player_state = id_player_state
id_of chat = id_chat
id_of set_name = id_set_name
id_of welcome = id_welcome
id_of reject = id_reject
id_of player_joined = id_player_joined
id_of player_left = id_player_left
id_of player_state_update = id_player_state_update
id_of chat_broadcast = id_chat_broadcast
id_of player_renamed = id_player_renamed

abbrev pub write_of : (k : Kind) → Msg k → Writer → Writer
write_of hello = write_hello
write_of player_state = write_player_state_msg
write_of chat = write_chat
write_of set_name = write_set_name
write_of welcome = write_welcome
write_of reject = write_reject
write_of player_joined = write_player_joined
write_of player_left = write_player_left
write_of player_state_update = write_player_state_update
write_of chat_broadcast = write_chat_broadcast
write_of player_renamed = write_player_renamed

abbrev pub read_of : (k : Kind) → Read (Msg k)
read_of hello = read_hello
read_of player_state = read_player_state_msg
read_of chat = read_chat
read_of set_name = read_set_name
read_of welcome = read_welcome
read_of reject = read_reject
read_of player_joined = read_player_joined
read_of player_left = read_player_left
read_of player_state_update = read_player_state_update
read_of chat_broadcast = read_chat_broadcast
read_of player_renamed = read_player_renamed

abbrev pub body_of : (k : Kind) → Msg k → Bytes
body_of hello = hello_bytes
body_of player_state = player_state_msg_bytes
body_of chat = chat_bytes
body_of set_name = set_name_bytes
body_of welcome = welcome_bytes
body_of reject = reject_bytes
body_of player_joined = player_joined_bytes
body_of player_left = player_left_bytes
body_of player_state_update = player_state_update_bytes
body_of chat_broadcast = chat_broadcast_bytes
body_of player_renamed = player_renamed_bytes

-- Every field is a value that its C++ type and the length limit of strings allow.
abbrev pub FitsKind : (k : Kind) → Msg k → Type 0
FitsKind hello = HelloFits
FitsKind player_state = PlayerStateFits
FitsKind chat = ChatFits
FitsKind set_name = SetNameFits
FitsKind welcome = WelcomeFits
FitsKind reject = RejectFits
FitsKind player_joined = PlayerJoinedFits
FitsKind player_left = PlayerLeftFits
FitsKind player_state_update = PlayerStateUpdateFits
FitsKind chat_broadcast = ChatBroadcastFits
FitsKind player_renamed = PlayerRenamedFits

pub IsFormat-kind : (k : Kind) → IsFormat (write_of k) (read_of k) (body_of k) (FitsKind k)
IsFormat-kind hello = hello-IsFormat
IsFormat-kind player_state = player_state_msg-IsFormat
IsFormat-kind chat = chat-IsFormat
IsFormat-kind set_name = set_name-IsFormat
IsFormat-kind welcome = welcome-IsFormat
IsFormat-kind reject = reject-IsFormat
IsFormat-kind player_joined = player_joined-IsFormat
IsFormat-kind player_left = player_left-IsFormat
IsFormat-kind player_state_update = player_state_update-IsFormat
IsFormat-kind chat_broadcast = chat_broadcast-IsFormat
IsFormat-kind player_renamed = player_renamed-IsFormat
