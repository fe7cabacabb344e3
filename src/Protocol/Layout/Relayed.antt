-- ===== src/Protocol/Layout/Relayed.antt =====
-- shared/include/f4mp/Protocol.hpp: the bytes of what the server passes on to a client: states, chat
-- and names.
use f4mp.Base.{◌<◌, ◌≤◌, ◌≡◌, ◌++◌, Bytes, length, to_le, u32_mod}
use f4mp.Types.{IsPlayerState}
use f4mp.Packet.{max_string_bytes}
use f4mp.Packet.Writing.{Appends, Appends-compose, str_bytes, put_u32-Appends, put_str-Appends}
use f4mp.Packet.Reading.{Parses, Parses->>=, Parses-map, get_u32-Parses, get_str_whole}
use f4mp.Packet.Exactness.{Exact, Exact->>=, Exact-map, get_u32-Exact, get_str-Exact}
use f4mp.Packet.Safety.{Safe, Safe->>=, Safe-map, get_u32-Safe, get_str-Safe}
use f4mp.Protocol.Messages.{
  PlayerStateUpdateMsg, write_player_state_update, read_player_state_update, ChatBroadcastMsg,
  write_chat_broadcast, read_chat_broadcast, PlayerRenamedMsg, write_player_renamed,
  read_player_renamed,
}
use f4mp.Protocol.Layout.Format.{IsFormat}
use f4mp.Protocol.Layout.State.{player_state_bytes, IsPlayerState-IsFormat}

pub record PlayerStateUpdateFits (m : PlayerStateUpdateMsg) : Type 0 where
  pub id_fits : m.id < u32_mod
  pub time_ms_fits : m.time_ms < u32_mod
  pub state_fits : IsPlayerState m.state

abbrev pub player_state_update_bytes : PlayerStateUpdateMsg → Bytes
player_state_update_bytes m = to_le 4 m.id ++ (to_le 4 m.time_ms ++ (player_state_bytes m.state))

player_state_update-Appends :
    (m : PlayerStateUpdateMsg) → Appends (write_player_state_update m) (player_state_update_bytes m)
unfolding write_player_state_update
player_state_update-Appends m =
    Appends-compose _ _ _ _ (put_u32-Appends m.id)
      (Appends-compose _ _ _ _ (put_u32-Appends m.time_ms) (IsPlayerState-IsFormat.writes m.state))

player_state_update-Parses :
    (m : PlayerStateUpdateMsg)
    → PlayerStateUpdateFits m
    → Parses read_player_state_update (player_state_update_bytes m) m
unfolding read_player_state_update
player_state_update-Parses m h = Parses->>= _ _ _ _ m.id m (get_u32-Parses m.id h.id_fits) λ id e0.
    Parses->>= _ _ _ _ m.time_ms m (get_u32-Parses m.time_ms h.time_ms_fits) λ time_ms e1.
      Parses-map _ (λ state. record { id = id; time_ms = time_ms; state = state }) _ m.state m
        (IsPlayerState-IsFormat.reads m.state h.state_fits) λ state e2. cc

player_state_update-Exact :
    Exact read_player_state_update
      (λ m xs. (xs ≡ player_state_update_bytes m) × PlayerStateUpdateFits m)
unfolding read_player_state_update
player_state_update-Exact = Exact->>= _ _ _ _ get_u32-Exact λ id.
    Exact->>= _ _ _ _ get_u32-Exact λ time_ms.
      Exact-map _ (λ state. record { id = id; time_ms = time_ms; state = state }) _ _
        IsPlayerState-IsFormat.exact
        λ state xs2 p2 xs1 p1 xs0 p0.
          (cc, record { id_fits = p0.1; time_ms_fits = p1.1; state_fits = p2.1 })

player_state_update-Safe : Safe read_player_state_update
unfolding read_player_state_update
player_state_update-Safe = Safe->>= _ _ get_u32-Safe λ id. Safe->>= _ _ get_u32-Safe λ time_ms.
    Safe-map _ (λ state. record { id = id; time_ms = time_ms; state = state })
      IsPlayerState-IsFormat.safe

pub player_state_update-IsFormat :
    IsFormat write_player_state_update read_player_state_update player_state_update_bytes
      PlayerStateUpdateFits
player_state_update-IsFormat = record {
  writes = player_state_update-Appends;
  reads = player_state_update-Parses;
  exact = player_state_update-Exact;
  safe = player_state_update-Safe;
}

pub record ChatBroadcastFits (m : ChatBroadcastMsg) : Type 0 where
  pub from_fits : m.from < u32_mod
  pub text_fits : length m.text ≤ max_string_bytes

abbrev pub chat_broadcast_bytes : ChatBroadcastMsg → Bytes
chat_broadcast_bytes m = to_le 4 m.from ++ (str_bytes m.text)

chat_broadcast-Appends :
    (m : ChatBroadcastMsg) → Appends (write_chat_broadcast m) (chat_broadcast_bytes m)
unfolding write_chat_broadcast
chat_broadcast-Appends m = Appends-compose _ _ _ _ (put_u32-Appends m.from) (put_str-Appends m.text)

chat_broadcast-Parses :
    (m : ChatBroadcastMsg)
    → ChatBroadcastFits m
    → Parses read_chat_broadcast (chat_broadcast_bytes m) m
unfolding read_chat_broadcast
chat_broadcast-Parses m h =
    Parses->>= _ _ _ _ m.from m (get_u32-Parses m.from h.from_fits) λ from e0.
      Parses-map _ (λ text. record { from = from; text = text }) _ m.text m
        (get_str_whole m.text h.text_fits) λ text e1. cc

chat_broadcast-Exact :
    Exact read_chat_broadcast (λ m xs. (xs ≡ chat_broadcast_bytes m) × ChatBroadcastFits m)
unfolding read_chat_broadcast
chat_broadcast-Exact = Exact->>= _ _ _ _ get_u32-Exact λ from.
    Exact-map _ (λ text. record { from = from; text = text }) _ _ get_str-Exact
      λ text xs1 p1 xs0 p0. (cc, record { from_fits = p0.1; text_fits = p1.1 })

chat_broadcast-Safe : Safe read_chat_broadcast
unfolding read_chat_broadcast
chat_broadcast-Safe =
    Safe->>= _ _ get_u32-Safe
      λ from. Safe-map _ (λ text. record { from = from; text = text }) get_str-Safe

pub chat_broadcast-IsFormat :
    IsFormat write_chat_broadcast read_chat_broadcast chat_broadcast_bytes ChatBroadcastFits
chat_broadcast-IsFormat = record {
  writes = chat_broadcast-Appends;
  reads = chat_broadcast-Parses;
  exact = chat_broadcast-Exact;
  safe = chat_broadcast-Safe;
}

pub record PlayerRenamedFits (m : PlayerRenamedMsg) : Type 0 where
  pub id_fits : m.id < u32_mod
  pub name_fits : length m.name ≤ max_string_bytes

abbrev pub player_renamed_bytes : PlayerRenamedMsg → Bytes
player_renamed_bytes m = to_le 4 m.id ++ (str_bytes m.name)

player_renamed-Appends :
    (m : PlayerRenamedMsg) → Appends (write_player_renamed m) (player_renamed_bytes m)
unfolding write_player_renamed
player_renamed-Appends m = Appends-compose _ _ _ _ (put_u32-Appends m.id) (put_str-Appends m.name)

player_renamed-Parses :
    (m : PlayerRenamedMsg)
    → PlayerRenamedFits m
    → Parses read_player_renamed (player_renamed_bytes m) m
unfolding read_player_renamed
player_renamed-Parses m h = Parses->>= _ _ _ _ m.id m (get_u32-Parses m.id h.id_fits) λ id e0.
    Parses-map _ (λ name. record { id = id; name = name }) _ m.name m
      (get_str_whole m.name h.name_fits) λ name e1. cc

player_renamed-Exact :
    Exact read_player_renamed (λ m xs. (xs ≡ player_renamed_bytes m) × PlayerRenamedFits m)
unfolding read_player_renamed
player_renamed-Exact = Exact->>= _ _ _ _ get_u32-Exact λ id.
    Exact-map _ (λ name. record { id = id; name = name }) _ _ get_str-Exact
      λ name xs1 p1 xs0 p0. (cc, record { id_fits = p0.1; name_fits = p1.1 })

player_renamed-Safe : Safe read_player_renamed
unfolding read_player_renamed
player_renamed-Safe =
    Safe->>= _ _ get_u32-Safe
      λ id. Safe-map _ (λ name. record { id = id; name = name }) get_str-Safe

pub player_renamed-IsFormat :
    IsFormat write_player_renamed read_player_renamed player_renamed_bytes PlayerRenamedFits
player_renamed-IsFormat = record {
  writes = player_renamed-Appends;
  reads = player_renamed-Parses;
  exact = player_renamed-Exact;
  safe = player_renamed-Safe;
}
