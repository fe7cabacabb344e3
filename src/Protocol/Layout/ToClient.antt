-- ===== src/Protocol/Layout/ToClient.antt =====
-- The layouts of the messages from the server to a client that tell it who is there.
use f4mp.Base.{◌<◌, ◌≤◌, ◌≡◌, ◌++◌, [], ◌∷◌, Bytes, length, to_le, u8_max, u32_mod}
use f4mp.Packet.{max_string_bytes}
use f4mp.Packet.Writing.{
  Appends, Appends-compose, str_bytes, put_u32-Appends, put_u8-Appends, put_str-Appends,
}
use f4mp.Packet.Reading.{
  Parses, Parses->>=, Parses-map, get_u32-Parses, get_u8-Parses, get_str_whole,
}
use f4mp.Packet.Exactness.{Exact, Exact->>=, Exact-map, get_u32-Exact, get_u8-Exact, get_str-Exact}
use f4mp.Packet.Safety.{Safe, Safe->>=, Safe-map, get_u32-Safe, get_u8-Safe, get_str-Safe}
use f4mp.Protocol.Messages.{
  WelcomeMsg, write_welcome, read_welcome, RejectMsg, write_reject, read_reject, PlayerJoinedMsg,
  write_player_joined, read_player_joined, PlayerLeftMsg, write_player_left, read_player_left,
}
use f4mp.Protocol.Layout.Format.{IsFormat}

pub record WelcomeFits (m : WelcomeMsg) : Type 0 where
  pub id_fits : m.id < u32_mod
  pub tick_rate_fits : m.tick_rate < u8_max
  pub server_name_fits : length m.server_name ≤ max_string_bytes
  pub motd_fits : length m.motd ≤ max_string_bytes

abbrev pub welcome_bytes : WelcomeMsg → Bytes
welcome_bytes m =
    to_le 4 m.id ++ ((m.tick_rate ∷ []) ++ (str_bytes m.server_name ++ (str_bytes m.motd)))

welcome-Appends : (m : WelcomeMsg) → Appends (write_welcome m) (welcome_bytes m)
unfolding write_welcome
welcome-Appends m = Appends-compose _ _ _ _ (put_u32-Appends m.id) (
    Appends-compose _ _ _ _ (put_u8-Appends m.tick_rate)
      (Appends-compose _ _ _ _ (put_str-Appends m.server_name) (put_str-Appends m.motd)))

welcome-Parses : (m : WelcomeMsg) → WelcomeFits m → Parses read_welcome (welcome_bytes m) m
unfolding read_welcome
welcome-Parses m h = Parses->>= _ _ _ _ m.id m (get_u32-Parses m.id h.id_fits) λ id e0.
    Parses->>= _ _ _ _ m.tick_rate m (get_u8-Parses m.tick_rate h.tick_rate_fits) λ tick_rate e1.
      Parses->>= _ _ _ _ m.server_name m (get_str_whole m.server_name h.server_name_fits)
        λ server_name e2.
          Parses-map _
            (λ motd. record {
              id = id;
              tick_rate = tick_rate;
              server_name = server_name;
              motd = motd;
            })
            _ m.motd m (get_str_whole m.motd h.motd_fits) λ motd e3. cc

welcome-Exact : Exact read_welcome (λ m xs. (xs ≡ welcome_bytes m) × WelcomeFits m)
unfolding read_welcome
welcome-Exact = Exact->>= _ _ _ _ get_u32-Exact λ id. Exact->>= _ _ _ _ get_u8-Exact λ tick_rate.
    Exact->>= _ _ _ _ get_str-Exact λ server_name.
      Exact-map _
        (λ motd. record { id = id; tick_rate = tick_rate; server_name = server_name; motd = motd })
        _ _ get_str-Exact
        λ motd xs3 p3 xs2 p2 xs1 p1 xs0 p0. (
          cc,
          record {
            id_fits = p0.1;
            tick_rate_fits = p1.1;
            server_name_fits = p2.1;
            motd_fits = p3.1;
          },
        )

welcome-Safe : Safe read_welcome
unfolding read_welcome
welcome-Safe = Safe->>= _ _ get_u32-Safe λ id. Safe->>= _ _ get_u8-Safe λ tick_rate.
    Safe->>= _ _ get_str-Safe λ server_name.
      Safe-map _
        (λ motd. record { id = id; tick_rate = tick_rate; server_name = server_name; motd = motd })
        get_str-Safe

pub welcome-IsFormat : IsFormat write_welcome read_welcome welcome_bytes WelcomeFits
welcome-IsFormat = record {
  writes = welcome-Appends;
  reads = welcome-Parses;
  exact = welcome-Exact;
  safe = welcome-Safe;
}

pub record RejectFits (m : RejectMsg) : Type 0 where
  pub reason_fits : length m.reason ≤ max_string_bytes

abbrev pub reject_bytes : RejectMsg → Bytes
reject_bytes m = str_bytes m.reason

reject-Appends : (m : RejectMsg) → Appends (write_reject m) (reject_bytes m)
unfolding write_reject
reject-Appends m = put_str-Appends m.reason

reject-Parses : (m : RejectMsg) → RejectFits m → Parses read_reject (reject_bytes m) m
unfolding read_reject
reject-Parses m h =
    Parses-map _ (λ reason. record { reason = reason }) _ m.reason m
      (get_str_whole m.reason h.reason_fits) λ reason e0. cc

reject-Exact : Exact read_reject (λ m xs. (xs ≡ reject_bytes m) × RejectFits m)
unfolding read_reject
reject-Exact =
    Exact-map _ (λ reason. record { reason = reason }) _ _ get_str-Exact
      λ reason xs0 p0. (p0.0, record { reason_fits = p0.1 })

reject-Safe : Safe read_reject
unfolding read_reject
reject-Safe = Safe-map _ (λ reason. record { reason = reason }) get_str-Safe

pub reject-IsFormat : IsFormat write_reject read_reject reject_bytes RejectFits
reject-IsFormat = record {
  writes = reject-Appends;
  reads = reject-Parses;
  exact = reject-Exact;
  safe = reject-Safe;
}

pub record PlayerJoinedFits (m : PlayerJoinedMsg) : Type 0 where
  pub id_fits : m.id < u32_mod
  pub name_fits : length m.name ≤ max_string_bytes

abbrev pub player_joined_bytes : PlayerJoinedMsg → Bytes
player_joined_bytes m = to_le 4 m.id ++ (str_bytes m.name)

player_joined-Appends :
    (m : PlayerJoinedMsg) → Appends (write_player_joined m) (player_joined_bytes m)
unfolding write_player_joined
player_joined-Appends m = Appends-compose _ _ _ _ (put_u32-Appends m.id) (put_str-Appends m.name)

player_joined-Parses :
    (m : PlayerJoinedMsg) → PlayerJoinedFits m → Parses read_player_joined (player_joined_bytes m) m
unfolding read_player_joined
player_joined-Parses m h = Parses->>= _ _ _ _ m.id m (get_u32-Parses m.id h.id_fits) λ id e0.
    Parses-map _ (λ name. record { id = id; name = name }) _ m.name m
      (get_str_whole m.name h.name_fits) λ name e1. cc

player_joined-Exact :
    Exact read_player_joined (λ m xs. (xs ≡ player_joined_bytes m) × PlayerJoinedFits m)
unfolding read_player_joined
player_joined-Exact = Exact->>= _ _ _ _ get_u32-Exact λ id.
    Exact-map _ (λ name. record { id = id; name = name }) _ _ get_str-Exact
      λ name xs1 p1 xs0 p0. (cc, record { id_fits = p0.1; name_fits = p1.1 })

player_joined-Safe : Safe read_player_joined
unfolding read_player_joined
player_joined-Safe =
    Safe->>= _ _ get_u32-Safe
      λ id. Safe-map _ (λ name. record { id = id; name = name }) get_str-Safe

pub player_joined-IsFormat :
    IsFormat write_player_joined read_player_joined player_joined_bytes PlayerJoinedFits
player_joined-IsFormat = record {
  writes = player_joined-Appends;
  reads = player_joined-Parses;
  exact = player_joined-Exact;
  safe = player_joined-Safe;
}

pub record PlayerLeftFits (m : PlayerLeftMsg) : Type 0 where
  pub id_fits : m.id < u32_mod

abbrev pub player_left_bytes : PlayerLeftMsg → Bytes
player_left_bytes m = to_le 4 m.id

player_left-Appends : (m : PlayerLeftMsg) → Appends (write_player_left m) (player_left_bytes m)
unfolding write_player_left
player_left-Appends m = put_u32-Appends m.id

player_left-Parses :
    (m : PlayerLeftMsg) → PlayerLeftFits m → Parses read_player_left (player_left_bytes m) m
unfolding read_player_left
player_left-Parses m h =
    Parses-map _ (λ id. record { id = id }) _ m.id m (get_u32-Parses m.id h.id_fits) λ id e0. cc

player_left-Exact : Exact read_player_left (λ m xs. (xs ≡ player_left_bytes m) × PlayerLeftFits m)
unfolding read_player_left
player_left-Exact =
    Exact-map _ (λ id. record { id = id }) _ _ get_u32-Exact
      λ id xs0 p0. (p0.0, record { id_fits = p0.1 })

player_left-Safe : Safe read_player_left
unfolding read_player_left
player_left-Safe = Safe-map _ (λ id. record { id = id }) get_u32-Safe

pub player_left-IsFormat :
    IsFormat write_player_left read_player_left player_left_bytes PlayerLeftFits
player_left-IsFormat = record {
  writes = player_left-Appends;
  reads = player_left-Parses;
  exact = player_left-Exact;
  safe = player_left-Safe;
}
