-- ===== src/Protocol/Layout/State.antt =====
-- The layout of `Vec3` and of `PlayerState`.
use f4mp.Base.{◌≡◌, ◌++◌, [], ◌∷◌, Bytes, to_le}
use f4mp.Types.{Vec3, PlayerState, IsVec3, IsPlayerState}
use f4mp.Packet.Writing.{Appends, Appends-compose, put_f32-Appends, put_u32-Appends, put_u8-Appends}
use f4mp.Packet.Reading.{
  Parses, Parses->>=, Parses-map, get_f32-Parses, get_u32-Parses, get_u8-Parses,
}
use f4mp.Packet.Exactness.{Exact, Exact->>=, Exact-map, get_f32-Exact, get_u32-Exact, get_u8-Exact}
use f4mp.Packet.Safety.{Safe, Safe->>=, Safe-map, get_f32-Safe, get_u32-Safe, get_u8-Safe}
use f4mp.Protocol.Messages.{write_vec3, read_vec3, write_player_state, read_player_state}
use f4mp.Protocol.Layout.Format.{IsFormat}

abbrev vec3_bytes : Vec3 → Bytes
vec3_bytes v = to_le 4 v.x ++ (to_le 4 v.y ++ to_le 4 v.z)

vec3-Appends : (v : Vec3) → Appends (write_vec3 v) (vec3_bytes v)
unfolding write_vec3
vec3-Appends v =
    Appends-compose _ _ _ _ (put_f32-Appends v.x)
      (Appends-compose _ _ _ _ (put_f32-Appends v.y) (put_f32-Appends v.z))

vec3-Parses : (v : Vec3) → IsVec3 v → Parses read_vec3 (vec3_bytes v) v
unfolding read_vec3
vec3-Parses v h = Parses->>= _ _ _ _ v.x v (get_f32-Parses v.x h.x_fits) λ x ex.
    Parses->>= _ _ _ _ v.y v (get_f32-Parses v.y h.y_fits) λ y ey.
      Parses-map _ (λ z. record { x = x; y = y; z = z }) _ v.z v (get_f32-Parses v.z h.z_fits)
        λ z ez. cc

IsVec3-Exact : Exact read_vec3 (λ v xs. (xs ≡ vec3_bytes v) × IsVec3 v)
unfolding read_vec3
IsVec3-Exact = Exact->>= _ _ _ _ get_f32-Exact λ x. Exact->>= _ _ _ _ get_f32-Exact λ y.
    Exact-map _ (λ z. record { x = x; y = y; z = z }) _ _ get_f32-Exact
      λ z zs pz ys py xs px. (cc, record { x_fits = px.1; y_fits = py.1; z_fits = pz.1 })

vec3-Safe : Safe read_vec3
unfolding read_vec3
vec3-Safe = Safe->>= _ _ get_f32-Safe λ x.
    Safe->>= _ _ get_f32-Safe λ y. Safe-map _ (λ z. record { x = x; y = y; z = z }) get_f32-Safe

IsVec3-IsFormat : IsFormat write_vec3 read_vec3 vec3_bytes IsVec3
IsVec3-IsFormat = record {
  writes = vec3-Appends;
  reads = vec3-Parses;
  exact = IsVec3-Exact;
  safe = vec3-Safe;
}

abbrev pub player_state_bytes : PlayerState → Bytes
player_state_bytes m =
    vec3_bytes m.position
    ++ (to_le 4 m.yaw
        ++ (to_le 4 m.worldspace_id
            ++ (to_le 4 m.cell_id
                ++ ((m.flags ∷ []) ++ (to_le 4 m.health ++ (to_le 4 m.max_health))))))

player_state-Appends : (m : PlayerState) → Appends (write_player_state m) (player_state_bytes m)
unfolding write_player_state
player_state-Appends m = Appends-compose _ _ _ _ (IsVec3-IsFormat.writes m.position) (
    Appends-compose _ _ _ _ (put_f32-Appends m.yaw) (
      Appends-compose _ _ _ _ (put_u32-Appends m.worldspace_id) (
        Appends-compose _ _ _ _ (put_u32-Appends m.cell_id) (
          Appends-compose _ _ _ _ (put_u8-Appends m.flags)
            (Appends-compose _ _ _ _ (put_f32-Appends m.health) (put_f32-Appends m.max_health))))))

player_state-Parses :
    (m : PlayerState) → IsPlayerState m → Parses read_player_state (player_state_bytes m) m
unfolding read_player_state
player_state-Parses m h =
    Parses->>= _ _ _ _ m.position m (IsVec3-IsFormat.reads m.position h.position_fits)
      λ position e0. Parses->>= _ _ _ _ m.yaw m (get_f32-Parses m.yaw h.yaw_fits) λ yaw e1.
        Parses->>= _ _ _ _ m.worldspace_id m (get_u32-Parses m.worldspace_id h.worldspace_fits)
          λ worldspace_id e2.
            Parses->>= _ _ _ _ m.cell_id m (get_u32-Parses m.cell_id h.cell_fits) λ cell_id e3.
              Parses->>= _ _ _ _ m.flags m (get_u8-Parses m.flags h.flags_fits) λ flags e4.
                Parses->>= _ _ _ _ m.health m (get_f32-Parses m.health h.health_fits) λ health e5.
                  Parses-map _
                    (λ max_health. record {
                      position = position;
                      yaw = yaw;
                      worldspace_id = worldspace_id;
                      cell_id = cell_id;
                      flags = flags;
                      health = health;
                      max_health = max_health;
                    })
                    _ m.max_health m (get_f32-Parses m.max_health h.max_health_fits)
                    λ max_health e6. cc

IsPlayerState-Exact :
    Exact read_player_state (λ m xs. (xs ≡ player_state_bytes m) × IsPlayerState m)
unfolding read_player_state
IsPlayerState-Exact = Exact->>= _ _ _ _ IsVec3-IsFormat.exact λ position.
    Exact->>= _ _ _ _ get_f32-Exact λ yaw. Exact->>= _ _ _ _ get_u32-Exact λ worldspace_id.
      Exact->>= _ _ _ _ get_u32-Exact λ cell_id. Exact->>= _ _ _ _ get_u8-Exact λ flags.
        Exact->>= _ _ _ _ get_f32-Exact λ health.
          Exact-map _
            (λ max_health. record {
              position = position;
              yaw = yaw;
              worldspace_id = worldspace_id;
              cell_id = cell_id;
              flags = flags;
              health = health;
              max_health = max_health;
            })
            _ _ get_f32-Exact
            λ max_health xs6 p6 xs5 p5 xs4 p4 xs3 p3 xs2 p2 xs1 p1 xs0 p0. (
              cc,
              record {
                position_fits = p0.1;
                yaw_fits = p1.1;
                worldspace_fits = p2.1;
                cell_fits = p3.1;
                flags_fits = p4.1;
                health_fits = p5.1;
                max_health_fits = p6.1;
              },
            )

player_state-Safe : Safe read_player_state
unfolding read_player_state
player_state-Safe = Safe->>= _ _ IsVec3-IsFormat.safe λ position. Safe->>= _ _ get_f32-Safe λ yaw.
    Safe->>= _ _ get_u32-Safe λ worldspace_id. Safe->>= _ _ get_u32-Safe λ cell_id.
      Safe->>= _ _ get_u8-Safe λ flags. Safe->>= _ _ get_f32-Safe λ health.
        Safe-map _
          (λ max_health. record {
            position = position;
            yaw = yaw;
            worldspace_id = worldspace_id;
            cell_id = cell_id;
            flags = flags;
            health = health;
            max_health = max_health;
          })
          get_f32-Safe

pub IsPlayerState-IsFormat :
    IsFormat write_player_state read_player_state player_state_bytes IsPlayerState
IsPlayerState-IsFormat = record {
  writes = player_state-Appends;
  reads = player_state-Parses;
  exact = IsPlayerState-Exact;
  safe = player_state-Safe;
}
