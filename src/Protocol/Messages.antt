-- ===== src/Protocol/Messages.antt =====
-- shared/include/f4mp/Protocol.hpp: constants, message structs, their `Write` and `Read`. A read
-- of a message also returns the reader, whose `ok` is the result of the method.
use f4mp.Base.{ℕ, Option, none, some, if◌then◌else◌, Bytes}
use f4mp.Types.{Vec3, PlayerState}
use f4mp.Packet.{
  Writer, new_writer, put_u8, put_u32, put_f32, put_str, Reader, Read, ret, ◌>>=◌, get_u8, get_u32,
  get_f32, get_str,
}

abbrev pub protocol_version : ℕ
protocol_version = 3

abbrev pub default_port : ℕ
default_port = 27015

unfoldable pub max_player_name : ℕ
max_player_name = 32

unfoldable pub max_chat_bytes : ℕ
max_chat_bytes = 512

pub data Channel : Type 0 where
  reliable unreliable : Channel

-- The numbers of `MsgId`, which is any byte once it is cast from the wire.
abbrev pub id_hello : ℕ
id_hello = 1

abbrev pub id_player_state : ℕ
id_player_state = 2

abbrev pub id_chat : ℕ
id_chat = 3

abbrev pub id_set_name : ℕ
id_set_name = 4

abbrev pub id_welcome : ℕ
id_welcome = 64

abbrev pub id_reject : ℕ
id_reject = 65

abbrev pub id_player_joined : ℕ
id_player_joined = 66

abbrev pub id_player_left : ℕ
id_player_left = 67

abbrev pub id_player_state_update : ℕ
id_player_state_update = 68

abbrev pub id_chat_broadcast : ℕ
id_chat_broadcast = 69

abbrev pub id_player_renamed : ℕ
id_player_renamed = 70

unfoldable pub write_vec3 : Vec3 → Writer → Writer
write_vec3 v w = put_f32 v.z (put_f32 v.y (put_f32 v.x w))

unfoldable pub read_vec3 : Read Vec3
read_vec3 = do x ← get_f32; y ← get_f32; z ← get_f32; ret (record { x = x; y = y; z = z })

unfoldable pub write_player_state : PlayerState → Writer → Writer
write_player_state s w =
    let placed = put_f32 s.yaw (write_vec3 s.position w) in
    let located = put_u32 s.cell_id (put_u32 s.worldspace_id placed) in
    put_f32 s.max_health (put_f32 s.health (put_u8 s.flags located))

unfoldable pub read_player_state : Read PlayerState
read_player_state = do
  position ← read_vec3
  yaw ← get_f32
  worldspace_id ← get_u32
  cell_id ← get_u32
  flags ← get_u8
  health ← get_f32
  max_health ← get_f32
  ret (record {
    position = position;
    yaw = yaw;
    worldspace_id = worldspace_id;
    cell_id = cell_id;
    flags = flags;
    health = health;
    max_health = max_health;
  })

pub record HelloMsg : Type 0 where
  pub protocol_version : ℕ
  pub game_version : ℕ
  pub name : Bytes

unfoldable pub write_hello : HelloMsg → Writer → Writer
write_hello m w = put_str m.name (put_u32 m.game_version (put_u32 m.protocol_version w))

unfoldable pub read_hello : Read HelloMsg
read_hello = do
  protocol_version ← get_u32
  game_version ← get_u32
  name ← get_str
  ret (record { protocol_version = protocol_version; game_version = game_version; name = name })

pub record PlayerStateMsg : Type 0 where
  pub state : PlayerState

unfoldable pub write_player_state_msg : PlayerStateMsg → Writer → Writer
write_player_state_msg m w = write_player_state m.state w

unfoldable pub read_player_state_msg : Read PlayerStateMsg
read_player_state_msg = do state ← read_player_state; ret (record { state = state })

pub record ChatMsg : Type 0 where
  pub text : Bytes

unfoldable pub write_chat : ChatMsg → Writer → Writer
write_chat m w = put_str m.text w

unfoldable pub read_chat : Read ChatMsg
read_chat = do text ← get_str; ret (record { text = text })

pub record SetNameMsg : Type 0 where
  pub name : Bytes

unfoldable pub write_set_name : SetNameMsg → Writer → Writer
write_set_name m w = put_str m.name w

unfoldable pub read_set_name : Read SetNameMsg
read_set_name = do name ← get_str; ret (record { name = name })

pub record WelcomeMsg : Type 0 where
  pub id : ℕ
  pub tick_rate : ℕ
  pub server_name : Bytes
  pub motd : Bytes

unfoldable pub write_welcome : WelcomeMsg → Writer → Writer
write_welcome m w = put_str m.motd (put_str m.server_name (put_u8 m.tick_rate (put_u32 m.id w)))

unfoldable pub read_welcome : Read WelcomeMsg
read_welcome = do
  id ← get_u32
  tick_rate ← get_u8
  server_name ← get_str
  motd ← get_str
  ret (record { id = id; tick_rate = tick_rate; server_name = server_name; motd = motd })

pub record RejectMsg : Type 0 where
  pub reason : Bytes

unfoldable pub write_reject : RejectMsg → Writer → Writer
write_reject m w = put_str m.reason w

unfoldable pub read_reject : Read RejectMsg
read_reject = do reason ← get_str; ret (record { reason = reason })

pub record PlayerJoinedMsg : Type 0 where
  pub id : ℕ
  pub name : Bytes

unfoldable pub write_player_joined : PlayerJoinedMsg → Writer → Writer
write_player_joined m w = put_str m.name (put_u32 m.id w)

unfoldable pub read_player_joined : Read PlayerJoinedMsg
read_player_joined = do id ← get_u32; name ← get_str; ret (record { id = id; name = name })

pub record PlayerLeftMsg : Type 0 where
  pub id : ℕ

unfoldable pub write_player_left : PlayerLeftMsg → Writer → Writer
write_player_left m w = put_u32 m.id w

unfoldable pub read_player_left : Read PlayerLeftMsg
read_player_left = do id ← get_u32; ret (record { id = id })

pub record PlayerStateUpdateMsg : Type 0 where
  pub id : ℕ
  pub time_ms : ℕ
  pub state : PlayerState

unfoldable pub write_player_state_update : PlayerStateUpdateMsg → Writer → Writer
write_player_state_update m w = write_player_state m.state (put_u32 m.time_ms (put_u32 m.id w))

unfoldable pub read_player_state_update : Read PlayerStateUpdateMsg
read_player_state_update = do
  id ← get_u32
  time_ms ← get_u32
  state ← read_player_state
  ret (record { id = id; time_ms = time_ms; state = state })

pub record ChatBroadcastMsg : Type 0 where
  pub from : ℕ
  pub text : Bytes

unfoldable pub write_chat_broadcast : ChatBroadcastMsg → Writer → Writer
write_chat_broadcast m w = put_str m.text (put_u32 m.from w)

unfoldable pub read_chat_broadcast : Read ChatBroadcastMsg
read_chat_broadcast = do from ← get_u32; text ← get_str; ret (record { from = from; text = text })

pub record PlayerRenamedMsg : Type 0 where
  pub id : ℕ
  pub name : Bytes

unfoldable pub write_player_renamed : PlayerRenamedMsg → Writer → Writer
write_player_renamed m w = put_str m.name (put_u32 m.id w)

unfoldable pub read_player_renamed : Read PlayerRenamedMsg
read_player_renamed = do id ← get_u32; name ← get_str; ret (record { id = id; name = name })

-- `Encode`: `T::ID` and `T::Write` are the arguments.
unfoldable pub encode : ℕ → (Writer → Writer) → Bytes
encode id write = (write (put_u8 id new_writer)).buf

-- `ReadHeader`: the id, if there is a byte to read it from, and the reader at the payload.
unfoldable pub read_header : Reader → Option ℕ × Reader
read_header r = let (id, s) = get_u8 r in (if s.ok then some id else none, s)

-- `msg.Read(reader)` as a condition: the message where the method returns true.
unfoldable pub checked : {A : Type 0} → Read A → Reader → Option A × Reader
checked read r = let (m, s) = read r in (if s.ok then some m else none, s)
