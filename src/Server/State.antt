-- ===== src/Server/State.antt =====
-- server/src/Server.hpp and Config.hpp: the records of the server, and what it uses of other code.
-- A player is known by its ENet peer (a number); `players` is the map in its order of iteration.
use f4mp.Base.{
  ℕ, ◌+◌, ◌-◌, ◌/◌, ◌%◌, Bool, false, Option, none, some, List, [], ◌∷◌, ◌++◌, ◌==◌, if◌then◌else◌,
  Bytes, codes, u32_mod,
}
use f4mp.Types.{PlayerState, initial_state, invalid_player_id}
use f4mp.Protocol.Messages.{Channel}

pub record Config : Type 0 where
  pub name : Bytes
  pub motd : Bytes
  pub port : ℕ
  pub max_players : ℕ
  pub tick_rate : ℕ
  pub log_file : Bytes
  pub log_level : Bytes

abbrev pub default_config : Config
default_config = record {
  name = codes "F4MP Server";
  motd = codes "Welcome to the Commonwealth.";
  port = 27015;
  max_players = 16;
  tick_rate = 30;
  log_file = codes "server.log";
  log_level = codes "info";
}

-- Times are nanoseconds of `std::chrono::steady_clock`.
pub record Player : Type 0 where
  pub id : ℕ
  pub name : Bytes
  pub peer : ℕ
  pub state : PlayerState
  pub handshaked : Bool
  pub has_state : Bool
  pub game_version : ℕ
  pub joined_at : ℕ
  pub chat_window_start : ℕ
  pub chat_window_count : ℕ

abbrev pub new_player : ℕ → ℕ → Player
new_player peer now = record {
  id = invalid_player_id;
  name = [];
  peer = peer;
  state = initial_state;
  handshaked = false;
  has_state = false;
  game_version = 0;
  joined_at = now;
  chat_window_start = 0;
  chat_window_count = 0;
}

pub data Mode : Type 0 where
  mirror orbit : Mode

pub record Bot : Type 0 where
  pub id : ℕ
  pub name : Bytes
  pub mode : Mode
  pub follow : ℕ
  pub has_state : Bool
  pub state : PlayerState
  pub phase : ℕ

-- An argument of `fmt::format`.
pub data Arg : Type 0 where
  text : Bytes → Arg
  number : ℕ → Arg

-- The arithmetic of `float` that the bots use, on 32-bit patterns.
pub record Floats : Type 0 where
  pub add : ℕ → ℕ → ℕ
  pub sub : ℕ → ℕ → ℕ
  pub mul : ℕ → ℕ → ℕ
  pub fmod : ℕ → ℕ → ℕ
  pub cos : ℕ → ℕ
  pub sin : ℕ → ℕ
  pub greater : ℕ → ℕ → Bool
  pub seconds : ℕ → ℕ

-- What the server uses and does not implement: `fmt::format`, whether `enet_packet_create` returns
-- a packet for these bytes (and the reliable flag), the readings of the steady clock in the order
-- in which they are taken, the floats, and 2 to the width of the `unsigned long` of the platform.
pub record Env : Type 0 where
  pub format : Bytes → List Arg → Bytes
  pub packet_create : Bytes → Bool → Bool
  pub clock : ℕ → ℕ
  pub floats : Floats
  pub ulong_mod : ℕ

-- The calls of ENet that leave the process or change a connection.
pub data Effect : Type 0 where
  peer_send : ℕ → Channel → Bytes → Effect
  host_flush : Effect
  peer_disconnect_later : ℕ → Effect
  peer_disconnect_now : ℕ → Effect
  peer_timeout : ℕ → ℕ → ℕ → Effect
  host_destroy : Effect

-- `reads` counts the readings of the clock so far; `sent` lists the calls so far, oldest first.
pub record Server : Type 0 where
  pub config : Config
  pub host : Bool
  pub players : List Player
  pub bots : List Bot
  pub last_bot_update : ℕ
  pub start_time : ℕ
  pub next_id : ℕ
  pub reads : ℕ
  pub sent : List Effect

-- `std::chrono::steady_clock::now()`.
abbrev pub tick_clock : Server → Server
tick_clock s = record s { reads = s.reads + 1 }

abbrev pub effect : Effect → Server → Server
effect e s = record s { sent = s.sent ++ e ∷ [] }

-- `Server::NowMs`, cut to 32 bits.
unfoldable pub now_ms : Env → Server → ℕ
now_ms env s = ((env.clock s.reads - s.start_time) / 1000000) % u32_mod

-- `FindPlayer(ENetPeer*)`.
unfoldable pub find_peer : ℕ → List Player → Option Player
find_peer peer [] = none
find_peer peer (p ∷ ps) = if p.peer == peer then some p else find_peer peer ps

-- The player behind a reference into the map gets its new value.
unfoldable pub set_player : Player → List Player → List Player
set_player q [] = []
set_player q (p ∷ ps) = if p.peer == q.peer then q ∷ ps else p ∷ set_player q ps

unfoldable pub erase_peer : ℕ → List Player → List Player
erase_peer peer [] = []
erase_peer peer (p ∷ ps) = if p.peer == peer then ps else p ∷ erase_peer peer ps

abbrev pub put_player : Player → Server → Server
put_player q s = record s { players = set_player q s.players }
