-- ===== src/Tests/World.antt =====
-- The concrete environment, players and servers that the other tests use.
use f4mp.Base.{◌+◌, ◌*◌, ◌^◌, true, false, [], ◌∷◌, Bytes, codes}
use f4mp.Protocol.Messages.{encode, id_hello, write_hello, protocol_version, id_chat, write_chat}
use f4mp.Server.State.{Player, new_player, Server, Env, Floats, default_config}
use f4mp.Server.Service.{new_server}

-- Floats are not looked at by the tests: any functions will do.
abbrev some_floats : Floats
some_floats = record {
  add = λ a b. a;
  sub = λ a b. a;
  mul = λ a b. a;
  fmod = λ a b. a;
  cos = λ a. a;
  sin = λ a. a;
  greater = λ a b. false;
  seconds = λ a. a;
}

-- Every reading of the clock is a millisecond later.
abbrev pub test_env : Env
test_env = record {
  format = λ f args. f;
  packet_create = λ bytes reliable. true;
  clock = λ n. 20_000_000_000 + n * 1_000_000;
  floats = some_floats;
  ulong_mod = 2 ^ 64;
}

abbrev pub guest : Player
guest = new_player 7 20_000_000_000

abbrev pub nora : Player
nora = record (new_player 8 20_000_000_000) { id = 1; name = codes "Nora"; handshaked = true }

abbrev pub preston : Player
preston = record (new_player 9 20_000_000_000) {
  id = 2;
  name = codes "Preston";
  handshaked = true;
  chat_window_start = 20_000_000_000;
  chat_window_count = 1;
}

abbrev empty_server : Server
empty_server = record (new_server default_config 0) { host = true }

abbrev pub busy_server : Server
busy_server = record empty_server { players = guest ∷ nora ∷ preston ∷ []; next_id = 3 }

abbrev pub hello_packet : Bytes
hello_packet = encode id_hello (
    write_hello
      (record { protocol_version = protocol_version; game_version = 10; name = codes " Piper" }))

abbrev pub chat_packet : Bytes
chat_packet = encode id_chat (write_chat (record { text = codes "hi" }))
