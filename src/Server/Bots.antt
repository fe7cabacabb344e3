-- ===== src/Server/Bots.antt =====
-- server/src/Server.cpp, "bots": `AddBot`, `RemoveBot`, `UpdateBots`, and the two searches for a
-- player that it uses.
use f4mp.Base.{
  ℕ, ◌+◌, ◌-◌, ◌%◌, Bool, true, false, ◌&&◌, Option, none, some, List, [], ◌∷◌, ◌++◌, ltb, ◌==◌,
  if◌then◌else◌, is_empty, Bytes, codes, u32_mod,
}
use f4mp.Types.{PlayerState, initial_state, invalid_player_id}
use f4mp.Protocol.Messages.{
  reliable, unreliable, encode, id_player_joined, write_player_joined, id_player_left,
  write_player_left, id_player_state_update, write_player_state_update,
}
use f4mp.Protocol.Names.{sanitize_name}
use f4mp.Server.State.{
  Player, Bot, Mode, mirror, orbit, Server, Env, text, number, tick_clock, now_ms,
}
use f4mp.Server.Sending.{broadcast, server_chat}

-- 50 ms, and the constants as `float` patterns: 200, 250, 0.6, 0.25 and 2 pi.
abbrev pub bot_update_interval : ℕ
bot_update_interval = 50_000_000

abbrev bot_mirror_offset : ℕ
bot_mirror_offset = 0x4348_0000

abbrev bot_orbit_radius : ℕ
bot_orbit_radius = 0x437A_0000

abbrev bot_orbit_speed : ℕ
bot_orbit_speed = 0x3F19_999A

abbrev quarter : ℕ
quarter = 0x3E80_0000

abbrev two_pi : ℕ
two_pi = 0x40C9_0FDB

-- `FindPlayer(PlayerId)`.
unfoldable pub find_id : ℕ → List Player → Option Player
find_id id [] = none
find_id id (p ∷ ps) = if p.handshaked && p.id == id then some p else find_id id ps

-- `!best || player->id < best->id`.
abbrev pub is_better : Player → Option Player → Bool
is_better p none = true
is_better p (some best) = ltb p.id best.id

unfoldable pub first_from : Option Player → List Player → Option Player
first_from best [] = best
first_from best (p ∷ ps) =
    first_from (if p.handshaked && p.has_state && is_better p best then some p else best) ps

unfoldable pub first_player_with_state : List Player → Option Player
unfolding first_from
first_player_with_state = first_from none

-- The player that a bot follows from now on: the one so far, if it is there and has a state.
unfoldable pub pick_target : ℕ → List Player → Option Player
pick_target follow ps = elim (find_id follow ps) [
  | some p ↦ if p.has_state then some p else first_player_with_state ps
  | none ↦ first_player_with_state ps
]

unfoldable pub find_bot : ℕ → List Bot → Option Bot
find_bot id [] = none
find_bot id (b ∷ bs) = if b.id == id then some b else find_bot id bs

unfoldable pub erase_bot : ℕ → List Bot → List Bot
erase_bot id [] = []
erase_bot id (b ∷ bs) = if b.id == id then bs else b ∷ erase_bot id bs

module _ (env : Env) where
  abbrev pub new_bot : Mode → Bytes → ℕ → Bot
  new_bot mode name id = record {
    id = id;
    name =
        sanitize_name (if is_empty name then env.format (codes "Bot{}") (number id ∷ []) else name);
    mode = mode;
    follow = invalid_player_id;
    has_state = false;
    state = initial_state;
    phase = 0;
  }

  unfoldable pub add_bot : Mode → Bytes → Server → Server
  add_bot mode name s =
      let bot = new_bot mode name s.next_id in
      let added = record s { next_id = (s.next_id + 1) % u32_mod; bots = s.bots ++ bot ∷ [] } in
      server_chat env (env.format (codes "{} joined the game") (text bot.name ∷ [])) (
        broadcast env reliable
          (encode id_player_joined (write_player_joined (record { id = bot.id; name = bot.name })))
          none added)

  unfoldable pub dismiss : Bot → Server → Server
  dismiss b s = server_chat env (env.format (codes "{} left the game") (text b.name ∷ [])) (
      broadcast env reliable (encode id_player_left (write_player_left (record { id = b.id }))) none
        s)

  -- Whether there was such a bot, and the server without it.
  unfoldable pub remove_bot : ℕ → Server → Bool × Server
  remove_bot id s = elim (find_bot id s.bots) [
    | none ↦ (false, s)
    | some b ↦ (true, record (dismiss b s) { bots = erase_bot id s.bots })
  ]

  -- The state that a bot takes from its target, and its new phase.
  unfoldable pub bot_state : Mode → ℕ → ℕ → PlayerState → PlayerState × ℕ
  bot_state mirror dt phase s =
      let p = s.position in
      (record s { position = record p { x = env.floats.add p.x bot_mirror_offset } }, phase)
  bot_state orbit dt phase s =
      let f = env.floats in
      let p = s.position in
      let turned = f.fmod (f.add phase (f.mul bot_orbit_speed dt)) two_pi in
      (
        record s {
          position = record p {
            x = f.add p.x (f.mul bot_orbit_radius (f.cos turned));
            y = f.add p.y (f.mul bot_orbit_radius (f.sin turned));
          };
          yaw = f.fmod (f.sub two_pi turned) two_pi;
        },
        turned,
      )

  -- The bot after one round.
  unfoldable pub move_bot : ℕ → Option Player → Bot → Bot
  move_bot dt none b = record b { follow = invalid_player_id; has_state = false }
  move_bot dt (some target) b =
      let (state, phase) = bot_state b.mode dt b.phase target.state in
      record b { follow = target.id; has_state = true; state = state; phase = phase }

  unfoldable pub tell_bot : Bot → Server → Server
  tell_bot b s =
      if b.has_state
      then broadcast env unreliable
          (encode id_player_state_update (
            write_player_state_update
              (record { id = b.id; time_ms = now_ms env s; state = b.state })))
          none (tick_clock s)
      else s

  unfoldable pub move_bots : ℕ → List Bot → Server → List Bot × Server
  move_bots dt [] s = ([], s)
  move_bots dt (b ∷ bs) s =
      let moved = move_bot dt (pick_target b.follow s.players) b in
      let (rest, t) = move_bots dt bs (tell_bot moved s) in (moved ∷ rest, t)

  unfoldable pub bot_round : ℕ → ℕ → Server → Server
  bot_round dt now s =
      let moved = move_bots dt s.bots (record s { last_bot_update = now }) in
      record (moved.1) { bots = moved.0 }

  -- The time of a round: what has passed, or 50 ms after a stall.
  unfoldable pub bot_dt : ℕ → ℕ
  bot_dt elapsed =
      let dt = env.floats.seconds elapsed in
      if env.floats.greater dt quarter then env.floats.seconds bot_update_interval else dt

  unfoldable pub update_bots : Server → Server
  update_bots s =
      let now = env.clock s.reads in
      if is_empty s.bots
      then s
      else if ltb now (s.last_bot_update + bot_update_interval)
      then tick_clock s
      else bot_round (bot_dt (now - s.last_bot_update)) now (tick_clock s)
