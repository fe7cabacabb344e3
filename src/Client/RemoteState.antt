-- ===== src/Client/RemoteState.antt =====
-- client/src/Sync/RemotePlayers.hpp: what the client keeps of the other players, and its calls of the
-- game.
use f4mp.Base.{ℕ, Bool, true, false, Option, none, List, [], ◌∷◌, ◌++◌, Bytes, ℤ}
use f4mp.Types.{PlayerState, Vec3, state_none}
use f4mp.Client.Clock.{ServerClock, new_clock}
use f4mp.Client.Game.{Space, new_space}

-- `TimedState` of shared/include/f4mp/Interp.hpp.
pub record TimedState : Type 0 where
  pub state : PlayerState
  pub time_ms : ℤ

-- A form of the engine and a handle of an actor are numbers.
pub record RemotePlayer : Type 0 where
  pub id : ℕ
  pub name : Bytes
  pub snapshots : List TimedState
  pub base : Option ℕ
  pub base_failed : Bool
  pub actor : Option ℕ
  pub actor_space : Space
  pub actor_dead : Bool
  pub actor_pacified : Bool
  pub locomotion_init : Bool
  pub applied_flags : ℕ
  pub last_spawn_attempt : ℕ
  pub has_last_render : Bool
  pub last_render_pos : Vec3
  pub last_render_time : ℕ
  pub speed : ℕ

abbrev pub new_remote : ℕ → RemotePlayer
new_remote id = record {
  id = id;
  name = [];
  snapshots = [];
  base = none;
  base_failed = false;
  actor = none;
  actor_space = new_space;
  actor_dead = false;
  actor_pacified = false;
  locomotion_init = false;
  applied_flags = state_none;
  last_spawn_attempt = 0;
  has_last_render = false;
  last_render_pos = record { x = 0; y = 0; z = 0 };
  last_render_time = 0;
  speed = 0;
}

-- The calls of client/src/Game/GameUtil.cpp, and those of an actor that `UpdateOne` makes itself: of its
-- alpha, its death and its resurrection.
pub data EngineCall : Type 0 where
  rename_clone_base : Option ℕ → Bytes → EngineCall
  apply_clone_identity : ℕ → Bytes → Bool → EngineCall
  despawn : Option ℕ → EngineCall
  create_clone_base : ℕ → Bytes → Bool → EngineCall
  place_clone : ℕ → Vec3 → ℕ → Space → EngineCall
  pacify_clone : ℕ → EngineCall
  set_opaque : ℕ → EngineCall
  drive_clone : ℕ → Vec3 → ℕ → EngineCall
  drive_clone_by_move : ℕ → Vec3 → ℕ → ℕ → EngineCall
  kill : ℕ → EngineCall
  resurrect : ℕ → EngineCall
  apply_state_flags : ℕ → ℕ → ℕ → EngineCall
  set_locomotion : ℕ → ℕ → Bool → Bool → EngineCall

-- What is used and not implemented here: the decimal text of an id, whether the engine still has the
-- actor of a handle, the local clock at the time of the call, and the arithmetic of `double` of `NoteServerTime`.
pub record World : Type 0 where
  pub show : ℕ → Bytes
  pub exists : ℕ → Bool
  pub local_minus : ℤ → ℕ
  pub less : ℕ → ℕ → Bool
  pub drift : ℕ → ℕ → ℕ

-- `players` is the map from ids, in its order of iteration.
pub record Remotes : Type 0 where
  pub players : List RemotePlayer
  pub interp_delay_ms : ℕ
  pub base_form_id : ℕ
  pub drive : Bool
  pub pacify : Bool
  pub ghost : Bool
  pub duplicate : Bool
  pub move : Bool
  pub has_offset : Bool
  pub offset_ms : ℕ
  pub clock : ServerClock
  pub calls : List EngineCall

abbrev pub engine : EngineCall → Remotes → Remotes
engine c r = record r { calls = r.calls ++ c ∷ [] }

-- The default `_interpDelayMs` is 100, and that of `_baseFormId` is `game::PLAYER_BASE_FORM_ID`.
abbrev pub new_remotes : Remotes
new_remotes = record {
  players = [];
  interp_delay_ms = 0x42C8_0000;
  base_form_id = 7;
  drive = true;
  pacify = true;
  ghost = true;
  duplicate = false;
  move = false;
  has_offset = false;
  offset_ms = 0;
  clock = new_clock;
  calls = [];
}
