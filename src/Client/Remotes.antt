-- ===== src/Client/Remotes.antt =====
-- client/src/Sync/RemotePlayers.cpp: the client's list of the other players.
pub mod History
pub mod Late
pub mod Drawing
pub mod Forgetting
pub mod Snapshots
pub mod Turns
pub mod Directory
pub mod Reached
use f4mp.Base.{
  ℕ, ◌+◌, ◌-◌, ◌*◌, Bool, true, false, not, ◌&&◌, ◌||◌, Option, none, some, List, [], ◌∷◌, ◌++◌,
  ltb, ◌==◌, if◌then◌else◌, length, drop, back, is_empty, Bytes, codes, ℤ, pos, negsuc, int_ltb,
}
use f4mp.Types.{PlayerState, Vec3, state_none}
use f4mp.Client.Clock.{ServerClock, new_clock, unwrap}
use f4mp.Client.Game.{Space, new_space}
use f4mp.Client.RemoteState.{
  EngineCall, RemotePlayer, Remotes, TimedState, World, engine, new_remote, new_remotes,
  rename_clone_base, apply_clone_identity, despawn, create_clone_base, place_clone, pacify_clone,
  set_opaque, drive_clone, drive_clone_by_move, kill, resurrect, apply_state_flags, set_locomotion,
}

-- `_players.find`.
pub find : ℕ → List RemotePlayer → Option RemotePlayer
find id [] = none
find id (p ∷ ps) = if p.id == id then some p else find id ps

-- The entry of a player gets its new value, or is put into the map.
pub put : RemotePlayer → List RemotePlayer → List RemotePlayer
put q [] = q ∷ []
put q (p ∷ ps) = let rest = put q ps in if p.id == q.id then q ∷ ps else p ∷ rest

pub erase : ℕ → List RemotePlayer → List RemotePlayer
erase id [] = []
erase id (p ∷ ps) = let rest = erase id ps in if p.id == id then ps else p ∷ rest

abbrev put_remote : RemotePlayer → Remotes → Remotes
put_remote q r = record r { players = put q r.players }

-- `_players[id]`.
abbrev pub entry_of : ℕ → Option RemotePlayer → RemotePlayer
entry_of id none = new_remote id
entry_of id (some p) = p

abbrev pub entry : ℕ → Remotes → RemotePlayer
entry id r = entry_of id (find id r.players)

unfoldable pub add : ℕ → Bytes → Remotes → Remotes
add id name r =
    let p = record (entry id r) { id = id; name = name } in
    engine (rename_clone_base p.base name) (put_remote p r)

abbrev pub max_snapshots : ℕ
max_snapshots = 64

-- `push_back`, and the oldest go where there are too many.
pub push_snapshot : TimedState → List TimedState → List TimedState
push_snapshot t ts =
    let longer = ts ++ t ∷ [] in
    if ltb max_snapshots (length longer)
    then drop (length longer - max_snapshots) longer
    else longer

-- Whether a time is not behind the newest snapshot.
abbrev pub is_stale : ℤ → Option TimedState → Bool
is_stale time none = false
is_stale time (some t) = not (int_ltb t.time_ms time)

pub take_snapshot : TimedState → List TimedState → List TimedState
take_snapshot t ts = if is_stale t.time_ms (back ts) then ts else push_snapshot t ts

-- `game::Despawn`, which also resets the handle.
abbrev pub despawn_one : RemotePlayer → RemotePlayer
despawn_one p = record p { actor = none }

unfoldable pub despawn_calls : List RemotePlayer → List EngineCall
despawn_calls [] = []
despawn_calls (p ∷ ps) = despawn p.actor ∷ despawn_calls ps

pub each : (RemotePlayer → RemotePlayer) → List RemotePlayer → List RemotePlayer
each f [] = []
each f (p ∷ ps) = f p ∷ each f ps

pub despawn_all : Remotes → Remotes
despawn_all r = record r {
  players = each despawn_one r.players;
  calls = r.calls ++ despawn_calls r.players;
}

abbrev pub fresh_clone : RemotePlayer → RemotePlayer
fresh_clone p = record p {
  base = none;
  base_failed = false;
  actor_dead = false;
  actor_pacified = false;
  locomotion_init = false;
  has_last_render = false;
  speed = 0;
  applied_flags = state_none;
  last_spawn_attempt = 0;
}

pub respawn : Remotes → Remotes
respawn r = let gone = despawn_all r in record gone { players = each fresh_clone gone.players }

pub set_clone_base : ℕ → Remotes → Remotes
set_clone_base form r = respawn (record r { base_form_id = form })

pub set_pacify : Bool → Remotes → Remotes
set_pacify b r = respawn (record r { pacify = b })

pub set_ghost : Bool → Remotes → Remotes
set_ghost b r = respawn (record r { ghost = b })

pub set_duplicate : Bool → Remotes → Remotes
set_duplicate b r = respawn (record r { duplicate = b })

abbrev pub forget_actor : RemotePlayer → RemotePlayer
forget_actor p = record p {
  actor = none;
  actor_dead = false;
  actor_pacified = false;
  locomotion_init = false;
  has_last_render = false;
  speed = 0;
  applied_flags = state_none;
  base = none;
  base_failed = false;
}

pub forget_actors : Remotes → Remotes
forget_actors r = record r { players = each forget_actor r.players }

pub clear : Remotes → Remotes
clear r = record (despawn_all r) { players = []; has_offset = false; clock = new_clock }

pub remove : ℕ → Remotes → Remotes
remove id r = elim (find id r.players) [
  | none ↦ r
  | some p ↦ record (engine (despawn p.actor) r) { players = erase id r.players }
]

module _ (world : World) where
  -- The name on the actor, if the engine has it.
  pub relabel : Option ℕ → Bytes → Remotes → Remotes
  relabel none name r = r
  relabel (some handle) name r =
      if world.exists handle then engine (apply_clone_identity handle name false) r else r

  pub rename : ℕ → Bytes → Remotes → Remotes
  rename id name r = elim (find id r.players) [
    | none ↦ add id name r
    | some p ↦
        relabel p.actor name
          (engine (rename_clone_base p.base name) (put_remote (record p { name = name }) r))
  ]

  abbrev pub placeholder : ℕ → Bytes
  placeholder id = codes "#" ++ world.show id

  pub note_server_time : ℤ → Remotes → Remotes
  note_server_time time r =
      let sample = world.local_minus time in
      if not r.has_offset
      then record r { has_offset = true; offset_ms = sample }
      else if world.less sample r.offset_ms
      then record r { offset_ms = sample }
      else record r { offset_ms = world.drift r.offset_ms sample }

  -- The player whose state arrives, in the map from now on.
  pub ensure : ℕ → Remotes → Remotes
  ensure id r = elim (find id r.players) [ none ↦ add id (placeholder id) r | some p ↦ r ]

  -- `ApplyState` up to `NoteServerTime`: the player is in the map, and the clock stands at its time.
  pub hear : ℕ → ℕ → Remotes → Remotes
  hear id server_ms r =
      let known = ensure id r in
      let now = unwrap server_ms known.clock in
      note_server_time now.now (record known { clock = now })

  pub apply_state : ℕ → PlayerState → ℕ → Remotes → Remotes
  apply_state id state server_ms r =
      let heard = hear id server_ms r in
      let p = entry id heard in
      let snapshot : TimedState = record { state = state; time_ms = heard.clock.now } in
      put_remote (record p { snapshots = take_snapshot snapshot p.snapshots }) heard

  pub name_of : ℕ → Remotes → Bytes
  name_of id r = elim (find id r.players) [ none ↦ placeholder id | some p ↦ p.name ]

-- The public operations that change the list.
pub data Operation : Type 0 where
  adding : ℕ → Bytes → Operation
  renaming : ℕ → Bytes → Operation
  removing : ℕ → Operation
  applying : ℕ → PlayerState → ℕ → Operation
  despawning : Operation
  respawning : Operation
  setting_base : ℕ → Operation
  setting_pacify : Bool → Operation
  setting_ghost : Bool → Operation
  setting_duplicate : Bool → Operation
  setting_drive : Bool → Operation
  setting_move : Bool → Operation
  forgetting : Operation
  clearing : Operation

unfoldable pub perform : World → Operation → Remotes → Remotes
perform world (adding id name) r = add id name r
perform world (renaming id name) r = rename world id name r
perform world (removing id) r = remove id r
perform world (applying id state server_ms) r = apply_state world id state server_ms r
perform world despawning r = despawn_all r
perform world respawning r = respawn r
perform world (setting_base form) r = set_clone_base form r
perform world (setting_pacify b) r = set_pacify b r
perform world (setting_ghost b) r = set_ghost b r
perform world (setting_duplicate b) r = set_duplicate b r
perform world (setting_drive b) r = record r { drive = b }
perform world (setting_move b) r = record r { move = b }
perform world forgetting r = forget_actors r
perform world clearing r = clear r
