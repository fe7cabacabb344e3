-- ===== src/Client/Remotes/Drawing.antt =====
-- `Update` and `UpdateOne` of client/src/Sync/RemotePlayers.cpp: a frame of the other players.
use f4mp.Base.{
  ℕ, ◌+◌, ◌*◌, ◌%◌, ◌/◌, Bool, true, false, not, ◌&&◌, ◌||◌, Option, none, some, List, [], ◌∷◌,
  ◌++◌, ltb, ◌==◌, if◌then◌else◌, back, ℤ,
}
use f4mp.Types.{PlayerState, Vec3, state_none}
use f4mp.Client.Game.{
  Space, Engine, is_same_area, space_from_state, get_player, get_space, is_player,
  spawn_player_clone,
}
use f4mp.Client.Interpolation.{Maths, sample_at}
use f4mp.Client.RemoteState.{
  TimedState, RemotePlayer, EngineCall, despawn, apply_clone_identity, create_clone_base,
  place_clone, pacify_clone, set_opaque, drive_clone, drive_clone_by_move, kill, resurrect,
  apply_state_flags, set_locomotion, Remotes,
}

-- The arithmetic of the drawing, on patterns. `double`: the local clock less the clock's offset and the
-- delay, and whether a snapshot's time is more than 1500 ms behind the render time. `float`: the
-- seconds between two times, `> 0`, the least of a step and 0.1, square root and quotient, and
-- `std::clamp(dt * 12, 0, 1)`.
pub record Motion : Type 0 where
  pub maths : Maths
  pub render_ms : ℕ → ℕ → ℕ
  pub is_old : ℕ → ℤ → Bool
  pub seconds_between : ℕ → ℕ → ℕ
  pub zero_seconds : ℕ
  pub is_positive : ℕ → Bool
  pub cap_step : ℕ → ℕ
  pub root : ℕ → ℕ
  pub divide : ℕ → ℕ → ℕ
  pub gain : ℕ → ℕ

abbrev pub spawn_retry_interval : ℕ
spawn_retry_interval = 1_000_000_000

-- A player with the calls made for it so far.
abbrev pub Drawn : Type 0
Drawn = RemotePlayer × List EngineCall

abbrev pub make : EngineCall → Drawn → Drawn
make c (p, cs) = (p, cs ++ c ∷ [])

abbrev pub has_bit : ℕ → ℕ → Bool
has_bit flags bit = flags / bit % 2 == 1

-- The history well behind the render time goes, but for two.
unfoldable pub trim_history : (ℤ → Bool) → List TimedState → List TimedState
trim_history is_old [] = []
trim_history is_old (a ∷ []) = a ∷ []
trim_history is_old (a ∷ b ∷ []) = a ∷ b ∷ []
trim_history is_old (a ∷ b ∷ c ∷ ts) =
    let rest = trim_history is_old (b ∷ c ∷ ts) in if is_old b.time_ms then rest else a ∷ b ∷ c ∷ ts

-- An actor where the player cannot be seen, or in another place than its player, goes.
unfoldable pub tear_down : Bool → Space → Option ℕ → Drawn → Drawn × Option ℕ
tear_down visible target none d = (d, none)
tear_down visible target (some actor) (p, cs) =
    if not visible || not (is_same_area target p.actor_space)
    then (make (despawn p.actor) (record p { actor = none }, cs), none)
    else ((p, cs), some actor)

module _ (g : Engine) where
  -- `ref->As<RE::Actor>()`.
  abbrev pub as_actor : Option ℕ → Option ℕ
  as_actor none = none
  as_actor (some ref) = if g.is_actor ref then some ref else none

  abbrev pub actor_of : Option ℕ → Option ℕ
  actor_of none = none
  actor_of (some handle) = as_actor (g.resolve handle)

  -- An actor that is the local player is not driven: the handle is dropped.
  unfoldable pub drop_player : Option ℕ → RemotePlayer → RemotePlayer × Option ℕ
  drop_player none p = (p, none)
  drop_player (some actor) p =
      if is_player g actor then (record p { actor = none }, none) else (p, some actor)

  unfoldable pub show_actor : ℕ → Drawn → Drawn
  show_actor actor d = if g.is_transparent actor then make (set_opaque actor) d else d

module _ (g : Engine) (r : Remotes) where
  -- The base of a new actor, which with `_duplicate` is a copy that is made once.
  unfoldable pub made_base : Option ℕ → Drawn → Drawn × Option ℕ
  made_base none (p, cs) = ((record p { base = none; base_failed = true }, cs), none)
  made_base (some base) (p, cs) =
      ((record p { base = some base; base_failed = false }, cs), some base)

  unfoldable pub own_base : Option ℕ → Drawn → Drawn × Option ℕ
  own_base (some base) d = (d, some base)
  own_base none (p, cs) =
      if p.base_failed
      then ((p, cs), none)
      else made_base (if g.is_npc r.base_form_id then g.duplicate_form r.base_form_id else none)
          (make (create_clone_base r.base_form_id p.name r.ghost) (p, cs))

  unfoldable pub choose_base : Drawn → Drawn × Option ℕ
  choose_base (p, cs) =
      if r.duplicate
      then own_base p.base (p, cs)
      else if g.is_npc r.base_form_id
      then ((p, cs), some r.base_form_id)
      else ((record p { base_failed = true }, cs), none)

  abbrev pub identify : Option ℕ → Drawn → Drawn
  identify none d = d
  identify (some handle) (p, cs) =
      if r.duplicate then (p, cs) else make (apply_clone_identity handle p.name r.ghost) (p, cs)

  abbrev pub settle : Space → Drawn → Drawn
  settle target (p, cs) = (
    record p {
      actor_space = target;
      actor_dead = false;
      actor_pacified = false;
      locomotion_init = false;
      has_last_render = false;
      speed = 0;
      applied_flags = state_none;
    },
    cs,
  )

  -- What follows on `SpawnPlayerClone`, with the actor of the new handle.
  unfoldable pub take_actor : Space → Option ℕ → Drawn → Drawn × Option ℕ
  take_actor target none d = (d, none)
  take_actor target (some actor) (p, cs) = (settle target (identify p.actor (p, cs)), some actor)

  unfoldable pub spawn_on : Space → PlayerState → Drawn × Option ℕ → Drawn × Option ℕ
  spawn_on target latest (d, none) = (d, none)
  spawn_on target latest ((p, cs), some base) =
      let handle = spawn_player_clone g base latest.position latest.yaw target in
      take_actor target (actor_of g handle) (
        make (place_clone base latest.position latest.yaw target) (record p { actor = handle }, cs))

  unfoldable pub spawn : ℕ → Bool → Space → PlayerState → Drawn → Drawn × Option ℕ
  spawn now visible target latest (p, cs) =
      if not visible || ltb now (p.last_spawn_attempt + spawn_retry_interval)
      then ((p, cs), none)
      else spawn_on target latest (choose_base (record p { last_spawn_attempt = now }, cs))

  unfoldable pub ensure_actor : ℕ → Bool → Space → PlayerState → Drawn × Option ℕ → Drawn × Option ℕ
  ensure_actor now visible target latest (d, none) = spawn now visible target latest d
  ensure_actor now visible target latest (d, some actor) = (d, some actor)

  unfoldable pub pacify_actor : ℕ → Drawn → Drawn
  pacify_actor actor (p, cs) =
      if r.pacify && not p.actor_pacified
      then make (pacify_clone actor) (record p { actor_pacified = g.has_process actor }, cs)
      else (p, cs)

unfoldable pub set_dead : Bool → ℕ → Drawn → Drawn
set_dead dead actor (p, cs) =
    let known = record p { actor_dead = dead } in
    if differs dead p.actor_dead
    then make (if dead then kill actor else resurrect actor) (known, cs)
    else (p, cs)
  where
    differs : Bool → Bool → Bool
    differs true b = not b
    differs false b = b

-- `latest.flags & ~kStateDead`.
abbrev pub without_dead : ℕ → ℕ
without_dead flags = flags / 8 * 8 + flags % 4

unfoldable pub animate : ℕ → ℕ → Drawn → Drawn
animate flags actor (p, cs) =
    let alive = without_dead flags in
    make (set_locomotion actor p.speed (has_bit alive 8) (not p.locomotion_init)) (
      make (apply_state_flags actor alive p.applied_flags)
        (record p { applied_flags = alive; locomotion_init = true }, cs))

module _ (f : Motion) where
  -- `SampleAt` on a history.
  abbrev pub sampled : ℕ → List TimedState → PlayerState → PlayerState
  sampled render [] latest = latest
  sampled render (first ∷ ts) latest = sample_at f.maths first ts render

  -- `DriveClone` or `DriveCloneByMove`.
  unfoldable pub drive_actor : Bool → ℕ → ℕ → PlayerState → Drawn → Drawn
  drive_actor move actor dt sample d =
      if move && f.is_positive dt
      then make (drive_clone_by_move actor sample.position sample.yaw (f.cap_step dt)) d
      else make (drive_clone actor sample.position sample.yaw) d

  -- The speed of the rendered motion, smoothed.
  unfoldable pub track_speed : ℕ → Vec3 → RemotePlayer → RemotePlayer
  track_speed dt position p =
      let m = f.maths in
      let dx = m.sub position.x p.last_render_pos.x in
      let dy = m.sub position.y p.last_render_pos.y in
      let instant = f.divide (f.root (m.add (m.mul dx dx) (m.mul dy dy))) dt in
      if p.has_last_render && f.is_positive dt
      then record p { speed = m.add p.speed (m.mul (m.sub instant p.speed) (f.gain dt)) }
      else p

  -- From the sampling of the history on.
  unfoldable pub move_actor : Bool → ℕ → ℕ → PlayerState → PlayerState → Drawn → Drawn
  move_actor move now actor sample latest (p, cs) =
      let dt =
        if p.has_last_render then f.seconds_between p.last_render_time now else f.zero_seconds in
      let (driven, calls) = drive_actor move actor dt sample (p, cs) in
      let tracked = record (track_speed dt sample.position driven) {
        last_render_pos = sample.position;
        last_render_time = now;
        has_last_render = true;
      } in
      let dead = has_bit latest.flags 4 in
      let told = set_dead dead actor (tracked, calls) in
      if dead then told else animate latest.flags actor told

module _ (f : Motion) (g : Engine) (r : Remotes) where
  -- `UpdateOne` once there is or is not an actor.
  unfoldable pub draw_actor : ℕ → ℕ → PlayerState → Drawn × Option ℕ → Drawn
  draw_actor now render latest (d, none) = d
  draw_actor now render latest (d, some actor) =
      let (p, cs) = show_actor g actor (pacify_actor g r actor d) in
      if not r.drive
      then (p, cs)
      else move_actor f r.move now actor (sampled f render p.snapshots latest) latest (p, cs)

  unfoldable pub draw_latest : Space → ℕ → ℕ → Option TimedState → RemotePlayer → Drawn
  draw_latest local now render none p = (p, [])
  draw_latest local now render (some newest) p =
      let latest = newest.state in
      let target = space_from_state latest in
      let visible = is_same_area local target in
      let (freed, found) = drop_player g (actor_of g p.actor) p in
      draw_actor now render latest
        (ensure_actor g r now visible target latest (tear_down visible target found (freed, [])))

  -- `UpdateOne`.
  unfoldable pub update_one : Space → ℕ → ℕ → RemotePlayer → Drawn
  update_one local now render p =
      draw_latest local now render (back p.snapshots)
        (record p { snapshots = trim_history (f.is_old render) p.snapshots })

  unfoldable pub update_each :
      Space → ℕ → ℕ → List RemotePlayer → List RemotePlayer × List EngineCall
  update_each local now render [] = ([], [])
  update_each local now render (p ∷ ps) =
      let (q, calls) = update_one local now render p in
      let (qs, more) = update_each local now render ps in (q ∷ qs, calls ++ more)

-- `Update` where the local player has or has not a space.
unfoldable pub update_in_space : Motion → Engine → ℕ → Option Space → Remotes → Remotes
update_in_space f g now none r = r
update_in_space f g now (some local) r =
    let (players, calls) =
      update_each f g r local now (f.render_ms r.offset_ms r.interp_delay_ms) r.players in
    record r { players = players; calls = r.calls ++ calls }

unfoldable pub update_remotes : Motion → Engine → ℕ → Remotes → Remotes
update_remotes f g now r = update_in_space f g now (get_space g (get_player g g.player)) r
