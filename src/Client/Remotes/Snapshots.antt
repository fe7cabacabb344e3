-- ===== src/Client/Remotes/Snapshots.antt =====
-- `UpdateOne` of client/src/Sync/RemotePlayers.cpp and what lasts of a player: the id, the name, and the
-- snapshots, of which it only forgets some.
use f4mp.Base.{
  if_holds, ℕ, Bool, not, Option, none, some, List, [], if◌then◌else◌, back, ◌≡◌, refl, ◌∙◌, arith,
  ap, Bytes,
}
use f4mp.Types.{PlayerState, Vec3}
use f4mp.Client.Game.{Space, Engine, is_same_area, space_from_state}
use f4mp.Client.RemoteState.{TimedState, RemotePlayer, Remotes}
use f4mp.Client.Remotes.Drawing.{
  Motion, Drawn, tear_down, drop_player, actor_of, pacify_actor, show_actor, made_base, own_base,
  choose_base, take_actor, spawn_on, spawn, ensure_actor, drive_actor, set_dead, animate,
  track_speed, move_actor, draw_actor, draw_latest, update_one, trim_history, has_bit,
}

-- What a frame does not change of a player, but for the history that it forgets.
pub record Lasting : Type 0 where
  pub id : ℕ
  pub name : Bytes
  pub snapshots : List TimedState

abbrev pub lasting : RemotePlayer → Lasting
lasting p = record { id = p.id; name = p.name; snapshots = p.snapshots }

module _ (g : Engine) where
  drop_player-same : (o : Option ℕ) (p : RemotePlayer) → lasting (drop_player g o p).0 ≡ lasting p
  unfolding drop_player
  drop_player-same none p = refl
  drop_player-same (some actor) p = ground arith

tear_down-same :
    (visible : Bool) (target : Space) (o : Option ℕ) (d : Drawn)
    → lasting (tear_down visible target o d).0.0 ≡ lasting d.0
unfolding tear_down
tear_down-same visible target none d = refl
tear_down-same visible target (some actor) d = ground arith

module _ (g : Engine) (r : Remotes) where
  choose_base-same : (d : Drawn) → lasting (choose_base g r d).0.0 ≡ lasting d.0
  unfolding choose_base own_base made_base
  choose_base-same d = ground arith

  take_actor-same :
      (target : Space) (o : Option ℕ) (d : Drawn)
      → lasting (take_actor g r target o d).0.0 ≡ lasting d.0
  unfolding take_actor
  take_actor-same target none d = refl
  take_actor-same target (some actor) d = ground arith

  pacify-same : (actor : ℕ) (d : Drawn) → lasting (pacify_actor g r actor d).0 ≡ lasting d.0
  unfolding pacify_actor
  pacify-same actor d = ground arith

  spawn_on-same :
      (target : Space) (latest : PlayerState) (d : Drawn) (o : Option ℕ)
      → lasting (spawn_on g r target latest (d, o)).0.0 ≡ lasting d.0
  unfolding spawn_on
  spawn_on-same target latest d none = refl
  spawn_on-same target latest d (some base) = take_actor-same target _ _

  spawn-same :
      (now : ℕ) (visible : Bool) (target : Space) (latest : PlayerState) (d : Drawn)
      → lasting (spawn g r now visible target latest d).0.0 ≡ lasting d.0
  unfolding spawn
  spawn-same now visible target latest (p, cs) =
      let tried = choose_base g r (record p { last_spawn_attempt = now }, cs) in
      let chosen = choose_base-same (record p { last_spawn_attempt = now }, cs) in
      let placed = spawn_on-same target latest tried.0 tried.1 in ground (arith, chosen, placed)

  ensure_actor-same :
      (now : ℕ) (visible : Bool) (target : Space) (latest : PlayerState) (d : Drawn) (o : Option ℕ)
      → lasting (ensure_actor g r now visible target latest (d, o)).0.0 ≡ lasting d.0
  unfolding ensure_actor
  ensure_actor-same now visible target latest d none = spawn-same now visible target latest d
  ensure_actor-same now visible target latest d (some actor) = refl

show-same : (g : Engine) (actor : ℕ) (d : Drawn) → lasting (show_actor g actor d).0 ≡ lasting d.0
unfolding show_actor
show-same g actor d = ground arith

module _ (f : Motion) where
  drive-same :
      (move : Bool) (actor dt : ℕ) (sample : PlayerState) (d : Drawn)
      → lasting (drive_actor f move actor dt sample d).0 ≡ lasting d.0
  unfolding drive_actor
  drive-same move actor dt sample d = ground arith

  track_speed-same :
      (dt : ℕ) (position : Vec3) (p : RemotePlayer)
      → lasting (track_speed f dt position p) ≡ lasting p
  unfolding track_speed
  track_speed-same dt position p = ground arith

set_dead-same :
    (dead : Bool) (actor : ℕ) (d : Drawn) → lasting (set_dead dead actor d).0 ≡ lasting d.0
unfolding set_dead
set_dead-same dead actor d = ground arith

animate-same : (flags actor : ℕ) (d : Drawn) → lasting (animate flags actor d).0 ≡ lasting d.0
unfolding animate
animate-same flags actor d = refl

same_if :
    (b : Bool) (d e : Drawn) (l : Lasting)
    → lasting d.0 ≡ l
    → lasting e.0 ≡ l
    → lasting (if b then d else e).0 ≡ l
same_if b d e l = if_holds (λ (u : Drawn). lasting u.0 ≡ l) b d e

module _ (f : Motion) where
  move-same :
      (move : Bool) (now actor : ℕ) (sample latest : PlayerState) (d : Drawn)
      → lasting (move_actor f move now actor sample latest d).0 ≡ lasting d.0
  unfolding move_actor
  move-same move now actor sample latest (p, cs) =
      let dt =
        if p.has_last_render then f.seconds_between p.last_render_time now else f.zero_seconds in
      let driven = drive_actor f move actor dt sample (p, cs) in
      let tracked =
        track_speed-same f dt sample.position driven.0
        ∙ drive-same f move actor dt sample (p, cs) in
      let told = set_dead-same (has_bit latest.flags 4) actor _ ∙ tracked in
      same_if (has_bit latest.flags 4) _ _ (lasting p) told
        (animate-same latest.flags actor _ ∙ told)

  module _ (g : Engine) (r : Remotes) where
    draw_actor-same :
        (now render : ℕ) (latest : PlayerState) (d : Drawn) (o : Option ℕ)
        → lasting (draw_actor f g r now render latest (d, o)).0 ≡ lasting d.0
    unfolding draw_actor
    draw_actor-same now render latest d none = refl
    draw_actor-same now render latest d (some actor) =
        let shown = show-same g actor (pacify_actor g r actor d) ∙ pacify-same g r actor d in
        same_if (not r.drive) _ _ (lasting d.0) shown
          (move-same r.move now actor _ latest _ ∙ shown)

    draw_latest-same :
        (local : Space) (now render : ℕ) (o : Option TimedState) (p : RemotePlayer)
        → lasting (draw_latest f g r local now render o p).0 ≡ lasting p
    unfolding draw_latest
    draw_latest-same local now render none p = refl
    draw_latest-same local now render (some newest) p =
        let target = space_from_state newest.state in
        let visible = is_same_area local target in
        let (freed, found) = drop_player g (actor_of g p.actor) p in
        let torn = tear_down visible target found (freed, []) in
        let kept = ensure_actor g r now visible target newest.state torn in
        draw_actor-same now render newest.state kept.0 kept.1
        ∙ (ensure_actor-same g r now visible target newest.state torn.0 torn.1
            ∙ (tear_down-same visible target found (freed, [])
                ∙ drop_player-same g (actor_of g p.actor) p))

    pub update_one-lasting :
        (local : Space) (now render : ℕ) (p : RemotePlayer)
        → lasting (update_one f g r local now render p).0
          ≡ lasting (record p { snapshots = trim_history (f.is_old render) p.snapshots })
    unfolding update_one
    update_one-lasting local now render p =
        draw_latest-same local now render (back p.snapshots)
          (record p { snapshots = trim_history (f.is_old render) p.snapshots })

    pub update_one-snapshots :
        (local : Space) (now render : ℕ) (p : RemotePlayer)
        → ((update_one f g r local now render p).0).snapshots
          ≡ trim_history (f.is_old render) p.snapshots
    update_one-snapshots local now render p =
        ap (λ (l : Lasting). l.snapshots) (update_one-lasting local now render p)
