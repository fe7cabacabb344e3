-- ===== src/Client/Game/Spared/Whole.antt =====
-- `UpdateOne` and `Update` of client/src/Sync/RemotePlayers.cpp as a whole, and the local player.
use f4mp.Base.{
  ℕ, Bool, true, false, not, ◌&&◌, Option, none, some, List, [], ◌∷◌, if◌then◌else◌, back, All,
  All-append, ◌≡◌, refl,
}
use f4mp.Types.{PlayerState}
use f4mp.Client.Game.{Space, Engine, is_player, is_same_area, space_from_state}
use f4mp.Client.Game.Effects.{
  Speeds, effects, pacify_deeds, drive_deeds, move_deeds, state_flag_deeds, locomotion_deeds,
  set_alpha_one, kill_impl, resurrect_now,
}
use f4mp.Client.Game.Spared.{Spares, Good, GoodStep, make-Good, Good-if, Spares-actor}
use f4mp.Client.Game.Spared.Frame.{drop_player-IsFree, tear_down-GoodStep, ensure_actor-GoodStep}
use f4mp.Client.RemoteState.{
  TimedState, RemotePlayer, pacify_clone, set_opaque, drive_clone, drive_clone_by_move, kill,
  resurrect, apply_state_flags, set_locomotion, Remotes,
}
use f4mp.Client.Remotes.Drawing.{
  Motion, Drawn, tear_down, drop_player, actor_of, pacify_actor, show_actor, ensure_actor,
  drive_actor, set_dead, animate, move_actor, draw_actor, draw_latest, update_one, update_each,
  without_dead, has_bit, trim_history, track_speed,
}

module _ (f : Motion) (s : Speeds) (g : Engine) (actor : ℕ) (h : is_player g actor ≡ false) where
  pacify-Good : (r : Remotes) (d : Drawn) → Good f s g d → Good f s g (pacify_actor g r actor d)
  unfolding pacify_actor effects
  pacify-Good r (p, cs) k =
      Good-if f s g (r.pacify && not p.actor_pacified) _ (p, cs)
        (make-Good f s g (pacify_clone actor)
          (record p { actor_pacified = g.has_process actor }, cs)
          (Spares-actor f s g (pacify_clone actor) actor (pacify_deeds g actor) refl h)
          (record { calls = k.calls }))
        k

  show-Good : (d : Drawn) → Good f s g d → Good f s g (show_actor g actor d)
  unfolding show_actor effects
  show-Good d k =
      Good-if f s g (g.is_transparent actor) _ d
        (make-Good f s g (set_opaque actor) d
          (Spares-actor f s g (set_opaque actor) actor (set_alpha_one ∷ []) refl h) k)
        k

  drive-Good :
      (move : Bool) (dt : ℕ) (sample : PlayerState) (d : Drawn)
      → Good f s g d
      → Good f s g (drive_actor f move actor dt sample d)
  unfolding drive_actor effects
  drive-Good move dt sample d k =
      Good-if f s g (move && f.is_positive dt) _ _
        (make-Good f s g (drive_clone_by_move actor sample.position sample.yaw (f.cap_step dt)) d
          (Spares-actor f s g _ actor
            (move_deeds f s g actor sample.position sample.yaw (f.cap_step dt)) refl h)
          k)
        (make-Good f s g (drive_clone actor sample.position sample.yaw) d
          (Spares-actor f s g _ actor (drive_deeds sample.position sample.yaw) refl h) k)

  Spares-end : (dead : Bool) → Spares f s g (if dead then kill actor else resurrect actor)
  unfolding effects
  Spares-end true = Spares-actor f s g (kill actor) actor (kill_impl ∷ []) refl h
  Spares-end false = Spares-actor f s g (resurrect actor) actor (resurrect_now ∷ []) refl h

  set_dead-Good : (dead : Bool) (d : Drawn) → Good f s g d → Good f s g (set_dead dead actor d)
  unfolding set_dead
  set_dead-Good dead (p, cs) k =
      Good-if f s g _ _ (p, cs)
        (make-Good f s g _ (record p { actor_dead = dead }, cs) (Spares-end dead)
          (record { calls = k.calls }))
        k

  animate-Good : (flags : ℕ) (d : Drawn) → Good f s g d → Good f s g (animate flags actor d)
  unfolding animate effects
  animate-Good flags (p, cs) k =
      let alive = without_dead flags in
      make-Good f s g (set_locomotion actor p.speed (has_bit alive 8) (not p.locomotion_init)) _
        (Spares-actor f s g _ actor
          (locomotion_deeds f s g actor p.speed (has_bit alive 8) (not p.locomotion_init)) refl h)
        (make-Good f s g (apply_state_flags actor alive p.applied_flags) _
          (Spares-actor f s g _ actor (state_flag_deeds alive p.applied_flags) refl h)
          (record { calls = k.calls }))

  move-Good :
      (move : Bool) (now : ℕ) (sample latest : PlayerState) (d : Drawn)
      → Good f s g d
      → Good f s g (move_actor f move now actor sample latest d)
  unfolding move_actor
  move-Good move now sample latest (p, cs) k =
      let dt =
        if p.has_last_render then f.seconds_between p.last_render_time now else f.zero_seconds in
      let (driven, calls) = drive_actor f move actor dt sample (p, cs) in
      let tracked = record (track_speed f dt sample.position driven) {
        last_render_pos = sample.position;
        last_render_time = now;
        has_last_render = true;
      } in
      let dead = has_bit latest.flags 4 in
      let told =
        set_dead-Good dead (tracked, calls)
          (record { calls = (drive-Good move dt sample (p, cs) k).calls }) in
      Good-if f s g dead _ _ told (animate-Good latest.flags _ told)

module _ (f : Motion) (s : Speeds) (g : Engine) (r : Remotes) where
  draw_actor-Good :
      (now render : ℕ) (latest : PlayerState) (d : Drawn) (o : Option ℕ)
      → GoodStep f s g (d, o)
      → Good f s g (draw_actor f g r now render latest (d, o))
  unfolding draw_actor
  draw_actor-Good now render latest d none k = k.calls
  draw_actor-Good now render latest d (some actor) k =
      let shown =
        show-Good f s g actor k.free (pacify_actor g r actor d)
          (pacify-Good f s g actor k.free r d k.calls) in
      Good-if f s g (not r.drive) _ _ shown
        (move-Good f s g actor k.free r.move now _ latest _ shown)

  draw_latest-Good :
      (local : Space) (now render : ℕ) (o : Option TimedState) (p : RemotePlayer)
      → Good f s g (draw_latest f g r local now render o p)
  unfolding draw_latest
  draw_latest-Good local now render none p = record { calls = tt }
  draw_latest-Good local now render (some newest) p =
      let target = space_from_state newest.state in
      let visible = is_same_area local target in
      let (freed, found) = drop_player g (actor_of g p.actor) p in
      let torn = tear_down visible target found (freed, []) in
      let kept = ensure_actor g r now visible target newest.state torn in
      draw_actor-Good now render newest.state kept.0 kept.1 (
        ensure_actor-GoodStep f s g r now visible target newest.state torn.0 torn.1 (
          tear_down-GoodStep f s g visible target found (freed, [])
            (drop_player-IsFree f s g (actor_of g p.actor) p) (record { calls = tt })))

  update_one-Good :
      (local : Space) (now render : ℕ) (p : RemotePlayer)
      → Good f s g (update_one f g r local now render p)
  unfolding update_one
  update_one-Good local now render p =
      draw_latest-Good local now render (back p.snapshots)
        (record p { snapshots = trim_history (f.is_old render) p.snapshots })

  -- Whatever handles the players have, whatever the engine answers and hands out, and whatever the
  -- settings are, no call of a frame changes the local player.
  pub update_each-Spares :
      (local : Space) (now render : ℕ) (ps : List RemotePlayer)
      → All (Spares f s g) (update_each f g r local now render ps).1
  unfolding update_each
  update_each-Spares local now render [] = tt
  update_each-Spares local now render (p ∷ ps) =
      All-append (Spares f s g) _ _ (update_one-Good local now render p).calls
        (update_each-Spares local now render ps)
