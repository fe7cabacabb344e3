-- ===== src/Client/Game/Spared/Frame.antt =====
-- `UpdateOne` of client/src/Sync/RemotePlayers.cpp, step by step, and the local player.
use f4mp.Base.{
  if_holds, ℕ, ◌+◌, Bool, true, not, ◌||◌, Option, none, some, List, ltb, if◌then◌else◌, Bytes, ◌≡◌,
  refl, Bool-cases, inl, inr,
}
use f4mp.Types.{PlayerState, Vec3}
use f4mp.Client.Game.{Space, Engine, is_player, is_same_area, spawn_player_clone}
use f4mp.Client.Game.Effects.{Speeds, effects}
use f4mp.Client.Game.Spared.{
  Spares, Good, IsFree, GoodStep, Spares-despawn, make-Good, Good-if, GoodStep-if, actor_of-IsFree,
  Spares-identify,
}
use f4mp.Client.RemoteState.{
  RemotePlayer, EngineCall, despawn, create_clone_base, place_clone, Remotes,
}
use f4mp.Client.Remotes.Drawing.{
  Motion, Drawn, tear_down, drop_player, actor_of, made_base, own_base, choose_base, identify,
  settle, take_actor, spawn_on, spawn, ensure_actor, spawn_retry_interval,
}

module _ (f : Motion) (s : Speeds) (g : Engine) where
  Spares-create :
      (source : ℕ) (name : Bytes) (ghost : Bool)
      → Spares f s g (create_clone_base source name ghost)
  unfolding effects
  Spares-create source name ghost = record { others = tt }

  Spares-place :
      (base : ℕ) (location : Vec3) (heading : ℕ) (space : Space)
      → Spares f s g (place_clone base location heading space)
  unfolding effects
  Spares-place base location heading space = record { others = tt }

  pub drop_player-IsFree : (o : Option ℕ) (p : RemotePlayer) → IsFree f s g (drop_player g o p).1
  unfolding drop_player
  drop_player-IsFree none p = tt
  drop_player-IsFree (some actor) p = elim (Bool-cases (is_player g actor)) [
    | inl e ↦ rw e tt
    | inr e ↦ rw e e
  ]

  pub tear_down-GoodStep :
      (visible : Bool) (target : Space) (o : Option ℕ) (d : Drawn)
      → IsFree f s g o
      → Good f s g d
      → GoodStep f s g (tear_down visible target o d)
  unfolding tear_down
  tear_down-GoodStep visible target none d h k = record { calls = k; free = tt }
  tear_down-GoodStep visible target (some actor) (p, cs) h k =
      GoodStep-if f s g (not visible || not (is_same_area target p.actor_space)) _ _
        (record {
          calls =
              make-Good f s g (despawn p.actor) (record p { actor = none }, cs)
                (Spares-despawn f s g p.actor) (record { calls = k.calls });
          free = tt;
        })
        (record { calls = k; free = h })

  GoodFirst-if :
      (b : Bool) (d e : Drawn × Option ℕ)
      → Good f s g d.0
      → Good f s g e.0
      → Good f s g (if b then d else e).0
  GoodFirst-if = if_holds (λ (d : Drawn × Option ℕ). Good f s g d.0)

module _ (f : Motion) (s : Speeds) (g : Engine) (r : Remotes) where
  made_base-Good : (o : Option ℕ) (d : Drawn) → Good f s g d → Good f s g (made_base g r o d).0
  unfolding made_base
  made_base-Good none (p, cs) k = record { calls = k.calls }
  made_base-Good (some base) (p, cs) k = record { calls = k.calls }

  own_base-Good : (o : Option ℕ) (d : Drawn) → Good f s g d → Good f s g (own_base g r o d).0
  unfolding own_base
  own_base-Good (some base) d k = k
  own_base-Good none (p, cs) k =
      GoodFirst-if f s g p.base_failed ((p, cs), none) _ k
        (made_base-Good _ _ (make-Good f s g _ (p, cs) (Spares-create f s g _ _ _) k))

  choose_base-Good : (d : Drawn) → Good f s g d → Good f s g (choose_base g r d).0
  unfolding choose_base
  choose_base-Good (p, cs) k = GoodFirst-if f s g r.duplicate _ _ (own_base-Good p.base (p, cs) k) (
      GoodFirst-if f s g (g.is_npc r.base_form_id) ((p, cs), some r.base_form_id)
        ((record p { base_failed = true }, cs), none) k (record { calls = k.calls }))

  identify-Good :
      (base : ℕ) (location : Vec3) (heading : ℕ) (space : Space) (o : Option ℕ) (d : Drawn)
      → spawn_player_clone g base location heading space ≡ o
      → Good f s g d
      → Good f s g (identify g r o d)
  identify-Good base location heading space none d e k = k
  identify-Good base location heading space (some handle) (p, cs) e k =
      Good-if f s g r.duplicate (p, cs) _ k
        (make-Good f s g _ (p, cs)
          (Spares-identify f s g base location heading space handle p.name r.ghost e) k)

  settle-Good : (target : Space) (d : Drawn) → Good f s g d → Good f s g (settle g r target d)
  settle-Good target (p, cs) k = record { calls = k.calls }

  take_actor-GoodStep :
      (base : ℕ) (location : Vec3) (heading : ℕ) (space target : Space) (o : Option ℕ)
      (p : RemotePlayer) (cs : List EngineCall)
      → spawn_player_clone g base location heading space ≡ p.actor
      → IsFree f s g o
      → Good f s g (p, cs)
      → GoodStep f s g (take_actor g r target o (p, cs))
  unfolding take_actor
  take_actor-GoodStep base location heading space target none p cs e h k = record {
    calls = k;
    free = tt;
  }
  take_actor-GoodStep base location heading space target (some actor) p cs e h k = record {
    calls =
        settle-Good target (identify g r p.actor (p, cs))
          (identify-Good base location heading space p.actor (p, cs) e k);
    free = h;
  }

  spawn_on-GoodStep :
      (target : Space) (latest : PlayerState) (d : Drawn) (o : Option ℕ)
      → Good f s g d
      → GoodStep f s g (spawn_on g r target latest (d, o))
  unfolding spawn_on
  spawn_on-GoodStep target latest d none k = record { calls = k; free = tt }
  spawn_on-GoodStep target latest (p, cs) (some base) k =
      let handle = spawn_player_clone g base latest.position latest.yaw target in
      take_actor-GoodStep base latest.position latest.yaw target target (actor_of g handle)
        (record p { actor = handle }) _ refl
        (actor_of-IsFree f s g base latest.position latest.yaw target handle refl)
        (make-Good f s g (place_clone base latest.position latest.yaw target)
          (record p { actor = handle }, cs) (Spares-place f s g _ _ _ _)
          (record { calls = k.calls }))

  spawn-GoodStep :
      (now : ℕ) (visible : Bool) (target : Space) (latest : PlayerState) (d : Drawn)
      → Good f s g d
      → GoodStep f s g (spawn g r now visible target latest d)
  unfolding spawn
  spawn-GoodStep now visible target latest (p, cs) k =
      let tried = choose_base g r (record p { last_spawn_attempt = now }, cs) in
      GoodStep-if f s g (not visible || ltb now (p.last_spawn_attempt + spawn_retry_interval)) _ _
        (record { calls = k; free = tt })
        (spawn_on-GoodStep target latest tried.0 tried.1 (
          choose_base-Good (record p { last_spawn_attempt = now }, cs)
            (record { calls = k.calls })))

  pub ensure_actor-GoodStep :
      (now : ℕ) (visible : Bool) (target : Space) (latest : PlayerState) (d : Drawn) (o : Option ℕ)
      → GoodStep f s g (d, o)
      → GoodStep f s g (ensure_actor g r now visible target latest (d, o))
  unfolding ensure_actor
  ensure_actor-GoodStep now visible target latest d none k =
      spawn-GoodStep now visible target latest d k.calls
  ensure_actor-GoodStep now visible target latest d (some actor) k = k
