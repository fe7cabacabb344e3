-- ===== src/Client/Game/Spared.antt =====
-- `UpdateOne` of client/src/Sync/RemotePlayers.cpp and the local player.
pub mod Frame
pub mod Whole
use f4mp.Base.{
  if_holds, ℕ, Bool, true, false, not, ◌&&◌, ◌||◌, Option, none, some, List, [], ◌∷◌, ◌++◌, map,
  ltb, if◌then◌else◌, back, All, All-append, Bytes, ap, subst, ◌≡◌, refl, sym, ◌∙◌, Bool-cases,
  Option-cases, inl, inr, arith,
}
use f4mp.Types.{PlayerState, Vec3}
use f4mp.Client.Game.{
  Space, Engine, Placement, is_player, is_same_area, space_from_state, spawn_player_clone,
  checked_handle, refuse_player, is_placed, placement,
}
use f4mp.Client.Game.Effects.{
  Deed, Action, Speeds, at_reference, despawn_ref, identify_ref, resolve_handle, effects,
}
use f4mp.Client.RemoteState.{
  TimedState, RemotePlayer, EngineCall, despawn, apply_clone_identity, create_clone_base,
  place_clone, Remotes,
}
use f4mp.Client.Remotes.Drawing.{
  Motion, Drawn, make, tear_down, drop_player, actor_of, as_actor, pacify_actor, show_actor,
  made_base, own_base, choose_base, identify, settle, take_actor, spawn_on, spawn, ensure_actor,
  drive_actor, set_dead, animate, move_actor, draw_actor, draw_latest, update_one,
}

else_some : (b : Bool) (o : Option ℕ) (x : ℕ) → (if b then none else o) ≡ some x → o ≡ some x
else_some true o x h = absurd (ground arith)
else_some false o x h = h

module _ (f : Motion) (s : Speeds) (g : Engine) where
  -- No reference that a call changes is the local player.
  pub record Spares (c : EngineCall) : Type 0 where
    others : All (λ (a : Action). is_player g a.0 ≡ false) (effects f s g c)

  at_reference-others :
      (ref : ℕ) (ds : List Deed)
      → is_player g ref ≡ false
      → All (λ (a : Action). is_player g a.0 ≡ false) (at_reference ref ds)
  at_reference-others ref [] h = tt
  at_reference-others ref (d ∷ ds) h = (h, at_reference-others ref ds h)

  despawn_ref-others :
      (o : Option ℕ) → All (λ (a : Action). is_player g a.0 ≡ false) (despawn_ref g o)
  unfolding despawn_ref
  despawn_ref-others none = tt
  despawn_ref-others (some ref) = elim (Bool-cases (is_player g ref)) [
    | inl e ↦ rw e tt
    | inr e ↦ rw e (e, (e, tt))
  ]

  identify_ref-others :
      (name : Bytes) (ghost : Bool) (o : Option ℕ)
      → ((ref : ℕ) → o ≡ some ref → is_player g ref ≡ false)
      → All (λ (a : Action). is_player g a.0 ≡ false) (identify_ref g name ghost o)
  unfolding identify_ref
  identify_ref-others name ghost none h = tt
  identify_ref-others name ghost (some ref) h = at_reference-others ref _ (h ref refl)

  pub Spares-despawn : (handle : Option ℕ) → Spares (despawn handle)
  unfolding effects
  Spares-despawn handle = record { others = despawn_ref-others (resolve_handle g handle) }

  -- What stands between two steps of `UpdateOne`.
  pub record Good (d : Drawn) : Type 0 where
    calls : All Spares d.1

  abbrev pub IsFree : Option ℕ → Type 0
  IsFree none = Unit
  IsFree (some actor) = is_player g actor ≡ false

  pub record GoodStep (e : Drawn × Option ℕ) : Type 0 where
    calls : Good e.0
    free : IsFree e.1

  pub make-Good : (c : EngineCall) (d : Drawn) → Spares c → Good d → Good (make c d)
  make-Good c (p, cs) h k = record { calls = All-append Spares cs (c ∷ []) k.calls (h, tt) }

  pub Good-if : (b : Bool) (d e : Drawn) → Good d → Good e → Good (if b then d else e)
  Good-if = if_holds Good

  pub GoodStep-if :
      (b : Bool) (d e : Drawn × Option ℕ) → GoodStep d → GoodStep e → GoodStep (if b then d else e)
  GoodStep-if = if_holds GoodStep

  refused :
      (o : Option ℕ) (made handle ref : ℕ)
      → refuse_player g made o ≡ some handle
      → o ≡ some ref
      → is_player g ref ≡ false
  refused none made handle ref h e = ground arith
  refused (some r) made handle ref h e = elim (Bool-cases (is_player g r)) [
    | inl y ↦ absurd (ground arith)
    | inr n ↦ ground arith
  ]

  refuse-same :
      (o : Option ℕ) (made handle : ℕ) → refuse_player g made o ≡ some handle → made ≡ handle
  refuse-same none made handle h = ground arith
  refuse-same (some r) made handle h = elim (Bool-cases (is_player g r)) [
    | inl y ↦ absurd (ground arith)
    | inr n ↦ ground arith
  ]

  checked-free :
      (o : Option ℕ) (handle ref : ℕ)
      → checked_handle g o ≡ some handle
      → g.resolve handle ≡ some ref
      → is_player g ref ≡ false
  checked-free none handle ref h e = absurd (ground arith)
  checked-free (some made) handle ref h e =
      let same = refuse-same (g.resolve made) made handle h in
      refused (g.resolve made) made handle ref h (ap g.resolve same ∙ e)

  spawned-free :
      (base : ℕ) (location : Vec3) (heading : ℕ) (space : Space) (handle ref : ℕ)
      → spawn_player_clone g base location heading space ≡ some handle
      → g.resolve handle ≡ some ref
      → is_player g ref ≡ false
  unfolding spawn_player_clone
  spawned-free base location heading space handle ref h e =
      let p = placement g base location heading space in
      let found = checked_handle g (g.create_reference p) in
      checked-free (g.create_reference p) handle ref
        (else_some (not (is_placed g p)) found handle
          (else_some (not g.has_data_handler) _ handle h))
        e

  pub actor_of-IsFree :
      (base : ℕ) (location : Vec3) (heading : ℕ) (space : Space) (o : Option ℕ)
      → spawn_player_clone g base location heading space ≡ o
      → IsFree (actor_of g o)
  actor_of-IsFree base location heading space none h = tt
  actor_of-IsFree base location heading space (some handle) h =
      of_ref (g.resolve handle) (λ ref e. spawned-free base location heading space handle ref h e)
    where
      if_actor :
          (b : Bool) (ref : ℕ) → is_player g ref ≡ false → IsFree (if b then some ref else none)
      if_actor true ref k = k
      if_actor false ref k = tt

      of_ref :
          (o : Option ℕ)
          → ((ref : ℕ) → o ≡ some ref → is_player g ref ≡ false)
          → IsFree (as_actor g o)
      of_ref none k = tt
      of_ref (some ref) k = if_actor (g.is_actor ref) ref (k ref refl)

  pub Spares-identify :
      (base : ℕ) (location : Vec3) (heading : ℕ) (space : Space) (handle : ℕ) (name : Bytes)
      (ghost : Bool)
      → spawn_player_clone g base location heading space ≡ some handle
      → Spares (apply_clone_identity handle name ghost)
  unfolding effects
  Spares-identify base location heading space handle name ghost h = record {
    others =
        identify_ref-others name ghost (g.resolve handle)
          (λ ref e. spawned-free base location heading space handle ref h e);
  }

  -- A call at an actor.
  pub Spares-actor :
      (c : EngineCall) (actor : ℕ) (ds : List Deed)
      → effects f s g c ≡ at_reference actor ds
      → is_player g actor ≡ false
      → Spares c
  Spares-actor c actor ds e h = record {
    others =
        subst (All (λ (a : Action). is_player g a.0 ≡ false)) (sym e)
          (at_reference-others actor ds h);
  }
