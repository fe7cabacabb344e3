-- ===== src/Client/Session/Graph.antt =====
-- `PrintGraph` of client/src/Session.cpp, with the values of the graph of animations of
-- client/src/Game/GameUtil.cpp.
use f4mp.Base.{
  ℕ, zero, suc, ◌-◌, Bool, true, false, not, ◌&&◌, ◌||◌, Option, none, some, List, [], ◌∷◌, ◌++◌,
  length, if◌then◌else◌, is_empty, Bytes, codes,
}
use f4mp.Client.Game.{Engine, get_player}
use f4mp.Client.RemoteState.{RemotePlayer}
use f4mp.Client.Remotes.Drawing.{actor_of}
use f4mp.Client.Session.{Session, Moment, console}
use f4mp.Client.Session.Printing.{bool_text}

-- The three readings, each where there is one: `none` is a false `asFloat`, `asInt` or `asBool`.
pub record GraphValue : Type 0 where
  pub f : Option ℕ
  pub i : Option ℕ
  pub b : Option Bool

abbrev pub no_value : GraphValue
no_value = record { f = none; i = none; b = none }

-- A variable of an actor, and the texts of a `float` with two decimals and of an `int32_t`.
pub record Graph : Type 0 where
  pub variable : ℕ → Bytes → GraphValue
  pub fixed_2 : ℕ → Bytes
  pub show_int : ℕ → Bytes

abbrev pub is_some {ℓ} : {A : Type ℓ} → Option A → Bool
is_some none = false
is_some (some a) = true

abbrev does_exist : GraphValue → Bool
does_exist v = is_some v.f || (is_some v.i || is_some v.b)

-- `out += (out.empty() ? "" : " ") + text`.
abbrev join_text : Bytes → Bytes → Bytes
join_text out text = if is_empty out then text else out ++ (codes " " ++ text)

unfoldable pub candidates : List Bytes
candidates =
    codes "Speed"
    ∷ codes "SpeedSampled"
    ∷ codes "SpeedDamped"
    ∷ codes "fSpeed"
    ∷ codes "MoveSpeed"
    ∷ codes "fMoveSpeed"
    ∷ codes "Direction"
    ∷ codes "DirectionSampled"
    ∷ codes "DirectionDamped"
    ∷ codes "TurnDelta"
    ∷ codes "fTurnDelta"
    ∷ codes "LocomotionSpeed"
    ∷ codes "fLocomotionSpeed"
    ∷ codes "SpeedTarget"
    ∷ codes "DesiredSpeed"
    ∷ codes "IsRunning"
    ∷ codes "IsSprinting"
    ∷ codes "IsWalking"
    ∷ codes "IsMoving"
    ∷ codes "bIsMoving"
    ∷ codes "bIsSynced"
    ∷ codes "iState"
    ∷ codes "iSyncTurnState"
    ∷ codes "iSyncIdleLocomotion"
    ∷ codes "bMotionDriven"
    ∷ codes "bAnimationDriven"
    ∷ codes "iIsInSneak"
    ∷ codes "IsBlocking"
    ∷ codes "IsAttacking"
    ∷ codes "bAimActive"
    ∷ codes "IsDead"
    ∷ codes "bEquipOk"
    ∷ codes "bInJumpState"
    ∷ codes "fFallTime"
    ∷ codes "bIsStaggering"
    ∷ codes "IsCasting"
    ∷ codes "iLeftHandType"
    ∷ codes "iRightHandType"
    ∷ codes "bWantsToSprint"
    ∷ codes "bIsCrouching"
    ∷ []

-- `{:<22}`.
unfoldable pub blanks : ℕ → Bytes
blanks zero = []
blanks (suc n) = b' ' ∷ blanks n

abbrev pub padded : Bytes → Bytes
padded name = name ++ blanks (22 - length name)

module _ (graph : Graph) where
  unfoldable pub add_float : Option ℕ → Bytes → Bytes
  add_float none out = out
  add_float (some f) out = out ++ (codes "f=" ++ graph.fixed_2 f)

  unfoldable pub add_int : Option ℕ → Bytes → Bytes
  add_int none out = out
  add_int (some i) out = join_text out (codes "i=" ++ graph.show_int i)

  unfoldable pub add_bool : Option Bool → Bytes → Bytes
  add_bool none out = out
  add_bool (some b) out = join_text out (codes "b=" ++ bool_text b)

  -- `Describe`.
  unfoldable pub describe : GraphValue → Bytes
  describe v =
      if not (does_exist v) then codes "-" else add_bool v.b (add_int v.i (add_float v.f []))

  -- `ReadGraphValue`.
  unfoldable pub read_graph_value : Option ℕ → Bytes → GraphValue
  read_graph_value none name = no_value
  read_graph_value (some actor) name = graph.variable actor name

  -- The lines of the names that a graph has, and their number.
  unfoldable pub graph_lines : Option ℕ → Option ℕ → List Bytes → List Bytes
  graph_lines local clone [] = []
  graph_lines local clone (name ∷ names) =
      let mine = read_graph_value local name in
      let theirs = read_graph_value clone name in
      let rest = graph_lines local clone names in
      if not (does_exist mine) && not (does_exist theirs)
      then rest
      else (codes "  "
          ++ (padded name
              ++ (codes " you ["
                  ++ (describe mine ++ (codes "]  clone [" ++ (describe theirs ++ codes "]"))))))
        ∷ rest

-- The first clone that exists, with its name.
unfoldable pub first_clone : Engine → List RemotePlayer → Option (ℕ × Bytes)
first_clone g [] = none
first_clone g (p ∷ ps) =
    let rest = first_clone g ps in
    elim (actor_of g p.actor) [ none ↦ rest | some actor ↦ some (actor, p.name) ]

abbrev clone_actor : Option (ℕ × Bytes) → Option ℕ
clone_actor none = none
clone_actor (some (actor, name)) = some actor

abbrev clone_note : Option (ℕ × Bytes) → Bytes
clone_note none = codes " (no clone spawned)"
clone_note (some (actor, name)) = codes " vs clone \"" ++ (name ++ codes "\"")

unfoldable pub print_lines : List Bytes → Session → Session
print_lines [] s = s
print_lines (line ∷ lines) s = print_lines lines (console line s)

unfoldable pub print_graph : Moment → Graph → List Bytes → Session → Session
print_graph m graph given s =
    let g = m.engine in
    let clone = first_clone g (s.remotes).players in
    let names = if is_empty given then candidates else given in
    let lines = graph_lines graph (get_player g g.player) (clone_actor clone) names in
    console
      (codes "  "
        ++ (m.world.show (length lines)
            ++ (codes " of "
                ++ (m.world.show (length names) ++ codes " name(s) exist in a behaviour graph"))))
      (print_lines lines (console (codes "[F4MP] graph variables: you" ++ clone_note clone) s))
