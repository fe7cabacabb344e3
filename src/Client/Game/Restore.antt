-- ===== src/Client/Game/Restore.antt =====
-- `RestorePlayerControl` of client/src/Game/GameUtil.cpp.
use f4mp.Base.{
  ℕ, Bool, true, false, not, Option, none, some, List, [], ◌∷◌, ◌++◌, if◌then◌else◌, Bytes, codes,
}

-- What it asks of the engine: events on a layer of input, lines of the console, functions of the
-- script machine with their arguments, and a menu.
pub data ControlCall : Type 0 where
  enable_user_events enable_other_events : ℕ → ControlCall
  silent_line : Bytes → ControlCall
  invoke_flags : Bytes → Bool → Bool → Bool → ControlCall
  invoke_mode : Bytes → ℕ → ControlCall
  invoke : Bytes → ControlCall
  show_menu : Bytes → ControlCall

-- What it sees: the layers of input if there is a manager of them, each with its id unless it is
-- empty, and whether there are the script machine, the interface and its queue, and whether the menu
-- of the HUD is open where the interface knows it.
pub record Controls : Type 0 where
  pub layers : Option (List (Option ℕ))
  pub has_vm : Bool
  pub has_ui : Bool
  pub has_queue : Bool
  pub hud_open : Option Bool

unfoldable pub layer_calls : List (Option ℕ) → List ControlCall
layer_calls [] = []
layer_calls (none ∷ layers) = layer_calls layers
layer_calls (some id ∷ layers) = enable_user_events id ∷ enable_other_events id ∷ layer_calls layers

unfoldable pub input_calls : Option (List (Option ℕ)) → List ControlCall
input_calls none = []
input_calls (some layers) = layer_calls layers

abbrev script_calls : List ControlCall
script_calls =
    invoke_flags (codes "SetInCharGen") false false false
    ∷ invoke_mode (codes "SetCharGenHUDMode") 0
    ∷ invoke (codes "ForceFirstPerson")
    ∷ []

-- `value_or(true)`.
abbrev or_true : Option Bool → Bool
or_true none = true
or_true (some b) = b

unfoldable pub hud_calls : Controls → List ControlCall
hud_calls c =
    if not c.has_ui
    then []
    else if not c.has_queue
    then []
    else if or_true c.hud_open
    then []
    else show_menu (codes "HUDMenu") ∷ []

unfoldable pub restore_control : Controls → List ControlCall
restore_control c =
    input_calls c.layers
    ++ (silent_line (codes "EnablePlayerControls")
        ∷ silent_line (codes "player.ChangeAnimArchetype")
        ∷ ((if c.has_vm then script_calls else []) ++ hud_calls c))
