-- ===== src/Client/Prologue/Phases.antt =====
-- client/src/Game/PrologueSkip.hpp: the state of the skip of a new game, and the parts of it that do not
-- look at the game.
use f4mp.Base.{
  ℕ, suc, ◌+◌, ◌-◌, Bool, true, false, not, ◌&&◌, Option, none, some, List, [], ◌∷◌, ◌++◌, ◌==◌,
  if◌then◌else◌, Bytes, codes, ℤ, pos, negsuc,
}
use f4mp.Ini.{lower_char}

-- `State`.
pub data Phase : Type 0 where
  idle armed sex_choice running wait_for_pod face_menu special_menu done : Phase

-- `Settings`; a `float` is its pattern.
pub record Settings : Type 0 where
  pub enabled : Bool
  pub start_delay : ℕ
  pub pod_timeout : ℕ
  pub commands : List Bytes
  pub chargen : Bool
  pub chargen_mode : ℕ

-- What the skip asks of the game.
pub data GameCall : Type 0 where
  console_print : Bytes → GameCall
  hide_menu : Bytes → GameCall
  ask : GameCall
  run_line : Bytes → GameCall
  show_race_menu : ℕ → GameCall
  show_special_menu : GameCall
  restore_player_control : GameCall

-- `choice` is `g_sexChoice`, which is `none` while it is -1. A time is in nanoseconds.
pub record Skip : Type 0 where
  pub settings : Settings
  pub phase : Phase
  pub next : ℕ
  pub armed_at : ℕ
  pub quest_started_at : ℕ
  pub state_since : ℕ
  pub wait_until : ℕ
  pub face_menu_seen : Bool
  pub special_menu_seen : Bool
  pub logged_waiting : Bool
  pub sex_changed : Bool
  pub choice : Option ℕ
  pub calls : List GameCall

-- What a call sees of the game and of the libraries, the same throughout the call: the clock, whether
-- the player has a cell (`GetPlayer`) and whether there is one (`GetSingleton`), its sex and its body,
-- the stage of a quest that exists, whether a menu is open where the interface knows it, whether the
-- queue of the interface, the manager of message boxes and the script machine are there, a `float`
-- of seconds as a duration, and the `float` that `std::from_chars` finds in front of a text.
pub record Sight : Type 0 where
  pub now : ℕ
  pub placed : Bool
  pub exists : Bool
  pub sex : ℕ
  pub is_3d_loaded : Bool
  pub quest : ℕ → Option ℕ
  pub menu : Bytes → Option Bool
  pub has_queue : Bool
  pub has_manager : Bool
  pub has_vm : Bool
  pub seconds : ℕ → ℤ
  pub read_float : Bytes → Option ℕ

abbrev pub mq101 : ℕ
mq101 = 0x1ED86

abbrev pub mq102 : ℕ
mq102 = 0x1CC2A

abbrev pub mq101_started : ℕ
mq101_started = 10

abbrev pub mq101_pod_opens : ℕ
mq101_pod_opens = 900

abbrev pub looks_menu : Bytes
looks_menu = codes "LooksMenu"

abbrev pub special_menu_name : Bytes
special_menu_name = codes "SPECIALMenu"

-- The floats 3, 45 and 3.
abbrev pub menu_grace : ℕ
menu_grace = 0x4040_0000

abbrev pub quest_start_fallback : ℕ
quest_start_fallback = 0x4234_0000

abbrev pub sex_change_settle : ℕ
sex_change_settle = 0x4040_0000

abbrev pub starts_with_ignore_case : Bytes → Bytes → Bool
starts_with_ignore_case s [] = true
starts_with_ignore_case [] (q ∷ prefix) = false
starts_with_ignore_case (c ∷ s) (q ∷ prefix) =
    lower_char c == lower_char q && starts_with_ignore_case s prefix

-- `now + duration`. A time before the start of the clock stands as its start, which no test of a
-- time against `now` tells apart.
abbrev pub time_after : ℕ → ℤ → ℕ
time_after now (pos d) = now + d
time_after now (negsuc d) = now - suc d

-- `IsActive`.
abbrev pub is_active : Phase → Bool
is_active idle = false
is_active done = false
is_active _ = true

abbrev pub is_running : Phase → Bool
is_running running = true
is_running _ = false

abbrev pub game_call : GameCall → Skip → Skip
game_call c k = record k { calls = k.calls ++ c ∷ [] }

unfoldable pub configure : Settings → Skip → Skip
configure settings k = record k { settings = settings }

unfoldable pub on_new_game : ℕ → Skip → Skip
on_new_game now k = if not k.settings.enabled then record k { phase = done } else record k {
  phase = armed;
  armed_at = now;
  quest_started_at = 0;
  next = 0;
  face_menu_seen = false;
  special_menu_seen = false;
  logged_waiting = false;
  sex_changed = false;
  choice = none;
}

unfoldable pub on_leave_world : Skip → Skip
on_leave_world k = record k { phase = idle }

-- The callback of the message box.
unfoldable pub answer : ℕ → Skip → Skip
answer button k = record k { choice = some button }

unfoldable pub finish : Skip → Skip
finish k = record k { phase = done }

-- The values of `StageOf` and of `IsMenuOpen`.
abbrev pub stage_of_quest : Option ℕ → ℕ
stage_of_quest none = 0
stage_of_quest (some stage) = stage

abbrev pub is_open : Option Bool → Bool
is_open none = false
is_open (some shown) = shown

-- Whether `Start` asks for the sex.
abbrev pub is_asking : Settings → Bool
is_asking s = s.chargen && s.chargen_mode == 0

-- The seconds of a command "wait <seconds>"; 1 where there is no number.
abbrev pub wait_seconds : Option ℕ → ℕ
wait_seconds none = 0x3F80_0000
wait_seconds (some f) = f

abbrev pub is_wait : Bytes → Bool
is_wait cmd = starts_with_ignore_case cmd (codes "wait ")
