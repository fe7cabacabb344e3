-- ===== src/Client/Prologue.antt =====
-- client/src/Game/PrologueSkip.cpp: the skipping of a new game's prologue, a state machine that
-- `Update` moves once per frame.
pub mod Moves
pub mod Progress
pub mod Ending
pub mod Batch
pub mod Phases
use f4mp.Base.{
  ℕ, zero, suc, ◌+◌, ◌-◌, Bool, true, false, not, ◌&&◌, ◌||◌, Option, none, some, List, [], ◌∷◌,
  ◌++◌, ltb, leb, ◌==◌, if◌then◌else◌, length, drop, Bytes, codes, ℤ, pos, negsuc, diff, int_ltb,
}
use f4mp.Ini.{lower_char}
unfoldable pub use f4mp.Client.Prologue.Phases.{
  configure, on_new_game, on_leave_world, answer, finish,
}
pub use f4mp.Client.Prologue.Phases.{
  Phase, Settings, GameCall, Skip, Sight, mq101, mq102, mq101_started, mq101_pod_opens, looks_menu,
  special_menu_name, menu_grace, quest_start_fallback, sex_change_settle, starts_with_ignore_case,
  time_after, is_active, is_running, game_call, stage_of_quest, is_open, is_asking, wait_seconds,
  is_wait, idle, armed, sex_choice, running, wait_for_pod, face_menu, special_menu, done,
  console_print, hide_menu, ask, run_line, show_race_menu, show_special_menu,
  restore_player_control,
}

module _ (v : Sight) where
  -- `StageOf` and `IsMenuOpen`.
  abbrev stage_of : ℕ → ℕ
  stage_of id = stage_of_quest (v.quest id)

  abbrev pub is_menu_open : Bytes → Bool
  is_menu_open name = is_open (v.menu name)

  -- `now - since < Seconds(d)` and `now - since > Seconds(d)`.
  abbrev is_within : ℕ → ℕ → Bool
  is_within since d = int_ltb (diff v.now since) (v.seconds d)

  abbrev is_past : ℕ → ℕ → Bool
  is_past since d = int_ltb (v.seconds d) (diff v.now since)

  unfoldable pub begin_commands : Skip → Skip
  begin_commands k = record k { next = 0; wait_until = v.now; state_since = v.now; phase = running }

  unfoldable pub ask_sex : Skip → Skip
  ask_sex k =
      if not v.has_manager
      then begin_commands k
      else game_call ask
          (record k { choice = none; wait_until = v.now; state_since = v.now; phase = sex_choice })

  -- The mirror's character creator is closed.
  unfoldable pub close_mirror : Skip → Skip
  close_mirror k =
      if is_menu_open looks_menu && v.has_queue then game_call (hide_menu looks_menu) k else k

  unfoldable pub start_skip : Skip → Skip
  start_skip k =
      let told = game_call (console_print (codes "[F4MP] Skipping the prologue...")) k in
      if leb mq101_pod_opens (stage_of mq101) || leb 1 (stage_of mq102)
      then finish k
      else if is_asking k.settings
      then ask_sex (close_mirror told)
      else begin_commands (close_mirror told)

  -- Whether the player's sex is the chosen one: 0 is male and 1 is female, and button 1 is "Female".
  abbrev is_wanted : ℕ → Bool
  is_wanted choice = v.exists && v.sex == (if choice == 1 then 1 else 0)

  unfoldable pub apply_sex_choice : ℕ → Skip → Skip
  apply_sex_choice choice k =
      if not (is_wanted choice) && not k.sex_changed
      then game_call (run_line (codes "player.sexchange")) (record k {
        sex_changed = true;
        wait_until = time_after v.now (v.seconds sex_change_settle);
      })
      else begin_commands k

  -- `RunNextCommand` on the commands from `next` on.
  unfoldable pub run_first : List Bytes → Skip → Skip × Bool
  run_first [] k =
      let since = record k { state_since = v.now } in
      ((if k.settings.chargen then record since { phase = wait_for_pod } else finish since), false)
  run_first (cmd ∷ cmds) k =
      let taken = record k { next = k.next + 1 } in
      if is_wait cmd
      then (
        record taken {
          wait_until = time_after v.now (v.seconds (wait_seconds (v.read_float (drop 5 cmd))));
        },
        false,
      )
      else (game_call (run_line cmd) taken, true)

  unfoldable pub run_next_command : Skip → Skip × Bool
  run_next_command k = run_first (drop k.next k.settings.commands) k

  -- `while (_state == State::kRunning && RunNextCommand()) {}`, at most `fuel` times.
  unfoldable pub run_batch : ℕ → Skip → Skip
  run_batch zero k = k
  run_batch (suc fuel) k =
      let (stepped, more) = run_next_command k in
      let rest = run_batch fuel stepped in
      if is_running k.phase then (if more then rest else stepped) else k

  unfoldable pub open_face_menu : Skip → Skip
  open_face_menu k =
      if not v.exists || not v.has_vm
      then finish k
      else game_call (show_race_menu 1)
          (record k { face_menu_seen = false; state_since = v.now; phase = face_menu })

  unfoldable pub open_special_menu : Skip → Skip
  open_special_menu k =
      if is_menu_open special_menu_name
      then k
      else if not v.has_vm
      then k
      else game_call show_special_menu k

  -- The start of the quest is noted.
  unfoldable pub note_quest : Skip → Skip
  note_quest k = if k.quest_started_at == 0 then record k { quest_started_at = v.now } else k

  unfoldable pub await_start : Skip → Skip
  await_start k =
      let noted = note_quest k in
      if is_within noted.quest_started_at k.settings.start_delay then noted else start_skip noted

  unfoldable pub update_armed : Skip → Skip
  update_armed k =
      let waiting = record k { logged_waiting = true } in
      if not v.placed
      then k
      else if not (ltb (stage_of mq101) mq101_started)
      then await_start k
      else if is_within k.armed_at quest_start_fallback
      then waiting
      else await_start waiting

  -- `kSexChoice` once nothing has to settle.
  unfoldable pub take_choice : Option ℕ → Skip → Skip
  take_choice none k = if is_past k.state_since k.settings.pod_timeout then begin_commands k else k
  take_choice (some choice) k = apply_sex_choice choice k

  unfoldable pub update_sex_choice : Skip → Skip
  update_sex_choice k =
      if ltb v.now k.wait_until
      then k
      else if k.sex_changed && (v.exists && not v.is_3d_loaded)
      then k
      else take_choice k.choice k

  unfoldable pub update_running : Skip → Skip
  update_running k =
      if ltb v.now k.wait_until
      then k
      else run_batch (suc (length (drop k.next k.settings.commands))) k

  abbrev is_out_of_pod : Bool
  is_out_of_pod = leb 1 (stage_of mq102) || leb 1000 (stage_of mq101)

  unfoldable pub update_wait_for_pod : Skip → Skip
  update_wait_for_pod k =
      if is_out_of_pod
      then (if k.settings.chargen then open_face_menu k else finish k)
      else if is_past k.state_since k.settings.pod_timeout
      then finish k
      else k

  unfoldable pub update_face_menu : Skip → Skip
  update_face_menu k =
      if is_menu_open looks_menu
      then record k { face_menu_seen = true }
      else if not k.face_menu_seen && is_within k.state_since menu_grace
      then k
      else record (open_special_menu k) {
        special_menu_seen = false;
        state_since = v.now;
        phase = special_menu;
      }

  unfoldable pub update_special_menu : Skip → Skip
  update_special_menu k =
      if is_menu_open special_menu_name
      then record k { special_menu_seen = true }
      else if not k.special_menu_seen && is_within k.state_since menu_grace
      then k
      else finish (game_call restore_player_control k)

  unfoldable pub update_in : Phase → Skip → Skip
  update_in idle k = k
  update_in done k = k
  update_in armed k = update_armed k
  update_in sex_choice k = update_sex_choice k
  update_in running k = update_running k
  update_in wait_for_pod k = update_wait_for_pod k
  update_in face_menu k = update_face_menu k
  update_in special_menu k = update_special_menu k

  unfoldable pub update : Skip → Skip
  update k = update_in k.phase k

abbrev pub default_settings : Settings
default_settings = record {
  enabled = true;
  start_delay = 0x4000_0000;
  pod_timeout = 0x42F0_0000;
  commands = [];
  chargen = true;
  chargen_mode = 0;
}

-- A skip before it is configured.
abbrev pub new_skip : Settings → Skip
new_skip settings = record {
  settings = settings;
  phase = idle;
  next = 0;
  armed_at = 0;
  quest_started_at = 0;
  state_since = 0;
  wait_until = 0;
  face_menu_seen = false;
  special_menu_seen = false;
  logged_waiting = false;
  sex_changed = false;
  choice = none;
  calls = [];
}
