-- ===== src/Tests/Prologue.antt =====
-- Runs of the skip of the prologue.
use f4mp.Base.{
  ℕ, ◌*◌, ◌≤◌, Bool, true, false, not, ◌&&◌, List, [], ◌∷◌, length, map, ltb, leb, ltb→lt, &&-true,
  codes, ◌≡◌, refl, arith,
}
use f4mp.Client.Prologue.{
  Settings, Skip, Sight, running, done, time_after, menu_grace, quest_start_fallback, looks_menu,
  special_menu_name, is_menu_open, new_skip, on_new_game, update, run_batch, update_in, finish,
  begin_commands, ask_sex, close_mirror, start_skip, apply_sex_choice, run_first, run_next_command,
  open_face_menu, open_special_menu, note_quest, await_start, update_armed, take_choice,
  update_sex_choice, update_running, update_wait_for_pod, update_face_menu, update_special_menu,
}
use f4mp.Client.Prologue.Progress.{Ready}
use f4mp.Client.Prologue.Ending.{frame, happen_all, Patient, enough, ready, new_game_ends}
use f4mp.Client.Prologue.Moves.{Move, update-Move}
use f4mp.Client.Prologue.Batch.{batch, split_wait, update-batch}
use f4mp.Tests.Game.{a_sight}

-- A test for `Ready`.
test_ready : Sight → Skip → Bool
test_ready v k =
    ltb 0 v.now
    && (v.placed
        && (v.is_3d_loaded
            && (not (is_menu_open v looks_menu)
                && (not (is_menu_open v special_menu_name)
                    && (leb k.wait_until v.now
                        && (leb (time_after k.armed_at (v.seconds quest_start_fallback)) v.now
                            && (leb
                                  (time_after k.quest_started_at (v.seconds k.settings.start_delay))
                                  v.now
                                && (ltb
                                      (time_after k.state_since (v.seconds k.settings.pod_timeout))
                                      v.now
                                    && leb (time_after k.state_since (v.seconds menu_grace))
                                        v.now))))))))

leb→le : (a b : ℕ) → leb a b ≡ true → a ≤ b
leb→le a b h = ground arith

not-true : (b : Bool) → not b ≡ true → b ≡ false
not-true true h = ground arith
not-true false h = refl

test_ready-Ready : (v : Sight) (k : Skip) → test_ready v k ≡ true → Ready v k
unfolding test_ready
test_ready-Ready v k h =
    let (started, h1) = &&-true _ _ h in
    let (placed, h2) = &&-true _ _ h1 in
    let (loaded, h3) = &&-true _ _ h2 in
    let (mirror, h4) = &&-true _ _ h3 in
    let (form, h5) = &&-true _ _ h4 in
    let (waited, h6) = &&-true _ _ h5 in
    let (quest, h7) = &&-true _ _ h6 in
    let (delay, h8) = &&-true _ _ h7 in
    let (past, grace) = &&-true _ _ h8 in
    record {
      started = ltb→lt _ _ started;
      placed = placed;
      loaded = loaded;
      mirror_closed = not-true _ mirror;
      form_closed = not-true _ form;
      waited = leb→le _ _ waited;
      quest_due = leb→le _ _ quest;
      start_due = leb→le _ _ delay;
      timed_out = ltb→lt _ _ past;
      grace_over = leb→le _ _ grace;
    }

all_ready : List Sight → Skip → Bool
all_ready [] k = true
all_ready (v ∷ vs) k = test_ready v k && all_ready vs (update v k)

all_ready-Patient :
    (vs : List Sight) (k : Skip) → all_ready vs k ≡ true → Patient (length vs) (map frame vs) k
unfolding all_ready
all_ready-Patient [] k h = enough
all_ready-Patient (v ∷ vs) k h =
    let (now, behind) = &&-true _ _ h in
    ready v (test_ready-Ready v k now) (all_ready-Patient vs (update v k) behind)

abbrev two_commands : Settings
two_commands = record {
  enabled = true;
  start_delay = 0;
  pod_timeout = 0;
  commands = codes "wait 1" ∷ codes "setstage MQ101 900" ∷ [];
  chargen = true;
  chargen_mode = 0;
}

-- Frames that are 100 seconds apart.
abbrev sight_at : ℕ → Sight
sight_at n = record a_sight { now = n * 100_000_000_000 }

abbrev ten_sights : List Sight
ten_sights =
    sight_at 2
    ∷ sight_at 3
    ∷ sight_at 4
    ∷ sight_at 5
    ∷ sight_at 6
    ∷ sight_at 7
    ∷ sight_at 8
    ∷ sight_at 9
    ∷ sight_at 10
    ∷ sight_at 11
    ∷ []

ten_ready : all_ready ten_sights (on_new_game 100_000_000_000 (new_skip two_commands)) ≡ true
unfolding all_ready test_ready on_new_game update update_in finish begin_commands ask_sex
    close_mirror start_skip apply_sex_choice run_first run_next_command run_batch open_face_menu
    open_special_menu note_quest await_start update_armed take_choice update_sex_choice
    update_running update_wait_for_pod update_face_menu update_special_menu
ten_ready = refl

new_game_ends_example :
    (happen_all (map frame ten_sights) (on_new_game 100_000_000_000 (new_skip two_commands))).phase
    ≡ done
new_game_ends_example =
    new_game_ends 100_000_000_000 (map frame ten_sights) (new_skip two_commands)
      (all_ready-Patient ten_sights (on_new_game 100_000_000_000 (new_skip two_commands)) ten_ready)

abbrev in_commands : Skip
in_commands = record (new_skip two_commands) { phase = running; next = 1 }

update-Move_example : Move two_commands running (update a_sight in_commands).phase
update-Move_example = update-Move a_sight in_commands

update-batch_example :
    (update a_sight in_commands
      ≡ batch a_sight (split_wait (codes "setstage MQ101 900" ∷ [])) in_commands)
    × (run_batch a_sight 5 in_commands ≡ update a_sight in_commands)
update-batch_example = update-batch a_sight in_commands 5 refl (omega arith) (omega arith)
