-- ===== src/Client/Prologue/Progress.antt =====
-- client/src/Game/PrologueSkip.cpp: what is left to do for the skip, and that updates do it.
use f4mp.Base.{
  ℕ, zero, suc, ◌+◌, ◌≤◌, ◌<◌, true, false, List, [], ◌∷◌, length, drop, ◌==◌, if◌then◌else◌, Bytes,
  ℤ, pos, negsuc, diff, int_ltb, ◌≡◌, refl, length-drop, arith,
}
use f4mp.Client.Prologue.{
  Phase, idle, armed, sex_choice, running, wait_for_pod, face_menu, special_menu, done, Skip, Sight,
  time_after, is_menu_open, looks_menu, special_menu_name, menu_grace, quest_start_fallback, update,
  update_in, finish, begin_commands, ask_sex, close_mirror, start_skip, note_quest, await_start,
  update_armed, apply_sex_choice, take_choice, update_sex_choice, run_first, run_next_command,
  run_batch, update_running, open_face_menu, open_special_menu, update_wait_for_pod,
  update_face_menu, update_special_menu,
}

-- The commands that are left.
abbrev commands_left : Skip → ℕ
commands_left k = length (drop k.next k.settings.commands)

-- At most so many updates that find nothing to wait for are left.
unfoldable pub rank_in : Phase → Skip → ℕ
rank_in idle k = 0
rank_in armed k = 7 + length k.settings.commands + (if k.quest_started_at == 0 then 1 else 0)
rank_in sex_choice k = 5 + length k.settings.commands + (if k.sex_changed then 0 else 1)
rank_in running k = 4 + commands_left k
rank_in wait_for_pod k = 3
rank_in face_menu k = 2
rank_in special_menu k = 1
rank_in done k = 0

unfoldable pub rank : Skip → ℕ
rank k = rank_in k.phase k

-- The player is in the game with its body loaded, no menu of the character creator is open, and the
-- time of every delay and timeout is over.
pub record Ready (v : Sight) (k : Skip) : Type 0 where
  pub started : 0 < v.now
  pub placed : v.placed ≡ true
  pub loaded : v.is_3d_loaded ≡ true
  pub mirror_closed : is_menu_open v looks_menu ≡ false
  pub form_closed : is_menu_open v special_menu_name ≡ false
  pub waited : k.wait_until ≤ v.now
  pub quest_due : time_after k.armed_at (v.seconds quest_start_fallback) ≤ v.now
  pub start_due : time_after k.quest_started_at (v.seconds k.settings.start_delay) ≤ v.now
  pub timed_out : time_after k.state_since (v.seconds k.settings.pod_timeout) < v.now
  pub grace_over : time_after k.state_since (v.seconds menu_grace) ≤ v.now

within-false :
    (now since : ℕ) (d : ℤ) → time_after since d ≤ now → int_ltb (diff now since) d ≡ false
within-false now since (pos d) h = ground arith
within-false now since (negsuc d) h = ground arith

past-true : (now since : ℕ) (d : ℤ) → time_after since d < now → int_ltb d (diff now since) ≡ true
past-true now since (pos d) h = ground arith
past-true now since (negsuc d) h = ground arith

module _ (v : Sight) where
  start_skip-lt : (k : Skip) → rank (start_skip v k) < 7 + length k.settings.commands
  unfolding start_skip finish begin_commands ask_sex close_mirror rank rank_in
  start_skip-lt k = ground arith

  await_start-le : (k : Skip) → k.phase ≡ armed → rank (await_start v k) ≤ rank k
  unfolding await_start note_quest rank rank_in
  await_start-le k h =
      ground (arith, start_skip-lt k, start_skip-lt (record k { quest_started_at = v.now }))

  await_start-lt :
      (k : Skip)
      → k.phase ≡ armed
      → 0 < v.now
      → time_after k.quest_started_at (v.seconds k.settings.start_delay) ≤ v.now
      → rank (await_start v k) < rank k
  unfolding await_start note_quest rank rank_in
  await_start-lt k h started due =
      let delay = within-false v.now k.quest_started_at (v.seconds k.settings.start_delay) due in
      ground (arith, start_skip-lt k, start_skip-lt (record k { quest_started_at = v.now }))

  armed-le : (k : Skip) → k.phase ≡ armed → rank (update_armed v k) ≤ rank k
  unfolding update_armed rank rank_in
  armed-le k h =
      ground (arith, await_start-le k h, await_start-le (record k { logged_waiting = true }) h)

  armed-lt : (k : Skip) → k.phase ≡ armed → Ready v k → rank (update_armed v k) < rank k
  unfolding update_armed rank rank_in
  armed-lt k h r =
      let quest = within-false v.now k.armed_at (v.seconds quest_start_fallback) r.quest_due in
      let placed = r.placed in
      ground (
        arith,
        await_start-lt k h r.started r.start_due,
        await_start-lt (record k { logged_waiting = true }) h r.started r.start_due,
      )

  choice-le : (k : Skip) → k.phase ≡ sex_choice → rank (update_sex_choice v k) ≤ rank k
  unfolding update_sex_choice take_choice apply_sex_choice begin_commands rank rank_in
  choice-le k h = ground arith

  choice-lt : (k : Skip) → k.phase ≡ sex_choice → Ready v k → rank (update_sex_choice v k) < rank k
  unfolding update_sex_choice take_choice apply_sex_choice begin_commands rank rank_in
  choice-lt k h r =
      let loaded = r.loaded in
      let waited = r.waited in
      let past = past-true v.now k.state_since (v.seconds k.settings.pod_timeout) r.timed_out in
      ground arith

  pod-le : (k : Skip) → k.phase ≡ wait_for_pod → rank (update_wait_for_pod v k) ≤ rank k
  unfolding update_wait_for_pod open_face_menu finish rank rank_in
  pod-le k h = ground arith

  pod-lt : (k : Skip) → k.phase ≡ wait_for_pod → Ready v k → rank (update_wait_for_pod v k) < rank k
  unfolding update_wait_for_pod open_face_menu finish rank rank_in
  pod-lt k h r =
      let past = past-true v.now k.state_since (v.seconds k.settings.pod_timeout) r.timed_out in
      ground arith

  face-le : (k : Skip) → k.phase ≡ face_menu → rank (update_face_menu v k) ≤ rank k
  unfolding update_face_menu open_special_menu rank rank_in
  face-le k h = ground arith

  face-lt : (k : Skip) → k.phase ≡ face_menu → Ready v k → rank (update_face_menu v k) < rank k
  unfolding update_face_menu open_special_menu rank rank_in
  face-lt k h r =
      let closed = r.mirror_closed in
      let over = within-false v.now k.state_since (v.seconds menu_grace) r.grace_over in
      ground arith

  special-le : (k : Skip) → k.phase ≡ special_menu → rank (update_special_menu v k) ≤ rank k
  unfolding update_special_menu finish rank rank_in
  special-le k h = ground arith

  special-lt :
      (k : Skip) → k.phase ≡ special_menu → Ready v k → rank (update_special_menu v k) < rank k
  unfolding update_special_menu finish rank rank_in
  special-lt k h r =
      let closed = r.form_closed in
      let over = within-false v.now k.state_since (v.seconds menu_grace) r.grace_over in
      ground arith

  run_first-lt :
      (cmds : List Bytes) (k : Skip)
      → k.phase ≡ running
      → drop k.next k.settings.commands ≡ cmds
      → rank (run_first v cmds k).0 < rank k
  unfolding run_first finish rank rank_in
  run_first-lt [] k h e = ground arith
  run_first-lt (cmd ∷ cmds) k h e =
      ground (
        arith,
        length-drop k.next k.settings.commands,
        length-drop (k.next + 1) k.settings.commands,
      )

  run_next-lt : (k : Skip) → k.phase ≡ running → rank (run_next_command v k).0 < rank k
  unfolding run_next_command
  run_next-lt k h = run_first-lt (drop k.next k.settings.commands) k h refl

  run_batch-le : (fuel : ℕ) (k : Skip) → rank (run_batch v fuel k) ≤ rank k
  unfolding run_batch
  run_batch-le zero k = omega arith
  run_batch-le (suc fuel) k = grind (arith, run_next-lt, run_batch-le fuel (run_next_command v k).0)

  run_batch-lt :
      (fuel : ℕ) (k : Skip) → k.phase ≡ running → rank (run_batch v (suc fuel) k) < rank k
  unfolding run_batch
  run_batch-lt fuel k h =
      ground (arith, run_next-lt k h, run_batch-le fuel (run_next_command v k).0)

  running-le : (k : Skip) → rank (update_running v k) ≤ rank k
  unfolding update_running
  running-le k = grind (arith, run_batch-le)

  running-lt : (k : Skip) → k.phase ≡ running → Ready v k → rank (update_running v k) < rank k
  unfolding update_running
  running-lt k h r = let waited = r.waited in grind (arith, run_batch-lt)

  in-le : (p : Phase) (k : Skip) → k.phase ≡ p → rank (update_in v p k) ≤ rank k
  unfolding update_in
  in-le idle k h = omega arith
  in-le armed k h = armed-le k h
  in-le sex_choice k h = choice-le k h
  in-le running k h = running-le k
  in-le wait_for_pod k h = pod-le k h
  in-le face_menu k h = face-le k h
  in-le special_menu k h = special-le k h
  in-le done k h = omega arith

  in-lt :
      (p : Phase) (k : Skip)
      → k.phase ≡ p
      → Ready v k
      → 0 < rank k
      → rank (update_in v p k) < rank k
  unfolding update_in rank rank_in
  in-lt idle k h r z = ground arith
  in-lt armed k h r z = armed-lt k h r
  in-lt sex_choice k h r z = choice-lt k h r
  in-lt running k h r z = running-lt k h r
  in-lt wait_for_pod k h r z = pod-lt k h r
  in-lt face_menu k h r z = face-lt k h r
  in-lt special_menu k h r z = special-lt k h r
  in-lt done k h r z = ground arith

  pub update-rank_le : (k : Skip) → rank (update v k) ≤ rank k
  unfolding update
  update-rank_le k = in-le k.phase k refl

  pub update-rank_lt : (k : Skip) → Ready v k → 0 < rank k → rank (update v k) < rank k
  unfolding update
  update-rank_lt k r z = in-lt k.phase k refl r z
