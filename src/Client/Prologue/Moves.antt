-- ===== src/Client/Prologue/Moves.antt =====
-- The diagram of the phases of client/src/Game/PrologueSkip.cpp.
use f4mp.Base.{ℕ, zero, suc, true, false, List, [], ◌∷◌, drop, Bytes, ◌≡◌, refl, arith}
use f4mp.Client.Prologue.{
  Phase, idle, armed, sex_choice, running, wait_for_pod, face_menu, special_menu, done, Settings,
  Skip, Sight, is_asking, update, update_in, finish, begin_commands, ask_sex, close_mirror,
  start_skip, note_quest, await_start, update_armed, apply_sex_choice, take_choice,
  update_sex_choice, run_first, run_next_command, run_batch, update_running, open_face_menu,
  open_special_menu, update_wait_for_pod, update_face_menu, update_special_menu,
}

-- One update with the settings leads from a phase to the next or stays.
pub data Move (s : Settings) : Phase → Phase → Type 0 where
  stay : {p : Phase} → Move s p p
  prompt : is_asking s ≡ true → Move s armed sex_choice
  begin : Move s armed running
  past : Move s armed done
  choose : Move s sex_choice running
  exhaust : s.chargen ≡ true → Move s running wait_for_pod
  complete : s.chargen ≡ false → Move s running done
  leave : s.chargen ≡ true → Move s wait_for_pod face_menu
  give_up : Move s wait_for_pod done
  shape : Move s face_menu special_menu
  create : Move s special_menu done

ruleset moves = (prompt, begin, past, choose, exhaust, complete, leave, give_up, shape, create)

module _ (v : Sight) where
  start_skip-Move : (k : Skip) → k.phase ≡ armed → Move k.settings k.phase (start_skip v k).phase
  unfolding start_skip finish begin_commands ask_sex close_mirror
  start_skip-Move k h = grind (arith, moves)

  await_start-Move : (k : Skip) → k.phase ≡ armed → Move k.settings k.phase (await_start v k).phase
  unfolding await_start note_quest
  await_start-Move k h = grind (arith, moves, stay, start_skip-Move)

  armed-Move : (k : Skip) → k.phase ≡ armed → Move k.settings k.phase (update_armed v k).phase
  unfolding update_armed
  armed-Move k h = grind (arith, moves, stay, await_start-Move)

  choice-Move :
      (k : Skip) → k.phase ≡ sex_choice → Move k.settings k.phase (update_sex_choice v k).phase
  unfolding update_sex_choice take_choice apply_sex_choice begin_commands
  choice-Move k h = grind (arith, moves, stay)

  run_first-Move :
      (cmds : List Bytes) (k : Skip)
      → k.phase ≡ running
      → Move k.settings k.phase (run_first v cmds k).0.phase
  unfolding run_first finish
  run_first-Move [] k h = grind (arith, moves, stay)
  run_first-Move (cmd ∷ cmds) k h = grind (arith, moves, stay)

  run_first-phase :
      (cmds : List Bytes) (k : Skip)
      → (run_first v cmds k).1 ≡ true
      → ((run_first v cmds k).0.phase ≡ k.phase) × ((run_first v cmds k).0.settings ≡ k.settings)
  unfolding run_first finish
  run_first-phase [] k h = ground arith
  run_first-phase (cmd ∷ cmds) k h = ground arith

  pod-Move :
      (k : Skip) → k.phase ≡ wait_for_pod → Move k.settings k.phase (update_wait_for_pod v k).phase
  unfolding update_wait_for_pod open_face_menu finish
  pod-Move k h = grind (arith, moves, stay)

  face-Move :
      (k : Skip) → k.phase ≡ face_menu → Move k.settings k.phase (update_face_menu v k).phase
  unfolding update_face_menu open_special_menu
  face-Move k h = grind (arith, moves, stay)

  special-Move :
      (k : Skip) → k.phase ≡ special_menu → Move k.settings k.phase (update_special_menu v k).phase
  unfolding update_special_menu finish
  special-Move k h = grind (arith, moves, stay)

  run_batch-Move :
      (fuel : ℕ) (k : Skip) → k.phase ≡ running → Move k.settings k.phase (run_batch v fuel k).phase
  unfolding run_batch run_next_command
  run_batch-Move zero k h = stay
  run_batch-Move (suc fuel) k h =
      let cmds = drop k.next k.settings.commands in
      grind (
        arith,
        stay,
        run_first-Move cmds k,
        run_first-phase cmds k,
        run_batch-Move fuel (run_first v cmds k).0,
      )

  running-Move : (k : Skip) → k.phase ≡ running → Move k.settings k.phase (update_running v k).phase
  unfolding update_running
  running-Move k h = grind (arith, stay, run_batch-Move)

  by_phase : (p : Phase) (k : Skip) → k.phase ≡ p → Move k.settings k.phase (update_in v p k).phase
  unfolding update_in
  by_phase idle k h = stay
  by_phase armed k h = armed-Move k h
  by_phase sex_choice k h = choice-Move k h
  by_phase running k h = running-Move k h
  by_phase wait_for_pod k h = pod-Move k h
  by_phase face_menu k h = face-Move k h
  by_phase special_menu k h = special-Move k h
  by_phase done k h = stay

  -- Whatever an update sees, it leads from a phase to the next one of the diagram or stays.
  pub update-Move : (k : Skip) → Move k.settings k.phase (update v k).phase
  unfolding update
  update-Move k = by_phase k.phase k refl
