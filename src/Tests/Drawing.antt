-- ===== src/Tests/Drawing.antt =====
-- A frame of the other players.
use f4mp.Base.{
  codes, ℕ, ◌≤◌, true, some, List, [], ◌∷◌, All, back, length, ltb, leb, ℤ, pos, negsuc, int_ltb,
  ◌≡◌, refl, arith,
}
use f4mp.Types.{initial_state}
use f4mp.Client.Game.{Space}
use f4mp.Client.Game.Effects.{Speeds}
use f4mp.Client.Game.Spared.{Spares}
use f4mp.Client.Game.Spared.Whole.{update_each-Spares}
use f4mp.Client.RemoteState.{TimedState, RemotePlayer, new_remote, new_remotes}
use f4mp.Client.Remotes.{adding, applying, removing}
use f4mp.Client.Remotes.Drawing.{update_each, trim_history, sampled}
use f4mp.Client.Remotes.History.{IsHistory, HasHistories}
use f4mp.Client.Remotes.Turns.{Turn, operated, drawn, take_turns, take_turns-HasHistories}
use f4mp.Tests.Plugin.{some_world}
use f4mp.Client.Remotes.Forgetting.{Agreeing, trim_history-sampled}
use f4mp.Tests.Game.{an_engine, a_motion, at_least_zero}

abbrev some_speeds : Speeds
some_speeds = record {
  is_far = λ d. ltb 250 d;
  clamp_speed = λ a. a;
  is_standing = λ a. ltb a 8;
  is_run = λ a. leb 260 a;
}

abbrev snapshot_at : ℕ → TimedState
snapshot_at n = record { state = record initial_state { cell_id = 5 }; time_ms = pos n }

abbrev four_snapshots : List TimedState
four_snapshots = snapshot_at 100 ∷ snapshot_at 200 ∷ snapshot_at 3000 ∷ snapshot_at 6000 ∷ []

-- One whose handle is the local player, and one that has no actor yet.
abbrev two_remotes : List RemotePlayer
two_remotes =
    record (new_remote 3) { snapshots = four_snapshots; actor = some 8 }
    ∷ record (new_remote 4) { snapshots = four_snapshots }
    ∷ []

abbrev here : Space
here = record { worldspace_id = 0; cell_id = 5; interior = true }

update_each-Spares_example :
    All
      (Spares a_motion some_speeds an_engine)
      (update_each a_motion an_engine new_remotes here 9_000_000_000 5000 two_remotes).1
update_each-Spares_example =
    update_each-Spares a_motion some_speeds an_engine new_remotes here 9_000_000_000 5000
      two_remotes

zero_or_less : (s t : ℤ) → int_ltb s t ≡ true → at_least_zero s ≤ at_least_zero t
zero_or_less (pos a) (pos b) h = ground arith
zero_or_less (pos a) (negsuc b) h = absurd (ground arith)
zero_or_less (negsuc a) (pos b) h = omega arith
zero_or_less (negsuc a) (negsuc b) h = omega arith

a_motion-Agreeing : Agreeing a_motion
a_motion-Agreeing = record {
  old_after = λ r t h. ground arith;
  old_late = λ r t h. ground arith;
  old_down = λ r s t h k. ground (arith, zero_or_less s t h);
}

trim_history-sampled_example :
    (sampled a_motion 5000 (trim_history (a_motion.is_old 5000) four_snapshots) initial_state
      ≡ sampled a_motion 5000 four_snapshots initial_state)
    × ((back (trim_history (a_motion.is_old 5000) four_snapshots) ≡ back four_snapshots)
        × (IsHistory (trim_history (a_motion.is_old 5000) four_snapshots)
            × (2 ≤ length four_snapshots
                → 2 ≤ length (trim_history (a_motion.is_old 5000) four_snapshots))))
trim_history-sampled_example =
    trim_history-sampled a_motion 5000 four_snapshots initial_state a_motion-Agreeing
      (record { ordered = (refl, (refl, (refl, (tt, tt)))); bounded = omega arith })

abbrev some_turns : List Turn
some_turns =
    operated some_world (adding 3 (codes "Nora"))
    ∷ operated some_world (applying 3 initial_state 100)
    ∷ operated some_world (applying 3 initial_state 90)
    ∷ drawn a_motion an_engine 9_000_000_000
    ∷ operated some_world (removing 3)
    ∷ []

take_turns-HasHistories_example : HasHistories (take_turns some_turns new_remotes)
take_turns-HasHistories_example = take_turns-HasHistories some_turns
