-- ===== src/Client/Prologue/Batch.antt =====
-- client/src/Game/PrologueSkip.cpp: the commands that one frame runs, against a reference.
use f4mp.Base.{
  ℕ, zero, suc, ◌+◌, ◌≤◌, ◌<◌, Bool, true, false, List, [], ◌∷◌, ◌++◌, Option, none, some, length,
  drop, map, le→ltb, if◌then◌else◌, Bytes, ◌≡◌, refl, sym, ap, ap₂, ◌∙◌, append-nil, append_assoc,
  drop-drop, arith, Bool-cases, inl, inr,
}
use f4mp.Client.Prologue.{
  Phase, running, wait_for_pod, done, Skip, Sight, run_line, game_call, is_running, is_wait,
  wait_seconds, time_after, run_first, run_next_command, run_batch, update_running, update,
  update_in, finish,
}

-- The commands in front of the first "wait ", and the text of that.
pub split_wait : List Bytes → List Bytes × Option Bytes
split_wait [] = ([], none)
split_wait (cmd ∷ cmds) =
    let (lines, text) = split_wait cmds in
    if is_wait cmd then ([], some (drop 5 cmd)) else (cmd ∷ lines, text)

-- So many lines go to the console, in order.
pub run_lines : List Bytes → Skip → Skip
run_lines lines k = record k { next = k.next + length lines; calls = k.calls ++ map run_line lines }

-- The reference: lines, and then a pause or the end of the list.
pub batch : Sight → List Bytes × Option Bytes → Skip → Skip
batch v (lines, none) k = record (run_lines lines k) {
  state_since = v.now;
  phase = (if k.settings.chargen then wait_for_pod else done);
}
batch v (lines, some text) k = record (run_lines lines k) {
  next = k.next + length lines + 1;
  wait_until = time_after v.now (v.seconds (wait_seconds (v.read_float text)));
}

abbrev step_line : Bytes → Skip → Skip
step_line cmd k = game_call (run_line cmd) (record k { next = k.next + 1 })

drop_tail :
    (n : ℕ) (cs : List Bytes) (cmd : Bytes) (cmds : List Bytes)
    → drop n cs ≡ cmd ∷ cmds
    → drop (n + 1) cs ≡ cmds
drop_tail n cs cmd cmds e = sym (drop-drop n 1 cs) ∙ ap (drop 1) e

is_running-running : (p : Phase) → p ≡ running → is_running p ≡ true
is_running-running p h = ap is_running h

split_wait_stop :
    (cmd : Bytes) (cmds : List Bytes)
    → is_wait cmd ≡ true
    → split_wait (cmd ∷ cmds) ≡ ([], some (drop 5 cmd))
unfolding split_wait
split_wait_stop cmd cmds w = rw w refl

split_wait_go :
    (cmd : Bytes) (cmds : List Bytes)
    → is_wait cmd ≡ false
    → split_wait (cmd ∷ cmds) ≡ (cmd ∷ (split_wait cmds).0, (split_wait cmds).1)
unfolding split_wait
split_wait_go cmd cmds w = rw w refl

split_wait_nil : split_wait [] ≡ ([], none)
unfolding split_wait
split_wait_nil = refl

module _ (v : Sight) where
  batch-cons :
      (cmd : Bytes) (lines : List Bytes) (text : Option Bytes) (k : Skip)
      → batch v (lines, text) (step_line cmd k) ≡ batch v (cmd ∷ lines, text) k
  unfolding batch run_lines
  batch-cons cmd lines none k =
      ap₂
        (λ n c. record k {
          next = n;
          calls = c;
          state_since = v.now;
          phase = (if k.settings.chargen then wait_for_pod else done);
        })
        (omega arith) (append_assoc k.calls (run_line cmd ∷ []) (map run_line lines))
  batch-cons cmd lines (some text) k =
      ap₂
        (λ n c. record k {
          next = n;
          calls = c;
          wait_until = time_after v.now (v.seconds (wait_seconds (v.read_float text)));
        })
        (omega arith) (append_assoc k.calls (run_line cmd ∷ []) (map run_line lines))

  end_if :
      (b : Bool) (k : Skip)
      → (if b
          then record k { state_since = v.now; phase = wait_for_pod }
          else record k { state_since = v.now; phase = done })
        ≡ record k {
          next = k.next + 0;
          calls = k.calls ++ [];
          state_since = v.now;
          phase = (if b then wait_for_pod else done);
        }
  end_if true k =
      ap₂ (λ n c. record k { next = n; calls = c; state_since = v.now; phase = wait_for_pod })
        (omega arith) (sym (append-nil k.calls))
  end_if false k =
      ap₂ (λ n c. record k { next = n; calls = c; state_since = v.now; phase = done }) (omega arith)
        (sym (append-nil k.calls))

  end_batch :
      (k : Skip)
      → (if k.settings.chargen
          then record k { state_since = v.now; phase = wait_for_pod }
          else record k { state_since = v.now; phase = done })
        ≡ batch v ([], none) k
  unfolding batch run_lines
  end_batch k = end_if k.settings.chargen k

  pause_batch :
      (text : Bytes) (k : Skip)
      → record k {
        next = k.next + 1;
        wait_until = time_after v.now (v.seconds (wait_seconds (v.read_float text)));
      }
        ≡ batch v ([], some text) k
  unfolding batch run_lines
  pause_batch text k =
      ap₂
        (λ n c. record k {
          next = n;
          calls = c;
          wait_until = time_after v.now (v.seconds (wait_seconds (v.read_float text)));
        })
        (omega arith) (sym (append-nil k.calls))

  run_batch-batch :
      (cmds : List Bytes) (fuel : ℕ) (k : Skip)
      → length cmds < fuel
      → k.phase ≡ running
      → drop k.next k.settings.commands ≡ cmds
      → run_batch v fuel k ≡ batch v (split_wait cmds) k
  unfolding run_batch run_next_command run_first finish
  run_batch-batch cmds zero k l h e = absurd (omega arith)
  run_batch-batch [] (suc fuel) k l h e =
      rw (is_running-running k.phase h, e, split_wait_nil) (end_batch k)
  run_batch-batch (cmd ∷ cmds) (suc fuel) k l h e =
      rw (is_running-running k.phase h, e)
        (elim (Bool-cases (is_wait cmd)) [
          | inl w ↦ rw (w, split_wait_stop cmd cmds w) (pause_batch (drop 5 cmd) k)
          | inr w ↦
              rw (w, split_wait_go cmd cmds w)
                (run_batch-batch cmds fuel (step_line cmd k) (omega arith) h
                    (drop_tail k.next k.settings.commands cmd cmds e)
                  ∙ batch-cons cmd (split_wait cmds).0 (split_wait cmds).1 k)
        ])

  running-loop :
      (k : Skip)
      → k.wait_until ≤ v.now
      → update_running v k ≡ run_batch v (suc (length (drop k.next k.settings.commands))) k
  unfolding update_running
  running-loop k w = rw (le→ltb v.now k.wait_until w) refl

  update-running : (k : Skip) → k.phase ≡ running → update v k ≡ update_running v k
  unfolding update update_in
  update-running k h = ap (λ p. update_in v p k) h

  -- A frame that may run commands runs those in front of the next "wait ", in order, and pauses at it
  -- or leaves the phase behind the last one; the bound that the model puts on the loop is never what
  -- ends it.
  pub update-batch :
      (k : Skip) (fuel : ℕ)
      → k.phase ≡ running
      → k.wait_until ≤ v.now
      → length (drop k.next k.settings.commands) < fuel
      → (update v k ≡ batch v (split_wait (drop k.next k.settings.commands)) k)
        × (run_batch v fuel k ≡ update v k)
  update-batch k fuel h w l =
      let cmds = drop k.next k.settings.commands in
      let here = run_batch-batch cmds (suc (length cmds)) k (omega arith) h refl in
      let there = run_batch-batch cmds fuel k l h refl in
      let frame = update-running k h ∙ (running-loop k w ∙ here) in (frame, there ∙ sym frame)
