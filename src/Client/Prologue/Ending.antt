-- ===== src/Client/Prologue/Ending.antt =====
-- client/src/Game/PrologueSkip.cpp: the skip of a new game ends.
use f4mp.Base.{ℕ, zero, suc, ◌+◌, ◌-◌, ◌≤◌, List, [], ◌∷◌, length, ◌≡◌, ◌≢◌, refl, arith}
use f4mp.Client.Prologue.{
  Phase, idle, armed, sex_choice, running, wait_for_pod, face_menu, special_menu, done, Skip, Sight,
  Settings, update, answer, on_new_game,
}
use f4mp.Client.Prologue.Moves.{
  Move, stay, prompt, begin, past, choose, exhaust, complete, leave, give_up, shape, create,
  update-Move,
}
use f4mp.Client.Prologue.Progress.{rank, rank_in, Ready, update-rank_le, update-rank_lt}

-- A frame of the game, or a button of the message box.
pub data Happening : Type 0 where
  frame : Sight → Happening
  button : ℕ → Happening

pub happen : Happening → Skip → Skip
happen (frame v) k = update v k
happen (button b) k = answer b k

pub happen_all : List Happening → Skip → Skip
happen_all [] k = k
happen_all (e ∷ es) k = happen_all es (happen e k)

-- At least so many of the frames find nothing to wait for; the others see anything.
pub data Patient : ℕ → List Happening → Skip → Type 0 where
  enough : {es : List Happening} {k : Skip} → Patient zero es k
  ready :
      {n : ℕ} {es : List Happening} {k : Skip} (v : Sight)
      → Ready v k
      → Patient n es (update v k)
      → Patient (suc n) (frame v ∷ es) k
  other :
      {n : ℕ} {es : List Happening} {k : Skip} (e : Happening)
      → Patient n es (happen e k)
      → Patient n (e ∷ es) k

in_phase : (p : Phase) (b : ℕ) (k : Skip) → rank_in p (answer b k) ≡ rank_in p k
unfolding answer rank_in
in_phase idle b k = refl
in_phase armed b k = refl
in_phase sex_choice b k = refl
in_phase running b k = refl
in_phase wait_for_pod b k = refl
in_phase face_menu b k = refl
in_phase special_menu b k = refl
in_phase done b k = refl

answer-rank : (b : ℕ) (k : Skip) → rank (answer b k) ≡ rank k
unfolding rank answer
answer-rank b k = in_phase k.phase b k

happen-rank_le : (e : Happening) (k : Skip) → rank (happen e k) ≤ rank k
unfolding happen
happen-rank_le (frame v) k = update-rank_le v k
happen-rank_le (button b) k = omega (arith, answer-rank b k)

happen_all-rank_le : (es : List Happening) (k : Skip) → rank (happen_all es k) ≤ rank k
unfolding happen_all
happen_all-rank_le [] k = omega arith
happen_all-rank_le (e ∷ es) k =
    omega (arith, happen-rank_le e k, happen_all-rank_le es (happen e k))

-- A patient run leaves so much less to do, down to nothing.
Patient-rank :
    (n : ℕ) (es : List Happening) (k : Skip) → Patient n es k → rank (happen_all es k) ≤ rank k - n
unfolding happen_all happen
Patient-rank n es k enough = omega (arith, happen_all-rank_le es k)
Patient-rank n es k (ready v r p) =
    ground (arith, update-rank_le v k, update-rank_lt v k r, Patient-rank _ _ _ p)
Patient-rank n es k (other e p) = omega (arith, happen-rank_le e k, Patient-rank n _ (happen e k) p)

Move-active : (s : Settings) (p q : Phase) → Move s p q → p ≢ idle → q ≢ idle
Move-active s p q stay h = h
Move-active s p q (prompt _) h = λ e. ground arith
Move-active s p q begin h = λ e. ground arith
Move-active s p q past h = λ e. ground arith
Move-active s p q choose h = λ e. ground arith
Move-active s p q (exhaust _) h = λ e. ground arith
Move-active s p q (complete _) h = λ e. ground arith
Move-active s p q (leave _) h = λ e. ground arith
Move-active s p q give_up h = λ e. ground arith
Move-active s p q shape h = λ e. ground arith
Move-active s p q create h = λ e. ground arith

happen-active : (e : Happening) (k : Skip) → k.phase ≢ idle → (happen e k).phase ≢ idle
unfolding happen answer
happen-active (frame v) k h = Move-active k.settings k.phase (update v k).phase (update-Move v k) h
happen-active (button b) k h = h

happen_all-active :
    (es : List Happening) (k : Skip) → k.phase ≢ idle → (happen_all es k).phase ≢ idle
unfolding happen_all
happen_all-active [] k h = h
happen_all-active (e ∷ es) k h = happen_all-active es (happen e k) (happen-active e k h)

nothing_left : (p : Phase) (k : Skip) → rank_in p k ≡ 0 → p ≢ idle → p ≡ done
unfolding rank_in
nothing_left idle k z h = absurd (h refl)
nothing_left armed k z h = absurd (omega arith)
nothing_left sex_choice k z h = absurd (omega arith)
nothing_left running k z h = absurd (omega arith)
nothing_left wait_for_pod k z h = absurd (omega arith)
nothing_left face_menu k z h = absurd (omega arith)
nothing_left special_menu k z h = absurd (omega arith)
nothing_left done k z h = refl

rank_zero : (k : Skip) → rank k ≡ 0 → k.phase ≢ idle → k.phase ≡ done
unfolding rank
rank_zero k z h = nothing_left k.phase k z h

-- A skip that is under way is done after as many frames as are left that find nothing to wait for.
skip_ends :
    (n : ℕ) (es : List Happening) (k : Skip)
    → k.phase ≢ idle
    → rank k ≤ n
    → Patient n es k
    → (happen_all es k).phase ≡ done
skip_ends n es k h le p =
    let z : rank (happen_all es k) ≡ 0 = omega (arith, Patient-rank n es k p) in
    rank_zero (happen_all es k) z (happen_all-active es k h)

on_new_game-active : (now : ℕ) (k : Skip) → (on_new_game now k).phase ≢ idle
unfolding on_new_game
on_new_game-active now k e = ground arith

new_game-rank : (now : ℕ) (k : Skip) → rank (on_new_game now k) ≤ 8 + length k.settings.commands
unfolding on_new_game rank rank_in
new_game-rank now k = ground arith

-- Whatever the settings are, the skip of a new game is done after 8 frames, and one more for each of
-- its commands, that find nothing to wait for; other frames and the player's answers may come at any
-- time between them.
pub new_game_ends :
    (now : ℕ) (es : List Happening) (k : Skip)
    → Patient (8 + length k.settings.commands) es (on_new_game now k)
    → (happen_all es (on_new_game now k)).phase ≡ done
new_game_ends now es k p =
    skip_ends (8 + length k.settings.commands) es (on_new_game now k) (on_new_game-active now k)
      (new_game-rank now k) p
