-- ===== src/Client/Remotes/Forgetting.antt =====
-- The history that `UpdateOne` of client/src/Sync/RemotePlayers.cpp forgets.
use f4mp.Base.{
  ℕ, ◌≤◌, Bool, true, false, ◌||◌, List, [], ◌∷◌, length, back, ◌≡◌, refl, ◌∙◌, arith, Bool-cases,
  inl, inr, ℤ, int_ltb,
}
use f4mp.Types.{PlayerState}
use f4mp.Client.Interpolation.{sample_at, between, last_two}
use f4mp.Client.RemoteState.{TimedState}
use f4mp.Client.Remotes.History.{Increasing, IsHistory}
use f4mp.Client.Remotes.Drawing.{Motion, trim_history, sampled}

-- What the comparisons of `double` agree on, for a render time and times of snapshots: a time that is
-- more than 1500 ms behind it is behind it, and so is an earlier one.
pub record Agreeing (f : Motion) : Type 0 where
  pub old_after : (render : ℕ) (t : ℤ) → f.is_old render t ≡ true → f.maths.after render t ≡ true
  pub old_late : (render : ℕ) (t : ℤ) → f.is_old render t ≡ true → f.maths.at_most render t ≡ false
  pub old_down :
      (render : ℕ) (s t : ℤ)
      → int_ltb s t ≡ true
      → f.is_old render t ≡ true
      → f.is_old render s ≡ true

or_right : (a b : Bool) → b ≡ true → (a || b) ≡ true
or_right true b h = refl
or_right false b h = h

module _ (f : Motion) (agree : Agreeing f) (render : ℕ) where
  -- The first of three snapshots does not matter where the second is old.
  drop_one :
      (a b c : TimedState) (ts : List TimedState)
      → int_ltb a.time_ms b.time_ms ≡ true
      → f.is_old render b.time_ms ≡ true
      → sample_at f.maths b (c ∷ ts) render ≡ sample_at f.maths a (b ∷ c ∷ ts) render
  unfolding sample_at last_two between
  drop_one a b c ts order old =
      let first = agree.old_late render b.time_ms old in
      let before =
        agree.old_late render a.time_ms (agree.old_down render a.time_ms b.time_ms order old) in
      let skip =
        or_right (f.maths.before render a.time_ms) (f.maths.after render b.time_ms)
          (agree.old_after render b.time_ms old) in
      rw (first, before, skip) refl

  trim-sample :
      (ts : List TimedState) (latest : PlayerState)
      → Increasing ts
      → sampled f render (trim_history (f.is_old render) ts) latest ≡ sampled f render ts latest
  unfolding trim_history
  trim-sample [] latest h = refl
  trim-sample (a ∷ []) latest h = refl
  trim-sample (a ∷ b ∷ []) latest h = refl
  trim-sample (a ∷ b ∷ c ∷ ts) latest h = elim (Bool-cases (f.is_old render b.time_ms)) [
    | inl old ↦ rw old (trim-sample (b ∷ c ∷ ts) latest h.1 ∙ drop_one a b c ts h.0 old)
    | inr new ↦ rw new refl
  ]

module _ (is_old : ℤ → Bool) where
  trim-back : (ts : List TimedState) → back (trim_history is_old ts) ≡ back ts
  unfolding trim_history
  trim-back [] = refl
  trim-back (a ∷ []) = refl
  trim-back (a ∷ b ∷ []) = refl
  trim-back (a ∷ b ∷ c ∷ ts) = elim (Bool-cases (is_old b.time_ms)) [
    | inl old ↦ rw old (trim-back (b ∷ c ∷ ts))
    | inr new ↦ rw new refl
  ]

  pub trim-Increasing : (ts : List TimedState) → Increasing ts → Increasing (trim_history is_old ts)
  unfolding trim_history
  trim-Increasing [] h = tt
  trim-Increasing (a ∷ []) h = h
  trim-Increasing (a ∷ b ∷ []) h = h
  trim-Increasing (a ∷ b ∷ c ∷ ts) h = elim (Bool-cases (is_old b.time_ms)) [
    | inl old ↦ rw old (trim-Increasing (b ∷ c ∷ ts) h.1)
    | inr new ↦ rw new h
  ]

  pub trim-length : (ts : List TimedState) → length (trim_history is_old ts) ≤ length ts
  unfolding trim_history
  trim-length [] = omega arith
  trim-length (a ∷ []) = omega arith
  trim-length (a ∷ b ∷ []) = omega arith
  trim-length (a ∷ b ∷ c ∷ ts) = ground (arith, trim-length (b ∷ c ∷ ts))

  trim-two :
      (a b : TimedState) (ts : List TimedState) → 2 ≤ length (trim_history is_old (a ∷ b ∷ ts))
  unfolding trim_history
  trim-two a b [] = omega arith
  trim-two a b (c ∷ ts) = ground (arith, trim-two b c ts)

-- Forgetting the history that is well behind the render time keeps it a history, keeps the newest
-- snapshot and two of at least two, and changes nothing of what `SampleAt` gives for that time, if the
-- comparisons of `double` agree with the order of the times.
pub trim_history-sampled :
    (f : Motion) (render : ℕ) (ts : List TimedState) (latest : PlayerState)
    → Agreeing f
    → IsHistory ts
    → (sampled f render (trim_history (f.is_old render) ts) latest ≡ sampled f render ts latest)
      × ((back (trim_history (f.is_old render) ts) ≡ back ts)
          × (IsHistory (trim_history (f.is_old render) ts)
              × (2 ≤ length ts → 2 ≤ length (trim_history (f.is_old render) ts))))
trim_history-sampled f render ts latest agree h = (
  trim-sample f agree render ts latest h.ordered,
  (
    trim-back (f.is_old render) ts,
    (
      record {
        ordered = trim-Increasing (f.is_old render) ts h.ordered;
        bounded = omega (arith, trim-length (f.is_old render) ts, h.bounded);
      },
      at_least_two ts,
    ),
  ),
)
  where
    at_least_two :
        (ts : List TimedState) → 2 ≤ length ts → 2 ≤ length (trim_history (f.is_old render) ts)
    at_least_two [] l = absurd (omega arith)
    at_least_two (a ∷ []) l = absurd (omega arith)
    at_least_two (a ∷ b ∷ ts) l = trim-two (f.is_old render) a b ts
