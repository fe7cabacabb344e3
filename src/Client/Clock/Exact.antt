-- ===== src/Client/Clock/Exact.antt =====
-- The time line that `ServerClock` of shared/include/f4mp/Interp.hpp rebuilds.
use f4mp.Base.{
  ℕ, ◌+◌, ◌-◌, ◌%◌, ◌^◌, ◌≤◌, ◌<◌, true, false, List, [], ◌∷◌, ◌≡◌, refl, ap, ◌∙◌, inl, inr, arith,
  ltb, ltb→lt, Bool-cases, u32_mod, pos, diff, add_nat-diff, sub_nat-diff,
}
use f4mp.Client.Clock.{ServerClock, new_clock, add_signed, unwrap}

-- Two times of the server that are less than about 24.8 days apart.
abbrev Near : ℕ → ℕ → Type 0
Near t u = (t < u + 2 ^ 31) × (u < t + 2 ^ 31)

-- The times of a series of packets, each near to the one before.
abbrev Series : ℕ → List ℕ → Type 0
Series t [] = Unit
Series t (u ∷ us) = Near t u × Series u us

abbrev pub final : ℕ → List ℕ → ℕ
final t [] = t
final t (u ∷ us) = final u us

-- The clock after the stamps of these times.
abbrev pub listen : List ℕ → ServerClock → ServerClock
listen [] c = c
listen (t ∷ ts) c = listen ts (unwrap (t % u32_mod) c)

-- The clock stands at the time `t`, counted from `base`.
record StandsAt (base t : ℕ) (c : ServerClock) : Type 0 where
  on : c.started ≡ true
  stamp : c.last ≡ t % u32_mod
  value : c.now ≡ diff t base

step_up :
    (t u : ℕ) → t ≤ u → u < t + 2 ^ 31 → (u % u32_mod + u32_mod - t % u32_mod) % u32_mod ≡ u - t
step_up t u h k = omega arith

step_down :
    (t u : ℕ)
    → u < t
    → t < u + 2 ^ 31
    → (u % u32_mod + u32_mod - t % u32_mod) % u32_mod ≡ u32_mod - (t - u)
step_down t u h k = omega arith

add_signed-Near :
    (base t u : ℕ)
    → Near t u
    → add_signed (diff t base) ((u % u32_mod + u32_mod - t % u32_mod) % u32_mod) ≡ diff u base
unfolding add_signed
add_signed-Near base t u near = elim (Bool-cases (ltb u t)) [
  | inl down ↦
      let less : u < t = ltb→lt u t down in
      let wrapped : (ltb (u32_mod - (t - u)) (2 ^ 31)) ≡ false = ground arith in
      let back : u32_mod - (u32_mod - (t - u)) ≡ t - u = omega arith in
      let lands : t - (t - u) ≡ u = omega arith in
      rw (step_down t u less near.0, wrapped, back)
        (sub_nat-diff t base (t - u) (omega arith) ∙ ap (λ n. diff n base) lands)
  | inr up ↦
      let least : t ≤ u = ground arith in
      let small : (ltb (u - t) (2 ^ 31)) ≡ true = ground arith in
      let lands : t + (u - t) ≡ u = omega arith in
      rw (step_up t u least near.1, small)
        (add_nat-diff t base (u - t) ∙ ap (λ n. diff n base) lands)
]

unwrap-StandsAt :
    (base t u : ℕ) (c : ServerClock)
    → Near t u
    → StandsAt base t c
    → StandsAt base u (unwrap (u % u32_mod) c)
unfolding unwrap
unwrap-StandsAt base t u c near h =
    rw (h.on, h.stamp, h.value)
      (record { on = refl; stamp = refl; value = add_signed-Near base t u near })

listen-StandsAt :
    (base t : ℕ) (us : List ℕ) (c : ServerClock)
    → Series t us
    → StandsAt base t c
    → StandsAt base (final t us) (listen us c)
listen-StandsAt base t [] c near h = h
listen-StandsAt base t (u ∷ us) c near h =
    listen-StandsAt base u us (unwrap (u % u32_mod) c) near.1 (unwrap-StandsAt base t u c near.0 h)

-- A clock that hears the 32-bit stamps of a series of server times, where each is less than 2 ^ 31 ms
-- from the one before, stands at the last of these times, counted from the start of the round of 2 ^ 32 ms
-- in which the first lies; so wrap-arounds of the stamp and packets in a wrong order do not matter.
pub listen-exact :
    (t : ℕ) (us : List ℕ)
    → Series t us
    → (listen (t ∷ us) new_clock).now ≡ diff (final t us) (t - t % u32_mod)
unfolding unwrap
listen-exact t us near =
    (listen-StandsAt (t - t % u32_mod) t us (unwrap (t % u32_mod) new_clock) near
      (record { on = refl; stamp = refl; value = first })).value
  where
    first : pos (t % u32_mod) ≡ diff t (t - t % u32_mod)
    first = ground arith
