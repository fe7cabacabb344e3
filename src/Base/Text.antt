-- ===== src/Base/Text.antt =====
-- Loops on strings that several parts of the program share: dropping bytes, trimming both ends.
use Prim.Native.Nat.{◌≤◌}
use mathlib.Core.Path.{◌≡◌, refl, ap}
use mathlib.Core.Logic.{◌⊎◌, inl, inr}
use mathlib.Core.Bool.{Bool, true, false, ◌&&◌}
use mathlib.Core.Option.{Option, none, some}
use mathlib.Core.List.{List, [], ◌∷◌}
use native.Mathlib.Omega.{arith}
use f4mp.Base.Tests.{if◌then◌else◌, Bool-cases}
use f4mp.Base.Lists.{length, All, is_empty}

module _ {ℓ} {A : Type ℓ} where
  abbrev pub front : List A → Option A
  front [] = none
  front (x ∷ xs) = some x

  abbrev pub back : List A → Option A
  back [] = none
  back (x ∷ []) = some x
  back (x ∷ y ∷ ys) = back (y ∷ ys)

  -- The elements that satisfy the test, in order.
  unfoldable pub keep : (A → Bool) → List A → List A
  keep p [] = []
  keep p (x ∷ xs) = let rest = keep p xs in if p x then x ∷ rest else rest

  -- `while (!s.empty() && p(s.front())) s.remove_prefix(1);`
  unfoldable pub trim_front : (A → Bool) → List A → List A
  trim_front p [] = []
  trim_front p (x ∷ xs) = let rest = trim_front p xs in if p x then rest else x ∷ xs

  -- `while (!s.empty() && p(s.back())) s.remove_suffix(1);`: an element goes when all behind it
  -- has gone and it satisfies the test itself.
  unfoldable pub trim_back : (A → Bool) → List A → List A
  trim_back p [] = []
  trim_back p (x ∷ xs) = let rest = trim_back p xs in if is_empty rest && p x then [] else x ∷ rest

module _ {ℓ} {A : Type ℓ} (p : A → Bool) where
  pub keep-All : (xs : List A) → All (λ x. p x ≡ true) (keep p xs)
  unfolding keep
  keep-All [] = tt
  keep-All (x ∷ xs) = ground (arith, keep-All xs)

  pub All-keep : (xs : List A) → All (λ x. p x ≡ true) xs → keep p xs ≡ xs
  unfolding keep
  All-keep [] h = refl
  All-keep (x ∷ xs) h = rw h.0 (ap (◌∷◌ x) (All-keep xs h.1))

  pub length-keep-le : (xs : List A) → length (keep p xs) ≤ length xs
  unfolding keep
  length-keep-le [] = omega arith
  length-keep-le (x ∷ xs) = ground (arith, length-keep-le xs)

  pub length-trim_front-le : (xs : List A) → length (trim_front p xs) ≤ length xs
  unfolding trim_front
  length-trim_front-le [] = omega arith
  length-trim_front-le (x ∷ xs) = ground (arith, length-trim_front-le xs)

  pub length-trim_back-le : (xs : List A) → length (trim_back p xs) ≤ length xs
  unfolding trim_back
  length-trim_back-le [] = omega arith
  length-trim_back-le (x ∷ xs) = ground (arith, length-trim_back-le xs)

  pub trim_front-All {κ} : (Q : A → Type κ) (xs : List A) → All Q xs → All Q (trim_front p xs)
  unfolding trim_front
  trim_front-All Q [] h = tt
  trim_front-All Q (x ∷ xs) h = elim (Bool-cases (p x)) [
    | inl e ↦ rw e (trim_front-All Q xs h.1)
    | inr e ↦ rw e h
  ]

  pub trim_back-All {κ} : (Q : A → Type κ) (xs : List A) → All Q xs → All Q (trim_back p xs)
  unfolding trim_back
  trim_back-All Q [] h = tt
  trim_back-All Q (x ∷ xs) h = elim (Bool-cases (is_empty (trim_back p xs) && p x)) [
    | inl e ↦ rw e tt
    | inr e ↦ rw e (h.0, trim_back-All Q xs h.1)
  ]

  -- What stands at the front after trimming fails the test.
  pub front-trim_front : (xs : List A) (c : A) → front (trim_front p xs) ≡ some c → p c ≡ false
  unfolding trim_front
  front-trim_front [] c h = cc
  front-trim_front (x ∷ xs) c h = ground (arith, front-trim_front xs c)

  back-cons :
      (x c : A) (xs : List A) → back (x ∷ xs) ≡ some c → (xs ≡ []) × (x ≡ c) ⊎ (back xs ≡ some c)
  back-cons x c [] h = inl (refl, ground arith)
  back-cons x c (y ∷ ys) h = inr h

  pub back-trim_back : (xs : List A) (c : A) → back (trim_back p xs) ≡ some c → p c ≡ false
  unfolding trim_back
  back-trim_back [] c h = cc
  back-trim_back (x ∷ xs) c h = ground (arith, back-trim_back xs c, back-cons x c (trim_back p xs))

  -- Trimming the front leaves the back alone, unless nothing is left.
  pub back-trim_front : (xs : List A) (c : A) → back (trim_front p xs) ≡ some c → back xs ≡ some c
  unfolding trim_front
  back-trim_front [] c h = h
  back-trim_front (x ∷ []) c h = ground arith
  back-trim_front (x ∷ y ∷ ys) c h = ground (arith, back-trim_front (y ∷ ys) c)

  pub trim_front_fixed :
      (xs : List A) → ((c : A) → front xs ≡ some c → p c ≡ false) → trim_front p xs ≡ xs
  unfolding trim_front
  trim_front_fixed [] h = refl
  trim_front_fixed (x ∷ xs) h = rw (h x refl)

  pub trim_back_fixed :
      (xs : List A) → ((c : A) → back xs ≡ some c → p c ≡ false) → trim_back p xs ≡ xs
  unfolding trim_back
  trim_back_fixed [] h = refl
  trim_back_fixed (x ∷ []) h = rw (h x refl)
  trim_back_fixed (x ∷ y ∷ ys) h = rw (trim_back_fixed (y ∷ ys) h)
