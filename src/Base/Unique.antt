-- ===== src/Base/Unique.antt =====
-- Lists of numbers with no repetition.
use Prim.Native.Nat.{ℕ, ◌<◌}
use mathlib.Core.Path.{sym}
use mathlib.Core.Logic.{◌≢◌}
use mathlib.Core.List.{List, [], ◌∷◌}
use native.Mathlib.Omega.{arith}
use f4mp.Base.Lists.{All}

abbrev pub Fresh : ℕ → List ℕ → Type 0
Fresh n = All (λ k. k ≢ n)

abbrev pub Distinct : List ℕ → Type 0
Distinct [] = Unit
Distinct (n ∷ ns) = Fresh n ns × Distinct ns

pub All-map {ℓ κ μ} :
    {A : Type ℓ} (P : A → Type κ) (Q : A → Type μ)
    → ((a : A) → P a → Q a)
    → (xs : List A) → All P xs
    → All Q xs
All-map P Q f [] h = tt
All-map P Q f (x ∷ xs) h = (f x h.0, All-map P Q f xs h.1)

pub Fresh-above : (n : ℕ) (ns : List ℕ) → All (λ k. k < n) ns → Fresh n ns
Fresh-above n = All-map (λ k. k < n) (λ k. k ≢ n) (λ k h. omega arith)

-- The second list is the first with `n` put in somewhere.
pub data Adds (n : ℕ) : List ℕ → List ℕ → Type 0 where
  here : {xs : List ℕ} → Adds n xs (n ∷ xs)
  there : {x : ℕ} {xs ys : List ℕ} → Adds n xs ys → Adds n (x ∷ xs) (x ∷ ys)

module _ (P : ℕ → Type 0) where
  pub Adds-All : {n : ℕ} {xs ys : List ℕ} → Adds n xs ys → P n → All P xs → All P ys
  Adds-All here h k = (h, k)
  Adds-All (there a) h k = (k.0, Adds-All a h k.1)

  pub Adds-All_back : {n : ℕ} {xs ys : List ℕ} → Adds n xs ys → All P ys → P n × All P xs
  Adds-All_back here k = k
  Adds-All_back (there a) k = let (new, old) = Adds-All_back a k.1 in (new, (k.0, old))

pub Adds-Distinct : {n : ℕ} {xs ys : List ℕ} → Adds n xs ys → Fresh n xs → Distinct xs → Distinct ys
Adds-Distinct here f d = (f, d)
Adds-Distinct {n} (there {x} a) f d =
    (Adds-All (λ k. k ≢ x) a (λ e. f.0 (sym e)) d.0, Adds-Distinct a f.1 d.1)

pub Adds-Distinct_back : {n : ℕ} {xs ys : List ℕ} → Adds n xs ys → Distinct ys → Distinct xs
Adds-Distinct_back here d = d.1
Adds-Distinct_back (there {x} a) d =
    ((Adds-All_back (λ k. k ≢ x) a d.0).1, Adds-Distinct_back a d.1)
