-- ===== src/Ini/Values.antt =====
-- The map of values of shared/include/f4mp/Ini.hpp: what an assignment does to every key.
use f4mp.Base.{
  false, some, [], ◌∷◌, ◌≡◌, refl, subst, ap, ◌∙◌, inl, inr, Bool-cases, if◌then◌else◌, bytes_eq,
  bytes_eq→eq, bytes_eq_refl, Bytes,
}
use f4mp.Ini.{Values, lookup, assign}

lookup-assign_same :
    (key value : Bytes) (vs : Values) → lookup key (assign key value vs) ≡ some value
unfolding lookup assign
lookup-assign_same key value [] = rw (bytes_eq_refl key) refl
lookup-assign_same key value ((k, v) ∷ vs) = elim (Bool-cases (bytes_eq k key)) [
  | inl e ↦ rw (e, lookup, e) refl
  | inr e ↦ rw (e, lookup, e) (lookup-assign_same key value vs)
]

lookup-assign_other :
    (key other value : Bytes) (vs : Values)
    → bytes_eq other key ≡ false
    → lookup key (assign other value vs) ≡ lookup key vs
unfolding lookup assign
lookup-assign_other key other value [] h = rw h refl
lookup-assign_other key other value ((k, v) ∷ vs) h = elim (Bool-cases (bytes_eq k other)) [
  | inl e ↦
      let f : bytes_eq k key ≡ false = ap (λ j. bytes_eq j key) (bytes_eq→eq k other e) ∙ h in
      rw (e, f, lookup) refl
  | inr e ↦
      rw (e, lookup)
        (ap (λ o. if bytes_eq k key then some v else o) (lookup-assign_other key other value vs h))
]

-- What `_values[other] = value` does to the value of every key.
pub lookup-assign :
    (key other value : Bytes) (vs : Values)
    → lookup key (assign other value vs)
      ≡ (if bytes_eq other key then some value else lookup key vs)
lookup-assign key other value vs = elim (Bool-cases (bytes_eq other key)) [
  | inl e ↦ rw e (
      subst (λ k. lookup k (assign other value vs) ≡ some value) (bytes_eq→eq other key e)
        (lookup-assign_same other value vs))
  | inr e ↦ rw e (lookup-assign_other key other value vs e)
]
