-- ===== src/Protocol/Names/Laws.antt =====
-- What `SanitizeName` of shared/include/f4mp/Protocol.hpp promises of the names it lets through.
use f4mp.Base.{
  ℕ, ◌≤◌, ◌≡◌, ◌≢◌, ◌↔◌, true, false, refl, ap, subst, inl, inr, [], ◌∷◌, some, ltb, if◌then◌else◌,
  Bool-cases, arith, Bytes, length, take, is_empty, All, All-take, length-take-le, front, back,
  keep, trim_front, trim_back, keep-All, All-keep, length-trim_front-le, length-trim_back-le,
  trim_front-All, trim_back-All, front-trim_front, back-trim_back, back-trim_front,
  trim_front_fixed, trim_back_fixed,
}
use f4mp.Protocol.Messages.{max_player_name}
use f4mp.Protocol.Names.{is_printable, is_blank, default_name, sanitize_name}

pub record IsName (n : Bytes) : Type 0 where
  pub nonempty : n ≢ []
  pub short : length n ≤ max_player_name
  pub printable : All (λ c. is_printable c ≡ true) n
  pub front_ok : (c : ℕ) → front n ≡ some c → is_blank c ≡ false
  pub back_ok : (c : ℕ) → back n ≡ some c → is_blank c ≡ false

cut_name : Bytes → Bytes
cut_name out = if ltb max_player_name (length out) then take max_player_name out else out

length-cut_name : (out : Bytes) → length (cut_name out) ≤ max_player_name
unfolding cut_name
length-cut_name out = ground (arith, length-take-le max_player_name out)

cut_name-All : (P : ℕ → Type 0) (out : Bytes) → All P out → All P (cut_name out)
unfolding cut_name
cut_name-All P out h = elim (Bool-cases (ltb max_player_name (length out))) [
  | inl e ↦ rw e (All-take P max_player_name out h)
  | inr e ↦ rw e h
]

cut_name_fixed : (n : Bytes) → length n ≤ max_player_name → cut_name n ≡ n
unfolding cut_name
cut_name_fixed n h = ground arith

trimmed : Bytes → Bytes
trimmed name = trim_front is_blank (trim_back is_blank (cut_name (keep is_printable name)))

trimmed-IsName : (name : Bytes) → trimmed name ≢ [] → IsName (trimmed name)
unfolding trimmed
trimmed-IsName name ne = record {
  nonempty = ne;
  short = omega (
    arith,
    length-trim_front-le is_blank (trim_back is_blank cut),
    length-trim_back-le is_blank cut,
    length-cut_name (keep is_printable name),
  );
  printable =
      trim_front-All is_blank _ _
        (trim_back-All is_blank _ _ (cut_name-All _ _ (keep-All is_printable name)));
  front_ok = front-trim_front is_blank (trim_back is_blank cut);
  back_ok =
      λ c h. back-trim_back is_blank cut c (back-trim_front is_blank (trim_back is_blank cut) c h);
}
  where
    cut : Bytes
    cut = cut_name (keep is_printable name)

default_name-IsName : IsName default_name
unfolding default_name max_player_name
default_name-IsName = record {
  nonempty = λ e. cc;
  short = omega arith;
  printable = ground arith;
  front_ok = λ c h. ground arith;
  back_ok = λ c h. ground arith;
}

sanitize_name-trimmed :
    (name : Bytes)
    → sanitize_name name ≡ (if is_empty (trimmed name) then default_name else trimmed name)
unfolding sanitize_name cut_name trimmed
sanitize_name-trimmed name = refl

-- Whatever a client sends, the name that the server keeps is not empty, has at most 32 bytes, all of
-- them printable ASCII, and neither begins nor ends with a space.
pub sanitize_name-IsName : (name : Bytes) → IsName (sanitize_name name)
sanitize_name-IsName name = elim (Bool-cases (is_empty (trimmed name))) [
  | inl e ↦ rw (sanitize_name-trimmed name, e) default_name-IsName
  | inr e ↦ rw (sanitize_name-trimmed name, e) (trimmed-IsName name (λ none. cc (ap is_empty none)))
]

trimmed_fixed : (name : Bytes) → IsName name → trimmed name ≡ name
unfolding trimmed
trimmed_fixed name h =
    rw
      (
        All-keep is_printable name h.printable,
        cut_name_fixed name h.short,
        trim_back_fixed is_blank name h.back_ok,
      )
      (trim_front_fixed is_blank name h.front_ok)

is_empty-false : (xs : Bytes) → xs ≢ [] → is_empty xs ≡ false
is_empty-false [] h = absurd (h refl)
is_empty-false (x ∷ xs) h = refl

-- The names that `SanitizeName` leaves as they are are exactly these.
pub sanitize_name_iff : (name : Bytes) → (sanitize_name name ≡ name) ↔ IsName name
sanitize_name_iff name = (
  λ e. subst IsName e (sanitize_name-IsName name),
  λ h. rw (sanitize_name-trimmed name, trimmed_fixed name h, is_empty-false name h.nonempty) refl,
)
