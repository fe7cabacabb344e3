-- ===== src/Ini/Lookup.antt =====
-- What `Load` of shared/include/f4mp/Ini.hpp makes of a file, next to a description of the format.
use f4mp.Base.{
  ◌-◌, Bool, true, false, ◌&&◌, ◌||◌, Option, none, some, List, [], ◌∷◌, ◌==◌, ◌≡◌, ◌≢◌, refl, sym,
  ap, ◌∙◌, ne→==, All, arith, if◌then◌else◌, is_empty, front, back, bytes_eq, take, drop, length,
  Bytes,
}
use mathlib.Core.Bool.{and_assoc, and-false}
use f4mp.Ini.{
  trim, lower, cut_at, Values, lookup, assign, full_key, load_pair, is_char, load_view, load_lines,
  lines_onto, load, or_else, get,
}
use f4mp.Ini.Values.{lookup-assign}

-- The kinds of lines of an INI file.
pub data Line : Type 0 where
  nothing : Line
  heading : Bytes → Line
  pair : Bytes → Bytes → Line

abbrev pair_of : Option (Bytes × Bytes) → Line
pair_of none = nothing
pair_of (some (key, value)) = pair (lower (trim key)) (trim value)

-- The kind of a line, which is blank, a comment, a heading in brackets, a pair, or none of these.
abbrev pub line_of : Bytes → Line
line_of view =
    if is_empty view || is_char b';' (front view) || is_char b'#' (front view)
    then nothing
    else if is_char b'[' (front view) && is_char b']' (back view)
    then heading (lower (take (length view - 2) (drop 1 view)))
    else pair_of (cut_at (λ c. c == b'=') view)

-- A pair of a file, with the section in which it stands.
pub record Entry : Type 0 where
  pub section : Bytes
  pub key : Bytes
  pub value : Bytes

-- The pairs of a file in their order.
abbrev entries_of : Bytes → List Line → List Entry
entries_of section [] = []
entries_of section (nothing ∷ ls) = entries_of section ls
entries_of section (heading name ∷ ls) = entries_of name ls
entries_of section (pair key value ∷ ls) =
    record { section = section; key = key; value = value } ∷ entries_of section ls

abbrev lines_of : List Bytes → List Line
lines_of [] = []
lines_of (l ∷ ls) = line_of (trim l) ∷ lines_of ls

abbrev pub entries : Bytes → List Entry
entries content = entries_of [] (lines_of (lines_onto [] content))

-- The value of the last pair in a section with a key, or what there was before.
abbrev pub last_in : Bytes → Bytes → Option Bytes → List Entry → Option Bytes
last_in section key before [] = before
last_in section key before (e ∷ es) =
    last_in section key
      (if bytes_eq e.section section && bytes_eq e.key key then some e.value else before) es

-- What one line does: the heading from now on, and the values.
abbrev take_line : Line → Bytes → Values → Bytes × Values
take_line nothing section vs = (section, vs)
take_line (heading name) section vs = (name, vs)
take_line (pair key value) section vs = (section, assign (full_key section key) value vs)

load_pair_lem :
    (o : Option (Bytes × Bytes)) (section : Bytes) (vs : Values)
    → (
      section,
      (elim o [
        | none ↦ vs
        | some (key, value) ↦ assign (full_key section (lower (trim key))) (trim value) vs
      ]),
    )
      ≡ take_line (pair_of o) section vs
load_pair_lem none section vs = refl
load_pair_lem (some (key, value)) section vs = refl

take_line_if :
    (a b : Bool) (x y z : Line) (section : Bytes) (vs : Values)
    → (if a
        then take_line x section vs
        else if b
        then take_line y section vs
        else take_line z section vs)
      ≡ take_line (if a then x else if b then y else z) section vs
take_line_if true b x y z section vs = refl
take_line_if false true x y z section vs = refl
take_line_if false false x y z section vs = refl

load_view_lem :
    (view section : Bytes) (vs : Values)
    → load_view view section vs ≡ take_line (line_of view) section vs
unfolding load_view load_pair
load_view_lem view section vs = rw (load_pair_lem (cut_at (λ c. c == b'=') view) section vs) (
    take_line_if (is_empty view || is_char b';' (front view) || is_char b'#' (front view))
      (is_char b'[' (front view) && is_char b']' (back view)) nothing
      (heading (lower (take (length view - 2) (drop 1 view))))
      (pair_of (cut_at (λ c. c == b'=') view)) section vs)

abbrev pub HasNoSlash : Bytes → Type 0
HasNoSlash = All (λ c. c ≢ b'/')

slash_in : (s k key : Bytes) → HasNoSlash key → bytes_eq (full_key s k) key ≡ false
slash_in [] k [] h = refl
slash_in (y ∷ s) k [] h = refl
slash_in [] k (x ∷ key) h =
    let other : (b'/' == x) ≡ false = ne→== b'/' x (λ e. h.0 (sym e)) in rw other refl
slash_in (y ∷ s) k (x ∷ key) h = rw (slash_in s k key h.1) (and-false (y == x))

-- The joined names tell a section and a key without a slash from every other two.
full_key-eq :
    (s k section key : Bytes)
    → HasNoSlash section
    → HasNoSlash key
    → bytes_eq (full_key s k) (full_key section key) ≡ (bytes_eq s section && bytes_eq k key)
full_key-eq [] k [] key h g = refl
full_key-eq [] k (x ∷ section) key h g =
    let other : (b'/' == x) ≡ false = ne→== b'/' x (λ e. h.0 (sym e)) in rw other refl
full_key-eq (y ∷ s) k [] key h g = rw (slash_in s k key g) (and-false (y == b'/'))
full_key-eq (y ∷ s) k (x ∷ section) key h g =
    rw (full_key-eq s k section key h.1 g)
      (sym (and_assoc (y == x) (bytes_eq s section) (bytes_eq k key)))

HasNoSlash-lower : (s : Bytes) → HasNoSlash s → HasNoSlash (lower s)
unfolding lower
HasNoSlash-lower [] h = tt
HasNoSlash-lower (c ∷ cs) h = ((λ e. h.0 (ground arith)), HasNoSlash-lower cs h.1)

module _ (section key : Bytes) (plain : HasNoSlash section) (sound : HasNoSlash key) where
  lookup-load_lines :
      (ls : List Bytes) (here : Bytes) (vs : Values)
      → lookup (full_key section key) (load_lines ls here vs)
        ≡ last_in section key (lookup (full_key section key) vs) (entries_of here (lines_of ls))
  unfolding load_lines
  lookup-load_lines [] here vs = refl
  lookup-load_lines (l ∷ ls) here vs =
      rw (load_view_lem (trim l) here vs)
        (after (λ next ws. lookup-load_lines ls next ws) (line_of (trim l)))
    where
      after :
          ((next : Bytes) (ws : Values)
            → lookup (full_key section key) (load_lines ls next ws)
              ≡ last_in section key
                  (lookup (full_key section key) ws)
                  (entries_of next (lines_of ls)))
          → (x : Line)
          → lookup
              (full_key section key)
              (load_lines ls (take_line x here vs).0 (take_line x here vs).1)
            ≡ last_in section key
                (lookup (full_key section key) vs)
                (entries_of here (x ∷ lines_of ls))
      after rest nothing = rest here vs
      after rest (heading name) = rest name vs
      after rest (pair k value) =
          rest here (assign (full_key here k) value vs)
          ∙ ap (λ o. last_in section key o (entries_of here (lines_of ls)))
              (lookup-assign (full_key section key) (full_key here k) value vs
                ∙ ap (λ b. if b then some value else lookup (full_key section key) vs)
                    (full_key-eq here k section key plain sound))

-- After a file has been loaded, a value is the one of the last pair in the file that stands in the
-- section and has the key that are asked for, in lower case, and the fallback if there is no such
-- pair. The condition is that neither name has a slash, with which the reader joins the two.
pub get-load :
    (content section key fallback : Bytes)
    → HasNoSlash section
    → HasNoSlash key
    → get section key fallback (load (some content) []).0
      ≡ or_else fallback (last_in (lower section) (lower key) none (entries content))
unfolding load get lookup
get-load content section key fallback plain sound = ap (or_else fallback) (
    lookup-load_lines (lower section) (lower key) (HasNoSlash-lower section plain)
      (HasNoSlash-lower key sound) (lines_onto [] content) [] [])
