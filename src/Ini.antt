-- ===== src/Ini.antt =====
-- The INI reader of shared/include/f4mp/Ini.hpp. `std::isspace` and `std::tolower` are those of the C
-- locale; a file is its bytes, or `none` if it cannot be opened.
pub mod Values
pub mod Lookup
use f4mp.Base.{
  ℕ, ◌+◌, ◌-◌, ◌*◌, ◌^◌, Bool, true, false, not, ◌&&◌, ◌||◌, Option, none, some, List, [], ◌∷◌,
  ◌++◌, ltb, leb, ◌==◌, if◌then◌else◌, is_empty, front, back, bytes_eq, take, drop, length,
  trim_front, trim_back, Bytes, codes, ℤ, pos, negsuc, negate,
}

abbrev pub is_space : ℕ → Bool
is_space c = c == 32 || leb 9 c && leb c 13

unfoldable pub trim : Bytes → Bytes
trim s = trim_back is_space (trim_front is_space s)

abbrev pub lower_char : ℕ → ℕ
lower_char c = if leb b'A' c && leb c b'Z' then c + 32 else c

unfoldable pub lower : Bytes → Bytes
lower [] = []
lower (c ∷ cs) = lower_char c ∷ lower cs

-- A string at the first place where a byte passes a test: what is before it, and behind it.
unfoldable pub cut_at : (ℕ → Bool) → Bytes → Option (Bytes × Bytes)
cut_at p [] = none
cut_at p (c ∷ cs) =
    let rest = cut_at p cs in
    if p c then some ([], cs) else elim rest [ none ↦ none | some (a, b) ↦ some (c ∷ a, b) ]

-- `_values`: the entries, each key once.
abbrev pub Values : Type 0
Values = List (Bytes × Bytes)

pub lookup : Bytes → Values → Option Bytes
lookup key [] = none
lookup key ((k, v) ∷ vs) = if bytes_eq k key then some v else lookup key vs

-- `_values[key] = value`.
pub assign : Bytes → Bytes → Values → Values
assign key value [] = (key, value) ∷ []
assign key value ((k, v) ∷ vs) =
    let rest = assign key value vs in if bytes_eq k key then (k, value) ∷ vs else (k, v) ∷ rest

-- `section + "/" + key`.
abbrev pub full_key : Bytes → Bytes → Bytes
full_key section key = section ++ (codes "/" ++ key)

-- A line that assigns: `view.find('=')` and the two sides.
pub load_pair : Bytes → Bytes → Values → Values
load_pair section view vs = elim (cut_at (λ c. c == b'=') view) [
  | none ↦ vs
  | some (key, value) ↦ assign (full_key section (lower (trim key))) (trim value) vs
]

unfoldable pub is_char : ℕ → Option ℕ → Bool
is_char c none = false
is_char c (some d) = d == c

-- One line: the section from now on, and the values.
pub load_view : Bytes → Bytes → Values → Bytes × Values
load_view view section vs =
    if is_empty view || is_char b';' (front view) || is_char b'#' (front view)
    then (section, vs)
    else if is_char b'[' (front view) && is_char b']' (back view)
    then (lower (take (length view - 2) (drop 1 view)), vs)
    else (section, load_pair section view vs)

pub load_lines : List Bytes → Bytes → Values → Values
load_lines [] section vs = vs
load_lines (line ∷ lines) section vs =
    let (next, ws) = load_view (trim line) section vs in load_lines lines next ws

-- The lines that `std::getline` hands out; `line` is what it has of the current one.
unfoldable pub lines_onto : Bytes → Bytes → List Bytes
lines_onto line [] = if is_empty line then [] else line ∷ []
lines_onto line (c ∷ cs) =
    let fresh = lines_onto [] cs in
    let longer = lines_onto (line ++ c ∷ []) cs in if c == 10 then line ∷ fresh else longer

-- `Load`: the values behind it, and whether the file could be read.
unfoldable pub load : Option Bytes → Values → Values × Bool
load none vs = (vs, false)
load (some content) vs = (load_lines (lines_onto [] content) [] vs, true)

unfoldable pub or_else : {A : Type 0} → A → Option A → A
or_else fallback none = fallback
or_else fallback (some v) = v

pub get : Bytes → Bytes → Bytes → Values → Bytes
get section key fallback vs = or_else fallback (lookup (full_key (lower section) (lower key)) vs)

unfoldable pub numeric : Bytes → Bytes
numeric s = elim (cut_at (λ c. c == b';' || c == b'#') s) [ none ↦ trim s | some (a, b) ↦ trim a ]

abbrev is_digit : ℕ → Bool
is_digit c = leb b'0' c && leb c b'9'

-- The value of a string of decimal digits, and nothing else, behind the digits of `acc`.
unfoldable pub digits_onto : ℕ → Bytes → Option ℕ
digits_onto acc [] = some acc
digits_onto acc (c ∷ cs) =
    let rest = digits_onto (acc * 10 + (c - b'0')) cs in if is_digit c then rest else none

unfoldable pub digits : Bytes → Option ℕ
digits s = if is_empty s then none else digits_onto 0 s

unfoldable pub below : ℕ → Option ℕ → Option ℕ
below bound none = none
below bound (some n) = if ltb n bound then some n else none

-- `std::from_chars` for `long long`, where it takes the whole string and the value is in range.
unfoldable pub whole_int : Bytes → Option ℤ
whole_int [] = none
whole_int (c ∷ cs) =
    if c == b'-'
    then (elim (below (2 ^ 63 + 1) (digits cs)) [ none ↦ none | some n ↦ some (negate n) ])
    else (elim (below (2 ^ 63) (digits (c ∷ cs))) [ none ↦ none | some n ↦ some (pos n) ])

unfoldable pub get_int : Bytes → Bytes → ℤ → Values → ℤ
get_int section key fallback vs = or_else fallback (whole_int (numeric (get section key [] vs)))

-- `std::from_chars` for `double` is a parameter: the pattern, where it takes the whole string.
unfoldable pub get_float : (Bytes → Option ℕ) → Bytes → Bytes → ℕ → Values → ℕ
get_float whole_double section key fallback vs =
    or_else fallback (whole_double (numeric (get section key [] vs)))

unfoldable pub bool_of : Bool → Bytes → Bool
bool_of fallback s =
    if bytes_eq s (codes "1")
      || bytes_eq s (codes "true")
      || bytes_eq s (codes "yes")
      || bytes_eq s (codes "on")
    then true
    else if bytes_eq s (codes "0")
        || bytes_eq s (codes "false")
        || bytes_eq s (codes "no")
        || bytes_eq s (codes "off")
    then false
    else fallback

unfoldable pub get_bool : Bytes → Bytes → Bool → Values → Bool
get_bool section key fallback vs = bool_of fallback (lower (numeric (get section key [] vs)))
