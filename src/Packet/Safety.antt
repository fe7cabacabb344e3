-- ===== src/Packet/Safety.antt =====
-- The reader stays inside its buffer, and a failed reader stays failed and does not move.
use f4mp.Base.{
  ℕ, ◌≤◌, false, not, ◌||◌, ◌≡◌, refl, ◌∙◌, inl, inr, arith, ltb, Bool-cases, length, from_le,
}
use f4mp.Packet.{
  Reader, Read, ret, ◌>>=◌, remaining, get_raw, get_u8, get_u16, get_u32, get_f32, get_chars,
  get_str, max_string_bytes,
}

abbrev pub IsReader : Reader → Type 0
IsReader r = r.pos ≤ length r.bytes

-- How a read may change the reader.
pub record Moves (r s : Reader) : Type 0 where
  pub inside : IsReader s
  pub source : s.bytes ≡ r.bytes
  pub forward : r.pos ≤ s.pos
  pub sticky : r.ok ≡ false → (s.ok ≡ false) × (s.pos ≡ r.pos)

pub record Safe {A : Type 0} (m : Read A) : Type 0 where
  pub moves : (r : Reader) → IsReader r → Moves r (m r).1

pub Safe->>= :
    {A B : Type 0} (m : Read A) (f : A → Read B) → Safe m → ((a : A) → Safe (f a)) → Safe (m >>= f)
Safe->>= m f p q = record { moves = run }
  where
    run : (r : Reader) → IsReader r → Moves r ((m >>= f) r).1
    run r h =
        let first = p.moves r h in
        let later = (q (m r).0).moves (m r).1 first.inside in
        record {
          inside = later.inside;
          source = later.source ∙ first.source;
          forward = omega (arith, first.forward, later.forward);
          sticky =
              λ e. let f0 = first.sticky e in let l0 = later.sticky f0.0 in (l0.0, l0.1 ∙ f0.1);
        }

pub Safe-map : {A B : Type 0} (m : Read A) (g : A → B) → Safe m → Safe (m >>= λ x. ret (g x))
Safe-map m g p = record { moves = λ r h. p.moves r h }

get_raw-Moves : (n : ℕ) (r : Reader) → IsReader r → Moves r (get_raw n r).1
unfolding get_raw
get_raw-Moves n r h = elim (Bool-cases (not r.ok || ltb (remaining r) n)) [
  | inl bad ↦
      rw bad
        (record { inside = h; source = refl; forward = omega arith; sticky = λ e. (refl, refl) })
  | inr good ↦ rw good (record {
    inside = ground arith;
    source = refl;
    forward = omega arith;
    sticky = λ e. ground arith;
  })
]

get_raw-Safe : (n : ℕ) → Safe (get_raw n)
get_raw-Safe n = record { moves = get_raw-Moves n }

get_chars-Moves : (n : ℕ) (r : Reader) → IsReader r → Moves r (get_chars n r).1
unfolding get_chars
get_chars-Moves n r h =
    elim (Bool-cases (not r.ok || ltb max_string_bytes n || ltb (remaining r) n)) [
      | inl bad ↦
          rw bad (record {
            inside = h;
            source = refl;
            forward = omega arith;
            sticky = λ e. (refl, refl);
          })
      | inr good ↦ rw good (record {
        inside = ground arith;
        source = refl;
        forward = omega arith;
        sticky = λ e. ground arith;
      })
    ]

get_chars-Safe : (n : ℕ) → Safe (get_chars n)
get_chars-Safe n = record { moves = get_chars-Moves n }

number-Safe : (n : ℕ) → Safe (get_raw n >>= λ bs. ret (from_le bs))
number-Safe n = Safe-map _ from_le (get_raw-Safe n)

pub get_u8-Safe : Safe get_u8
unfolding get_u8
get_u8-Safe = number-Safe 1

get_u16-Safe : Safe get_u16
unfolding get_u16
get_u16-Safe = number-Safe 2

pub get_u32-Safe : Safe get_u32
unfolding get_u32
get_u32-Safe = number-Safe 4

pub get_f32-Safe : Safe get_f32
unfolding get_f32
get_f32-Safe = number-Safe 4

pub get_str-Safe : Safe get_str
unfolding get_str
get_str-Safe = Safe->>= _ _ get_u16-Safe get_chars-Safe
