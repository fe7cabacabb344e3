-- ===== src/Packet/Reading.antt =====
-- What each `get` of Packet.hpp returns where the bytes of a `put` lie ahead.
use f4mp.Base.{
  ℕ, ◌≤◌, ◌<◌, ◌^◌, true, [], ◌∷◌, ◌++◌, ◌≡◌, refl, sym, ap, subst, ◌∙◌, append_assoc, arith,
  le→ltb, Bytes, length, take, drop, length-append, length-drop, take-append, take_all, drop-append,
  drop-drop, length-take-le, to_le, from_le, length-to_le, from_le-to_le, to_le_one, u16_mod,
  u32_mod,
}
use f4mp.Packet.{
  Reader, Read, ret, ◌>>=◌, remaining, get_raw, get_u8, get_u16, get_u32, get_f32, get_chars,
  get_str, max_string_bytes,
}
use f4mp.Packet.Writing.{str_bytes}

-- The bytes not yet read.
abbrev pub ahead : Reader → Bytes
ahead r = drop r.pos r.bytes

-- With the bytes `xs` ahead, `m` succeeds, returns `a`, and stops behind them.
pub record Parses {A : Type 0} (m : Read A) (xs : Bytes) (a : A) : Type 0 where
  pub parse :
      (r : Reader) (tail : Bytes)
      → r.ok ≡ true
      → ahead r ≡ xs ++ tail
      → ((m r).0 ≡ a) × ((m r).1.ok ≡ true) × (ahead (m r).1 ≡ tail)

module _ {A B : Type 0} where
  pub Parses->>= :
      (m : Read A) (f : A → Read B) (xs ys : Bytes) (a : A) (b : B)
      → Parses m xs a
      → ((x : A) → x ≡ a → Parses (f x) ys b)
      → Parses (m >>= f) (xs ++ ys) b
  Parses->>= m f xs ys a b p q = record {
    parse = λ r tail ok e.
        let (same, ok', e') = p.parse r (ys ++ tail) ok (e ∙ append_assoc xs ys tail) in
        (q (m r).0 same).parse (m r).1 tail ok' e';
  }

  pub Parses-map :
      (m : Read A) (g : A → B) (xs : Bytes) (a : A) (b : B)
      → Parses m xs a
      → ((x : A) → x ≡ a → g x ≡ b)
      → Parses (m >>= λ x. ret (g x)) xs b
  Parses-map m g xs a b p w = record {
    parse = λ r tail ok e. let (same, ok', e') = p.parse r tail ok e in (w (m r).0 same, ok', e');
  }

room : (r : Reader) (xs tail : Bytes) → ahead r ≡ xs ++ tail → length xs ≤ remaining r
room r xs tail e = omega (arith, ap length e, length-append xs tail, length-drop r.pos r.bytes)

get_raw-Parses : (n : ℕ) (xs : Bytes) → length xs ≡ n → Parses (get_raw n) xs xs
unfolding get_raw
get_raw-Parses n xs h = record {
  parse = λ r tail ok e.
      rw (ok, le→ltb (remaining r) n (omega (arith, room r xs tail e)))
        (
          ap (take n) e ∙ take-append n xs tail h,
          refl,
          sym (drop-drop r.pos n r.bytes) ∙ ap (drop n) e ∙ drop-append n xs tail h,
        );
}

-- A number of `n` bytes.
get_number-Parses :
    (n v : ℕ) → v < 256 ^ n → Parses (get_raw n >>= λ bs. ret (from_le bs)) (to_le n v) v
get_number-Parses n v h =
    Parses-map _ from_le _ (to_le n v) v (get_raw-Parses n (to_le n v) (length-to_le n v))
      λ x e. ap from_le e ∙ from_le-to_le n v h

pub get_u8-Parses : (v : ℕ) → v < 256 → Parses get_u8 (v ∷ []) v
unfolding get_u8
get_u8-Parses v h =
    subst (λ xs. Parses get_u8 xs v) (to_le_one v h)
      (unfold get_u8 in get_number-Parses 1 v (omega arith))

get_u16-Parses : (v : ℕ) → v < u16_mod → Parses get_u16 (to_le 2 v) v
unfolding get_u16
get_u16-Parses v h = get_number-Parses 2 v h

pub get_u32-Parses : (v : ℕ) → v < u32_mod → Parses get_u32 (to_le 4 v) v
unfolding get_u32
get_u32-Parses v h = get_number-Parses 4 v h

pub get_f32-Parses : (v : ℕ) → v < u32_mod → Parses get_f32 (to_le 4 v) v
unfolding get_f32
get_f32-Parses v h = get_number-Parses 4 v h

get_chars-Parses :
    (xs : Bytes) → length xs ≤ max_string_bytes → Parses (get_chars (length xs)) xs xs
unfolding get_chars
get_chars-Parses xs h = record {
  parse = λ r tail ok e.
      rw
        (
          ok,
          le→ltb max_string_bytes (length xs) h,
          le→ltb (remaining r) (length xs) (room r xs tail e),
        )
        (
          ap (take (length xs)) e ∙ take-append (length xs) xs tail refl,
          refl,
          sym (drop-drop r.pos (length xs) r.bytes)
              ∙ ap (drop (length xs)) e
              ∙ drop-append (length xs) xs tail refl,
        );
}

max_string_fits : max_string_bytes < u16_mod
unfolding max_string_bytes
max_string_fits = omega arith

-- A string comes back cut to 4096 bytes.
pub get_str-Parses : (s : Bytes) → Parses get_str (str_bytes s) (take max_string_bytes s)
unfolding get_str
get_str-Parses s =
    let cut = take max_string_bytes s in
    let short : length cut ≤ max_string_bytes = length-take-le max_string_bytes s in
    Parses->>= _ _ _ _ _ _ (get_u16-Parses (length cut) (omega (arith, max_string_fits)))
      λ n e. subst (λ k. Parses (get_chars k) cut cut) (sym e) (get_chars-Parses cut short)

-- One within the limit comes back whole.
pub get_str_whole : (s : Bytes) → length s ≤ max_string_bytes → Parses get_str (str_bytes s) s
get_str_whole s h =
    subst (Parses get_str (str_bytes s)) (take_all max_string_bytes s h) (get_str-Parses s)
