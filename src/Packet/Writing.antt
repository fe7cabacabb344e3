-- ===== src/Packet/Writing.antt =====
-- What each `put` of Packet.hpp appends to the buffer.
use f4mp.Base.{
  ℕ, zero, suc, [], ◌∷◌, ◌++◌, ◌≡◌, refl, sym, ap, ◌∙◌, inl, inr, append_assoc, arith,
  if◌then◌else◌, ltb, ltb→lt, Bool-cases, Bytes, length, take, take_all, length-take_of_le, to_le,
}
use f4mp.Packet.{Writer, put_raw, put_u8, put_u16, put_u32, put_f32, put_str, max_string_bytes}

-- `f` leaves what is there and adds `xs` behind it.
abbrev pub Appends : (Writer → Writer) → Bytes → Type 0
Appends f xs = (w : Writer) → (f w).buf ≡ w.buf ++ xs

pub Appends-compose :
    (f g : Writer → Writer) (xs ys : Bytes)
    → Appends f xs
    → Appends g ys
    → Appends (λ w. g (f w)) (xs ++ ys)
Appends-compose f g xs ys p q w = q (f w) ∙ ap (λ b. b ++ ys) (p w) ∙ append_assoc w.buf xs ys

put_raw-Appends : (xs : Bytes) → Appends (put_raw xs) xs
unfolding put_raw
put_raw-Appends xs w = refl

pub put_u8-Appends : (v : ℕ) → Appends (put_u8 v) (v ∷ [])
unfolding put_u8
put_u8-Appends v w = refl

put_u16-Appends : (v : ℕ) → Appends (put_u16 v) (to_le 2 v)
unfolding put_u16
put_u16-Appends v = put_raw-Appends (to_le 2 v)

pub put_u32-Appends : (v : ℕ) → Appends (put_u32 v) (to_le 4 v)
unfolding put_u32
put_u32-Appends v = put_raw-Appends (to_le 4 v)

pub put_f32-Appends : (v : ℕ) → Appends (put_f32 v) (to_le 4 v)
unfolding put_f32
put_f32-Appends v = put_raw-Appends (to_le 4 v)

-- The wire form of a string: its length in two bytes, then the first 4096 bytes of it.
abbrev pub str_bytes : Bytes → Bytes
str_bytes s = to_le 2 (length (take max_string_bytes s)) ++ take max_string_bytes s

put_str_len : (n : ℕ) (s : Bytes) → (if ltb n (length s) then n else length s) ≡ length (take n s)
put_str_len n s = elim (Bool-cases (ltb n (length s))) [
  | inl long ↦ rw long (sym (length-take_of_le n s (omega (arith, ltb→lt n (length s) long))))
  | inr short ↦ rw short (sym (ap length (take_all n s (ground arith))))
]

take_cut : (n : ℕ) (s : Bytes) → take (length (take n s)) s ≡ take n s
take_cut zero s = refl
take_cut (suc n) [] = refl
take_cut (suc n) (x ∷ xs) = ap (◌∷◌ x) (take_cut n xs)

pub put_str-Appends : (s : Bytes) → Appends (put_str s) (str_bytes s)
unfolding put_str
put_str-Appends s =
    rw (put_str_len max_string_bytes s, take_cut max_string_bytes s)
      (Appends-compose _ _ _ _ (put_u16-Appends (length (take max_string_bytes s)))
        (put_raw-Appends (take max_string_bytes s)))
