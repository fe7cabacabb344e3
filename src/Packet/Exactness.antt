-- ===== src/Packet/Exactness.antt =====
-- The other direction: what a successful read used up.
use f4mp.Base.{
  ℕ, ◌+◌, ◌≤◌, ◌<◌, ◌^◌, true, not, ◌||◌, [], ◌∷◌, ◌++◌, ◌≡◌, refl, sym, ap, ◌∙◌, inl, inr,
  append_assoc, arith, ltb, Bool-cases, Bytes, length, take, drop, All, All-append_left,
  All-append_right, length-take_of_le, length-drop, take-append-drop, drop-drop, to_le, from_le,
  to_le-from_le, from_le-lt, u16_mod, u32_mod, to_le_one, take_all,
}
use f4mp.Packet.{
  Reader, Read, ret, ◌>>=◌, remaining, get_raw, get_u8, get_u16, get_u32, get_f32, get_chars,
  get_str, max_string_bytes,
}
use f4mp.Packet.Reading.{ahead}
use f4mp.Packet.Writing.{str_bytes}

abbrev pub IsByte : ℕ → Type 0
IsByte b = b < 256

-- The read started well and used up the bytes `used`, which with its result satisfy `P`.
pub record Consumed {A : Type 0} (P : A → Bytes → Type 0) (r : Reader) (res : A × Reader)
    : Type 0 where
  pub started : r.ok ≡ true
  pub used : Bytes
  pub splits : ahead r ≡ used ++ ahead res.1
  pub meets : All IsByte used → P res.0 used

-- Whenever `m` ends with the reader still good, it consumed bytes that satisfy `P`.
pub record Exact {A : Type 0} (m : Read A) (P : A → Bytes → Type 0) : Type 0 where
  pub consumes : (r : Reader) → (m r).1.ok ≡ true → Consumed P r (m r)

pub Exact->>= :
    {A B : Type 0} (m : Read A) (f : A → Read B)
    → (P : A → Bytes → Type 0) (Q : B → Bytes → Type 0) → Exact m P
    → ((a : A) → Exact (f a) (λ b ys. (xs : Bytes) → P a xs → Q b (xs ++ ys)))
    → Exact (m >>= f) Q
Exact->>= m f P Q p q = record { consumes = run }
  where
    run : (r : Reader) → ((m >>= f) r).1.ok ≡ true → Consumed Q r ((m >>= f) r)
    run r ok =
        let later = (q (m r).0).consumes (m r).1 ok in
        let first = p.consumes r later.started in
        record {
          started = first.started;
          used = first.used ++ later.used;
          splits =
              first.splits
              ∙ ap (◌++◌ first.used) later.splits
              ∙ sym (append_assoc first.used later.used (ahead (f (m r).0 (m r).1).1));
          meets = λ bs.
              later.meets (All-append_right IsByte first.used later.used bs) first.used
                (first.meets (All-append_left IsByte first.used later.used bs));
        }

Exact-weaken :
    {A : Type 0} (m : Read A) (P Q : A → Bytes → Type 0)
    → ((a : A) (xs : Bytes) → P a xs → Q a xs)
    → Exact m P
    → Exact m Q
Exact-weaken m P Q w p = record {
  consumes = λ r ok.
      let c = p.consumes r ok in
      record {
        started = c.started;
        used = c.used;
        splits = c.splits;
        meets = λ bs. w (m r).0 c.used (c.meets bs);
      };
}

pub Exact-map :
    {A B : Type 0} (m : Read A) (g : A → B)
    → (P : A → Bytes → Type 0) (Q : B → Bytes → Type 0) → Exact m P
    → ((a : A) (xs : Bytes) → P a xs → Q (g a) xs)
    → Exact (m >>= λ x. ret (g x)) Q
Exact-map m g P Q p w = record {
  consumes = λ r ok.
      let c = p.consumes r ok in
      record {
        started = c.started;
        used = c.used;
        splits = c.splits;
        meets = λ bs. w (m r).0 c.used (c.meets bs);
      };
}

-- Reading moves over `n` bytes that are there.
module _ (r : Reader) (n : ℕ) (fits : n ≤ remaining r) where
  ahead_split : ahead r ≡ take n (ahead r) ++ drop (r.pos + n) r.bytes
  ahead_split =
      sym (take-append-drop n (ahead r)) ∙ ap (◌++◌ (take n (ahead r))) (drop-drop r.pos n r.bytes)

  length-ahead : length (take n (ahead r)) ≡ n
  length-ahead = length-take_of_le n (ahead r) (omega (arith, length-drop r.pos r.bytes))

get_raw-Exact : (n : ℕ) → Exact (get_raw n) (λ v xs. (v ≡ xs) × (length xs ≡ n) × All IsByte xs)
unfolding get_raw
get_raw-Exact n = record {
  consumes = λ r ok. elim (Bool-cases (not r.ok || ltb (remaining r) n)) [
    | inl bad ↦ absurd (ground arith)
    | inr good ↦
        let fits : n ≤ remaining r = ground arith in
        rw good (record {
          started = ground arith;
          used = take n (ahead r);
          splits = ahead_split r n fits;
          meets = λ bs. (refl, length-ahead r n fits, bs);
        })
  ];
}

abbrev IsNumber : ℕ → ℕ → Bytes → Type 0
IsNumber n v xs = (xs ≡ to_le n v) × (v < 256 ^ n)

IsNumber-back : (n : ℕ) (xs : Bytes) → length xs ≡ n → All IsByte xs → IsNumber n (from_le xs) xs
IsNumber-back n xs h bs = (rw (← h) (sym (to_le-from_le xs bs)), rw (← h) (from_le-lt xs bs))

IsNumber-Exact : (n : ℕ) → Exact (get_raw n >>= λ bs. ret (from_le bs)) (IsNumber n)
IsNumber-Exact n =
    Exact-map _ from_le _ _ (get_raw-Exact n) λ a xs h. rw h.0 (IsNumber-back n xs h.1 h.2)

get_chars-Exact :
    (n : ℕ) → Exact (get_chars n) (λ v xs. (v ≡ xs) × (length xs ≡ n) × (n ≤ max_string_bytes))
unfolding get_chars
get_chars-Exact n = record {
  consumes = λ r ok. elim (Bool-cases (not r.ok || ltb max_string_bytes n || ltb (remaining r) n)) [
    | inl bad ↦ absurd (ground arith)
    | inr good ↦
        let fits : n ≤ remaining r = ground arith in
        let short : n ≤ max_string_bytes = ground arith in
        rw good (record {
          started = ground arith;
          used = take n (ahead r);
          splits = ahead_split r n fits;
          meets = λ _. (refl, length-ahead r n fits, short);
        })
  ];
}

pub get_u8-Exact : Exact get_u8 (λ v xs. (xs ≡ v ∷ []) × (v < 256))
unfolding get_u8
get_u8-Exact =
    Exact-weaken _ (IsNumber 1) _ (λ v xs h. (h.0 ∙ to_le_one v (omega arith), omega arith))
      (IsNumber-Exact 1)

get_u16-Exact : Exact get_u16 (λ v xs. (xs ≡ to_le 2 v) × (v < u16_mod))
unfolding get_u16
get_u16-Exact = IsNumber-Exact 2

pub get_u32-Exact : Exact get_u32 (λ v xs. (xs ≡ to_le 4 v) × (v < u32_mod))
unfolding get_u32
get_u32-Exact = IsNumber-Exact 4

pub get_f32-Exact : Exact get_f32 (λ v xs. (xs ≡ to_le 4 v) × (v < u32_mod))
unfolding get_f32
get_f32-Exact = IsNumber-Exact 4

-- A string that was read is no longer than the limit, and its wire form was there.
pub get_str-Exact : Exact get_str (λ s xs. (xs ≡ str_bytes s) × (length s ≤ max_string_bytes))
unfolding get_str
get_str-Exact = Exact->>= get_u16 get_chars _ _ get_u16-Exact λ n.
    Exact-weaken (get_chars n) _ _
      (λ s ys h xs k.
        let whole = take_all max_string_bytes s (rw (h.0, h.1) h.2) in
        (rw (whole, h.0, h.1, k.0), rw (h.0, h.1) h.2))
      (get_chars-Exact n)
