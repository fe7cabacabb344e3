-- ===== src/Client/Console/Words.antt =====
-- client/src/Game/ConsoleCommands.cpp: the names behind "graph", split by `NextToken` in a loop.
use f4mp.Base.{
  ℕ, zero, suc, ◌+◌, ◌≤◌, ◌<◌, false, List, [], ◌∷◌, ◌++◌, is_empty, length, length-trim_front-le,
  length-trim_back-le, trim_front, trim_back, All, Bytes, append-nil, ◌≡◌, refl, sym, ap, subst,
  ◌∙◌, arith, Bool-cases, inl, inr,
}
use f4mp.Ini.{is_space, trim}
use f4mp.Client.Console.{split_word, next_token, words}
use f4mp.Client.Console.Optional.{
  NoBlanks, next_token-word, trim-word, trim_back-word, next_token-trim,
}

split_word-length : (s : Bytes) → length (split_word s).0 + length (split_word s).1 ≡ length s
unfolding split_word
split_word-length [] = refl
split_word-length (c ∷ cs) = ground (arith, split_word-length cs)

trim-length : (s : Bytes) → length (trim s) ≤ length s
unfolding trim
trim-length s =
    omega
      (arith, length-trim_back-le is_space (trim_front is_space s), length-trim_front-le is_space s)

-- What `NextToken` leaves is shorter by the token.
next_token-length : (s : Bytes) → length (next_token s).0 + length (next_token s).1 ≤ length s
unfolding next_token
next_token-length s =
    omega (arith, trim-length s, split_word-length (trim s), trim-length (split_word (trim s)).1)

is_empty-zero : (s : Bytes) → is_empty s ≡ false → 0 < length s
is_empty-zero [] h = ground arith
is_empty-zero (c ∷ cs) h = omega arith

words-fuel : (m n : ℕ) (s : Bytes) → length s ≤ m → length s ≤ n → words m s ≡ words n s
unfolding words
words-fuel zero zero s h k = refl
words-fuel zero (suc n) [] h k = refl
words-fuel zero (suc n) (c ∷ cs) h k = absurd (omega arith)
words-fuel (suc m) zero [] h k = refl
words-fuel (suc m) zero (c ∷ cs) h k = absurd (omega arith)
words-fuel (suc m) (suc n) s h k = elim (Bool-cases (is_empty (next_token s).0)) [
  | inl e ↦ rw e refl
  | inr e ↦
      let some_token = is_empty-zero (next_token s).0 e in
      let less = next_token-length s in
      rw (words-fuel m n (next_token s).1 (omega arith) (omega arith)) refl
]

-- Words with a blank between any two.
unfoldable pub join : List Bytes → Bytes
join [] = []
join (w ∷ []) = w
join (w ∷ v ∷ ws) = w ++ 32 ∷ join (v ∷ ws)

pub record IsWord (w : Bytes) : Type 0 where
  pub full : is_empty w ≡ false
  pub solid : NoBlanks w

trim_back-blank :
    (s : Bytes)
    → is_empty (trim_back is_space s) ≡ false
    → trim_back is_space (32 ∷ s) ≡ 32 ∷ trim_back is_space s
unfolding trim_back
trim_back-blank s h = rw h refl

is_empty-append : (a b : Bytes) → is_empty a ≡ false → is_empty (a ++ b) ≡ false
is_empty-append [] b h = absurd (ground arith)
is_empty-append (c ∷ cs) b h = refl

join-full : (w : Bytes) (ws : List Bytes) → IsWord w → is_empty (join (w ∷ ws)) ≡ false
unfolding join
join-full w [] h = h.full
join-full w (v ∷ ws) h = is_empty-append w _ h.full

trim_back-nil : trim_back is_space [] ≡ []
unfolding trim_back
trim_back-nil = refl

trim_back-join : (ws : List Bytes) → All IsWord ws → trim_back is_space (join ws) ≡ join ws
unfolding join
trim_back-join [] h = trim_back-nil
trim_back-join (w ∷ []) h =
    ap (trim_back is_space) (sym (append-nil w))
    ∙ (trim_back-word w [] h.0.solid ∙ (ap (◌++◌ w) trim_back-nil ∙ append-nil w))
trim_back-join (w ∷ v ∷ ws) h =
    let same = trim_back-join (v ∷ ws) h.1 in
    let full = ap is_empty same ∙ join-full v ws h.1.0 in
    trim_back-word w (32 ∷ join (v ∷ ws)) h.0.solid
    ∙ ap (λ r. w ++ r) (trim_back-blank (join (v ∷ ws)) full ∙ ap (◌∷◌ 32) same)

trim-join :
    (w : Bytes) (ws : List Bytes) → All IsWord (w ∷ ws) → trim (join (w ∷ ws)) ≡ join (w ∷ ws)
unfolding join
trim-join [] ws h = absurd (ground (arith, h.0.full))
trim-join (c ∷ cs) [] h =
    ap trim (sym (append-nil (c ∷ cs)))
    ∙ (trim-word c cs [] h.0.solid ∙ (ap (◌++◌ (c ∷ cs)) trim_back-nil ∙ append-nil (c ∷ cs)))
trim-join (c ∷ cs) (v ∷ ws) h =
    let same = trim_back-join (v ∷ ws) h.1 in
    let full = ap is_empty same ∙ join-full v ws h.1.0 in
    trim-word c cs (32 ∷ join (v ∷ ws)) h.0.solid
    ∙ ap (λ r. c ∷ cs ++ r) (trim_back-blank (join (v ∷ ws)) full ∙ ap (◌∷◌ 32) same)

trim_back-one : trim_back is_space (32 ∷ []) ≡ []
unfolding trim_back
trim_back-one = refl

next_token-last : (w : Bytes) → IsWord w → next_token w ≡ (w, trim [])
next_token-last [] h = absurd (ground (arith, h.full))
next_token-last (c ∷ cs) h =
    let short =
      trim-word c cs (32 ∷ []) h.solid ∙ (ap (◌++◌ (c ∷ cs)) trim_back-one ∙ append-nil (c ∷ cs)) in
    ap next_token (sym short)
    ∙ (next_token-trim (c ∷ cs ++ 32 ∷ []) ∙ next_token-word c cs [] h.solid)

next_token-first : (w line : Bytes) → IsWord w → next_token (w ++ 32 ∷ line) ≡ (w, trim line)
next_token-first [] line h = absurd (ground (arith, h.full))
next_token-first (c ∷ cs) line h = next_token-word c cs line h.solid

trim-nil : trim [] ≡ []
unfolding trim trim_front trim_back
trim-nil = refl

next_token-join :
    (w : Bytes) (ws : List Bytes) → All IsWord (w ∷ ws) → next_token (join (w ∷ ws)) ≡ (w, join ws)
unfolding join
next_token-join w [] h = next_token-last w h.0 ∙ ap (λ r. (w, r)) trim-nil
next_token-join w (v ∷ ws) h =
    next_token-first w (join (v ∷ ws)) h.0 ∙ ap (λ r. (w, r)) (trim-join v ws h.1)

words-none : (fuel : ℕ) → words fuel [] ≡ []
unfolding words
words-none zero = refl
words-none (suc fuel) = refl

join-none : join [] ≡ []
unfolding join
join-none = refl

words-cons :
    (fuel : ℕ) (w : Bytes) (ws : List Bytes)
    → All IsWord (w ∷ ws)
    → words (suc fuel) (join (w ∷ ws)) ≡ w ∷ words fuel (join ws)
unfolding words
words-cons fuel w ws h = rw (join-full w ws h.0, next_token-join w ws h, h.0.full) refl

-- On words with a blank between any two the loop gives back the words, in order, and ends by itself: a
-- bound on its rounds that is not below the number of bytes makes no difference.
pub words-join :
    (fuel : ℕ) (ws : List Bytes)
    → All IsWord ws
    → length (join ws) ≤ fuel
    → words fuel (join ws) ≡ ws
words-join fuel [] h l = ap (words fuel) join-none ∙ words-none fuel
words-join zero (w ∷ ws) h l = absurd (omega (arith, is_empty-zero _ (join-full w ws h.0)))
words-join (suc fuel) (w ∷ ws) h l =
    let shorter : length w + length (join ws) ≤ length (join (w ∷ ws)) =
      subst (λ u. length u.0 + length u.1 ≤ length (join (w ∷ ws))) (next_token-join w ws h)
        (next_token-length (join (w ∷ ws))) in
    let some_token = is_empty-zero w h.0.full in
    words-cons fuel w ws h ∙ ap (◌∷◌ w) (words-join fuel ws h.1 (omega arith))
