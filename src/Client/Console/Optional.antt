-- ===== src/Client/Console/Optional.antt =====
-- client/src/Game/ConsoleCommands.cpp: the first word "f4mp" of a line.
use f4mp.Base.{
  ℕ, Bool, true, false, [], ◌∷◌, ◌++◌, if◌then◌else◌, front-trim_front, trim_front, trim_back,
  trim_front_fixed, trim_back_fixed, back-trim_back, All, Bytes, ◌≡◌, refl, sym, ap, ◌∙◌, arith,
}
use f4mp.Ini.{is_space, trim}
use f4mp.Client.Session.{Link}
use f4mp.Client.Console.{Terminal, split_word, next_token, is_command_token, run_rest, execute}

-- A word: bytes that are no blanks.
abbrev pub NoBlanks : Bytes → Type 0
NoBlanks token = All (λ (c : ℕ). is_space c ≡ false) token

trim_back_idem : (s : Bytes) → trim_back is_space (trim_back is_space s) ≡ trim_back is_space s
trim_back_idem s = trim_back_fixed is_space (trim_back is_space s) (back-trim_back is_space s)

-- The two ends can be trimmed in any order.
trim_comm :
    (s : Bytes)
    → trim_front is_space (trim_back is_space s) ≡ trim_back is_space (trim_front is_space s)
unfolding trim_front trim_back
trim_comm [] = refl
trim_comm (c ∷ cs) = ground (arith, trim_comm cs)

trim-blank : (line : Bytes) → trim (32 ∷ line) ≡ trim line
unfolding trim trim_front
trim-blank line = refl

-- What stands behind a word and a blank, trimmed at its end already or not.
trim-tail : (line : Bytes) → trim (trim_back is_space (32 ∷ line)) ≡ trim line
unfolding trim
trim-tail line =
    ap (trim_back is_space) (trim_comm (32 ∷ line))
    ∙ (trim_back_idem (trim_front is_space (32 ∷ line)) ∙ trim-blank line)

trim_front-word : (c : ℕ) (cs : Bytes) → is_space c ≡ false → trim_front is_space (c ∷ cs) ≡ c ∷ cs
unfolding trim_front
trim_front-word c cs h = ground (arith, h)

pub trim_back-word :
    (token rest : Bytes)
    → NoBlanks token
    → trim_back is_space (token ++ rest) ≡ token ++ trim_back is_space rest
unfolding trim_back
trim_back-word [] rest h = refl
trim_back-word (c ∷ cs) rest h = ground (arith, h.0, trim_back-word cs rest h.1)

-- A word in front of nothing or of a blank is split off.
abbrev StartsBlank : Bytes → Type 0
StartsBlank [] = Unit
StartsBlank (c ∷ cs) = is_space c ≡ true

split_word-word :
    (token rest : Bytes)
    → NoBlanks token
    → StartsBlank rest
    → split_word (token ++ rest) ≡ (token, rest)
unfolding split_word
split_word-word [] [] h b = refl
split_word-word [] (c ∷ cs) h b = rw b refl
split_word-word (c ∷ cs) rest h b = rw (h.0, split_word-word cs rest h.1 b) refl

starts_if : (b : Bool) (rest : Bytes) → StartsBlank (if b then [] else 32 ∷ rest)
starts_if true rest = tt
starts_if false rest = refl

trim_back-StartsBlank : (line : Bytes) → StartsBlank (trim_back is_space (32 ∷ line))
unfolding trim_back
trim_back-StartsBlank line = starts_if _ (trim_back is_space line)

pub trim-word :
    (c : ℕ) (cs rest : Bytes)
    → NoBlanks (c ∷ cs)
    → trim (c ∷ cs ++ rest) ≡ c ∷ cs ++ trim_back is_space rest
unfolding trim
trim-word c cs rest h =
    ap (trim_back is_space) (trim_front-word c (cs ++ rest) h.0) ∙ trim_back-word (c ∷ cs) rest h

-- A word that stands in front of a blank is the first token.
pub next_token-word :
    (c : ℕ) (cs line : Bytes)
    → NoBlanks (c ∷ cs)
    → next_token (c ∷ cs ++ 32 ∷ line) ≡ (c ∷ cs, trim line)
unfolding next_token
next_token-word c cs line h =
    ap (λ u. ((split_word u).0, trim (split_word u).1)) (trim-word c cs (32 ∷ line) h)
    ∙ (ap (λ (u : Bytes × Bytes). (u.0, trim u.1))
          (split_word-word (c ∷ cs) (trim_back is_space (32 ∷ line)) h (trim_back-StartsBlank line))
        ∙ ap (λ r. (c ∷ cs, r)) (trim-tail line))

trim_front_idem : (s : Bytes) → trim_front is_space (trim_front is_space s) ≡ trim_front is_space s
trim_front_idem s = trim_front_fixed is_space (trim_front is_space s) (front-trim_front is_space s)

trim-trim : (s : Bytes) → trim (trim s) ≡ trim s
unfolding trim
trim-trim s =
    ap (trim_back is_space) (trim_comm (trim_front is_space s))
    ∙ (trim_back_idem (trim_front is_space (trim_front is_space s))
        ∙ ap (trim_back is_space) (trim_front_idem s))

pub next_token-trim : (line : Bytes) → next_token (trim line) ≡ next_token line
unfolding next_token
next_token-trim line = ap (λ u. ((split_word u).0, trim (split_word u).1)) (trim-trim line)

execute-prefix :
    (t : Terminal) (c : ℕ) (cs line : Bytes) (w : Link)
    → NoBlanks (c ∷ cs)
    → is_command_token (c ∷ cs) ≡ true
    → execute t (c ∷ cs ++ 32 ∷ line) w ≡ run_rest t (trim line) w
unfolding execute
execute-prefix t c cs line w h e =
    let first = next_token-trim (c ∷ cs ++ 32 ∷ line) ∙ next_token-word c cs line h in
    rw (first, e) refl

execute-plain :
    (t : Terminal) (line : Bytes) (w : Link)
    → is_command_token (next_token line).0 ≡ false
    → execute t line w ≡ run_rest t (trim line) w
unfolding execute
execute-plain t line w e = rw (next_token-trim line, e) refl

-- A first word "f4mp" is optional: with it, in any case and with any prefix up to a dot, a line does
-- all that it does without it, unless it starts with such a word itself.
pub execute-optional :
    (t : Terminal) (c : ℕ) (cs line : Bytes) (w : Link)
    → NoBlanks (c ∷ cs)
    → is_command_token (c ∷ cs) ≡ true
    → is_command_token (next_token line).0 ≡ false
    → execute t (c ∷ cs ++ 32 ∷ line) w ≡ execute t line w
execute-optional t c cs line w h e p =
    execute-prefix t c cs line w h e ∙ sym (execute-plain t line w p)
