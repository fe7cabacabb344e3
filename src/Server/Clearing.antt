-- ===== src/Server/Clearing.antt =====
-- `bot remove all` of server/src/Server.cpp, a loop on the bots that are left.
use f4mp.Base.{
  ℕ, zero, suc, ◌+◌, ◌≤◌, none, some, List, [], ◌∷◌, ◌==◌, ◌≡◌, ◌≢◌, refl, sym, subst, ap, ◌∙◌, inl,
  inr, arith, Bool-cases, Option-cases, if◌then◌else◌, length, back, codes,
}
use f4mp.Server.State.{Bot, Server, Env}
use f4mp.Server.Frame.{Core, core-dismiss}
use f4mp.Server.Bots.{find_bot, erase_bot, remove_bot}
use f4mp.Server.Commands.{remove_all, bot_remove}

length-erase_bot :
    (id : ℕ) (bs : List Bot) (b : Bot)
    → find_bot id bs ≡ some b
    → length (erase_bot id bs) + 1 ≡ length bs
unfolding find_bot erase_bot
length-erase_bot id [] b e = cc
length-erase_bot id (c ∷ cs) b e = elim (Bool-cases (c.id == id)) [
  | inl same ↦ rw same (omega arith)
  | inr other ↦
      let rest =
        length-erase_bot id cs b
          (subst (λ t. (if t then some c else find_bot id cs) ≡ some b) other e) in
      rw other (omega (arith, rest))
]

back-none : (bs : List Bot) → back bs ≡ none → bs ≡ []
back-none [] e = refl
back-none (b ∷ []) e = cc
back-none (b ∷ c ∷ cs) e = absurd (more (back-none (c ∷ cs) e))
  where
    more : c ∷ cs ≢ []
    more h = cc

find_bot-back : (bs : List Bot) (b : Bot) → back bs ≡ some b → find_bot b.id bs ≢ none
unfolding find_bot
find_bot-back [] b e h = cc
find_bot-back (c ∷ []) b e h = ground arith
find_bot-back (c ∷ d ∷ ds) b e h = elim (Bool-cases (c.id == b.id)) [
  | inl same ↦ ground arith
  | inr other ↦
      find_bot-back (d ∷ ds) b e
        (subst (λ t. (if t then some c else find_bot b.id (d ∷ ds)) ≡ none) other h)
]

length-zero : (bs : List Bot) → length bs ≤ 0 → bs ≡ []
length-zero [] h = refl
length-zero (b ∷ bs) h = absurd (omega arith)

module _ (env : Env) where
  remove_bot_found :
      (id : ℕ) (s : Server) (b : Bot)
      → find_bot id s.bots ≡ some b
      → ((remove_bot env id s).1.bots ≡ erase_bot id s.bots)
        × ((remove_bot env id s).1.players ≡ s.players)
  unfolding remove_bot
  remove_bot_found id s b e =
      rw (e, remove_bot) (refl, ap (λ (k : Core). k.players) (core-dismiss env b s))

  remove_all_lem :
      (fuel : ℕ) (s : Server)
      → length s.bots ≤ fuel
      → ((remove_all env fuel s).bots ≡ []) × ((remove_all env fuel s).players ≡ s.players)
  unfolding remove_all
  remove_all_lem zero s h = (length-zero s.bots h, refl)
  remove_all_lem (suc fuel) s h = elim (Option-cases (back s.bots)) [
    | inl e ↦ rw (e, remove_all) (back-none s.bots e, refl)
    | inr (b, e) ↦ elim (Option-cases (find_bot b.id s.bots)) [
      | inl lost ↦ absurd (find_bot-back s.bots b e lost)
      | inr (c, found) ↦
          let (gone, stay) = remove_bot_found b.id s c found in
          let shorter = length-erase_bot b.id s.bots c found in
          let less : length (remove_bot env b.id s).1.bots ≤ fuel =
            subst (λ bs. length bs ≤ fuel) (sym gone) (omega (arith, shorter)) in
          let rest = remove_all_lem fuel (remove_bot env b.id s).1 less in
          rw (e, remove_all) (rest.0, rest.1 ∙ stay)
    ]
  ]

-- `bot remove all` ends with no bot left, whatever bots there are, and the players stay.
pub bot_remove_all :
    (env : Env) (s : Server)
    → ((bot_remove env (codes "all") s).bots ≡ [])
      × ((bot_remove env (codes "all") s).players ≡ s.players)
unfolding bot_remove
bot_remove_all env s = remove_all_lem env (length s.bots) s (omega arith)
