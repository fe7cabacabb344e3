-- ===== src/Server/Invariant/Once.antt =====
-- An id of server/src/Server.cpp is given out only once.
use f4mp.Base.{
  ℕ, ◌+◌, ◌<◌, List, ◌≡◌, ◌≢◌, sym, ap, subst, ◌∙◌, arith, true, u32_mod, Fresh, Adds-All, Bytes,
}
use f4mp.Server.State.{Server, Env, Config}
use f4mp.Server.Service.{Event, new_server, start, main_loop}
use f4mp.Server.Changes.{
  Changes, quiet, keeps, gives, next_id-core, next_id-Change, next_id-Gives, Changes-grows,
}
use f4mp.Server.Changes.Ids.{ids, ids-core, ids-Change, ids-Gives}
use f4mp.Server.Changes.Loop.{work, main_loop-Changes}
use f4mp.Server.Invariant.{next_of_room}
use f4mp.Server.Invariant.Loop.{served-Within}

-- The id was given out, and nobody has it any more.
abbrev pub IsGone : ℕ → Server → Type 0
IsGone id s = (id < s.next_id) × Fresh id (ids s)

Changes-IsGone :
    {s : Server} {n : ℕ} (id : ℕ) (t : Server)
    → Changes s n t
    → s.next_id + n < u32_mod
    → IsGone id s
    → IsGone id t
Changes-IsGone {s} id t (quiet e) room (below, gone) =
    (omega (arith, below, next_id-core s t e), subst (Fresh id) (sym (ids-core s t e)) gone)
Changes-IsGone id t (keeps {t = u} {t' = v} cs k e) room g =
    let (below, gone) = Changes-IsGone id u cs room g in
    (
      omega (arith, below, next_id-Change k, next_id-core v t e),
      subst (Fresh id) (sym (ids-core v t e)) ((ids-Change u v k).all (λ i. i ≢ id) gone),
    )
Changes-IsGone id t (gives {t = u} {t' = v} cs g e l) room h =
    let (below, gone) = Changes-IsGone id u cs (omega arith) h in
    let next = next_id-Gives g ∙ next_of_room u (omega (arith, Changes-grows cs)) in
    (
      omega (arith, below, next, next_id-core v t e),
      subst (Fresh id) (sym (ids-core v t e)) (
          Adds-All (λ i. i ≢ id) (ids-Gives u v g) (λ (q : u.next_id ≡ id). omega (arith, below))
            gone),
    )

-- If a server that was started and has made some passes of the loop in `main` has given an id out,
-- and no player that has shaken hands and no bot has it any more, then none has it after any more
-- passes. The condition is that there are fewer than 2 ^ 32 - 1 events and lines in all.
pub main_loop-IsGone :
    (env : Env) (config : Config) (now : ℕ) (before after : List (List Event × List Bytes))
    (s : Server) (id : ℕ)
    → work before + work after + 1 < u32_mod
    → s ≡ main_loop env before (start true true (new_server config now)).0
    → IsGone id s
    → IsGone id (main_loop env after s)
main_loop-IsGone env config now before after s id room e g =
    let within = (served-Within env config now before (omega arith)).1 in
    let same = ap (λ (t : Server). t.next_id) e in
    Changes-IsGone id (main_loop env after s) (main_loop-Changes env after s)
      (omega (arith, within, same)) g
