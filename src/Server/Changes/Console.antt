-- ===== src/Server/Changes/Console.antt =====
-- The bots of server/src/Server.cpp and each line of its console make a series of changes that gives
-- out one id at most.
use f4mp.Base.{
  ℕ, zero, suc, ◌+◌, ◌%◌, none, some, Option, List, [], ◌∷◌, ◌++◌, ◌≡◌, refl, ap, ap₂, ◌∙◌, inl,
  inr, arith, Option-cases, ltb, Bytes, codes, bytes_eq, is_empty, back, length, u32_mod,
}
use f4mp.Server.State.{Player, Bot, Mode, mirror, orbit, Server, Env, tick_clock}
use f4mp.Server.Frame.{
  Core, core-kick, core-server_chat, core-broadcast, core-dismiss, core-move_bots,
}
use f4mp.Server.Ids.{bot_ids}
use f4mp.Server.Bots.{
  find_id, find_bot, erase_bot, pick_target, new_bot, add_bot, remove_bot, move_bot, move_bots,
  bot_round, update_bots, bot_update_interval,
}
use f4mp.Server.Commands.{
  split, stoul, behind, bot_add, remove_all, bot_remove, bot_command, say_command, kick_player,
  kick_id, kick_command, run_command, execute_command,
}
use f4mp.Server.Changes.{
  dismisses, moves, adds, Changes, quiet, idle, one_change, one_gift, Changes-if, settles,
  Changes-trans,
}

module _ (env : Env) where
  add_bot-Changes :
      (mode : Mode) (name : Bytes) (s : Server) → Changes s 1 (add_bot env mode name s)
  unfolding add_bot
  add_bot-Changes mode name s =
      let b = new_bot env mode name s.next_id in
      let added = record s { next_id = (s.next_id + 1) % u32_mod; bots = s.bots ++ b ∷ [] } in
      one_gift _ (adds b refl) (core-server_chat env _ _ ∙ core-broadcast env _ _ none added)

  remove_bot-Changes : (id : ℕ) (s : Server) → Changes s 0 (remove_bot env id s).1
  unfolding remove_bot
  remove_bot-Changes id s = elim (Option-cases (find_bot id s.bots)) [
    | inl e ↦ rw (e, remove_bot) idle
    | inr (b, e) ↦
        rw (e, remove_bot)
          (one_change _ (dismisses id b e)
            (ap (λ (k : Core). record k { bots = erase_bot id s.bots }) (core-dismiss env b s)))
  ]

  id-move_bot : (dt : ℕ) (o : Option Player) (b : Bot) → (move_bot env dt o b).id ≡ b.id
  unfolding move_bot
  id-move_bot dt none b = refl
  id-move_bot dt (some target) b = refl

  bot_ids-move_bots :
      (dt : ℕ) (bs : List Bot) (s : Server) → bot_ids (move_bots env dt bs s).0 ≡ bot_ids bs
  unfolding move_bots
  bot_ids-move_bots dt [] s = refl
  bot_ids-move_bots dt (b ∷ bs) s =
      ap₂ ◌∷◌ (id-move_bot dt (pick_target b.follow s.players) b) (bot_ids-move_bots dt bs _)

  bot_round-Changes : (dt now : ℕ) (s : Server) → Changes s 0 (bot_round env dt now s)
  unfolding bot_round
  bot_round-Changes dt now s =
      let started = record s { last_bot_update = now } in
      let moved = move_bots env dt s.bots started in
      one_change (record (moved.1) { bots = moved.0 })
        (moves now moved.0 (bot_ids-move_bots dt s.bots started))
        (ap (λ (k : Core). record k { bots = moved.0 }) (core-move_bots env dt s.bots started))

  -- A round of the bots gives no id out.
  pub update_bots-Changes : (s : Server) → Changes s 0 (update_bots env s)
  unfolding update_bots
  update_bots-Changes s = Changes-if (is_empty s.bots) s _ idle (
      Changes-if (ltb (env.clock s.reads) (s.last_bot_update + bot_update_interval)) (tick_clock s)
        _ (quiet refl)
        (Changes-trans (quiet {n = 0} {t = tick_clock s} refl)
          (bot_round-Changes _ (env.clock s.reads) (tick_clock s)) (omega arith)))

  remove_all-Changes : (fuel : ℕ) (s : Server) → Changes s 0 (remove_all env fuel s)
  unfolding remove_all
  remove_all-Changes zero s = idle
  remove_all-Changes (suc fuel) s = elim (Option-cases (back s.bots)) [
    | inl e ↦ rw (e, remove_all) idle
    | inr (b, e) ↦
        rw (e, remove_all)
          (Changes-trans (remove_bot-Changes b.id s)
            (remove_all-Changes fuel (remove_bot env b.id s).1) (omega arith))
  ]

  -- What gives no id out gives at most one out.
  none_given : {s : Server} (t : Server) → Changes s 0 t → Changes s 1 t
  none_given t c = settles t c refl (omega arith)

  bot_remove-Changes : (w : Bytes) (s : Server) → Changes s 1 (bot_remove env w s)
  unfolding bot_remove
  bot_remove-Changes w s =
      Changes-if (bytes_eq w (codes "all")) (remove_all env (length s.bots) s) _
        (none_given _ (remove_all-Changes (length s.bots) s)) (by_id (stoul env.ulong_mod w))
    where
      by_id :
          (o : Option ℕ)
          → Changes s 1 (elim o [ none ↦ s | some id ↦ (remove_bot env (id % u32_mod) s).1 ])
      by_id none = idle
      by_id (some id) = none_given _ (remove_bot-Changes (id % u32_mod) s)

  bot_add-Changes : (ws : List Bytes) (s : Server) → Changes s 1 (bot_add env ws s)
  unfolding bot_add
  bot_add-Changes [] s = add_bot-Changes mirror [] s
  bot_add-Changes (w ∷ ws) s =
      Changes-if _ _ _ (add_bot-Changes orbit _ s)
        (Changes-if _ _ _ (add_bot-Changes mirror _ s) (add_bot-Changes mirror _ s))

  bot_command-Changes : (ws : List Bytes) (s : Server) → Changes s 1 (bot_command env ws s)
  unfolding bot_command
  bot_command-Changes [] s = idle
  bot_command-Changes (sub ∷ []) s =
      Changes-if _ _ _ (bot_add-Changes [] s) (Changes-if _ s s idle idle)
  bot_command-Changes (sub ∷ w ∷ ws) s =
      Changes-if _ _ _ (bot_add-Changes (w ∷ ws) s) (Changes-if _ _ s (bot_remove-Changes w s) idle)

  say_command-Changes : (line : Bytes) (s : Server) → Changes s 1 (say_command env line s)
  unfolding say_command
  say_command-Changes line s = elim (Option-cases (behind b' ' line)) [
    | inl e ↦ rw (e, say_command) idle
    | inr (t, e) ↦ rw (e, say_command) (quiet (core-server_chat env t s))
  ]

  kick_player-Changes :
      (id : ℕ) (reason : Bytes) (s : Server) → Changes s 0 (kick_player env id reason s)
  unfolding kick_player
  kick_player-Changes id reason s = elim (Option-cases (find_id id s.players)) [
    | inl e ↦ rw (e, kick_player) idle
    | inr (p, e) ↦ rw (e, kick_player) (quiet (core-kick env p reason s))
  ]

  kick_id-Changes : (id : ℕ) (reason : Bytes) (s : Server) → Changes s 1 (kick_id env id reason s)
  unfolding kick_id
  kick_id-Changes id reason s =
      let without = (remove_bot env id s).1 in
      let gone = remove_bot-Changes id s in
      Changes-if (remove_bot env id s).0 without _ (none_given without gone)
        (Changes-trans gone (kick_player-Changes id reason without) (omega arith))

  kick_command-Changes :
      (line : Bytes) (ws : List Bytes) (s : Server) → Changes s 1 (kick_command env line ws s)
  unfolding kick_command
  kick_command-Changes line [] s = idle
  kick_command-Changes line (w ∷ ws) s = elim (Option-cases (stoul env.ulong_mod w)) [
    | inl e ↦ rw (e, kick_command) idle
    | inr (id, e) ↦ rw (e, kick_command) (kick_id-Changes (id % u32_mod) _ s)
  ]

  run_command-Changes :
      (line : Bytes) (ws : List Bytes) (s : Server) → Changes s 1 (run_command env line ws s)
  unfolding run_command
  run_command-Changes line [] s = idle
  run_command-Changes line (cmd ∷ args) s = Changes-if _ _ _ (bot_command-Changes args s) (
      Changes-if _ _ _ (say_command-Changes line s)
        (Changes-if _ _ s (kick_command-Changes line args s) idle))

  -- A line of the console.
  pub execute_command-Changes :
      (line : Bytes) (s : Server) → Changes s 1 (execute_command env line s)
  unfolding execute_command
  execute_command-Changes line s = run_command-Changes line (split line) s
