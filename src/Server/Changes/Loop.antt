-- ===== src/Server/Changes/Loop.antt =====
-- The loop in server/src/main.cpp is a series of changes of the server that gives out at most as many
-- ids as there are events and lines.
use f4mp.Base.{
  ℕ, ◌+◌, ◌≤◌, false, not, List, [], ◌∷◌, ◌≡◌, refl, ap, inl, inr, arith, Bool-cases, Bytes, length,
}
use f4mp.Server.State.{Player, Server, Env, host_destroy, effect}
use f4mp.Server.Frame.{core, Core}
use f4mp.Server.Bots.{update_bots}
use f4mp.Server.Service.{
  Event, stop, hang_up, handle_event, handle_events, service, run_commands, is_stop, has_stop,
  before_stop, one_pass, main_loop,
}
use f4mp.Server.Commands.{execute_command}
use f4mp.Server.Changes.{closes, Changes, idle, one_change, Changes-if, Changes-trans}
use f4mp.Server.Changes.Events.{handle_event-Changes}
use f4mp.Server.Changes.Console.{update_bots-Changes, execute_command-Changes}

length-before_stop : (lines : List Bytes) → length (before_stop lines) ≤ length lines
unfolding before_stop
length-before_stop [] = omega arith
length-before_stop (l ∷ ls) =
    let rest = length-before_stop ls in
    elim (Bool-cases (is_stop l)) [
      | inl e ↦ rw e (omega arith)
      | inr e ↦ rw e (omega (arith, rest))
    ]

core-hang_up : (ps : List Player) (s : Server) → core (hang_up ps s) ≡ core s
unfolding hang_up
core-hang_up [] s = refl
core-hang_up (p ∷ ps) s = core-hang_up ps _

-- `Stop` empties the map of players and leaves the bots.
stop-Changes : (s : Server) → Changes s 0 (stop s)
unfolding stop
stop-Changes s =
    let gone = record (hang_up s.players s) { players = []; host = false } in
    Changes-if (not s.host) s (effect host_destroy gone) idle (
      one_change (effect host_destroy gone) closes
        (ap (λ (k : Core). record k { players = []; host = false }) (core-hang_up s.players s)))

-- How many events and lines there are.
abbrev pub work : List (List Event × List Bytes) → ℕ
work [] = 0
work ((es, lines) ∷ passes) = length es + length lines + work passes

module _ (env : Env) where
  handle_events-Changes :
      (es : List Event) (s : Server) → Changes s (length es) (handle_events env es s)
  unfolding handle_events
  handle_events-Changes [] s = idle
  handle_events-Changes (e ∷ es) s =
      Changes-trans (handle_event-Changes env s e) (handle_events-Changes es (handle_event env e s))
        (omega arith)

  run_commands-Changes :
      (lines : List Bytes) (s : Server) → Changes s (length lines) (run_commands env lines s)
  unfolding run_commands
  run_commands-Changes [] s = idle
  run_commands-Changes (l ∷ ls) s =
      Changes-trans (execute_command-Changes env l s)
        (run_commands-Changes ls (execute_command env l s)) (omega arith)

  service-Changes : (es : List Event) (s : Server) → Changes s (length es) (service env es s)
  unfolding service
  service-Changes es s =
      let t = handle_events env es s in
      Changes-if (not s.host) s (update_bots env t) idle
        (Changes-trans (handle_events-Changes es s) (update_bots-Changes env t) (omega arith))

  -- All passes of the loop, and `Stop` if a line asks for it.
  pub main_loop-Changes :
      (passes : List (List Event × List Bytes)) (s : Server)
      → Changes s (work passes) (main_loop env passes s)
  unfolding main_loop one_pass
  main_loop-Changes [] s = idle
  main_loop-Changes ((es, lines) ∷ passes) s =
      let typed = run_commands env (before_stop lines) (service env es s) in
      let fewer = length-before_stop lines in
      let pass : Changes s (length es + length lines) typed =
        Changes-trans (service-Changes es s)
          (run_commands-Changes (before_stop lines) (service env es s)) (omega (arith, fewer)) in
      Changes-if (not (has_stop lines)) (main_loop env passes typed) (stop typed)
        (Changes-trans pass (main_loop-Changes passes typed) (omega arith))
        (Changes-trans pass (stop-Changes typed) (omega arith))
