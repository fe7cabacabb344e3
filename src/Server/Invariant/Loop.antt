-- ===== src/Server/Invariant/Loop.antt =====
-- The server's tables over the whole loop of server/src/main.cpp, with any packets from any peers and
-- any lines of the console.
use f4mp.Base.{ℕ, ◌+◌, ◌≤◌, ◌<◌, true, List, arith, Bytes, u32_mod}
use f4mp.Server.State.{Server, Env, Config}
use f4mp.Server.Service.{Event, new_server, start, main_loop}
use f4mp.Server.Changes.{Changes-grows}
use f4mp.Server.Changes.Loop.{work, main_loop-Changes}
use f4mp.Server.Invariant.{IsConsistent, Changes-IsConsistent}

-- Consistent tables, and a counter up to a bound.
abbrev pub Within : ℕ → Server → Type 0
Within n s = IsConsistent s × (s.next_id ≤ n)

-- The counter of a server that was started has not wrapped, and its tables are consistent.
pub served-Within :
    (env : Env) (config : Config) (now : ℕ) (passes : List (List Event × List Bytes))
    → work passes + 1 < u32_mod
    → Within (work passes + 1) (main_loop env passes (start true true (new_server config now)).0)
unfolding start
served-Within env config now passes room =
    let s = (start true true (new_server config now)).0 in
    let changes = main_loop-Changes env passes s in
    let c : IsConsistent s = record {
      peers_distinct = tt;
      ids_distinct = tt;
      ids_in_range = tt;
      counter = omega arith;
    } in
    (Changes-IsConsistent _ changes (omega arith) c, omega (arith, Changes-grows changes))

-- A server that was started as `Start` does, then any passes of the loop in `main` and maybe `Stop`,
-- with any packets from any peers and any console lines: the peers in the map are distinct, and the
-- ids of the players that have shaken hands and of the bots are distinct, not 0, and below the
-- counter. The condition is that there are fewer than 2 ^ 32 - 1 events and lines: then the counter
-- cannot wrap.
pub main_loop-new_server-IsConsistent :
    (env : Env) (config : Config) (now : ℕ) (passes : List (List Event × List Bytes))
    → work passes + 1 < u32_mod
    → IsConsistent (main_loop env passes (start true true (new_server config now)).0)
main_loop-new_server-IsConsistent env config now passes room =
    (served-Within env config now passes room).0
