-- ===== src/Tests/Plugin.antt =====
-- The clock, the connection and the list of players of the client.
use f4mp.Base.{
  ℕ, ◌-◌, ◌%◌, ◌≡◌, ◌≢◌, none, some, List, [], ◌∷◌, codes, arith, true, false, u32_mod, diff,
}
use f4mp.Types.{initial_state}
use f4mp.Client.Clock.{new_clock}
use f4mp.Client.Clock.Exact.{listen, final, listen-exact}
use f4mp.Client.Net.{NetClient, new_client, Attempt, connect, connecting}
use f4mp.Client.Net.Soundness.{Dialled, connect-Dialled}
use f4mp.Client.RemoteState.{World, Remotes, new_remote, new_remotes}
use f4mp.Client.Remotes.{find, remove, apply_state, name_of, placeholder}
use f4mp.Client.Remotes.Late.{apply_state-remove}

-- A stamp that wraps around, and then an older one.
abbrev some_times : List ℕ
some_times = 4_294_967_300 ∷ 4_294_967_290 ∷ []

listen-exact_example :
    (listen (4_294_967_200 ∷ some_times) new_clock).now
    ≡ diff (final 4_294_967_200 some_times) (4_294_967_200 - 4_294_967_200 % u32_mod)
listen-exact_example =
    listen-exact 4_294_967_200 some_times
      ((omega arith, omega arith), ((omega arith, omega arith), tt))

abbrev pub good_luck : Attempt
good_luck = record { host_created = true; resolved = true; new_peer = some 5 }

connect-Dialled_example :
    Dialled good_luck 100 (new_client true) (connect good_luck 100 (new_client true))
connect-Dialled_example = connect-Dialled good_luck 100 (new_client true) (record { agrees = tt })

abbrev pub waiting : NetClient
waiting = record (new_client true) { host = true; peer = some 5; state = connecting }

pub peer_here : waiting.peer ≢ none
peer_here e = ground arith

abbrev pub some_world : World
some_world = record {
  show = λ n. n ∷ [];
  exists = λ n. true;
  local_minus = λ t. 0;
  less = λ a b. false;
  drift = λ a b. a;
}

abbrev one_remote : Remotes
one_remote = record new_remotes { players = record (new_remote 3) { name = codes "Nora" } ∷ [] }

apply_state-remove_example :
    (find 3 (remove 3 one_remote).players ≡ none)
    × ((find 3 (apply_state some_world 3 initial_state 100 (remove 3 one_remote)).players ≢ none)
        × (name_of some_world 3 (apply_state some_world 3 initial_state 100 (remove 3 one_remote))
            ≡ placeholder some_world 3))
apply_state-remove_example = apply_state-remove some_world 3 initial_state 100 one_remote (tt, tt)
