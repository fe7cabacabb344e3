-- ===== src/Server/Plausible.antt =====
-- The states that server/src/Server.cpp keeps of its players, and its test `Plausible`.
use f4mp.Base.{ℕ, true, List, ◌≡◌, inl, inr, Bool-cases, Bytes, leb, ◌+◌}
use f4mp.Server.State.{Player, Config, Env}
use f4mp.Server.Chatting.{chat_window, count_chat}
use f4mp.Server.Everyone.{IsKept, Everyone, started-Everyone}
use f4mp.Server.Handlers.{plausible}
use f4mp.Server.Joining.{joined_player}
use f4mp.Server.Service.{Event, new_server, start, main_loop}

-- A state that the server has of a player is finite in every float that it tests.
abbrev pub HasFinite : Player → Type 0
HasFinite p = p.has_state ≡ true → plausible p.state ≡ true

count_chat-HasFinite : (now : ℕ) (p : Player) → HasFinite p → HasFinite (count_chat now p)
unfolding count_chat
count_chat-HasFinite now p h = elim (Bool-cases (leb (p.chat_window_start + chat_window) now)) [
  | inl e ↦ rw e h
  | inr e ↦ rw e h
]

HasFinite-IsKept : IsKept HasFinite
unfolding joined_player
HasFinite-IsKept = record {
  fresh = λ peer now no. cc;
  joined = λ p hello id h. h;
  stated = λ p state fine h here. fine;
  counted = count_chat-HasFinite;
  named = λ p name h. h;
}

-- Whatever passes of the loop in `main` a server that was started makes, with any bytes from any
-- clients, bots and console lines, no state that it has of a player has an infinity or a NaN in its
-- position, its yaw or its healths.
pub main_loop-AllFinite :
    (env : Env) (config : Config) (now : ℕ) (passes : List (List Event × List Bytes))
    → Everyone HasFinite (main_loop env passes (start true true (new_server config now)).0)
main_loop-AllFinite env = started-Everyone HasFinite HasFinite-IsKept env
