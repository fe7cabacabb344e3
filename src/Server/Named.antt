-- ===== src/Server/Named.antt =====
-- The names that server/src/Server.cpp has of its players.
use f4mp.Base.{ℕ, true, List, ◌≡◌, inl, inr, Bool-cases, Bytes, leb, ◌+◌}
use f4mp.Protocol.Names.Laws.{IsName, sanitize_name-IsName}
use f4mp.Server.State.{Player, Config, Env}
use f4mp.Server.Chatting.{chat_window, count_chat}
use f4mp.Server.Everyone.{IsKept, Everyone, started-Everyone}
use f4mp.Server.Joining.{joined_player}
use f4mp.Server.Service.{Event, new_server, start, main_loop}

-- A player that has shaken hands has a clean name.
abbrev pub HasName : Player → Type 0
HasName p = p.handshaked ≡ true → IsName p.name

count_chat-HasName : (now : ℕ) (p : Player) → HasName p → HasName (count_chat now p)
unfolding count_chat
count_chat-HasName now p h = elim (Bool-cases (leb (p.chat_window_start + chat_window) now)) [
  | inl e ↦ rw e h
  | inr e ↦ rw e h
]

HasName-IsKept : IsKept HasName
unfolding joined_player
HasName-IsKept = record {
  fresh = λ peer now no. cc;
  joined = λ p hello id h shaken. sanitize_name-IsName hello.name;
  stated = λ p state fine h. h;
  counted = count_chat-HasName;
  named = λ p name h shaken. sanitize_name-IsName name;
}

-- Whatever passes of the loop in `main` a server that was started makes, each player that has shaken
-- hands has a clean name.
pub main_loop-AllNamed :
    (env : Env) (config : Config) (now : ℕ) (passes : List (List Event × List Bytes))
    → Everyone HasName (main_loop env passes (start true true (new_server config now)).0)
main_loop-AllNamed env = started-Everyone HasName HasName-IsKept env
