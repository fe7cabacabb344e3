-- ===== src/Server/Commands.antt =====
-- server/src/Server.cpp, "console": `Split` and `ExecuteCommand`. A command that only prints leaves
-- the server as it is.
use f4mp.Base.{
  ℕ, zero, suc, ◌+◌, ◌-◌, ◌*◌, ◌%◌, Bool, true, false, not, ◌&&◌, ◌||◌, Option, none, some, List,
  [], ◌∷◌, ◌++◌, leb, ◌==◌, if◌then◌else◌, is_empty, back, bytes_eq, drop, length, trim_front,
  Bytes, codes, u32_mod,
}
use f4mp.Server.State.{mirror, orbit, Server, Env}
use f4mp.Server.Sending.{server_chat, kick}
use f4mp.Server.Bots.{find_id, add_bot, remove_bot}

-- `std::isspace` in the C locale.
abbrev pub is_space : ℕ → Bool
is_space c = c == 32 || leb 9 c && leb c 13

-- `Split`: the words between white space. `word` is the word read so far.
split_onto : Bytes → Bytes → List Bytes
split_onto word [] = if is_empty word then [] else word ∷ []
split_onto word (c ∷ cs) =
    let fresh = split_onto [] cs in
    let longer = split_onto (word ++ c ∷ []) cs in
    if is_space c then (if is_empty word then fresh else word ∷ fresh) else longer

unfoldable pub split : Bytes → List Bytes
unfolding split_onto
split = split_onto []

abbrev is_digit : ℕ → Bool
is_digit c = leb b'0' c && leb c b'9'

-- The value of the digits at the front.
digits_value : ℕ → Bytes → ℕ
digits_value acc [] = acc
digits_value acc (c ∷ cs) =
    let rest = digits_value (acc * 10 + (c - b'0')) cs in if is_digit c then rest else acc

abbrev starts_with_digit : Bytes → Bool
starts_with_digit [] = false
starts_with_digit (c ∷ cs) = is_digit c

-- `std::stoul` behind white space and a sign: `none` where it throws.
unsigned_of : ℕ → Bool → Bytes → Option ℕ
unfolding digits_value
unsigned_of modulus negative ds =
    let v = digits_value 0 ds in
    if not (starts_with_digit ds) || leb modulus v
    then none
    else some (if negative then (modulus - v) % modulus else v)

signed_of : ℕ → Bytes → Option ℕ
unfolding unsigned_of
signed_of modulus [] = none
signed_of modulus (c ∷ cs) =
    if c == b'-'
    then unsigned_of modulus true cs
    else unsigned_of modulus false (if c == b'+' then cs else c ∷ cs)

unfoldable pub stoul : ℕ → Bytes → Option ℕ
unfolding signed_of trim_front
stoul modulus s = signed_of modulus (trim_front is_space s)

-- The rest of a string behind the first occurrence of a byte: `s.substr(s.find(c) + 1)`.
unfoldable pub behind : ℕ → Bytes → Option Bytes
behind c [] = none
behind c (d ∷ ds) = if d == c then some ds else behind c ds

abbrev starts_with : Bytes → Bytes → Bool
starts_with [] s = true
starts_with (c ∷ cs) [] = false
starts_with (c ∷ cs) (d ∷ ds) = d == c && starts_with cs ds

-- `s.substr(s.find(t) + t.size() + 1)`, where `t` occurs with a byte behind it.
unfoldable pub behind_word : Bytes → Bytes → Bytes
behind_word t [] = []
behind_word t (c ∷ cs) =
    let rest = behind_word t cs in
    if starts_with t (c ∷ cs) then drop (length t + 1) (c ∷ cs) else rest

-- The words joined by single spaces.
unfoldable pub join_onto : Bytes → List Bytes → Bytes
join_onto name [] = name
join_onto name (w ∷ ws) = join_onto (name ++ ((if is_empty name then [] else codes " ") ++ w)) ws

module _ (env : Env) where
  unfoldable pub bot_add : List Bytes → Server → Server
  bot_add [] s = add_bot env mirror [] s
  bot_add (w ∷ ws) s =
      if bytes_eq w (codes "orbit")
      then add_bot env orbit (join_onto [] ws) s
      else if bytes_eq w (codes "mirror")
      then add_bot env mirror (join_onto [] ws) s
      else add_bot env mirror (join_onto [] (w ∷ ws)) s

  -- `while (!_bots.empty()) RemoveBot(_bots.back().id);`, with fuel.
  unfoldable pub remove_all : ℕ → Server → Server
  remove_all zero s = s
  remove_all (suc fuel) s = elim (back s.bots) [
    | none ↦ s
    | some b ↦ remove_all fuel (remove_bot env b.id s).1
  ]

  unfoldable pub bot_remove : Bytes → Server → Server
  bot_remove w s =
      if bytes_eq w (codes "all")
      then remove_all (length s.bots) s
      else elim (stoul env.ulong_mod w) [ none ↦ s | some id ↦ (remove_bot env (id % u32_mod) s).1 ]

  unfoldable pub bot_command : List Bytes → Server → Server
  bot_command [] s = s
  bot_command (sub ∷ ws) s =
      if bytes_eq sub (codes "add")
      then bot_add ws s
      else if bytes_eq sub (codes "remove")
      then elim ws [ [] ↦ s | w ∷ _ ↦ bot_remove w s ]
      else s

  unfoldable pub say_command : Bytes → Server → Server
  say_command line s = elim (behind b' ' line) [ none ↦ s | some t ↦ server_chat env t s ]

  -- `kick` of the player with this id.
  unfoldable pub kick_player : ℕ → Bytes → Server → Server
  kick_player id reason s = elim (find_id id s.players) [ none ↦ s | some p ↦ kick env p reason s ]

  unfoldable pub kick_id : ℕ → Bytes → Server → Server
  kick_id id reason s =
      let (was_bot, without) = remove_bot env id s in
      if was_bot then without else kick_player id reason without

  unfoldable pub kick_command : Bytes → List Bytes → Server → Server
  kick_command line [] s = s
  kick_command line (w ∷ ws) s = elim (stoul env.ulong_mod w) [
    | none ↦ s
    | some id ↦
        kick_id (id % u32_mod)
          (if is_empty ws then codes "Kicked by server" else behind_word w line) s
  ]

  unfoldable pub run_command : Bytes → List Bytes → Server → Server
  run_command line [] s = s
  run_command line (cmd ∷ args) s =
      if bytes_eq cmd (codes "bot")
      then bot_command args s
      else if bytes_eq cmd (codes "say")
      then say_command line s
      else if bytes_eq cmd (codes "kick")
      then kick_command line args s
      else s

  unfoldable pub execute_command : Bytes → Server → Server
  execute_command line s = run_command line (split line) s
