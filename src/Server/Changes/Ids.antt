-- ===== src/Server/Changes/Ids.antt =====
-- What each change of server/src/Server.cpp does to the ids in use: those of the players that have
-- shaken hands and of the bots.
use f4mp.Base.{
  ℕ, ◌+◌, Bool, true, false, some, List, ◌≡◌, refl, sym, ap, subst, inl, inr, Bool-cases, leb, All,
  Distinct, Adds, Adds-All_back, Adds-Distinct_back,
}
use f4mp.Server.State.{Player, new_player, Server, find_peer}
use f4mp.Server.Frame.{Core, core}
use f4mp.Server.Ids.{
  player_ids, bot_ids, Loses, player_ids-set_player, player_ids-set_player_same, player_ids-append,
  player_ids-erase_peer, Distinct-player_ids, All-player_ids, player_ids-Adds, bot_ids-append,
  bot_ids-erase_bot,
}
use f4mp.Server.Joining.{joined_player, register}
use f4mp.Server.Chatting.{chat_window, count_chat}
use f4mp.Server.Changes.{
  Alters, states, chats, renames, Change, connects, drops, alters, dismisses, moves, closes, Gives,
  joins, adds,
}

abbrev pub ids : Server → List ℕ
ids s = player_ids s.players (bot_ids s.bots)

pub ids-core : (s t : Server) → core t ≡ core s → ids t ≡ ids s
ids-core s t = ap (λ (k : Core). player_ids k.players (bot_ids k.bots))

-- The second list is the first, or a part of it.
pub record Shrinks (xs ys : List ℕ) : Type 1 where
  pub all : (P : ℕ → Type 0) → All P xs → All P ys
  pub distinct : Distinct xs → Distinct ys

Shrinks-eq : {xs ys : List ℕ} → ys ≡ xs → Shrinks xs ys
Shrinks-eq e = record { all = λ P. subst (All P) (sym e); distinct = subst Distinct (sym e) }

Shrinks-Adds : {n : ℕ} {xs ys : List ℕ} → Adds n ys xs → Shrinks xs ys
Shrinks-Adds a = record {
  all = λ P h. (Adds-All_back P a h).1;
  distinct = λ d. Adds-Distinct_back a d;
}

Shrinks-Loses : (b : Bool) (id : ℕ) (xs ys : List ℕ) → Loses b id ys xs → Shrinks xs ys
Shrinks-Loses true id xs ys a = Shrinks-Adds a
Shrinks-Loses false id xs ys e = Shrinks-eq e

-- The window of a player is no part of what the tables hold.
pub count_chat-same :
    (now : ℕ) (p : Player)
    → ((count_chat now p).peer ≡ p.peer)
      × ((count_chat now p).handshaked ≡ p.handshaked)
      × ((count_chat now p).id ≡ p.id)
unfolding count_chat
count_chat-same now p = elim (Bool-cases (leb (p.chat_window_start + chat_window) now)) [
  | inl e ↦ rw e (refl, refl, refl)
  | inr e ↦ rw e (refl, refl, refl)
]

altered-same :
    (p q : Player) → Alters p q → (q.peer ≡ p.peer) × (q.handshaked ≡ p.handshaked) × (q.id ≡ p.id)
altered-same p q (states state fine) = (refl, refl, refl)
altered-same p q (chats now) = count_chat-same now p
altered-same p q (renames name) = (refl, refl, refl)

-- A change that gives no id out leaves the ids, or some of them.
pub ids-Change : (s t : Server) → Change s t → Shrinks (ids s) (ids t)
ids-Change s _ (connects peer now e) =
    Shrinks-eq (player_ids-append s.players (new_player peer now) (bot_ids s.bots) refl)
ids-Change s t (drops peer p e) =
    Shrinks-Loses p.handshaked p.id (ids s) (ids t)
      (player_ids-erase_peer peer p s.players (bot_ids s.bots) e)
ids-Change s _ (alters p q e a) =
    let (peer, shaken, id) = altered-same p q a in
    Shrinks-eq (
      player_ids-set_player_same p q s.players (bot_ids s.bots)
        (subst (λ k. find_peer k s.players ≡ some p) (sym peer) e) shaken id)
ids-Change s _ (dismisses id b e) =
    Shrinks-Adds (player_ids-Adds s.players (bot_ids-erase_bot id b s.bots e))
ids-Change s _ (moves now bs e) = Shrinks-eq (ap (player_ids s.players) e)
ids-Change s _ closes = record {
  all = λ P. All-player_ids P s.players (bot_ids s.bots);
  distinct = Distinct-player_ids s.players (bot_ids s.bots);
}

-- The id that is given out is the one of the counter.
pub ids-Gives : (s t : Server) → Gives s t → Adds s.next_id (ids s) (ids t)
unfolding register joined_player
ids-Gives s _ (joins p hello e h) =
    player_ids-set_player p (joined_player p hello s.next_id) s.players (bot_ids s.bots) e h refl
ids-Gives s t (adds b e) =
    subst (λ n. Adds n (ids s) (ids t)) e (player_ids-Adds s.players (bot_ids-append s.bots b))
