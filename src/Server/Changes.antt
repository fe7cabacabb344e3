-- ===== src/Server/Changes.antt =====
-- What can happen to the tables of server/src/Server.cpp, as a relation between the servers before and
-- after: each change to the map of players, to the bots and to the counter, and series of them.
pub mod Ids
pub mod Events
pub mod Console
pub mod Loop
use f4mp.Base.{
  if_holds, ℕ, ◌+◌, ◌%◌, ◌≤◌, ◌<◌, Bool, true, false, none, some, List, [], ◌∷◌, ◌++◌, ◌≡◌, refl,
  ap, ◌∙◌, arith, if◌then◌else◌, u32_mod, Bytes,
}
use f4mp.Types.{PlayerState}
use f4mp.Protocol.Messages.{HelloMsg}
use f4mp.Protocol.Names.{sanitize_name}
use f4mp.Server.State.{Player, new_player, Bot, Server, find_peer, erase_peer, put_player}
use f4mp.Server.Frame.{Core, core}
use f4mp.Server.Ids.{bot_ids}
use f4mp.Server.Joining.{joined_player, register}
use f4mp.Server.Chatting.{count_chat}
use f4mp.Server.Handlers.{plausible}
use f4mp.Server.Bots.{find_bot, erase_bot}

-- What a packet makes of a player that is in the map.
pub data Alters (p : Player) : Player → Type 0 where
  states :
      (state : PlayerState)
      → plausible state ≡ true
      → Alters p (record p { state = state; has_state = true })
  chats : (now : ℕ) → Alters p (count_chat now p)
  renames : (name : Bytes) → Alters p (record p { name = sanitize_name name })

-- A change that gives no id out.
pub data Change (s : Server) : Server → Type 0 where
  connects :
      (peer now : ℕ)
      → find_peer peer s.players ≡ none
      → Change s (record s { players = s.players ++ new_player peer now ∷ [] })
  drops :
      (peer : ℕ) (p : Player)
      → find_peer peer s.players ≡ some p
      → Change s (record s { players = erase_peer peer s.players })
  alters :
      (p q : Player) → find_peer p.peer s.players ≡ some p → Alters p q → Change s (put_player q s)
  dismisses :
      (id : ℕ) (b : Bot)
      → find_bot id s.bots ≡ some b
      → Change s (record s { bots = erase_bot id s.bots })
  moves :
      (now : ℕ) (bs : List Bot)
      → bot_ids bs ≡ bot_ids s.bots
      → Change s (record s { bots = bs; last_bot_update = now })
  closes : Change s (record s { players = []; host = false })

-- A change that gives the next id to a player that has none, or to a new bot.
pub data Gives (s : Server) : Server → Type 0 where
  joins :
      (p : Player) (hello : HelloMsg)
      → find_peer p.peer s.players ≡ some p
      → p.handshaked ≡ false
      → Gives s (register p hello s)
  adds :
      (b : Bot)
      → b.id ≡ s.next_id
      → Gives s (record s { next_id = (s.next_id + 1) % u32_mod; bots = s.bots ++ b ∷ [] })

-- Changes one after the other, of which at most so many give an id out, with sends and readings of the
-- clock between them.
pub data Changes (s : Server) : ℕ → Server → Type 0 where
  quiet : {n : ℕ} {t : Server} → core t ≡ core s → Changes s n t
  keeps : {n : ℕ} {t t' u : Server} → Changes s n t → Change t t' → core u ≡ core t' → Changes s n u
  gives :
      {n m : ℕ} {t t' u : Server}
      → Changes s n t
      → Gives t t'
      → core u ≡ core t'
      → n < m
      → Changes s m u

-- The server did nothing, or one thing.
pub idle : {s : Server} {n : ℕ} → Changes s n s
idle = quiet refl

pub one_change : {s t : Server} {n : ℕ} (u : Server) → Change s t → core u ≡ core t → Changes s n u
one_change u c e = keeps idle c e

pub one_gift : {s t : Server} (u : Server) → Gives s t → core u ≡ core t → Changes s 1 u
one_gift u g e = gives {n = 0} idle g e (omega arith)

pub Changes-if :
    {s : Server} {n : ℕ} (b : Bool) (t u : Server)
    → Changes s n t
    → Changes s n u
    → Changes s n (if b then t else u)
Changes-if {s} {n} = if_holds (Changes s n)

-- Sends may follow, and the bound may be larger.
pub settles :
    {s t : Server} {n m : ℕ} (u : Server) → Changes s n t → core u ≡ core t → n ≤ m → Changes s m u
settles u (quiet e) f h = quiet (f ∙ e)
settles u (keeps {t} c k e) f h = keeps (settles t c refl h) k (f ∙ e)
settles u (gives c g e l) f h = gives c g (f ∙ e) (omega arith)

-- One series behind another.
pub Changes-trans :
    {s t u : Server} {n m k : ℕ} → Changes s n t → Changes t m u → n + m ≤ k → Changes s k u
Changes-trans {u} c (quiet e) h = settles u c e (omega arith)
Changes-trans c (keeps d k e) h = keeps (Changes-trans c d h) k e
Changes-trans {n} c (gives {n = i} d g e l) h =
    gives (Changes-trans {k = n + i} c d (omega arith)) g e (omega arith)

pub next_id-core : (s t : Server) → core t ≡ core s → t.next_id ≡ s.next_id
next_id-core s t = ap (λ (k : Core). k.next_id)

pub next_id-Change : {s t : Server} → Change s t → t.next_id ≡ s.next_id
next_id-Change (connects peer now e) = refl
next_id-Change (drops peer p e) = refl
next_id-Change (alters p q e a) = refl
next_id-Change (dismisses id b e) = refl
next_id-Change (moves now bs e) = refl
next_id-Change closes = refl

pub next_id-Gives : {s t : Server} → Gives s t → t.next_id ≡ (s.next_id + 1) % u32_mod
unfolding register
next_id-Gives (joins p hello e h) = refl
next_id-Gives (adds b e) = refl

-- The counter moves by one for each id at most.
pub Changes-grows : {s t : Server} {n : ℕ} → Changes s n t → t.next_id ≤ s.next_id + n
Changes-grows {s} {t} (quiet e) = omega (arith, next_id-core s t e)
Changes-grows {t} (keeps {t' = v} c k e) =
    omega (arith, Changes-grows c, next_id-Change k, next_id-core v t e)
Changes-grows {t} (gives {t' = v} c g e l) =
    omega (arith, Changes-grows c, next_id-Gives g, next_id-core v t e)
