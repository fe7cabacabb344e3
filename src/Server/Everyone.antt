-- ===== src/Server/Everyone.antt =====
-- A property of every player of server/src/Server.cpp, kept by every change that can happen to the
-- server and so by the whole loop in server/src/main.cpp.
use f4mp.Base.{
  ℕ, true, some, List, [], ◌∷◌, ◌==◌, ◌≡◌, sym, subst, arith, inl, inr, Bool-cases, if◌then◌else◌,
  Bytes, All, All-append,
}
use f4mp.Types.{PlayerState}
use f4mp.Protocol.Messages.{HelloMsg}
use f4mp.Protocol.Names.{sanitize_name}
use f4mp.Server.State.{Player, new_player, Config, Server, Env, find_peer, set_player, erase_peer}
use f4mp.Server.Frame.{core, Core}
use f4mp.Server.Joining.{joined_player, register}
use f4mp.Server.Chatting.{count_chat}
use f4mp.Server.Handlers.{plausible}
use f4mp.Server.Service.{Event, new_server, start, main_loop}
use f4mp.Server.Changes.{
  Alters, states, chats, renames, Change, connects, drops, alters, dismisses, moves, closes, Gives,
  joins, adds, Changes, quiet, keeps, gives,
}
use f4mp.Server.Changes.Loop.{main_loop-Changes}

-- A new player has the property, and the changes that the handlers make to a player keep it.
pub record IsKept (P : Player → Type 0) : Type 0 where
  pub fresh : (peer now : ℕ) → P (new_player peer now)
  pub joined : (p : Player) (hello : HelloMsg) (id : ℕ) → P p → P (joined_player p hello id)
  pub stated :
      (p : Player) (state : PlayerState)
      → plausible state ≡ true
      → P p
      → P (record p { state = state; has_state = true })
  pub counted : (now : ℕ) (p : Player) → P p → P (count_chat now p)
  pub named : (p : Player) (name : Bytes) → P p → P (record p { name = sanitize_name name })

pub record Everyone (P : Player → Type 0) (s : Server) : Type 0 where
  pub all : All P s.players

module _ (P : Player → Type 0) where
  Everyone-of : (s t : Server) → core t ≡ core s → Everyone P s → Everyone P t
  Everyone-of s t e h = record { all = subst (λ (k : Core). All P k.players) (sym e) h.all }

  All-set_player : (q : Player) (ps : List Player) → P q → All P ps → All P (set_player q ps)
  unfolding set_player
  All-set_player q [] h k = tt
  All-set_player q (p ∷ ps) h k = elim (Bool-cases (p.peer == q.peer)) [
    | inl e ↦ rw e (h, k.1)
    | inr e ↦ rw e (k.0, All-set_player q ps h k.1)
  ]

  All-erase_peer : (peer : ℕ) (ps : List Player) → All P ps → All P (erase_peer peer ps)
  unfolding erase_peer
  All-erase_peer peer [] k = tt
  All-erase_peer peer (p ∷ ps) k = elim (Bool-cases (p.peer == peer)) [
    | inl e ↦ rw e k.1
    | inr e ↦ rw e (k.0, All-erase_peer peer ps k.1)
  ]

  -- Whoever is found has the property.
  pub All-find_peer :
      (peer : ℕ) (ps : List Player) (q : Player) → All P ps → find_peer peer ps ≡ some q → P q
  unfolding find_peer
  All-find_peer peer [] q k e = cc
  All-find_peer peer (p ∷ ps) q k found = elim (Bool-cases (p.peer == peer)) [
    | inl e ↦ let one : p ≡ q = ground arith in subst P one k.0
    | inr e ↦
        All-find_peer peer ps q k.1
          (subst (λ b. (if b then some p else find_peer peer ps) ≡ some q) e found)
  ]

module _ (P : Player → Type 0) (kept : IsKept P) where
  Alters-kept : (p q : Player) → Alters p q → P p → P q
  Alters-kept p _ (states state fine) = kept.stated p state fine
  Alters-kept p _ (chats now) = kept.counted now p
  Alters-kept p _ (renames name) = kept.named p name

  Change-Everyone : (s t : Server) → Change s t → Everyone P s → Everyone P t
  Change-Everyone s _ (connects peer now e) h = record {
    all = All-append P s.players (new_player peer now ∷ []) h.all (kept.fresh peer now, tt);
  }
  Change-Everyone s _ (drops peer p e) h = record { all = All-erase_peer P peer s.players h.all }
  Change-Everyone s _ (alters p q e a) h = record {
    all =
        All-set_player P q s.players
          (Alters-kept p q a (All-find_peer P p.peer s.players p h.all e)) h.all;
  }
  Change-Everyone s _ (dismisses id b e) h = record { all = h.all }
  Change-Everyone s _ (moves now bs e) h = record { all = h.all }
  Change-Everyone s _ closes h = record { all = tt }

  Gives-Everyone : (s t : Server) → Gives s t → Everyone P s → Everyone P t
  unfolding register
  Gives-Everyone s _ (joins p hello e shaken) h = record {
    all =
        All-set_player P (joined_player p hello s.next_id) s.players
          (kept.joined p hello s.next_id (All-find_peer P p.peer s.players p h.all e)) h.all;
  }
  Gives-Everyone s _ (adds b e) h = record { all = h.all }

  Changes-Everyone : {s : Server} {n : ℕ} (t : Server) → Changes s n t → Everyone P s → Everyone P t
  Changes-Everyone {s} t (quiet e) h = Everyone-of P s t e h
  Changes-Everyone t (keeps {t = u} {t' = v} cs k e) h =
      Everyone-of P v t e (Change-Everyone u v k (Changes-Everyone u cs h))
  Changes-Everyone t (gives {t = u} {t' = v} cs g e l) h =
      Everyone-of P v t e (Gives-Everyone u v g (Changes-Everyone u cs h))

  -- The property holds of every player of a server that was started, through all passes of the loop.
  pub started-Everyone :
      (env : Env) (config : Config) (now : ℕ) (passes : List (List Event × List Bytes))
      → Everyone P (main_loop env passes (start true true (new_server config now)).0)
  unfolding start
  started-Everyone env config now passes =
      Changes-Everyone _ (main_loop-Changes env passes _) (record { all = tt })
