-- ===== src/Server/Leaving.antt =====
-- What the end of a connection does: server/src/Server.cpp, `HandleDisconnect`.
use f4mp.Base.{
  ℕ, false, none, some, List, [], ◌∷◌, ◌==◌, ==→eq, ne→==, ◌≡◌, ◌≢◌, refl, sym, subst, ap, ◌∙◌, inl,
  inr, Bool-cases, Option-cases, if◌then◌else◌, Distinct, Fresh,
}
use f4mp.Server.State.{Player, Server, Env, find_peer, erase_peer}
use f4mp.Server.Frame.{Core, core-say_goodbye}
use f4mp.Server.Ids.{peers}
use f4mp.Server.Connections.{handle_disconnect}
use f4mp.Server.Isolation.{Apart}
use f4mp.Server.Invariant.{IsConsistent}

find_peer-Fresh : (peer : ℕ) (ps : List Player) → Fresh peer (peers ps) → find_peer peer ps ≡ none
unfolding find_peer
find_peer-Fresh peer [] h = refl
find_peer-Fresh peer (p ∷ ps) h =
    let other : (p.peer == peer) ≡ false = ne→== p.peer peer h.0 in
    rw other (find_peer-Fresh peer ps h.1)

find_peer-erase_peer :
    (peer : ℕ) (ps : List Player) → Distinct (peers ps) → find_peer peer (erase_peer peer ps) ≡ none
unfolding find_peer erase_peer
find_peer-erase_peer peer [] h = refl
find_peer-erase_peer peer (p ∷ ps) h = elim (Bool-cases (p.peer == peer)) [
  | inl e ↦
      rw e
        (subst (λ k. find_peer k ps ≡ none) (==→eq p.peer peer e) (find_peer-Fresh p.peer ps h.0))
  | inr e ↦ rw (e, find_peer, e) (find_peer-erase_peer peer ps h.1)
]

find_peer-erase_peer_other :
    (peer other : ℕ) (ps : List Player)
    → other ≢ peer
    → find_peer other (erase_peer peer ps) ≡ find_peer other ps
unfolding find_peer erase_peer
find_peer-erase_peer_other peer other [] h = refl
find_peer-erase_peer_other peer other (p ∷ ps) h = elim (Bool-cases (p.peer == peer)) [
  | inl e ↦
      let his : (p.peer == other) ≡ false =
        ne→== p.peer other (λ k. h (sym k ∙ ==→eq p.peer peer e)) in
      rw e (rw his refl)
  | inr e ↦
      rw (e, find_peer)
        (ap (λ o. if p.peer == other then some p else o)
          (find_peer-erase_peer_other peer other ps h))
]

-- The connection is out of the map, and nothing of the others has changed.
pub record Leaves (peer : ℕ) (s t : Server) : Type 0 where
  pub gone : find_peer peer t.players ≡ none
  pub apart : Apart peer s t

-- When a connection ends, on a server whose tables are consistent, its entry is out of the map, and
-- the entries of the other connections and the bots stay what they were.
pub handle_disconnect-Leaves :
    (env : Env) (peer : ℕ) (s : Server)
    → IsConsistent s
    → Leaves peer s (handle_disconnect env peer s)
unfolding handle_disconnect
handle_disconnect-Leaves env peer s c = elim (Option-cases (find_peer peer s.players)) [
  | inl e ↦
      rw (e, handle_disconnect)
        (record { gone = e; apart = record { others = λ other h. refl; bots = refl } })
  | inr (p, e) ↦
      let without = record s { players = erase_peer peer s.players } in
      let same = core-say_goodbye env p without in
      rw (e, handle_disconnect)
        (record {
          gone =
              ap (λ (k : Core). find_peer peer k.players) same
              ∙ find_peer-erase_peer peer s.players c.peers_distinct;
          apart = record {
            others = λ other h.
                ap (λ (k : Core). find_peer other k.players) same
                ∙ find_peer-erase_peer_other peer other s.players h;
            bots = ap (λ (k : Core). k.bots) same;
          };
        })
]
