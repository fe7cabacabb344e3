-- ===== src/Client/Remotes/Reached.antt =====
-- client/src/Sync/RemotePlayers.cpp: the lists that operations and frames lead to, from an empty one.
use f4mp.Base.{All, true, [], none, ◌≡◌, sym, subst, Distinct}
use f4mp.Client.RemoteState.{RemotePlayer, World, Remotes}
use f4mp.Client.Remotes.{Operation, perform}
use f4mp.Client.Remotes.Directory.{Directory, Agrees, note}
use f4mp.Client.Remotes.Directory.Steps.{Agrees-nobody, take_turn-Agrees}
use f4mp.Client.Remotes.History.{IsHistory, HasHistories}
use f4mp.Client.Remotes.Late.{remote_ids}
use f4mp.Client.Remotes.Turns.{Turn, operated, take_turn, take_turn-HasHistories}

pub data Reached : Remotes → Type 0 where
  empty : {r : Remotes} → r.players ≡ [] → Reached r
  turned : {r : Remotes} (t : Turn) → Reached r → Reached (take_turn t r)

-- For the operations that do not look at the world.
abbrev pub some_world : World
some_world = record {
  show = λ id. [];
  exists = λ handle. true;
  local_minus = λ time. 0;
  less = λ a b. true;
  drift = λ a b. 0;
}

pub performed :
    (world : World) (o : Operation) {r : Remotes} → Reached r → Reached (perform world o r)
unfolding take_turn
performed world o h = turned (operated world o) h

-- Ordered and bounded histories, and no id that is listed twice.
pub record IsOrderly (r : Remotes) : Type 0 where
  pub histories : HasHistories r
  pub distinct : Distinct (remote_ids r.players)

Reached-HasHistories : (r : Remotes) → Reached r → HasHistories r
Reached-HasHistories r (empty e) = record {
  all = subst (All (λ (p : RemotePlayer). IsHistory p.snapshots)) (sym e) tt;
}
Reached-HasHistories _ (turned {r} t h) = take_turn-HasHistories t r (Reached-HasHistories r h)

-- Some directory names whom the list names.
Reached-Agrees : (r : Remotes) → Reached r → (d : Directory) × Agrees d r.players
Reached-Agrees r (empty e) = ((λ k. none), subst (Agrees (λ k. none)) (sym e) Agrees-nobody)
Reached-Agrees _ (turned {r} t h) =
    let (d, k) = Reached-Agrees r h in (note t d, take_turn-Agrees t d r k)

pub Reached-IsOrderly : (r : Remotes) → Reached r → IsOrderly r
Reached-IsOrderly r h = record {
  histories = Reached-HasHistories r h;
  distinct = (Reached-Agrees r h).1.distinct;
}
