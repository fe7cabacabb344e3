-- ===== src/Client/Remotes/Turns.antt =====
-- client/src/Sync/RemotePlayers.cpp: operations on the list and frames, in any order.
use f4mp.Base.{ℕ, Option, none, some, List, [], ◌∷◌, All, sym, subst, arith}
use f4mp.Client.Game.{Space, Engine}
use f4mp.Client.RemoteState.{RemotePlayer, World, Remotes, new_remotes}
use f4mp.Client.Remotes.{Operation, perform}
use f4mp.Client.Remotes.Drawing.{Motion, update_one, update_each, update_in_space, update_remotes}
use f4mp.Client.Remotes.Forgetting.{trim-Increasing, trim-length}
use f4mp.Client.Remotes.History.{IsHistory, HasHistories, perform-HasHistories}
use f4mp.Client.Remotes.Snapshots.{update_one-snapshots}

-- An operation with the world at its time, or a frame with the engine at its time.
pub data Turn : Type 0 where
  operated : World → Operation → Turn
  drawn : Motion → Engine → ℕ → Turn

unfoldable pub take_turn : Turn → Remotes → Remotes
take_turn (operated world o) r = perform world o r
take_turn (drawn f g now) r = update_remotes f g now r

unfoldable pub take_turns : List Turn → Remotes → Remotes
take_turns [] r = r
take_turns (t ∷ ts) r = take_turns ts (take_turn t r)

module _ (f : Motion) (g : Engine) where
  update_one-IsHistory :
      (r : Remotes) (local : Space) (now render : ℕ) (p : RemotePlayer)
      → IsHistory p.snapshots
      → IsHistory ((update_one f g r local now render p).0).snapshots
  update_one-IsHistory r local now render p h =
      subst IsHistory (sym (update_one-snapshots f g r local now render p)) (record {
        ordered = trim-Increasing (f.is_old render) p.snapshots h.ordered;
        bounded = omega (arith, trim-length (f.is_old render) p.snapshots, h.bounded);
      })

  update_each-Kept :
      (r : Remotes) (local : Space) (now render : ℕ) (ps : List RemotePlayer)
      → All (λ p. IsHistory p.snapshots) ps
      → All (λ p. IsHistory p.snapshots) (update_each f g r local now render ps).0
  unfolding update_each
  update_each-Kept r local now render [] h = tt
  update_each-Kept r local now render (p ∷ ps) h =
      (update_one-IsHistory r local now render p h.0, update_each-Kept r local now render ps h.1)

  update_in_space-HasHistories :
      (now : ℕ) (o : Option Space) (r : Remotes)
      → HasHistories r
      → HasHistories (update_in_space f g now o r)
  unfolding update_in_space
  update_in_space-HasHistories now none r h = h
  update_in_space-HasHistories now (some local) r h = record {
    all = update_each-Kept r local now (f.render_ms r.offset_ms r.interp_delay_ms) r.players h.all;
  }

pub take_turn-HasHistories :
    (t : Turn) (r : Remotes) → HasHistories r → HasHistories (take_turn t r)
unfolding take_turn update_remotes
take_turn-HasHistories (operated world o) r h = perform-HasHistories world o r h
take_turn-HasHistories (drawn f g now) r h = update_in_space-HasHistories f g now _ r h

turns_kept : (ts : List Turn) (r : Remotes) → HasHistories r → HasHistories (take_turns ts r)
unfolding take_turns
turns_kept [] r h = h
turns_kept (t ∷ ts) r h = turns_kept ts (take_turn t r) (take_turn-HasHistories t r h)

-- Whatever messages arrive in whatever order, with whatever time stamps, whatever else is done with the
-- list, and whenever frames are drawn: the snapshots of each player are in the strict order of time and
-- at most 64.
pub take_turns-HasHistories : (ts : List Turn) → HasHistories (take_turns ts new_remotes)
take_turns-HasHistories ts = turns_kept ts new_remotes (record { all = tt })
