-- ===== src/Server/Joined.antt =====
-- What an accepted `Hello` does: server/src/Server.cpp, `HandleHello`.
use f4mp.Base.{
  ℕ, ◌+◌, ◌%◌, Bool, true, false, not, ◌&&◌, some, List, [], ◌∷◌, ◌==◌, ◌≡◌, refl, sym, subst, ap,
  ◌∙◌, inl, inr, arith, Bool-cases, if◌then◌else◌, Bytes, u32_mod,
}
use f4mp.Packet.{Reader, new_reader}
use f4mp.Protocol.Messages.{HelloMsg, id_hello, protocol_version, read_header, checked, read_hello}
use f4mp.Protocol.Names.{sanitize_name}
use f4mp.Server.State.{Player, Server, Env, find_peer, set_player}
use f4mp.Server.Frame.{Core, core-announce}
use f4mp.Server.Ids.{find_peer-peer}
use f4mp.Server.Joining.{joined_player, register, announce, on_hello, handle_hello}
use f4mp.Server.Handlers.{dispatch, on_packet, handle_packet}
use f4mp.Server.Handshake.{IsGoodHello}

if_false : {A : Type 0} (b : Bool) (x y : A) → b ≡ false → (if b then x else y) ≡ y
if_false b x y e = rw e refl

and_false : (b : Bool) → (b && false) ≡ false
and_false true = refl
and_false false = refl

pub find_peer-set_player_same :
    (q p : Player) (ps : List Player)
    → find_peer q.peer ps ≡ some p
    → find_peer q.peer (set_player q ps) ≡ some q
unfolding find_peer set_player
find_peer-set_player_same q p [] h = cc
find_peer-set_player_same q p (r ∷ ps) h = elim (Bool-cases (r.peer == q.peer)) [
  | inl e ↦ rw e (ground arith)
  | inr e ↦
      rw (e, find_peer, e)
        (find_peer-set_player_same q p ps
          (subst (λ b. (if b then some r else find_peer q.peer ps) ≡ some p) e h))
]

module _ (env : Env) (p : Player) (s : Server) (before : p.handshaked ≡ false) where
  on_hello_lem :
      (hello : HelloMsg)
      → hello.protocol_version ≡ protocol_version
      → on_hello env p (some hello) s
        ≡ announce env (joined_player p hello s.next_id) (register p hello s)
  unfolding on_hello
  on_hello_lem hello version =
      let match : not (hello.protocol_version == protocol_version) ≡ false = ground arith in
      if_false (not (hello.protocol_version == protocol_version)) _ _ match
      ∙ if_false p.handshaked s _ before

  on_packet_hello :
      (r : Reader) → on_packet env p (some id_hello) r s ≡ on_hello env p (checked read_hello r).0 s
  unfolding on_packet dispatch handle_hello
  on_packet_hello r = if_false (not p.handshaked && false) _ _ (and_false (not p.handshaked))

  pub accepted_lem :
      (bytes : Bytes) (hello : HelloMsg)
      → IsGoodHello bytes hello
      → on_packet env p (read_header (new_reader bytes)).0 (read_header (new_reader bytes)).1 s
        ≡ announce env (joined_player p hello s.next_id) (register p hello s)
  accepted_lem bytes hello good =
      let r = (read_header (new_reader bytes)).1 in
      ap (λ o. on_packet env p o r s) good.header
      ∙ (on_packet_hello r
          ∙ (ap (λ o. on_hello env p o s) good.read ∙ on_hello_lem hello good.version))

-- The player has joined: its entry has the next id, the clean name, the version of the game and the
-- mark of the handshake, and is what it was in all else; the counter has moved on, and the bots are
-- the same.
pub record Joins (peer : ℕ) (p : Player) (hello : HelloMsg) (s t : Server) : Type 0 where
  pub entry :
      find_peer peer t.players
      ≡ some (record p {
        id = s.next_id;
        name = sanitize_name hello.name;
        game_version = hello.game_version;
        handshaked = true;
      })
  pub counter : t.next_id ≡ (s.next_id + 1) % u32_mod
  pub bots : t.bots ≡ s.bots

announce-Joins :
    (env : Env) (p : Player) (hello : HelloMsg) (s : Server)
    → find_peer p.peer s.players ≡ some p
    → Joins p.peer p hello s (announce env (joined_player p hello s.next_id) (register p hello s))
unfolding register joined_player
announce-Joins env p hello s found =
    let q = joined_player p hello s.next_id in
    let e = core-announce env q (register p hello s) in
    record {
      entry =
          ap (λ (k : Core). find_peer p.peer k.players) e
          ∙ find_peer-set_player_same q p s.players found;
      counter = ap (λ (k : Core). k.next_id) e;
      bots = ap (λ (k : Core). k.bots) e;
    }

-- A readable `Hello` of the server's version from a connected client that has not shaken hands makes
-- it a player: its entry gets the next id, the sanitised name, the version of the game and the mark of
-- the handshake and keeps all else, the counter moves on, and the bots stay.
pub handle_packet-Joins :
    (env : Env) (peer : ℕ) (bytes : Bytes) (p : Player) (hello : HelloMsg) (s : Server)
    → find_peer peer s.players ≡ some p
    → p.handshaked ≡ false
    → IsGoodHello bytes hello
    → Joins peer p hello s (handle_packet env peer bytes s)
unfolding handle_packet
handle_packet-Joins env peer bytes p hello s found before good =
    let same = find_peer-peer peer s.players p found in
    rw (found, handle_packet)
      (subst (Joins peer p hello s) (sym (accepted_lem env p s before bytes hello good)) (
        subst
          (λ k.
            Joins k p hello s (announce env (joined_player p hello s.next_id) (register p hello s)))
          same
          (announce-Joins env p hello s
            (subst (λ k. find_peer k s.players ≡ some p) (sym same) found))))
