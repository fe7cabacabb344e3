-- ===== src/Server/Handshake.antt =====
-- The handshake of server/src/Server.cpp: what a client can do before it, and what it brings about.
use f4mp.Base.{
  if_holds, ℕ, Bool, true, false, not, ◌&&◌, Option, none, some, List, [], ◌∷◌, ◌++◌, ◌==◌, ==→eq,
  ◌≡◌, ◌≢◌, refl, sym, ap, ◌∙◌, inl, inr, append-nil, append_assoc, if◌then◌else◌, Bool-cases,
  Bytes, codes, All, All-append, subst,
}
use f4mp.Packet.{Reader, new_reader}
use f4mp.Protocol.Messages.{
  Channel, reliable, HelloMsg, id_hello, protocol_version, read_header, checked, read_hello,
}
use f4mp.Server.State.{
  Player, Server, Env, Effect, peer_send, host_flush, peer_disconnect_later, find_peer, effect,
}
use f4mp.Server.Sending.{send, kick}
use f4mp.Server.Frame.{core}
use f4mp.Server.Joining.{on_hello, handle_hello}
use f4mp.Server.Handlers.{dispatch, on_packet, handle_packet}
use f4mp.Server.Ids.{find_peer-peer}

-- A call of ENet that no other client sees.
abbrev Concerns : ℕ → Effect → Type 0
Concerns peer (peer_send k channel bytes) = k ≡ peer
Concerns peer host_flush = Unit
Concerns peer (peer_disconnect_later k) = k ≡ peer
Concerns peer _ = ⊥

-- Nothing changed but that some calls were made, and these concern `peer` alone.
pub record OnlyTo (peer : ℕ) (s t : Server) : Type 0 where
  pub tables : core t ≡ core s
  pub calls : List Effect
  pub sent : t.sent ≡ s.sent ++ calls
  pub private : All (Concerns peer) calls

OnlyTo-same : (peer : ℕ) (s : Server) → OnlyTo peer s s
OnlyTo-same peer s = record {
  tables = refl;
  calls = [];
  sent = sym (append-nil s.sent);
  private = tt;
}

OnlyTo-if :
    (b : Bool) (peer : ℕ) (s t u : Server)
    → OnlyTo peer s t
    → OnlyTo peer s u
    → OnlyTo peer s (if b then t else u)
OnlyTo-if b peer s t u = if_holds (OnlyTo peer s) b t u

OnlyTo-effect :
    (peer : ℕ) (s t : Server) (e : Effect)
    → OnlyTo peer s t
    → Concerns peer e
    → OnlyTo peer s (effect e t)
OnlyTo-effect peer s t e h k = record {
  tables = h.tables;
  calls = h.calls ++ e ∷ [];
  sent = ap (λ es. es ++ e ∷ []) h.sent ∙ append_assoc s.sent h.calls (e ∷ []);
  private = All-append (Concerns peer) h.calls (e ∷ []) h.private (k, tt);
}

module _ (env : Env) where
  OnlyTo-send :
      (channel : Channel) (bytes : Bytes) (peer : ℕ) (s : Server)
      → OnlyTo peer s (send env peer channel bytes s)
  unfolding send
  OnlyTo-send channel bytes peer s =
      OnlyTo-if _ peer s _ s
        (OnlyTo-effect peer s s (peer_send peer channel bytes) (OnlyTo-same peer s) refl)
        (OnlyTo-same peer s)

  -- `Kick` changes no table, and only the player that it is about hears of it.
  OnlyTo-kick : (p : Player) (reason : Bytes) (s : Server) → OnlyTo p.peer s (kick env p reason s)
  unfolding kick
  OnlyTo-kick p reason s =
      OnlyTo-effect p.peer s _ (peer_disconnect_later p.peer)
        (OnlyTo-effect p.peer s _ host_flush (OnlyTo-send reliable _ p.peer s) tt) refl

-- The packet is a `Hello` that can be read and has the server's version.
pub record IsGoodHello (bytes : Bytes) (hello : HelloMsg) : Type 0 where
  pub header : (read_header (new_reader bytes)).0 ≡ some id_hello
  pub read : (checked read_hello (read_header (new_reader bytes)).1).0 ≡ some hello
  pub version : hello.protocol_version ≡ protocol_version

module _ (env : Env) (p : Player) (s : Server) (before : p.handshaked ≡ false) where
  quiet_hello :
      (o : Option HelloMsg)
      → ((hello : HelloMsg) → o ≡ some hello → hello.protocol_version ≢ protocol_version)
      → OnlyTo p.peer s (on_hello env p o s)
  unfolding on_hello
  quiet_hello none bad = OnlyTo-kick env p _ s
  quiet_hello (some hello) bad = elim (Bool-cases (hello.protocol_version == protocol_version)) [
    | inl e ↦ absurd (bad hello refl (==→eq _ _ e))
    | inr e ↦ rw e (OnlyTo-kick env p _ s)
  ]

  quiet_hello_id :
      (id : ℕ) (r : Reader)
      → (id ≡ id_hello
          → (hello : HelloMsg) → (checked read_hello r).0 ≡ some hello
          → hello.protocol_version ≢ protocol_version)
      → (b : Bool) → (id == id_hello) ≡ b
      → OnlyTo p.peer s
          (if not b then kick env p (codes "Expected handshake") s else dispatch env id p r s)
  unfolding dispatch handle_hello
  quiet_hello_id id r bad true e =
      rw e (quiet_hello (checked read_hello r).0 (bad (==→eq id id_hello e)))
  quiet_hello_id id r bad false e = OnlyTo-kick env p _ s

  quiet_packet :
      (o : Option ℕ) (r : Reader)
      → (o ≡ some id_hello
          → (hello : HelloMsg) → (checked read_hello r).0 ≡ some hello
          → hello.protocol_version ≢ protocol_version)
      → OnlyTo p.peer s (on_packet env p o r s)
  unfolding on_packet
  quiet_packet none r bad = OnlyTo-same p.peer s
  quiet_packet (some id) r bad =
      subst
        (λ b. OnlyTo p.peer s (
          if not b && not (id == id_hello)
          then kick env p (codes "Expected handshake") s
          else dispatch env id p r s))
        (sym before) (quiet_hello_id id r (λ e. bad (ap some e)) (id == id_hello) refl)

-- Until a client has shaken hands, no packet of it that is not a good `Hello` changes a table of the
-- server or reaches another client: at most the client itself is told that it is rejected.
pub handle_packet_before_hello :
    (env : Env) (peer : ℕ) (bytes : Bytes) (p : Player) (s : Server)
    → find_peer peer s.players ≡ some p
    → p.handshaked ≡ false
    → ((hello : HelloMsg) → ¬ IsGoodHello bytes hello)
    → OnlyTo peer s (handle_packet env peer bytes s)
unfolding handle_packet
handle_packet_before_hello env peer bytes p s found before bad =
    rw (found, handle_packet)
      (subst (λ k. OnlyTo k s (on_packet env p head.0 head.1 s))
        (find_peer-peer peer s.players p found)
        (quiet_packet env p s before head.0 head.1
          (λ h hello r v. bad hello (record { header = h; read = r; version = v }))))
  where
    head : Option ℕ × Reader
    head = read_header (new_reader bytes)
