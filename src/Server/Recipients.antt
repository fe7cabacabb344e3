-- ===== src/Server/Recipients.antt =====
-- Who gets what `Broadcast` of server/src/Server.cpp sends.
use f4mp.Base.{
  ℕ, Bool, true, false, not, ◌&&◌, ◌||◌, Option, List, [], ◌∷◌, ◌++◌, ◌≡◌, refl, sym, ap, ◌∙◌, inl,
  inr, append-nil, append_assoc, if◌then◌else◌, Bool-cases, Bytes, keep,
}
use f4mp.Protocol.Messages.{Channel}
use f4mp.Server.State.{Player, Server, Env, Effect, peer_send}
use f4mp.Server.Sending.{is_reliable, send, is_except, broadcast_to, broadcast}

abbrev pub is_recipient : Option ℕ → Player → Bool
is_recipient except p = p.handshaked && not (is_except except p)

abbrev pub sends : Channel → Bytes → List Player → List Effect
sends channel bytes [] = []
sends channel bytes (p ∷ ps) = peer_send p.peer channel bytes ∷ sends channel bytes ps

-- One call of `enet_peer_send` for each recipient, in the order of the map, if there is a packet.
abbrev pub deliveries : Env → Channel → Bytes → Option ℕ → List Player → List Effect
deliveries env channel bytes except ps =
    if env.packet_create bytes (is_reliable channel)
    then sends channel bytes (keep (is_recipient except) ps)
    else []

flip :
    {A : Type 0} (a b : Bool) (x y : A)
    → (if not a || b then x else y) ≡ (if a && not b then y else x)
flip true true x y = refl
flip true false x y = refl
flip false b x y = refl

module _ (env : Env) (channel : Channel) (bytes : Bytes) (except : Option ℕ) where
  broadcast_to-cons :
      (p : Player) (ps : List Player) (s : Server)
      → broadcast_to env channel bytes except (p ∷ ps) s
        ≡ broadcast_to env channel bytes except ps
            (if is_recipient except p then send env p.peer channel bytes s else s)
  unfolding broadcast_to
  broadcast_to-cons p ps s =
      ap (broadcast_to env channel bytes except ps)
        (flip p.handshaked (is_except except p) s (send env p.peer channel bytes s))

  module _ (made : env.packet_create bytes (is_reliable channel) ≡ true) where
    sent-send :
        (peer : ℕ) (s : Server)
        → (send env peer channel bytes s).sent ≡ s.sent ++ peer_send peer channel bytes ∷ []
    unfolding send
    sent-send peer s = rw made

    sent-made :
        (ps : List Player) (s : Server)
        → (broadcast_to env channel bytes except ps s).sent
          ≡ s.sent ++ sends channel bytes (keep (is_recipient except) ps)
    unfolding keep broadcast_to
    sent-made [] s = sym (append-nil s.sent)
    sent-made (p ∷ ps) s =
        rw (broadcast_to-cons p ps s) (elim (Bool-cases (is_recipient except p)) [
          | inl e ↦ rw e (
              sent-made ps (send env p.peer channel bytes s)
              ∙ ap (λ es. es ++ sends channel bytes (keep (is_recipient except) ps))
                  (sent-send p.peer s)
              ∙ append_assoc s.sent (peer_send p.peer channel bytes ∷ []) _)
          | inr e ↦ rw e (sent-made ps s)
        ])

  module _ (failed : env.packet_create bytes (is_reliable channel) ≡ false) where
    send_failed : (peer : ℕ) (s : Server) → send env peer channel bytes s ≡ s
    unfolding send
    send_failed peer s = rw failed

    sent-failed : (ps : List Player) (s : Server) → broadcast_to env channel bytes except ps s ≡ s
    unfolding broadcast_to
    sent-failed [] s = refl
    sent-failed (p ∷ ps) s =
        rw (broadcast_to-cons p ps s) (elim (Bool-cases (is_recipient except p)) [
          | inl e ↦ rw e (sent-failed ps _ ∙ send_failed p.peer s)
          | inr e ↦ rw e (sent-failed ps s)
        ])

-- `Broadcast` makes one call of `enet_peer_send` for each player that has shaken hands but the
-- exception, in the order of the map and behind all that was sent before, and no other call.
pub sent-broadcast :
    (env : Env) (channel : Channel) (bytes : Bytes) (except : Option ℕ) (s : Server)
    → (broadcast env channel bytes except s).sent
      ≡ s.sent ++ deliveries env channel bytes except s.players
unfolding broadcast
sent-broadcast env channel bytes except s =
    elim (Bool-cases (env.packet_create bytes (is_reliable channel))) [
      | inl made ↦ rw made (sent-made env channel bytes except made s.players s)
      | inr failed ↦ rw failed (
          ap (λ (t : Server). t.sent) (sent-failed env channel bytes except failed s.players s)
          ∙ sym (append-nil s.sent))
    ]
