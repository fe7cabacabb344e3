-- ===== src/Client/Net/Soundness.antt =====
-- How the state of the connection of client/src/Net/NetClient.cpp and its peer belong together.
use f4mp.Base.{
  if_holds, ℕ, Bool, true, false, not, ◌&&◌, Option, none, some, List, [], ◌∷◌, ◌≡◌, ◌≢◌, refl, sym,
  subst, arith, if◌then◌else◌, Bytes, codes,
}
use f4mp.Client.Net.{
  State, disconnected, connecting, connected, NetClient, drop_peer, reset, Attempt, dial, connect,
  Event, opened, received, closed, other, Owner, fail, handle_event, handle_events, check_timeout,
  pump,
}

-- There is a peer exactly when the connection is not down, and a peer lives on a host.
abbrev pub Agrees : State → Option ℕ → Bool → Type 0
Agrees disconnected none host = Unit
Agrees disconnected (some p) host = ⊥
Agrees connecting none host = ⊥
Agrees connecting (some p) host = host ≡ true
Agrees connected none host = ⊥
Agrees connected (some p) host = host ≡ true

pub record IsSound (n : NetClient) : Type 0 where
  pub agrees : Agrees n.state n.peer n.host

reset-peer : (n : NetClient) → (reset n).peer ≡ none
unfolding reset
reset-peer n = go n.peer refl
  where
    go : (o : Option ℕ) → n.peer ≡ o → (drop_peer o n).peer ≡ none
    go none e = e
    go (some p) e = refl

pub reset-IsSound : (n : NetClient) → IsSound (reset n)
unfolding reset
reset-IsSound n = record {
  agrees = subst (λ o. Agrees disconnected o (reset n).host) (sym (reset-peer n)) tt;
}

-- What `Connect` has done when it returns.
pub record Dialled (a : Attempt) (now : ℕ) (n : NetClient) (r : NetClient × Bool) : Type 0 where
  pub sound : IsSound r.0
  pub success :
      r.1 ≡ true
      → ((r.0).state ≡ connecting) × (((r.0).peer ≡ a.new_peer) × ((r.0).connect_start ≡ now))
  pub failure : r.1 ≡ false → n.enet_ready ≡ true → (r.0).state ≡ disconnected

dial-Dialled :
    (a : Attempt) (now : ℕ) (n m : NetClient)
    → m.host ≡ true
    → m.state ≡ disconnected
    → (o : Option ℕ) → a.new_peer ≡ o
    → Dialled a now n (dial o now m)
unfolding dial
dial-Dialled a now n m on down none e = record {
  sound = record { agrees = subst (λ st. Agrees st none m.host) (sym down) tt };
  success = λ yes. cc;
  failure = λ no ready. down;
}
dial-Dialled a now n m on down (some p) e = record {
  sound = record { agrees = on };
  success = λ yes. (refl, (sym e, refl));
  failure = λ no ready. cc;
}

Dialled-if :
    (a : Attempt) (now : ℕ) (n : NetClient) (b : Bool) (r t : NetClient × Bool)
    → (b ≡ true → Dialled a now n r)
    → Dialled a now n t
    → Dialled a now n (if b then r else t)
Dialled-if a now n true r t h k = h refl
Dialled-if a now n false r t h k = k

stays_down :
    (a : Attempt) (now : ℕ) (n r : NetClient)
    → IsSound r
    → r.state ≡ disconnected
    → Dialled a now n (r, false)
stays_down a now n r sound down = record {
  sound = sound;
  success = λ yes. cc;
  failure = λ no ready. down;
}

reset_on : (n : NetClient) → IsSound (record (reset n) { host = true })
unfolding reset
reset_on n = record { agrees = subst (λ o. Agrees disconnected o true) (sym (reset-peer n)) tt }

-- On every path `Connect` leaves state and peer in agreement. If it returns true, the client is
-- connecting to the new peer since now; if it returns false and ENet is ready, the client is not
-- connected, whatever it was before.
pub connect-Dialled :
    (a : Attempt) (now : ℕ) (n : NetClient) → IsSound n → Dialled a now n (connect a now n)
unfolding connect reset
connect-Dialled a now n sound =
    Dialled-if a now n (not n.enet_ready) (n, false) _
      (λ e. record {
        sound = sound;
        success = λ yes. cc;
        failure = λ no ready. absurd (not_ready e ready);
      })
      (Dialled-if a now n (not (reset n).host && not a.host_created) (reset n, false) _
        (λ e. stays_down a now n (reset n) (reset-IsSound n) refl)
        (Dialled-if a now n (not a.resolved) (record (reset n) { host = true }, false) _
          (λ e. stays_down a now n (record (reset n) { host = true }) (reset_on n) refl)
          (dial-Dialled a now n (record (reset n) { host = true }) refl refl a.new_peer refl)))
  where
    not_ready : not n.enet_ready ≡ true → n.enet_ready ≡ true → ⊥
    not_ready e ready = ground arith

module _ {S : Type 0} (owner : Owner S) where
  -- The callbacks keep state and peer in agreement.
  pub record IsCareful : Type 0 where
    pub connecting_ok : (w : NetClient × S) → IsSound w.0 → IsSound (owner.on_connected w).0
    pub closing_ok :
        (reason : Bytes) (w : NetClient × S)
        → IsSound w.0
        → IsSound (owner.on_disconnected reason w).0
    pub packet_ok :
        (bytes : Bytes) (w : NetClient × S) → IsSound w.0 → IsSound (owner.on_packet bytes w).0

  -- ENet reports that a connection has been opened only while there is a peer.
  abbrev pub Possible : List Event → NetClient × S → Type 0
  Possible [] w = Unit
  Possible (opened ∷ es) w = ((w.0).peer ≢ none) × Possible es (handle_event owner opened w)
  Possible (e ∷ es) w = Possible es (handle_event owner e w)

  opened-IsSound :
      (n : NetClient) → n.peer ≢ none → IsSound n → IsSound (record n { state = connected })
  opened-IsSound n here h = record { agrees = go n.state n.peer here h.agrees }
    where
      go : (st : State) (o : Option ℕ) → o ≢ none → Agrees st o n.host → Agrees connected o n.host
      go st none some_peer k = some_peer refl
      go disconnected (some p) some_peer k = absurd k
      go connecting (some p) some_peer k = k
      go connected (some p) some_peer k = k

  handle_events-IsSound :
      IsCareful
      → (es : List Event) (w : NetClient × S) → Possible es w
      → IsSound w.0
      → IsSound (handle_events owner es w).0
  unfolding handle_events handle_event
  handle_events-IsSound care [] w poss h = h
  handle_events-IsSound care (opened ∷ es) (n, s) poss h =
      handle_events-IsSound care es _ poss.1
        (care.connecting_ok (record n { state = connected }, s) (opened-IsSound n poss.0 h))
  handle_events-IsSound care (received bytes ∷ es) w poss h =
      handle_events-IsSound care es _ poss (care.packet_ok bytes w h)
  handle_events-IsSound care (closed ∷ es) (n, s) poss h =
      handle_events-IsSound care es _ poss (care.closing_ok _ _ (record { agrees = tt }))
  handle_events-IsSound care (other ∷ es) w poss h = handle_events-IsSound care es w poss h

  IsSound-if :
      (b : Bool) (w v : NetClient × S) → IsSound w.0 → IsSound v.0 → IsSound (if b then w else v).0
  IsSound-if = if_holds (λ (w : NetClient × S). IsSound w.0)

  -- `Pump` keeps state and peer in agreement, whatever arrives and also on the timeout, if the
  -- callbacks do and ENet reports an opened connection only while there is a peer.
  pub pump-IsSound :
      IsCareful
      → (es : List Event) (now : ℕ) (w : NetClient × S) → Possible es w
      → IsSound w.0
      → IsSound (pump owner es now w).0
  unfolding pump check_timeout fail
  pump-IsSound care es now w poss h =
      let v = handle_events owner es w in
      let k = handle_events-IsSound care es w poss h in
      IsSound-if (not (w.0).host) w _ h (
        IsSound-if _ (owner.on_disconnected (codes "Connection timed out") (reset v.0, v.1)) v
          (care.closing_ok (codes "Connection timed out") (reset v.0, v.1) (reset-IsSound v.0)) k)
