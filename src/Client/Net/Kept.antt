-- ===== src/Client/Net/Kept.antt =====
-- What `Pump` and `Disconnect` of client/src/Net/NetClient.cpp keep of the owner of the connection.
use f4mp.Base.{if_holds, ℕ, Bool, not, List, [], ◌∷◌, if◌then◌else◌, Bytes}
use f4mp.Client.Net.{
  NetClient, Event, opened, received, closed, other, Owner, is_disconnected, reset, fail,
  disconnect, handle_event, handle_events, check_timeout, pump,
}

module _ {S : Type 0} (owner : Owner S) (P : S → Type 0) where
  -- Each callback keeps a property of the owner's state.
  pub record IsKept : Type 0 where
    pub connected_ok : (w : NetClient × S) → P w.1 → P (owner.on_connected w).1
    pub disconnected_ok :
        (reason : Bytes) (w : NetClient × S) → P w.1 → P (owner.on_disconnected reason w).1
    pub packet_ok : (bytes : Bytes) (w : NetClient × S) → P w.1 → P (owner.on_packet bytes w).1

  kept_if : (b : Bool) (w v : NetClient × S) → P w.1 → P v.1 → P (if b then w else v).1
  kept_if = if_holds (λ (w : NetClient × S). P w.1)

  pub disconnect-kept : IsKept → (w : NetClient × S) → P w.1 → P (disconnect owner w).1
  unfolding disconnect
  disconnect-kept kept (n, s) h =
      kept_if (is_disconnected n.state) (n, s) _ h (kept.disconnected_ok _ (reset n, s) h)

  handle_events-kept :
      IsKept → (es : List Event) (w : NetClient × S) → P w.1 → P (handle_events owner es w).1
  unfolding handle_events handle_event
  handle_events-kept kept [] w h = h
  handle_events-kept kept (opened ∷ es) w h = handle_events-kept kept es _ (kept.connected_ok _ h)
  handle_events-kept kept (received bytes ∷ es) w h =
      handle_events-kept kept es _ (kept.packet_ok bytes w h)
  handle_events-kept kept (closed ∷ es) w h =
      handle_events-kept kept es _ (kept.disconnected_ok _ _ h)
  handle_events-kept kept (other ∷ es) w h = handle_events-kept kept es w h

  pub pump-kept :
      IsKept → (es : List Event) (now : ℕ) (w : NetClient × S) → P w.1 → P (pump owner es now w).1
  unfolding pump check_timeout fail
  pump-kept kept es now w h =
      let v = handle_events owner es w in
      let k = handle_events-kept kept es w h in
      kept_if (not (w.0).host) w _ h (kept_if _ _ v (kept.disconnected_ok _ (reset v.0, v.1) k) k)
