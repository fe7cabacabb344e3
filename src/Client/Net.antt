-- ===== src/Client/Net.antt =====
-- client/src/Net/NetClient.cpp: the client's connection. What the owner of the connection does in the
-- callbacks is a parameter, a function on the connection and the owner's own state `S`.
pub mod Soundness
pub mod Kept
use f4mp.Base.{
  ℕ, ◌+◌, ◌-◌, ◌*◌, Bool, true, false, not, ◌&&◌, ◌||◌, Option, none, some, List, [], ◌∷◌, ◌++◌,
  ltb, if◌then◌else◌, Bytes, codes,
}
use f4mp.Protocol.Messages.{Channel, reliable, unreliable}

pub data State : Type 0 where
  disconnected connecting connected : State

-- The calls of ENet that leave the process or end a connection, its host or the library.
pub data Call : Type 0 where
  peer_send : ℕ → Channel → Bytes → Call
  peer_disconnect_now : ℕ → Call
  peer_reset : ℕ → Call
  peer_timeout : ℕ → ℕ → ℕ → Call
  host_destroy deinitialize : Call

-- `host` tells whether there is one; a peer is a number. `calls` lists the calls, oldest first.
pub record NetClient : Type 0 where
  pub host : Bool
  pub peer : Option ℕ
  pub state : State
  pub enet_ready : Bool
  pub connect_start : ℕ
  pub calls : List Call

-- Given whether `enet_initialize` succeeds.
abbrev pub new_client : Bool → NetClient
new_client ready = record {
  host = false;
  peer = none;
  state = disconnected;
  enet_ready = ready;
  connect_start = 0;
  calls = [];
}

abbrev pub call : Call → NetClient → NetClient
call c n = record n { calls = n.calls ++ c ∷ [] }

abbrev pub is_connected : State → Bool
is_connected connected = true
is_connected _ = false

abbrev is_connecting : State → Bool
is_connecting connecting = true
is_connecting _ = false

abbrev pub is_disconnected : State → Bool
is_disconnected disconnected = true
is_disconnected _ = false

-- `Reset`.
abbrev pub drop_peer : Option ℕ → NetClient → NetClient
drop_peer none n = n
drop_peer (some p) n =
    record (call (if is_connected n.state then peer_disconnect_now p else peer_reset p) n) {
      peer = none;
    }

pub reset : NetClient → NetClient
reset n = record (drop_peer n.peer n) { state = disconnected }

-- The destructor.
unfoldable destroy : NetClient → NetClient
destroy n =
    let r = reset n in
    let closed = if r.host then record (call host_destroy r) { host = false } else r in
    if closed.enet_ready then call deinitialize closed else closed

-- How the calls of ENet in `Connect` turn out: whether a host is made, whether the name of the server
-- is resolved, and the peer, if there is one.
pub record Attempt : Type 0 where
  pub host_created : Bool
  pub resolved : Bool
  pub new_peer : Option ℕ

-- `Connect` with a host, from `enet_host_connect` on.
pub dial : Option ℕ → ℕ → NetClient → NetClient × Bool
dial none now n = (record n { peer = none }, false)
dial (some p) now n = (
  record (call (peer_timeout p 60000 180000) n) {
    peer = some p;
    state = connecting;
    connect_start = now;
  },
  true,
)

pub connect : Attempt → ℕ → NetClient → NetClient × Bool
connect a now n =
    let r = reset n in
    if not n.enet_ready
    then (n, false)
    else if not r.host && not a.host_created
    then (r, false)
    else if not a.resolved
    then (record r { host = true }, false)
    else dial a.new_peer now (record r { host = true })

abbrev flag : Channel → Bool
flag reliable = true
flag unreliable = false

-- `Send`, given whether `enet_packet_create` returns a packet.
abbrev pub send_to : Option ℕ → Bool → Channel → Bytes → NetClient → NetClient
send_to none created channel bytes n = n
send_to (some p) created channel bytes n =
    if not (is_connected n.state)
    then n
    else if created
    then call (peer_send p channel bytes) n
    else n

unfoldable pub send : (Bytes → Bool → Bool) → Channel → Bytes → NetClient → NetClient
send packet_create channel bytes n =
    send_to n.peer (packet_create bytes (flag channel)) channel bytes n

-- What `enet_host_service` hands out.
pub data Event : Type 0 where
  opened : Event
  received : Bytes → Event
  closed : Event
  other : Event

-- 8 seconds, in nanoseconds.
abbrev connect_timeout : ℕ
connect_timeout = 8_000_000_000

-- The callbacks.
pub record Owner (S : Type 0) : Type 0 where
  pub on_connected : NetClient × S → NetClient × S
  pub on_disconnected : Bytes → NetClient × S → NetClient × S
  pub on_packet : Bytes → NetClient × S → NetClient × S

module _ {S : Type 0} (owner : Owner S) where
  unfoldable pub disconnect : NetClient × S → NetClient × S
  disconnect (n, s) =
      if is_disconnected n.state
      then (n, s)
      else owner.on_disconnected (codes "Disconnected") (reset n, s)

  pub fail : Bytes → NetClient × S → NetClient × S
  fail reason (n, s) = owner.on_disconnected reason (reset n, s)

  abbrev closing_reason : State → Bytes
  closing_reason connecting = codes "Connection refused"
  closing_reason _ = codes "Connection closed"

  unfoldable pub handle_event : Event → NetClient × S → NetClient × S
  handle_event opened (n, s) = owner.on_connected (record n { state = connected }, s)
  handle_event (received bytes) w = owner.on_packet bytes w
  handle_event closed (n, s) =
      owner.on_disconnected (closing_reason n.state)
        (record n { peer = none; state = disconnected }, s)
  handle_event other w = w

  unfoldable pub handle_events : List Event → NetClient × S → NetClient × S
  handle_events [] w = w
  handle_events (e ∷ es) w = handle_events es (handle_event e w)

  pub check_timeout : ℕ → NetClient × S → NetClient × S
  check_timeout now w =
      if is_connecting (w.0).state && ltb ((w.0).connect_start + connect_timeout) now
      then fail (codes "Connection timed out") w
      else w

  -- `Pump` with the events that ENet reports during the call; `now` is read behind them.
  pub pump : List Event → ℕ → NetClient × S → NetClient × S
  pump events now w = if not (w.0).host then w else check_timeout now (handle_events events w)
