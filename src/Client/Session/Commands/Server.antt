-- ===== src/Client/Session/Commands/Server.antt =====
-- What `SetServer` of client/src/Session.cpp accepts.
use f4mp.Base.{
  ℕ, ◌%◌, ◌^◌, ◌≤◌, Bool, true, false, ◌||◌, Option, none, some, [], ◌∷◌, ◌≡◌, ◌≢◌, refl, arith,
  ltb, ◌==◌, if◌then◌else◌, Bytes,
}
use f4mp.Ini.{cut_at, digits, below}
use f4mp.Client.Config.{Config}
use f4mp.Client.Session.Commands.{
  is_colon, port_of, with_port, split_server, take_server, set_server,
}

-- A port that can be connected to.
abbrev pub IsPort : ℕ → Type 0
IsPort port = (1 ≤ port) × (port ≤ 65535)

-- What `SetServer` leaves: on success a host and a port that can be used, else the settings as they were.
pub record Settled (c : Config) (r : Config × Bool) : Type 0 where
  pub port_ok : IsPort (r.0).port
  pub host_ok : r.1 ≡ true → (r.0).host ≢ []
  pub refused : r.1 ≡ false → r.0 ≡ c

abbrev PortOk : Option ℕ → Type 0
PortOk none = Unit
PortOk (some port) = IsPort port

abbrev PairOk : Option (Bytes × ℕ) → Type 0
PairOk none = Unit
PairOk (some (host, port)) = IsPort port

port_of-PortOk : (text : Bytes) → PortOk (port_of text)
unfolding port_of
port_of-PortOk text = go (below (2 ^ 32) (digits text))
  where
    pick :
        (v : ℕ) (b : Bool)
        → (v == 0 || ltb 65535 v) ≡ b
        → PortOk (if b then none else some (v % 2 ^ 16))
    pick v true e = tt
    pick v false e = (ground arith, ground arith)

    go :
        (o : Option ℕ)
        → PortOk (elim o [
          | none ↦ none
          | some value ↦ if value == 0 || ltb 65535 value then none else some (value % 2 ^ 16)
        ])
    go none = tt
    go (some v) = pick v (v == 0 || ltb 65535 v) refl

with_port-PairOk : (host : Bytes) (o : Option ℕ) → PortOk o → PairOk (with_port host o)
with_port-PairOk host none h = tt
with_port-PairOk host (some port) h = h

split_server-PairOk : (port : ℕ) (text : Bytes) → IsPort port → PairOk (split_server port text)
unfolding split_server
split_server-PairOk port text h = outer (cut_at is_colon text)
  where
    inner :
        (host behind : Bytes) (o : Option (Bytes × Bytes))
        → PairOk (elim o [ none ↦ with_port host (port_of behind) | some _ ↦ some (text, port) ])
    inner host behind none = with_port-PairOk host (port_of behind) (port_of-PortOk behind)
    inner host behind (some p) = h

    outer :
        (o : Option (Bytes × Bytes))
        → PairOk (elim o [
          | none ↦ some (text, port)
          | some (host, behind) ↦ elim (cut_at is_colon behind) [
            | none ↦ with_port host (port_of behind)
            | some _ ↦ some (text, port)
          ]
        ])
    outer none = h
    outer (some (host, behind)) = inner host behind (cut_at is_colon behind)

take_server-Settled :
    (c : Config) (o : Option (Bytes × ℕ)) → IsPort c.port → PairOk o → Settled c (take_server o c)
take_server-Settled c none h k = record { port_ok = h; host_ok = λ yes. cc; refused = λ no. refl }
take_server-Settled c (some ([], port)) h k = record {
  port_ok = h;
  host_ok = λ yes. cc;
  refused = λ no. refl;
}
take_server-Settled c (some (x ∷ host, port)) h k = record {
  port_ok = k;
  host_ok = λ yes e. cc;
  refused = λ no. cc;
}

-- Whatever text the player gives, the port of the settings stays from 1 to 65535; if the text is
-- accepted, the host is not empty, and if it is refused, the settings are as they were.
pub set_server-Settled : (text : Bytes) (c : Config) → IsPort c.port → Settled c (set_server text c)
unfolding set_server
set_server-Settled text c h =
    take_server-Settled c (split_server c.port text) h (split_server-PairOk c.port text h)
