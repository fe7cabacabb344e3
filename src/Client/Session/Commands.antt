-- ===== src/Client/Session/Commands.antt =====
-- The console helpers of client/src/Session.cpp: `SendChat`, `SetServer`, `SetPlayerName` and
-- `SetCloneOption`.
pub mod Server
use f4mp.Base.{
  ℕ, ◌+◌, ◌%◌, ◌^◌, Bool, true, false, not, ◌&&◌, ◌||◌, Option, none, some, List, [], ◌∷◌, ◌++◌,
  ltb, ◌==◌, if◌then◌else◌, is_empty, take, length, bytes_eq, Bytes, codes,
}
use f4mp.Protocol.Messages.{reliable, encode, id_chat, write_chat, max_chat_bytes}
use f4mp.Protocol.Names.{sanitize_name}
use f4mp.Ini.{cut_at, digits, below}
use f4mp.Client.Config.{Config}
use f4mp.Client.Net.{NetClient}
use f4mp.Client.RemoteState.{Remotes}
use f4mp.Client.Remotes.{respawn, set_pacify, set_ghost, set_duplicate}
use f4mp.Client.Session.{Session, Moment, Link, console, is_ready, net_send}

abbrev pub is_colon : ℕ → Bool
is_colon c = c == b':'

-- `std::from_chars` for `unsigned int` on the whole text, as a port.
pub port_of : Bytes → Option ℕ
port_of text = elim (below (2 ^ 32) (digits text)) [
  | none ↦ none
  | some value ↦ if value == 0 || ltb 65535 value then none else some (value % 2 ^ 16)
]

-- The host and the port of `SetServer`; `none` where the text is refused. There is one colon where a
-- first one has none behind it.
abbrev pub with_port : Bytes → Option ℕ → Option (Bytes × ℕ)
with_port host none = none
with_port host (some port) = some (host, port)

pub split_server : ℕ → Bytes → Option (Bytes × ℕ)
split_server port text = elim (cut_at is_colon text) [
  | none ↦ some (text, port)
  | some (host, behind) ↦ elim (cut_at is_colon behind) [
    | none ↦ with_port host (port_of behind)
    | some _ ↦ some (text, port)
  ]
]

abbrev pub take_server : Option (Bytes × ℕ) → Config → Config × Bool
take_server none c = (c, false)
take_server (some (host, port)) c =
    if is_empty host then (c, false) else (record c { host = host; port = port }, true)

unfoldable pub set_server : Bytes → Config → Config × Bool
set_server text c = take_server (split_server c.port text) c

-- `SetPlayerName`.
unfoldable pub set_player_name : Bytes → Session → Session
set_player_name name s =
    let clean = sanitize_name name in
    let config = s.config in
    let named = record s { config = record config { player_name = clean }; last_name_check = 0 } in
    console (codes "[F4MP] Name set to \"" ++ (clean ++ codes "\".")) named

-- `SetCloneOption` but for the line on the console.
unfoldable pub set_clone_option : Bytes → Bool → Remotes → Remotes × Bool
set_clone_option option on r =
    if bytes_eq option (codes "sync")
    then (record r { drive = on }, true)
    else if bytes_eq option (codes "pacify")
    then (set_pacify on r, true)
    else if bytes_eq option (codes "ghost")
    then (set_ghost on r, true)
    else if bytes_eq option (codes "duplicate")
    then (set_duplicate on r, true)
    else if bytes_eq option (codes "move")
    then (record r { move = on }, true)
    else if bytes_eq option (codes "respawn")
    then (respawn r, true)
    else (r, false)

-- `SendChat`.
unfoldable pub send_chat : Moment → Bytes → Link → Link
send_chat m text (n, s) =
    let cut = if ltb max_chat_bytes (length text) then take max_chat_bytes text else text in
    if is_empty text
    then (n, s)
    else if not (is_ready (n, s))
    then (n, console (codes "[F4MP] Not connected.") s)
    else (net_send m reliable (encode id_chat (write_chat (record { text = cut }))) n, s)
