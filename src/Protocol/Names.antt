-- ===== src/Protocol/Names.antt =====
-- `SanitizeName` of shared/include/f4mp/Protocol.hpp. A `char` is its byte.
pub mod Laws
use f4mp.Base.{
  ℕ, Bool, ◌&&◌, ltb, leb, ◌==◌, if◌then◌else◌, Bytes, codes, length, take, is_empty, keep,
  trim_front, trim_back,
}
use f4mp.Protocol.Messages.{max_player_name}

abbrev pub is_printable : ℕ → Bool
is_printable c = leb 0x20 c && ltb c 0x7F

abbrev pub is_blank : ℕ → Bool
is_blank c = c == b' '

pub default_name : Bytes
default_name = codes "Wastelander"

unfoldable pub sanitize_name : Bytes → Bytes
unfolding keep trim_front trim_back default_name max_player_name
sanitize_name name =
    let out = keep is_printable name in
    let cut = if ltb max_player_name (length out) then take max_player_name out else out in
    let trimmed = trim_front is_blank (trim_back is_blank cut) in
    if is_empty trimmed then default_name else trimmed
