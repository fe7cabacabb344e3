-- ===== src/Tests/Wire.antt =====
-- Packets of shared/include/f4mp/Protocol.hpp, written, cut and read.
use f4mp.Base.{
  ◌≡◌, ◌<◌, refl, none, some, [], ◌∷◌, ◌++◌, Bytes, codes, length, take, All, arith, ◌↔◌, to_le,
  from_le,
}
use f4mp.Packet.{new_reader, put_str, get_str, put_u8, get_u8, max_string_bytes}
use f4mp.Packet.Exactness.{IsByte}
use f4mp.Packet.Safety.{Moves}
use f4mp.Protocol.Messages.{
  encode, read_header, id_chat, write_chat, read_chat, ChatMsg, read_chat, checked,
}
use f4mp.Protocol.Layout.Kinds.{chat, read_of, FitsKind}
use f4mp.Protocol.Layout.RoundTrip.{
  receive, receive-encode, encode-receive, receive-take, read_of-Moves,
}
use f4mp.Packet.Reading.{ahead}
use f4mp.Protocol.Names.{sanitize_name}
use f4mp.Protocol.Names.Laws.{IsName, sanitize_name-IsName, sanitize_name_iff}

abbrev hi : ChatMsg
hi = record { text = codes "hi" }

abbrev hi_bytes : Bytes
hi_bytes = id_chat ∷ 2 ∷ 0 ∷ b'h' ∷ b'i' ∷ []

hi_fits : FitsKind chat hi
unfolding max_string_bytes
hi_fits = record { text_fits = omega arith }

hi_are_bytes : All IsByte (encode id_chat (write_chat hi))
unfolding encode write_chat put_str put_u8 to_le max_string_bytes
hi_are_bytes = (omega arith, (omega arith, (omega arith, (omega arith, (omega arith, tt)))))

header_hi : (read_header (new_reader hi_bytes)).0 ≡ some id_chat
unfolding read_header get_u8 from_le
header_hi = refl

receive-hi : (receive chat hi_bytes).0 ≡ some hi
unfolding read_header read_chat get_str checked get_u8 max_string_bytes from_le
receive-hi = refl

receive-encode_example :
    ((read_header (new_reader (encode id_chat (write_chat hi) ++ 7 ∷ []))).0 ≡ some id_chat)
    × ((receive chat (encode id_chat (write_chat hi) ++ 7 ∷ [])).0 ≡ some hi)
    × (ahead (receive chat (encode id_chat (write_chat hi) ++ 7 ∷ [])).1 ≡ 7 ∷ [])
receive-encode_example = receive-encode chat hi (7 ∷ []) hi_fits

encode-receive_example :
    (hi_bytes ≡ encode id_chat (write_chat hi) ++ ahead (receive chat hi_bytes).1)
    × FitsKind chat hi
encode-receive_example =
    encode-receive chat hi_bytes hi
      (omega arith, (omega arith, (omega arith, (omega arith, (omega arith, tt))))) header_hi
      receive-hi

cut_short : 3 < length (encode id_chat (write_chat hi))
unfolding encode write_chat put_str put_u8 to_le max_string_bytes
cut_short = omega arith

receive-take_example : (receive chat (take 3 (encode id_chat (write_chat hi)))).0 ≡ none
receive-take_example = receive-take chat hi 3 hi_fits hi_are_bytes cut_short

read_of-Moves_example : Moves (new_reader (9 ∷ 0 ∷ [])) (read_of chat (new_reader (9 ∷ 0 ∷ []))).1
read_of-Moves_example = read_of-Moves chat (new_reader (9 ∷ 0 ∷ [])) (omega arith)

sanitize_name-IsName_example : IsName (sanitize_name (codes "  Piper  "))
sanitize_name-IsName_example = sanitize_name-IsName (codes "  Piper  ")

sanitize_name_iff_example : (sanitize_name (codes " ") ≡ codes " ") ↔ IsName (codes " ")
sanitize_name_iff_example = sanitize_name_iff (codes " ")
