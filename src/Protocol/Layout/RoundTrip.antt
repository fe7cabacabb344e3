-- ===== src/Protocol/Layout/RoundTrip.antt =====
-- Encoding and decoding of whole packets: shared/include/f4mp/Packet.hpp with Protocol.hpp.
use f4mp.Base.{
  ℕ, zero, suc, ◌<◌, ◌≡◌, ◌≢◌, refl, sym, ap, ap₂, subst, ◌∙◌, inl, inr, [], ◌∷◌, ◌++◌, true, false,
  Option, none, some, arith, append_assoc, append-nil, Option-cases, Bytes, length, take, drop, All,
  take-append-drop, length-append, length-drop, All-append_left, All-append_right, All-take,
}
use f4mp.Packet.{
  Reader, Read, new_reader, new_writer, put_str, get_str, put_u8, get_u8, max_string_bytes,
}
use f4mp.Packet.Writing.{str_bytes, put_u8-Appends, put_str-Appends}
use f4mp.Packet.Reading.{ahead, get_u8-Parses, get_str-Parses}
use f4mp.Packet.Exactness.{IsByte, get_u8-Exact}
use f4mp.Packet.Safety.{IsReader, Moves}
use f4mp.Protocol.Messages.{encode, read_header, checked}
use f4mp.Protocol.Layout.Kinds.{
  Kind, Msg, id_of, write_of, read_of, body_of, FitsKind, IsFormat-kind,
}

id_of-lt : (k : Kind) → id_of k < 256
id_of-lt Kind.hello = omega arith
id_of-lt _ = omega arith

-- A packet is the id and then the body.
encode_lem : (k : Kind) (m : Msg k) → encode (id_of k) (write_of k m) ≡ id_of k ∷ body_of k m
unfolding encode
encode_lem k m =
    (IsFormat-kind k).writes m (put_u8 (id_of k) new_writer)
    ∙ ap (λ b. b ++ body_of k m) (put_u8-Appends (id_of k) new_writer)

-- What `checked` makes of a read that went well.
checked-some :
    {A : Type 0} (m : Read A) (r : Reader) (a : A)
    → (m r).0 ≡ a
    → (m r).1.ok ≡ true
    → checked m r ≡ (some a, (m r).1)
unfolding checked
checked-some m r a e ok = rw (ok, e)

header_some :
    (r : Reader) (v : ℕ)
    → (get_u8 r).0 ≡ v
    → (get_u8 r).1.ok ≡ true
    → read_header r ≡ (some v, (get_u8 r).1)
unfolding read_header
header_some r v e ok = rw (ok, e)

-- The two steps of every receiver: the header, then the message.
abbrev pub receive : (k : Kind) → Bytes → Option (Msg k) × Reader
receive k bytes = checked (read_of k) (read_header (new_reader bytes)).1

-- Any message whose fields fit, written by `Encode` and followed by any bytes, is read back: the
-- header is its id, the message is the same, and the reader stops exactly behind it.
pub receive-encode :
    (k : Kind) (m : Msg k) (tail : Bytes)
    → FitsKind k m
    → ((read_header (new_reader (encode (id_of k) (write_of k m) ++ tail))).0 ≡ some (id_of k))
      × ((receive k (encode (id_of k) (write_of k m) ++ tail)).0 ≡ some m)
      × (ahead (receive k (encode (id_of k) (write_of k m) ++ tail)).1 ≡ tail)
receive-encode k m tail h = rw (encode_lem k m) body
  where
    first_reader : Reader
    first_reader = new_reader (id_of k ∷ (body_of k m ++ tail))

    head :
        ((get_u8 first_reader).0 ≡ id_of k)
        × ((get_u8 first_reader).1.ok ≡ true)
        × (ahead (get_u8 first_reader).1 ≡ body_of k m ++ tail)
    head = (get_u8-Parses (id_of k) (id_of-lt k)).parse first_reader (body_of k m ++ tail) refl refl

    rest :
        ((read_of k (get_u8 first_reader).1).0 ≡ m)
        × ((read_of k (get_u8 first_reader).1).1.ok ≡ true)
        × (ahead (read_of k (get_u8 first_reader).1).1 ≡ tail)
    rest = ((IsFormat-kind k).reads m h).parse (get_u8 first_reader).1 tail head.1 head.2

    body :
        ((read_header first_reader).0 ≡ some (id_of k))
        × ((receive k (id_of k ∷ (body_of k m ++ tail))).0 ≡ some m)
        × (ahead (receive k (id_of k ∷ (body_of k m ++ tail))).1 ≡ tail)
    body =
        rw (header_some first_reader (id_of k) head.0 head.1) (
          rw (checked-some (read_of k) (get_u8 first_reader).1 m rest.0 rest.1)
            (refl, refl, rest.2))

checked_inv :
    {A : Type 0} (m : Read A) (r : Reader) (a : A)
    → (checked m r).0 ≡ some a
    → ((m r).0 ≡ a) × ((m r).1.ok ≡ true) × ((checked m r).1 ≡ (m r).1)
unfolding checked
checked_inv m r a h = ground arith

header_inv :
    (r : Reader) (v : ℕ)
    → (read_header r).0 ≡ some v
    → ((get_u8 r).0 ≡ v) × ((get_u8 r).1.ok ≡ true) × ((read_header r).1 ≡ (get_u8 r).1)
unfolding read_header
header_inv r v h = ground arith

-- What a message that was read used up, of any bytes.
read_used :
    (k : Kind) (r : Reader) (m : Msg k)
    → All IsByte (ahead r)
    → (read_of k r).0 ≡ m
    → (read_of k r).1.ok ≡ true
    → (ahead r ≡ body_of k m ++ ahead (read_of k r).1) × FitsKind k m
read_used k r m bs e ok =
    let c = (IsFormat-kind k).exact.consumes r ok in
    let used_bytes =
      All-append_left IsByte c.used (ahead (read_of k r).1) (subst (All IsByte) c.splits bs) in
    let good = c.meets used_bytes in
    (rw (← e) (c.splits ∙ ap (λ u. u ++ ahead (read_of k r).1) good.0), rw (← e) good.1)

-- If a packet is accepted as a message, then its bytes are exactly what `Encode` writes for that
-- message, followed by the bytes that the reader left; so there is one wire form for each message.
pub encode-receive :
    (k : Kind) (bytes : Bytes) (m : Msg k)
    → All IsByte bytes
    → (read_header (new_reader bytes)).0 ≡ some (id_of k)
    → (receive k bytes).0 ≡ some m
    → (bytes ≡ encode (id_of k) (write_of k m) ++ ahead (receive k bytes).1) × FitsKind k m
encode-receive k bytes m bs hh hm =
    let (he, hok, hr) = header_inv (new_reader bytes) (id_of k) hh in
    let c = get_u8-Exact.consumes (new_reader bytes) hok in
    let r = (get_u8 (new_reader bytes)).1 in
    let split = subst (All IsByte) c.splits bs in
    let one = (c.meets (All-append_left IsByte c.used (ahead r) split)).0 in
    let (me, mok, mr) = checked_inv (read_of k) r m (rw hr at hm) in
    let (body, fits) = read_used k r m (All-append_right IsByte c.used (ahead r) split) me mok in
    (rw (encode_lem k m, hr, mr) (c.splits ∙ ap₂ ◌++◌ (one ∙ ap (λ v. v ∷ []) he) body), fits)

-- The same for what follows: two readings of one packet as the same kind leave the same bytes.
encode_prefix :
    (k : Kind) (m n : Msg k) (xs ys : Bytes)
    → FitsKind k m
    → FitsKind k n
    → encode (id_of k) (write_of k m) ++ xs ≡ encode (id_of k) (write_of k n) ++ ys
    → xs ≡ ys
encode_prefix k m n xs ys hm hn e =
    sym (receive-encode k m xs hm).2
    ∙ ap (λ b. ahead (receive k b).1) e
    ∙ (receive-encode k n ys hn).2

receive_cut :
    (k : Kind) (m m' : Msg k) (n : ℕ)
    → FitsKind k m
    → All IsByte (encode (id_of k) (write_of k m))
    → n < length (encode (id_of k) (write_of k m))
    → (read_header (new_reader (take n (encode (id_of k) (write_of k m))))).0 ≡ some (id_of k)
    → (receive k (take n (encode (id_of k) (write_of k m)))).0 ≢ some m'
receive_cut k m m' n fits bs short hh got =
    let enc = encode (id_of k) (write_of k m) in
    let cut = take n enc in
    let back = encode-receive k cut m' (All-take IsByte n enc bs) hh got in
    let rest = ahead (receive k cut).1 in
    let whole : encode (id_of k) (write_of k m') ++ (rest ++ drop n enc) ≡ enc ++ [] =
      sym (append_assoc _ rest (drop n enc))
      ∙ ap (λ b. b ++ drop n enc) (sym back.0)
      ∙ take-append-drop n enc
      ∙ sym (append-nil enc) in
    let none_left = encode_prefix k m' m (rest ++ drop n enc) [] back.1 fits whole in
    omega (arith, ap length none_left, length-append rest (drop n enc), length-drop n enc)

header_here : (v : ℕ) (tail : Bytes) → v < 256 → (read_header (new_reader (v ∷ tail))).0 ≡ some v
header_here v tail h =
    let s = (get_u8-Parses v h).parse (new_reader (v ∷ tail)) tail refl refl in
    ap (λ (q : Option ℕ × Reader). q.0) (header_some (new_reader (v ∷ tail)) v s.0 s.1)

empty_header :
    ((read_header (new_reader [])).1.ok ≡ false) × IsReader (read_header (new_reader [])).1
unfolding read_header get_u8
empty_header = (refl, omega arith)

checked-none : {A : Type 0} (m : Read A) (r : Reader) → (m r).1.ok ≡ false → (checked m r).0 ≡ none
unfolding checked
checked-none m r e = rw e

receive_nothing : (k : Kind) → (receive k []).0 ≡ none
receive_nothing k =
    let r = (read_header (new_reader [])).1 in
    checked-none (read_of k) r
      (((IsFormat-kind k).safe.moves r empty_header.1).sticky empty_header.0).0

-- A packet that lost its end is never accepted: whatever proper prefix of an encoded message
-- arrives, the receiver gets no message out of it.
pub receive-take :
    (k : Kind) (m : Msg k) (n : ℕ)
    → FitsKind k m
    → All IsByte (encode (id_of k) (write_of k m))
    → n < length (encode (id_of k) (write_of k m))
    → (receive k (take n (encode (id_of k) (write_of k m)))).0 ≡ none
receive-take k m zero fits bs short = receive_nothing k
receive-take k m (suc n) fits bs short =
    elim (Option-cases (receive k (take (suc n) (encode (id_of k) (write_of k m)))).0) [
      | inl e ↦ e
      | inr (m', got) ↦ absurd (
          receive_cut k m m' (suc n) fits bs short
            (rw (encode_lem k m) (header_here (id_of k) (take n (body_of k m)) (id_of-lt k))) got)
    ]

-- `Reader` never passes the end of its buffer, never goes back, and once it has failed it stays
-- failed where it is, for every kind of message and whatever the bytes are.
pub read_of-Moves : (k : Kind) (r : Reader) → IsReader r → Moves r (read_of k r).1
read_of-Moves k r h = (IsFormat-kind k).safe.moves r h

-- A string longer than 4096 bytes is cut to its first 4096 when it is written; a shorter one is
-- read back whole.
get_str-put_str :
    (s tail : Bytes)
    → ((get_str (new_reader ((put_str s new_writer).buf ++ tail))).0 ≡ take max_string_bytes s)
      × ((get_str (new_reader ((put_str s new_writer).buf ++ tail))).1.ok ≡ true)
get_str-put_str s tail =
    let p = (get_str-Parses s).parse (new_reader (str_bytes s ++ tail)) tail refl refl in
    rw (put_str-Appends s new_writer) (p.0, p.1)
