-- ===== src/Packet.antt =====
-- shared/include/f4mp/Packet.hpp: the byte writer and the byte reader of every message. A method
-- that changes the object returns the new one. The host is little-endian, which the source
-- asserts; a signed number and a `float` are their 32-bit patterns.
pub mod Writing
pub mod Reading
pub mod Exactness
pub mod Safety
use f4mp.Base.{
  ℕ, zero, suc, ◌+◌, ◌-◌, Bool, true, false, not, ◌||◌, List, [], ◌∷◌, ◌++◌, ltb, ◌==◌,
  if◌then◌else◌, Bytes, length, take, drop, to_le, from_le,
}

unfoldable pub max_string_bytes : ℕ
max_string_bytes = 4096

pub record Writer : Type 0 where
  pub buf : Bytes

abbrev pub new_writer : Writer
new_writer = record { buf = [] }

-- `Writer::Raw` with the bytes that it is pointed to.
pub put_raw : Bytes → Writer → Writer
put_raw bytes w = record { buf = w.buf ++ bytes }

unfoldable pub put_u8 : ℕ → Writer → Writer
put_u8 v w = record { buf = w.buf ++ v ∷ [] }

pub put_u16 : ℕ → Writer → Writer
unfolding put_raw
put_u16 v w = put_raw (to_le 2 v) w

unfoldable pub put_u32 : ℕ → Writer → Writer
unfolding put_raw
put_u32 v w = put_raw (to_le 4 v) w

unfoldable put_i32 : ℕ → Writer → Writer
unfolding put_raw
put_i32 v w = put_raw (to_le 4 v) w

pub put_f32 : ℕ → Writer → Writer
unfolding put_raw
put_f32 v w = put_raw (to_le 4 v) w

unfoldable put_bool : Bool → Writer → Writer
unfolding put_u8
put_bool v w = put_u8 (if v then 1 else 0) w

unfoldable pub put_str : Bytes → Writer → Writer
unfolding put_u16 put_raw
put_str s w =
    let len = if ltb max_string_bytes (length s) then max_string_bytes else length s in
    put_raw (take len s) (put_u16 len w)

pub record Reader : Type 0 where
  pub bytes : Bytes
  pub pos : ℕ
  pub ok : Bool

abbrev pub new_reader : Bytes → Reader
new_reader bytes = record { bytes = bytes; pos = 0; ok = true }

abbrev pub remaining : Reader → ℕ
remaining r = length r.bytes - r.pos

abbrev zeros : ℕ → Bytes
zeros zero = []
zeros (suc n) = 0 ∷ zeros n

-- A read returns its value and the reader after it.
abbrev pub Read : Type 0 → Type 0
Read A = Reader → A × Reader

abbrev pub ret : {A : Type 0} → A → Read A
ret a r = (a, r)

infixl 5 ◌>>=◌
abbrev pub ◌>>=◌ : {A B : Type 0} → Read A → (A → Read B) → Read B
◌>>=◌ m f r = f (m r).0 (m r).1

-- `Reader::Raw`: the bytes stored behind its pointer.
pub get_raw : ℕ → Read Bytes
get_raw n r =
    if not r.ok || ltb (remaining r) n
    then (zeros n, record r { ok = false })
    else (take n (drop r.pos r.bytes), record r { pos = r.pos + n })

unfoldable pub get_u8 : Read ℕ
unfolding get_raw
get_u8 = do v ← get_raw 1; ret (from_le v)

pub get_u16 : Read ℕ
unfolding get_raw
get_u16 = do v ← get_raw 2; ret (from_le v)

unfoldable pub get_u32 : Read ℕ
unfolding get_raw
get_u32 = do v ← get_raw 4; ret (from_le v)

unfoldable get_i32 : Read ℕ
unfolding get_raw
get_i32 = do v ← get_raw 4; ret (from_le v)

pub get_f32 : Read ℕ
unfolding get_raw
get_f32 = do v ← get_raw 4; ret (from_le v)

unfoldable pub get_bool : Read Bool
unfolding get_u8
get_bool = do v ← get_u8; ret (not (v == 0))

-- What `Reader::Str` does once it has the length.
pub get_chars : ℕ → Read Bytes
get_chars len r =
    if not r.ok || ltb max_string_bytes len || ltb (remaining r) len
    then ([], record r { ok = false })
    else (take len (drop r.pos r.bytes), record r { pos = r.pos + len })

unfoldable pub get_str : Read Bytes
unfolding get_u16 get_chars
get_str = do len ← get_u16; get_chars len
