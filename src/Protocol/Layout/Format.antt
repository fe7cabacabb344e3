-- ===== src/Protocol/Layout/Format.antt =====
-- What it means that a `Write` and a `Read` of shared/include/f4mp/Protocol.hpp agree on a layout.
use f4mp.Base.{◌≡◌, Bytes}
use f4mp.Packet.{Writer, Read}
use f4mp.Packet.Writing.{Appends}
use f4mp.Packet.Reading.{Parses}
use f4mp.Packet.Exactness.{Exact}
use f4mp.Packet.Safety.{Safe}

-- `body` is the layout; `Fits` says that each field is a value that the layout can hold.
pub record IsFormat {A : Type 0} (write : A → Writer → Writer) (read : Read A) (body : A → Bytes)
    (Fits : A → Type 0) : Type 0 where
  pub writes : (m : A) → Appends (write m) (body m)
  pub reads : (m : A) → Fits m → Parses read (body m) m
  pub exact : Exact read (λ m xs. (xs ≡ body m) × Fits m)
  pub safe : Safe read
