-- ===== src/Client/Clock.antt =====
-- `ServerClock` of shared/include/f4mp/Interp.hpp: 32-bit time stamps to one time line.
pub mod Exact
use f4mp.Base.{
  ℕ, ◌+◌, ◌-◌, ◌%◌, ◌^◌, Bool, true, false, not, ltb, if◌then◌else◌, u32_mod, ℤ, pos, add_nat,
  sub_nat,
}

-- `last` has 32 bits. `now` has 64 bits, which milliseconds do not fill.
pub record ServerClock : Type 0 where
  pub started : Bool
  pub last : ℕ
  pub now : ℤ

abbrev pub new_clock : ServerClock
new_clock = record { started = false; last = 0; now = pos 0 }

-- `static_cast<std::int32_t>(d)`, added.
pub add_signed : ℤ → ℕ → ℤ
add_signed now d = if ltb d (2 ^ 31) then add_nat now d else sub_nat now (u32_mod - d)

-- `Unwrap`: the clock behind it; its result is `now`.
pub unwrap : ℕ → ServerClock → ServerClock
unwrap stamp c =
    if not c.started
    then record { started = true; last = stamp; now = pos stamp }
    else record c { last = stamp; now = add_signed c.now ((stamp + u32_mod - c.last) % u32_mod) }
