-- ===== src/Timer/Valid.antt =====
-- The ranges of the timer's fields.
use pockiva.Prelude.{ℕ, zero, suc, ◌≤◌, ◌<◌, Option, none, some, arith}
use pockiva.Prelude.Bits.{bit_and-le, bit_or-lt}
use pockiva.Timer.{Timer, default_timer, read, write, tick_one, tick_from, tick}
use pockiva.Interrupts.{InterruptMask}

-- A pending reload is at most four clocks away.
abbrev pub InRange : Option ℕ → Type 0
InRange none = Unit {0}
InRange (some delay) = (0 < delay) × (delay ≤ 4)

pub record IsValid (t : Timer) : Type 0 where
  pub divider_u16 : t.divider < 65536
  pub tima_u8 : t.tima < 256
  pub tma_u8 : t.tma < 256
  pub tac_low : t.tac < 8
  pub delay_in : InRange t.reload_delay

pub default_timer-IsValid : IsValid default_timer
default_timer-IsValid = omega arith

pub tick_one-IsValid : (t : Timer) → IsValid t → IsValid (tick_one t).0
unfolding tick_one
tick_one-IsValid t v = ground arith

-- A valid timer is valid after a write of a byte to any address.
pub write-IsValid :
    (t : Timer) (address value : ℕ) → value < 256 → IsValid t → IsValid (write t address value).0
unfolding write
write-IsValid t address value h v = ground (arith, bit_and-le value 7)

tick_from-IsValid :
    (n : ℕ) (t : Timer) (m : InterruptMask) → IsValid t → IsValid (tick_from n t m).0
unfolding tick_from
tick_from-IsValid zero t m v = v
tick_from-IsValid (suc n) t m v = tick_from-IsValid n (tick_one t).0 _ (tick_one-IsValid t v)

-- A valid timer is valid after any number of clocks.
pub tick-IsValid : (n : ℕ) (t : Timer) → IsValid t → IsValid (tick n t).0
unfolding tick
tick-IsValid n t v = tick_from-IsValid n t 0 v

-- A valid timer reads as bytes.
pub read-lt : (t : Timer) (address : ℕ) → IsValid t → read t address < 256
unfolding read
read-lt t address v = ground (arith, bit_or-lt 8 0xf8 t.tac)
