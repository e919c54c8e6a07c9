-- ===== src/Cartridge/Clock.antt =====
-- The real-time clock of MBC3, cartridge/mbc3.rs, when it is synchronised, saved and restored.
use pockiva.Prelude.{
  ℕ, ◌^◌, ◌≤◌, ◌<◌, max, ◌≡◌, refl, ◌∙◌, Bool, true, false, not, arith, ltb, leb, ◌==◌, from_bool,
}
use pockiva.Contracts.{ok}
use pockiva.Cartridge.Rtc.{
  rtc_period_seconds, no_registers, RtcState, live, sync, registers, to_le_bytes, from_le_bytes,
  bytes, from_bytes, equal_bytes,
}

-- Synchronising the clock at one moment changes nothing that it shows at that moment or later, also
-- where it is halted, and where the host's time has gone back.
pub live-sync :
    (r : RtcState) (now later : ℕ) → now ≤ later → live (sync r now) later ≡ live r later
unfolding live sync
live-sync r now later h = ground arith

-- The ranges of the state.
pub record IsValid (r : RtcState) : Type 0 where
  pub counter_lt : r.counter_seconds < rtc_period_seconds
  pub update_u64 : r.last_update_unix < 2 ^ 64

-- A valid clock is valid after it is synchronised at any moment of 64 bits.
pub sync-IsValid : (r : RtcState) (now : ℕ) → now < 2 ^ 64 → IsValid r → IsValid (sync r now)
unfolding sync live
sync-IsValid r now h v = ground arith

pub live-lt : (r : RtcState) (now : ℕ) → IsValid r → (live r now).0 < rtc_period_seconds
unfolding live
live-lt r now v = ground arith

from_to_bytes : (x : ℕ) → x < 2 ^ 64 → from_le_bytes (to_le_bytes 8 x) ≡ x
unfolding from_le_bytes to_le_bytes
from_to_bytes x h = omega arith

-- The state that `from_bytes` reads back from `bytes`, before it synchronises.
restored : RtcState → ℕ → RtcState
restored r now = record r {
  counter_seconds = (live r now).0;
  carry = (live r now).1;
  last_update_unix = max r.last_update_unix now;
}

live-restored :
    (r : RtcState) (now later : ℕ) → now ≤ later → live (restored r now) later ≡ live r later
unfolding live restored
live-restored r now later h = ground arith

from_bool_test : (b : Bool) → not (from_bool b == 0) ≡ b
from_bool_test true = refl
from_bool_test false = refl

from_bool-le : (b : Bool) → ltb 1 (from_bool b) ≡ false
from_bool-le true = refl
from_bool-le false = refl

-- What `from_bytes` makes of a saved state.
reloaded : RtcState → ℕ → ℕ → RtcState
reloaded r now loaded =
    let rtc =
      sync (record (restored r now) { latched = no_registers; latch_armed = false }) loaded in
    record rtc { latched = registers rtc loaded }

live-reloaded :
    (r : RtcState) (now loaded later : ℕ)
    → now ≤ later
    → loaded ≤ later
    → live (reloaded r now loaded) later ≡ live r later
unfolding reloaded live sync restored
live-reloaded r now loaded later p q =
    live-sync (restored r now) loaded later q ∙ live-restored r now later p

registers-eq :
    (r s : RtcState) (now : ℕ)
    → live r now ≡ live s now
    → r.halted ≡ s.halted
    → registers r now ≡ registers s now
unfolding registers
registers-eq r s now e h = rw (e, h)

halted-reloaded : (r : RtcState) (now loaded : ℕ) → (reloaded r now loaded).halted ≡ r.halted
unfolding reloaded sync restored
halted-reloaded r now loaded = refl

latched-reloaded :
    (r : RtcState) (now loaded : ℕ)
    → now ≤ loaded
    → (reloaded r now loaded).latched ≡ registers r loaded
unfolding reloaded live sync restored
latched-reloaded r now loaded h =
    registers-eq (record (reloaded r now loaded) { latched = no_registers }) r loaded
      (live-reloaded r now loaded loaded h (omega arith)) refl

from_bytes-bytes :
    (r : RtcState) (now loaded : ℕ)
    → IsValid r
    → now < 2 ^ 64
    → from_bytes (bytes r now) loaded ≡ ok (reloaded r now loaded)
unfolding from_bytes bytes equal_bytes reloaded restored to_le_bytes
from_bytes-bytes r now loaded v h =
    let counter = (live r now).0 in
    let carry = (live r now).1 in
    let in_period : leb rtc_period_seconds counter ≡ false = ground (arith, live-lt r now v) in
    rw (
      from_to_bytes counter (omega (arith, live-lt r now v)),
      from_to_bytes (max r.last_update_unix now) (omega (arith, v)),
      from_bool_test r.halted,
      from_bool_test carry,
      from_bool-le r.halted,
      from_bool-le carry,
      in_period,
    )

-- A saved clock that is loaded later reads as if it had never been saved: at the moment of loading
-- and from then on it shows the time and the carry of the original, it is halted as that was, and its
-- registers are latched at the moment of loading.
pub from_bytes-live :
    (r : RtcState) (now loaded later : ℕ)
    → IsValid r
    → now ≤ loaded
    → loaded ≤ later
    → now < 2 ^ 64
    → (r' : RtcState) × (from_bytes (bytes r now) loaded ≡ ok r')
      × (live r' later ≡ live r later)
      × (r'.halted ≡ r.halted)
      × (r'.latched ≡ registers r loaded)
from_bytes-live r now loaded later v h k u = (
  reloaded r now loaded,
  from_bytes-bytes r now loaded v u,
  live-reloaded r now loaded later (omega arith) k,
  halted-reloaded r now loaded,
  latched-reloaded r now loaded h,
)
