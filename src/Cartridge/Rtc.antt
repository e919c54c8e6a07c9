-- ===== src/Cartridge/Rtc.antt =====
-- crates/gb-core/src/cartridge/mbc3.rs: `RtcState`, the real-time clock. Seconds (`u64`) are numbers
-- with no bound; `from_bytes` and `bytes` have eight bytes for each.
use pockiva.Prelude.{
  ℕ, zero, suc, ◌+◌, ◌-◌, ◌*◌, ◌/◌, ◌%◌, ◌^◌, max, bit_and, bit_or, Bool, true, false, not, ◌&&◌,
  ◌||◌, Option, none, some, List, [], ◌∷◌, ◌++◌, ltb, leb, ◌==◌, if◌then◌else◌, from_bool, same,
  length, get_or, take, drop,
}
use pockiva.Contracts.{Result, ok, err, invalid_rom, mbc3_schema, mbc3_values}

abbrev pub rtc_period_seconds : ℕ
rtc_period_seconds = 512 * 24 * 60 * 60

-- `[u8; 5]`, by its places
pub record RtcRegisters : Type 0 where
  pub seconds : ℕ
  pub minutes : ℕ
  pub hours : ℕ
  pub day_low : ℕ
  pub day_high : ℕ

unfoldable pub register_at : RtcRegisters → ℕ → ℕ
register_at r zero = r.seconds
register_at r (suc zero) = r.minutes
register_at r (suc (suc zero)) = r.hours
register_at r (suc (suc (suc zero))) = r.day_low
register_at r (suc (suc (suc (suc i)))) = r.day_high

pub record RtcState : Type 0 where
  pub counter_seconds : ℕ
  pub last_update_unix : ℕ
  pub halted : Bool
  pub carry : Bool
  pub latched : RtcRegisters
  pub latch_armed : Bool

unfoldable pub live : RtcState → ℕ → ℕ × Bool
live r now =
    let total = r.counter_seconds + (now - r.last_update_unix) in
    if r.halted || ltb now r.last_update_unix
    then (r.counter_seconds, r.carry)
    else (total % rtc_period_seconds, r.carry || leb rtc_period_seconds total)

unfoldable pub sync : RtcState → ℕ → RtcState
sync r now =
    let (counter, carry) = live r now in
    record r {
      counter_seconds = counter;
      carry = carry;
      last_update_unix = if leb r.last_update_unix now then now else r.last_update_unix;
    }

unfoldable pub registers : RtcState → ℕ → RtcRegisters
registers r now =
    let (counter, carry) = live r now in
    let days = counter / 86400 in
    let in_day = counter % 86400 in
    record {
      seconds = in_day % 60;
      minutes = in_day / 60 % 60;
      hours = in_day / 3600;
      day_low = days % 256;
      day_high =
          bit_or (bit_or (bit_and (days / 256 % 256) 1) (from_bool r.halted * 2 ^ 6))
            (from_bool carry * 2 ^ 7);
    }

abbrev pub no_registers : RtcRegisters
no_registers = record { seconds = 0; minutes = 0; hours = 0; day_low = 0; day_high = 0 }

unfoldable pub new : ℕ → RtcState
new now =
    let rtc : RtcState = record {
      counter_seconds = 0;
      last_update_unix = now;
      halted = false;
      carry = false;
      latched = no_registers;
      latch_armed = false;
    } in
    record rtc { latched = registers rtc now }

unfoldable pub latch : RtcState → ℕ → ℕ → RtcState
latch r value now =
    let synced = sync r now in
    if value == 0
    then record r { latch_armed = true }
    else if (value == 1) && r.latch_armed
    then record synced { latched = registers synced now; latch_armed = false }
    else record r { latch_armed = false }

-- The registers after a write, or `none` where the code returns.
unfoldable pub written : RtcRegisters → ℕ → ℕ → Option RtcRegisters
written r selector value =
    if selector == 0x08
    then some (record r { seconds = value % 60 })
    else if selector == 0x09
    then some (record r { minutes = value % 60 })
    else if selector == 0x0a
    then some (record r { hours = value % 24 })
    else if selector == 0x0b
    then some (record r { day_low = value })
    else if selector == 0x0c
    then some (record r { day_high = bit_and value 0xc1 })
    else none

-- The clock that registers stand for; `was` is the synchronised one.
unfoldable pub load_registers : RtcState → RtcRegisters → ℕ → RtcState
load_registers was r now =
    let days = bit_or r.day_low (bit_and r.day_high 1 * 2 ^ 8) in
    let halted = not (bit_and r.day_high 0x40 == 0) in
    record was {
      counter_seconds = days * 86400 + r.hours * 3600 + r.minutes * 60 + r.seconds;
      halted = halted;
      carry = not (bit_and r.day_high 0x80 == 0);
      last_update_unix =
          if not (same was.halted halted) || not halted then now else was.last_update_unix;
    }

unfoldable pub write_register : RtcState → ℕ → ℕ → ℕ → RtcState
write_register rtc selector value now =
    let synced = sync rtc now in
    elim (written (registers synced now) selector value) [
      | none ↦ synced
      | some r ↦ load_registers synced r now
    ]

-- `to_le_bytes` of the first argument's bytes, and `from_le_bytes`
unfoldable pub to_le_bytes : ℕ → ℕ → List ℕ
to_le_bytes zero x = []
to_le_bytes (suc n) x = x % 256 ∷ to_le_bytes n (x / 256)

unfoldable pub from_le_bytes : List ℕ → ℕ
from_le_bytes [] = 0
from_le_bytes (b ∷ bs) = b + 256 * from_le_bytes bs

-- `b"M3R1"`
abbrev pub schema : List ℕ
schema = b'M' ∷ b'3' ∷ b'R' ∷ b'1' ∷ []

unfoldable pub bytes : RtcState → ℕ → List ℕ
bytes r now =
    let (counter, carry) = live r now in
    schema
    ++ (to_le_bytes 8 counter
        ++ (to_le_bytes 8 (max r.last_update_unix now)
            ++ from_bool r.halted ∷ from_bool carry ∷ []))

unfoldable pub equal_bytes : List ℕ → List ℕ → Bool
equal_bytes [] [] = true
equal_bytes (x ∷ xs) (y ∷ ys) = (x == y) && equal_bytes xs ys
equal_bytes _ _ = false

unfoldable pub from_bytes : List ℕ → ℕ → Result RtcState
from_bytes bs now =
    let counter = from_le_bytes (take 8 (drop 4 bs)) in
    let last_update = from_le_bytes (take 8 (drop 12 bs)) in
    let halted = get_or bs 20 0 in
    let carry = get_or bs 21 0 in
    let rtc : RtcState =
      sync
        (record {
          counter_seconds = counter;
          last_update_unix = last_update;
          halted = not (halted == 0);
          carry = not (carry == 0);
          latched = no_registers;
          latch_armed = false;
        })
        now in
    if not (length bs == 22) || not (equal_bytes (take 4 bs) schema)
    then err (invalid_rom mbc3_schema)
    else if leb rtc_period_seconds counter || (ltb 1 halted || ltb 1 carry)
    then err (invalid_rom mbc3_values)
    else ok (record rtc { latched = registers rtc now })
