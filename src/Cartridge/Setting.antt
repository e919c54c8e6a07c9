-- ===== src/Cartridge/Setting.antt =====
-- Setting the MBC3 clock through its registers, `RtcState::write_register` of cartridge/mbc3.rs.
use pockiva.Prelude.{
  ℕ, zero, suc, ◌+◌, ◌*◌, ◌/◌, ◌%◌, ◌^◌, ◌≤◌, ◌<◌, bit_and, bit_or, ◌≡◌, refl, ap, ◌∙◌, ◌≢◌, Bool,
  true, false, not, ◌&&◌, ◌||◌, Option, none, some, arith, ltb, ◌==◌, from_bool, ==_iff,
}
use pockiva.Prelude.Bits.{bit_and_mask, all_below, all_below_sound}
use pockiva.Cartridge.Rtc.{
  RtcRegisters, RtcState, live, sync, registers, written, load_registers, write_register,
}
use pockiva.Cartridge.Clock.{IsValid, live-sync, live-lt}

-- What the registers of a clock can hold.
pub record IsClock (r : RtcRegisters) : Type 0 where
  pub seconds_lt : r.seconds < 60
  pub minutes_lt : r.minutes < 60
  pub hours_lt : r.hours < 24
  pub low_u8 : r.day_low < 256
  pub high_u8 : r.day_high < 256
  pub high_bits : bit_and r.day_high 0xc1 ≡ r.day_high

abbrev flag : ℕ → ℕ → Bool
flag h m = not (bit_and h m == 0)

pack : ℕ → ℕ → ℕ
pack day h =
    bit_or (bit_or (bit_and day 1) (from_bool (flag h 0x40) * 2 ^ 6))
      (from_bool (flag h 0x80) * 2 ^ 7)

high_table : all_below 256 (λ h. not (bit_and h 0xc1 == h) || (pack (bit_and h 1) h == h)) ≡ true
unfolding all_below pack
high_table = refl

mask_table :
    all_below 256
      (λ h. (bit_and (bit_and h 0xc1) 0xc1 == bit_and h 0xc1) && ltb (bit_and h 0xc1) 256)
    ≡ true
unfolding all_below
mask_table = refl

day_table : all_below 2 (λ b. all_below 256 (λ low. bit_or low (b * 2 ^ 8) == low + b * 256)) ≡ true
unfolding all_below
day_table = refl

day_sum : (low h : ℕ) → low < 256 → bit_or low (bit_and h 1 * 2 ^ 8) ≡ low + h % 2 * 256
day_sum low h p =
    let b : ℕ = h % 2 in
    let row : all_below 256 (λ low. bit_or low (b * 2 ^ 8) == low + b * 256) ≡ true =
      all_below_sound 2 _ b day_table (omega arith) in
    rw (bit_and_mask 1 h) ((==_iff _ _).0 (all_below_sound 256 _ low row p))

or_true : (x y : Bool) → (not x || y) ≡ true → x ≡ true → y ≡ true
or_true x y h k = ground arith

seconds_of : RtcRegisters → ℕ
seconds_of r =
    (r.day_low + r.day_high % 2 * 256) * 86400 + r.hours * 3600 + r.minutes * 60 + r.seconds

live-load :
    (was : RtcState) (r : RtcRegisters) (now : ℕ)
    → IsClock r
    → live (load_registers was r now) now ≡ (seconds_of r, flag r.day_high 0x80)
unfolding load_registers live seconds_of
live-load was r now c = rw (day_sum r.day_low r.day_high c.low_u8) (ground arith)

halted-load :
    (was : RtcState) (r : RtcRegisters) (now : ℕ)
    → (load_registers was r now).halted ≡ flag r.day_high 0x40
unfolding load_registers
halted-load was r now = refl

packed : (h : ℕ) → h < 256 → bit_and h 0xc1 ≡ h → pack (h % 2) h ≡ h
packed h p e =
    let row =
      all_below_sound 256 (λ h. not (bit_and h 0xc1 == h) || (pack (bit_and h 1) h == h)) h
        high_table p in
    rw (← bit_and_mask 1 h) ((==_iff _ _).0 (or_true (bit_and h 0xc1 == h) _ row (ground arith)))

packed' :
    (h : ℕ)
    → h < 256
    → bit_and h 0xc1 ≡ h
    → bit_or (bit_or (h % 2 % 2) (from_bool (flag h 0x40) * 64)) (from_bool (flag h 0x80) * 128) ≡ h
unfolding pack
packed' h p e = rw (← bit_and_mask 1 (h % 2)) (packed h p e)

seconds_fields :
    (r : RtcRegisters)
    → IsClock r
    → (seconds_of r % 86400 % 60 ≡ r.seconds)
      × (seconds_of r % 86400 / 60 % 60 ≡ r.minutes)
      × (seconds_of r % 86400 / 3600 ≡ r.hours)
      × (seconds_of r / 86400 % 256 ≡ r.day_low)
      × (seconds_of r / 86400 / 256 % 256 ≡ r.day_high % 2)
unfolding seconds_of
seconds_fields r c = omega arith

registers-load :
    (was : RtcState) (r : RtcRegisters) (now : ℕ)
    → IsClock r
    → registers (load_registers was r now) now ≡ r
unfolding registers pack
registers-load was r now c =
    let (s, m, h, low, high) = seconds_fields r c in
    rw
      (
        live-load was r now c,
        halted-load was r now,
        bit_and_mask 1 (seconds_of r / 86400 / 256 % 256),
        high,
      )
      (ground (arith, s, m, h, low, packed' r.day_high c.high_u8 c.high_bits))

high_value' :
    (b : ℕ) (x y : Bool)
    → b < 2
    → let h = bit_or (bit_or b (from_bool x * 64)) (from_bool y * 128) in
      (h < 256) × (bit_and h 0xc1 ≡ h)
high_value' zero true true p = (omega arith, refl)
high_value' zero true false p = (omega arith, refl)
high_value' zero false true p = (omega arith, refl)
high_value' zero false false p = (omega arith, refl)
high_value' (suc zero) true true p = (omega arith, refl)
high_value' (suc zero) true false p = (omega arith, refl)
high_value' (suc zero) false true p = (omega arith, refl)
high_value' (suc zero) false false p = (omega arith, refl)
high_value' (suc (suc b)) x y p = absurd (omega arith)

high_value :
    (day : ℕ) (x y : Bool)
    → let h = bit_or (bit_or (bit_and day 1) (from_bool x * 64)) (from_bool y * 128) in
      (h < 256) × (bit_and h 0xc1 ≡ h)
high_value day x y = rw (bit_and_mask 1 day) (high_value' (day % 2) x y (omega arith))

mask_value :
    (value : ℕ)
    → value < 256
    → (bit_and value 0xc1 < 256) × (bit_and (bit_and value 0xc1) 0xc1 ≡ bit_and value 0xc1)
mask_value value p = ground (
  arith,
  all_below_sound 256
      (λ h. (bit_and (bit_and h 0xc1) 0xc1 == bit_and h 0xc1) && ltb (bit_and h 0xc1) 256) value
      mask_table p,
)

written-IsClock :
    (r : RtcRegisters) (selector value : ℕ) {r' : RtcRegisters}
    → IsClock r
    → value < 256
    → written r selector value ≡ some r'
    → IsClock r'
unfolding written
written-IsClock r selector value c p e = ground (arith, mask_value value p)

written-some :
    (r : RtcRegisters) (selector value : ℕ)
    → 8 ≤ selector
    → selector ≤ 12
    → written r selector value ≢ none
unfolding written
written-some r selector value lo hi e = ground arith

halted-sync : (r : RtcState) (now : ℕ) → (sync r now).halted ≡ r.halted
unfolding sync
halted-sync r now = refl

registers-sync : (r : RtcState) (now : ℕ) → registers (sync r now) now ≡ registers r now
unfolding registers
registers-sync r now = rw (live-sync r now now (omega arith), halted-sync r now)

registers-IsClock : (r : RtcState) (now : ℕ) → IsValid r → IsClock (registers r now)
unfolding registers
registers-IsClock r now v =
    let (counter, carry) = live r now in
    ground (arith, live-lt r now v, high_value (counter / 86400 / 256 % 256) r.halted carry)

-- A write to one of the five registers of a valid clock is what they read at that moment: the written
-- register has the value, cut to its range, and each other keeps its own.
pub registers-write_register :
    (r : RtcState) (selector value now : ℕ)
    → IsValid r
    → value < 256
    → 8 ≤ selector
    → selector ≤ 12
    → some (registers (write_register r selector value now) now)
      ≡ written (registers r now) selector value
unfolding write_register
registers-write_register r selector value now v p lo hi =
    set_to (written now_shown selector value) refl
    ∙ ap (λ shown. written shown selector value) (registers-sync r now)
  where
    now_shown : RtcRegisters
    now_shown = registers (sync r now) now

    in_range : IsClock now_shown
    in_range = rw (registers-sync r now) (registers-IsClock r now v)

    set_to :
        (o : Option RtcRegisters)
        → written now_shown selector value ≡ o
        → some (
            registers
              (elim o [ none ↦ sync r now | some r' ↦ load_registers (sync r now) r' now ])
              now)
          ≡ o
    set_to none e = absurd (written-some now_shown selector value lo hi e)
    set_to (some r') e =
        ap some (
          registers-load (sync r now) r' now
            (written-IsClock now_shown selector value in_range p e))
