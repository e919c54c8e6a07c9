-- ===== src/Cartridge/Tests.antt =====
-- The mappers' theorems at small images, at registers of each mapper and at a clock.
use pockiva.Prelude.{
  ℕ, ◌*◌, ◌≡◌, refl, false, true, some, List, [], ◌∷◌, replicate, length-replicate, arith,
}
use pockiva.Contracts.{ok}
use pockiva.Cartridge.Mbc1.{Mbc1}
use pockiva.Cartridge.Mbc3
use pockiva.Cartridge.Mbc3.{Mbc3}
use pockiva.Cartridge.Mbc5.{Mbc5}
use pockiva.Cartridge.Rtc.{RtcState, no_registers, live, registers, bytes, from_bytes}
use pockiva.Cartridge.Clock.{IsValid, from_bytes-live}
use pockiva.Cartridge.Banks.{IsImage, Mbc1IsValid}
use pockiva.Cartridge.Ram.{mbc3-battery_state}

-- an image of four banks
abbrev image : List ℕ
image = replicate (4 * 0x4000) 0x3e

image-IsImage : IsImage image 4
image-IsImage = record {
  whole = length-replicate {A = ℕ} (4 * 0x4000) 0x3e;
  some_bank = omega arith;
}

abbrev small_mbc1 : Mbc1
small_mbc1 = record {
  rom = image;
  ram = 1 ∷ 2 ∷ 3 ∷ [];
  rom_banks = 4;
  ram_enabled = true;
  rom_bank_low = 0;
  bank_high = 1;
  ram_banking_mode = false;
  has_battery = true;
}

-- the registers with the image's size taken for two megabytes
abbrev large_mbc1 : Mbc1
large_mbc1 = record small_mbc1 { rom_banks = 128 }

large_mbc1-IsValid : Mbc1IsValid large_mbc1
large_mbc1-IsValid = record { low_lt = omega arith; high_lt = omega arith }

abbrev clock : RtcState
clock = record {
  counter_seconds = 90061;
  last_update_unix = 1000;
  halted = false;
  carry = false;
  latched = no_registers;
  latch_armed = false;
}

clock-IsValid : IsValid clock
clock-IsValid = record { counter_lt = omega arith; update_u64 = omega arith }

abbrev small_mbc3 : Mbc3
small_mbc3 = record {
  rom = image;
  ram = 1 ∷ 2 ∷ 3 ∷ [];
  rom_banks = 4;
  ram_enabled = true;
  rom_bank = 3;
  selector = 0;
  rtc = some clock;
  has_battery = true;
}

abbrev small_mbc5 : Mbc5
small_mbc5 = record {
  rom = image;
  ram = 1 ∷ 2 ∷ 3 ∷ [];
  rom_banks = 4;
  ram_banks = 1;
  ram_enabled = true;
  rom_bank = 258;
  ram_bank = 0;
  has_rumble = false;
  has_battery = true;
}

mbc3-battery_state_example :
    (m' : Mbc3) × (r' : RtcState) × (Mbc3.new image 3 true true
        (Mbc3.battery_state small_mbc3 1500)
        2000
      ≡ ok m')
    × (m'.ram ≡ 1 ∷ 2 ∷ 3 ∷ [])
    × (m'.rtc ≡ some r')
    × (live r' 2600 ≡ live clock 2600)
mbc3-battery_state_example =
    mbc3-battery_state small_mbc3 clock image 1500 2000 2600 refl refl clock-IsValid (omega arith)
      (omega arith) (omega arith)

from_bytes-live_example :
    (r' : RtcState) × (from_bytes (bytes clock 1500) 2000 ≡ ok r')
    × (live r' 2600 ≡ live clock 2600)
    × (r'.halted ≡ false)
    × (r'.latched ≡ registers clock 2000)
from_bytes-live_example =
    from_bytes-live clock 1500 2000 2600 clock-IsValid (omega arith) (omega arith) (omega arith)
