-- ===== src/Cartridge/Mbc1.antt =====
-- crates/gb-core/src/cartridge/mbc1.rs
use pockiva.Prelude.{
  ℕ, zero, suc, ◌+◌, ◌*◌, ◌/◌, ◌%◌, ◌^◌, bit_and, bit_or, Bool, false, not, Option, none, some,
  List, [], ltb, leb, ◌==◌, within, if◌then◌else◌, length,
}
use pockiva.Contracts.{Result, ok, err, invalid_rom, mapper_data_not_empty, ◌>>=◌}
use pockiva.Cartridge.Mapper.{
  BatteryState, persisted_ram, has_mapper_data, rom_byte, ram_byte, write_ram_byte,
}

pub record Mbc1 : Type 0 where
  pub rom : List ℕ
  pub ram : List ℕ
  pub rom_banks : ℕ
  pub ram_enabled : Bool
  pub rom_bank_low : ℕ
  pub bank_high : ℕ
  pub ram_banking_mode : Bool
  pub has_battery : Bool

unfoldable pub new : List ℕ → ℕ → Bool → Option BatteryState → Result Mbc1
new rom ram_bytes has_battery persisted = do
  ram ← persisted_ram persisted ram_bytes has_battery
  (if has_mapper_data persisted
      then err (invalid_rom mapper_data_not_empty)
      else ok (record {
        rom = rom;
        ram = ram;
        rom_banks = length rom / 0x4000;
        ram_enabled = false;
        rom_bank_low = 1;
        bank_high = 0;
        ram_banking_mode = false;
        has_battery = has_battery;
      }))

unfoldable pub fixed_bank : Mbc1 → ℕ
fixed_bank m = if m.ram_banking_mode then m.bank_high * 2 ^ 5 % m.rom_banks else 0

-- `usize::trailing_zeros`, 64 for zero; the first argument is the bits left to look at.
unfoldable pub trailing_zeros : ℕ → ℕ → ℕ
trailing_zeros zero x = 0
trailing_zeros (suc bits) x =
    let rest = suc (trailing_zeros bits (x / 2)) in if x % 2 == 1 then 0 else rest

-- `raw_bank`, before the correction of a bank that the hardware cannot select
unfoldable pub raw_bank : Mbc1 → ℕ
raw_bank m = bit_or (m.bank_high * 2 ^ 5) m.rom_bank_low

unfoldable pub corrected_bank : ℕ → ℕ
corrected_bank raw = if leb 5 (trailing_zeros 64 raw) then raw + 1 else raw

unfoldable pub switch_bank : Mbc1 → ℕ
switch_bank m = corrected_bank (raw_bank m) % m.rom_banks

unfoldable pub ram_bank : Mbc1 → ℕ
ram_bank m = if m.ram_banking_mode then m.bank_high else 0

unfoldable pub read_rom : Mbc1 → ℕ → ℕ
read_rom m address =
    rom_byte m.rom (if ltb address 0x4000 then fixed_bank m else switch_bank m) address

unfoldable pub write_rom : Mbc1 → ℕ → ℕ → Mbc1
write_rom m address value =
    if within 0x0000 0x1fff address
    then record m { ram_enabled = bit_and value 0x0f == 0x0a }
    else if within 0x2000 0x3fff address
    then record m { rom_bank_low = bit_and value 0x1f }
    else if within 0x4000 0x5fff address
    then record m { bank_high = bit_and value 0x03 }
    else if within 0x6000 0x7fff address
    then record m { ram_banking_mode = not (bit_and value 1 == 0) }
    else m

unfoldable pub read_ram : Mbc1 → ℕ → ℕ
read_ram m address = if m.ram_enabled then ram_byte m.ram (ram_bank m) address else 0xff

unfoldable pub write_ram : Mbc1 → ℕ → ℕ → Mbc1
write_ram m address value =
    if m.ram_enabled then record m { ram = write_ram_byte m.ram (ram_bank m) address value } else m

unfoldable pub reset : Mbc1 → Mbc1
reset m = record m {
  ram_enabled = false;
  rom_bank_low = 1;
  bank_high = 0;
  ram_banking_mode = false;
}

unfoldable pub battery_state : Mbc1 → Option BatteryState
battery_state m =
    if m.has_battery then some (record { version = 1; ram = m.ram; mapper_data = [] }) else none
