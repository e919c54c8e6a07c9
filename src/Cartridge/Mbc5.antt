-- ===== src/Cartridge/Mbc5.antt =====
-- crates/gb-core/src/cartridge/mbc5.rs
use pockiva.Prelude.{
  ℕ, ◌+◌, ◌*◌, ◌/◌, ◌%◌, ◌^◌, bit_and, bit_or, Bool, false, Option, none, some, List, [], ltb, ◌==◌,
  within, if◌then◌else◌, length,
}
use pockiva.Contracts.{Result, ok, err, invalid_rom, mapper_data_not_empty, ◌>>=◌}
use pockiva.Cartridge.Mapper.{
  BatteryState, persisted_ram, has_mapper_data, rom_byte, ram_byte, write_ram_byte,
}

pub record Mbc5 : Type 0 where
  pub rom : List ℕ
  pub ram : List ℕ
  pub rom_banks : ℕ
  pub ram_banks : ℕ
  pub ram_enabled : Bool
  pub rom_bank : ℕ  -- u16
  pub ram_bank : ℕ  -- u8
  pub has_rumble : Bool
  pub has_battery : Bool

-- `n.div_ceil(0x2000)`
abbrev pub ram_banks_of : ℕ → ℕ
ram_banks_of bytes = (bytes + 0x1fff) / 0x2000

unfoldable pub new : List ℕ → ℕ → Bool → Bool → Option BatteryState → Result Mbc5
new rom ram_bytes has_rumble has_battery persisted = do
  ram ← persisted_ram persisted ram_bytes has_battery
  (if has_mapper_data persisted
      then err (invalid_rom mapper_data_not_empty)
      else ok (record {
        rom = rom;
        ram = ram;
        rom_banks = length rom / 0x4000;
        ram_banks = ram_banks_of (length ram);
        ram_enabled = false;
        rom_bank = 1;
        ram_bank = 0;
        has_rumble = has_rumble;
        has_battery = has_battery;
      }))

unfoldable pub switch_bank : Mbc5 → ℕ
switch_bank m = m.rom_bank % m.rom_banks

unfoldable pub read_rom : Mbc5 → ℕ → ℕ
read_rom m address = rom_byte m.rom (if ltb address 0x4000 then 0 else switch_bank m) address

-- `u8::try_from(…)` is of a number below sixteen.
unfoldable pub selected_ram_bank : Mbc5 → ℕ → ℕ
selected_ram_bank m value =
    let selected = bit_and value (if m.has_rumble then 0x07 else 0x0f) in
    if m.ram_banks == 0 then 0 else selected % m.ram_banks

unfoldable pub write_rom : Mbc5 → ℕ → ℕ → Mbc5
unfolding selected_ram_bank
write_rom m address value =
    if within 0x0000 0x1fff address
    then record m { ram_enabled = bit_and value 0x0f == 0x0a }
    else if within 0x2000 0x2fff address
    then record m { rom_bank = bit_or (bit_and m.rom_bank 0x100) value }
    else if within 0x3000 0x3fff address
    then record m { rom_bank = bit_or (bit_and m.rom_bank 0x0ff) (bit_and value 1 * 2 ^ 8) }
    else if within 0x4000 0x5fff address
    then record m { ram_bank = selected_ram_bank m value }
    else m

unfoldable pub read_ram : Mbc5 → ℕ → ℕ
read_ram m address = if m.ram_enabled then ram_byte m.ram m.ram_bank address else 0xff

unfoldable pub write_ram : Mbc5 → ℕ → ℕ → Mbc5
write_ram m address value =
    if m.ram_enabled then record m { ram = write_ram_byte m.ram m.ram_bank address value } else m

unfoldable pub reset : Mbc5 → Mbc5
reset m = record m { ram_enabled = false; rom_bank = 1; ram_bank = 0 }

unfoldable pub battery_state : Mbc5 → Option BatteryState
battery_state m =
    if m.has_battery then some (record { version = 1; ram = m.ram; mapper_data = [] }) else none
