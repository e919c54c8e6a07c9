-- ===== src/Cartridge/Mapper.antt =====
-- crates/gb-core/src/cartridge/mapper.rs, and the battery state of contracts/cartridge.rs.
-- An image is the list of its bytes.
use pockiva.Prelude.{
  ℕ, ◌+◌, ◌-◌, ◌*◌, bit_and, Bool, false, not, Option, none, some, List, ◌==◌, if◌then◌else◌,
  length, get_or, set, replicate,
}
use pockiva.Contracts.{Result, ok, err, invalid_rom, without_battery, format_version, ram_length}

pub record BatteryState : Type 0 where
  pub version : ℕ  -- u32
  pub ram : List ℕ
  pub mapper_data : List ℕ

unfoldable pub persisted_ram : Option BatteryState → ℕ → Bool → Result (List ℕ)
persisted_ram none expected_len has_battery = ok (replicate expected_len 0)
persisted_ram (some state) expected_len has_battery =
    if not has_battery
    then err (invalid_rom without_battery)
    else if not (state.version == 1)
    then err (invalid_rom format_version)
    else if not (length state.ram == expected_len)
    then err (invalid_rom ram_length)
    else ok state.ram

-- `persisted.is_some_and(|state| !state.mapper_data().is_empty())`
unfoldable pub has_mapper_data : Option BatteryState → Bool
has_mapper_data none = false
has_mapper_data (some state) = not (length state.mapper_data == 0)

unfoldable pub rom_offset : ℕ → ℕ → ℕ
rom_offset bank address = bank * 0x4000 + bit_and address 0x3fff

unfoldable pub rom_byte : List ℕ → ℕ → ℕ → ℕ
unfolding rom_offset
rom_byte rom bank address = get_or rom (rom_offset bank address) 0xff

unfoldable pub ram_offset : ℕ → ℕ → ℕ
ram_offset bank address = bank * 0x2000 + (address - 0xa000)

unfoldable pub ram_byte : List ℕ → ℕ → ℕ → ℕ
unfolding ram_offset
ram_byte ram bank address = get_or ram (ram_offset bank address) 0xff

unfoldable pub write_ram_byte : List ℕ → ℕ → ℕ → ℕ → List ℕ
unfolding ram_offset
write_ram_byte ram bank address value = set ram (ram_offset bank address) value
