-- ===== src/Cartridge/RomOnly.antt =====
-- crates/gb-core/src/cartridge/rom_only.rs: a cartridge with no bank switching.
use pockiva.Prelude.{ℕ, Bool, Option, none, some, List, [], if◌then◌else◌, get_or}
use pockiva.Contracts.{Result, ok, err, invalid_rom, mapper_data_not_empty, ◌>>=◌}
use pockiva.Cartridge.Mapper.{
  BatteryState, persisted_ram, has_mapper_data, ram_byte, write_ram_byte,
}

pub record RomOnly : Type 0 where
  pub rom : List ℕ
  pub ram : List ℕ
  pub has_battery : Bool

unfoldable pub new : List ℕ → ℕ → Bool → Option BatteryState → Result RomOnly
unfolding persisted_ram has_mapper_data
new rom ram_bytes has_battery persisted = do
  ram ← persisted_ram persisted ram_bytes has_battery
  (if has_mapper_data persisted
      then err (invalid_rom mapper_data_not_empty)
      else ok (record { rom = rom; ram = ram; has_battery = has_battery }))

unfoldable pub read_rom : RomOnly → ℕ → ℕ
read_rom m address = get_or m.rom address 0xff

unfoldable pub read_ram : RomOnly → ℕ → ℕ
unfolding ram_byte
read_ram m address = ram_byte m.ram 0 address

unfoldable pub write_ram : RomOnly → ℕ → ℕ → RomOnly
unfolding write_ram_byte
write_ram m address value = record m { ram = write_ram_byte m.ram 0 address value }

unfoldable pub battery_state : RomOnly → Option BatteryState
battery_state m =
    if m.has_battery then some (record { version = 1; ram = m.ram; mapper_data = [] }) else none
