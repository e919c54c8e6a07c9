-- ===== src/Cartridge/Load.antt =====
-- `Cartridge::load` of crates/gb-core/src/cartridge/mod.rs and the mapper that it boxes.
use pockiva.Prelude.{ℕ, ◌/◌, Bool, ◌==◌, if◌then◌else◌, length, Option, List}
use pockiva.Contracts.{Result, ok, panic, ◌>>=◌, ◌>>◌}
use pockiva.Cartridge.Mapper.{BatteryState}
use pockiva.Cartridge.RomOnly
use pockiva.Cartridge.RomOnly.{RomOnly}
use pockiva.Cartridge.Mbc1
use pockiva.Cartridge.Mbc1.{Mbc1}
use pockiva.Cartridge.Mbc3
use pockiva.Cartridge.Mbc3.{Mbc3, load_rtc}
use pockiva.Cartridge.Mbc5
use pockiva.Cartridge.Mbc5.{Mbc5}
use pockiva.Cartridge.Header.{rom_only, mbc1, mbc3, mbc5, CartridgeMetadata, Header, parse}

-- `Box<dyn Mapper>`: one of the four.
pub data AnyMapper : Type 0 where
  of_rom_only : RomOnly → AnyMapper
  of_mbc1 : Mbc1 → AnyMapper
  of_mbc3 : Mbc3 → AnyMapper
  of_mbc5 : Mbc5 → AnyMapper

-- the calls through the trait
unfoldable pub read_rom : AnyMapper → ℕ → ℕ
read_rom (of_rom_only m) address = RomOnly.read_rom m address
read_rom (of_mbc1 m) address = Mbc1.read_rom m address
read_rom (of_mbc3 m) address = Mbc3.read_rom m address
read_rom (of_mbc5 m) address = Mbc5.read_rom m address

unfoldable pub write_rom : AnyMapper → ℕ → ℕ → ℕ → AnyMapper
write_rom (of_rom_only m) address value now = of_rom_only m
write_rom (of_mbc1 m) address value now = of_mbc1 (Mbc1.write_rom m address value)
write_rom (of_mbc3 m) address value now = of_mbc3 (Mbc3.write_rom m address value now)
write_rom (of_mbc5 m) address value now = of_mbc5 (Mbc5.write_rom m address value)

pub record Cartridge : Type 0 where
  pub metadata : CartridgeMetadata
  pub mapper : AnyMapper

abbrev pub boxed : {A : Type 0} → Result A → (A → AnyMapper) → Result AnyMapper
boxed r box = r >>= λ m. ok (box m)

unfoldable pub new_mapper : List ℕ → Header → Option BatteryState → ℕ → Result AnyMapper
unfolding RomOnly.new Mbc1.new Mbc3.new Mbc5.new
new_mapper rom header persisted now =
    let found = header.features in
    elim found.mapper [
      | rom_only ↦ boxed (RomOnly.new rom header.ram_bytes found.has_battery persisted) of_rom_only
      | mbc1 ↦ boxed (Mbc1.new rom header.ram_bytes found.has_battery persisted) of_mbc1
      | mbc3 ↦
          boxed (Mbc3.new rom header.ram_bytes found.has_battery found.has_timer persisted now)
            of_mbc3
      | mbc5 ↦
          boxed (Mbc5.new rom header.ram_bytes found.has_rumble found.has_battery persisted) of_mbc5
    ]

-- `debug_assert_eq!`, in a build with checks
abbrev pub debug_assert : Bool → Result (Unit {0})
debug_assert holds = if holds then ok tt else panic

module _ (digest : List ℕ → List ℕ) (text_of : List ℕ → List ℕ) where
  unfoldable pub load : List ℕ → Option BatteryState → ℕ → Result Cartridge
  unfolding parse new_mapper
  load rom persisted now = parse digest text_of rom >>= λ header.
      debug_assert (header.rom_banks == length rom / 0x4000)
      >> (new_mapper rom header persisted now >>= λ m.
          ok (record { metadata = header.metadata; mapper = m }))
