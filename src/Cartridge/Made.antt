-- ===== src/Cartridge/Made.antt =====
-- The mapper that `Cartridge::load` of crates/gb-core/src/cartridge/mod.rs makes of an image.
use pockiva.Prelude.{
  ℕ, ◌/◌, ◌≡◌, refl, Bool, true, false, not, ◌||◌, Option, none, some, List, ◌==◌, ltb, leb,
  if◌then◌else◌, length, get_or, take, drop,
}
use pockiva.Contracts.{
  mbc3_schema, mbc3_values, mapper_data_not_empty, CoreError, Result, ok, err, invalid_rom,
}
use pockiva.Cartridge.Mapper.{BatteryState, persisted_ram, has_mapper_data}
use pockiva.Cartridge.RomOnly
use pockiva.Cartridge.RomOnly.{RomOnly}
use pockiva.Cartridge.Mbc1
use pockiva.Cartridge.Mbc1.{Mbc1}
use pockiva.Cartridge.Mbc3
use pockiva.Cartridge.Mbc3.{Mbc3, load_rtc}
use pockiva.Cartridge.Mbc5
use pockiva.Cartridge.Mbc5.{Mbc5}
use pockiva.Cartridge.Header.{MapperKind, rom_only, mbc1, mbc3, mbc5, Features, Header, ram_bytes}
use pockiva.Cartridge.Load.{AnyMapper, of_rom_only, of_mbc1, of_mbc3, of_mbc5, boxed, new_mapper}
use pockiva.Cartridge.Rtc
use pockiva.Cartridge.Yields.{Yields, bind-Yields, if-Yields, Anything}

-- The mapper keeps the image and counts its banks, and its bank registers are those of a start.
abbrev pub IsMade : List ℕ → AnyMapper → Type 0
IsMade rom (of_rom_only m) = m.rom ≡ rom
IsMade rom (of_mbc1 m) =
    (m.rom ≡ rom)
    × (m.rom_banks ≡ length rom / 0x4000)
    × (m.rom_bank_low ≡ 1)
    × (m.bank_high ≡ 0)
    × (m.ram_banking_mode ≡ false)
IsMade rom (of_mbc3 m) = (m.rom ≡ rom) × (m.rom_banks ≡ length rom / 0x4000) × (m.rom_bank ≡ 1)
IsMade rom (of_mbc5 m) = (m.rom ≡ rom) × (m.rom_banks ≡ length rom / 0x4000) × (m.rom_bank ≡ 1)

abbrev pub IsKind : MapperKind → AnyMapper → Type 0
IsKind rom_only (of_rom_only m) = Unit {0}
IsKind mbc1 (of_mbc1 m) = Unit {0}
IsKind mbc3 (of_mbc3 m) = Unit {0}
IsKind mbc5 (of_mbc5 m) = Unit {0}
IsKind _ _ = ⊥

persisted_ram-Yields :
    (persisted : Option BatteryState) (ram_bytes : ℕ) (has_battery : Bool)
    → Yields Anything (persisted_ram persisted ram_bytes has_battery)
unfolding persisted_ram
persisted_ram-Yields none ram_bytes has_battery = tt
persisted_ram-Yields (some state) ram_bytes has_battery =
    if-Yields Anything (not has_battery) _ _ (λ h. tt)
      (λ h.
        if-Yields Anything (not (state.version == 1)) _ _ (λ h'. tt)
          (λ h'.
            if-Yields Anything (not (length state.ram == ram_bytes)) _ _ (λ h''. tt) (λ h''. tt)))

no_data-Yields :
    {A : Type 0} (P : A → Type 0) (persisted : Option BatteryState) (value : A)
    → P value
    → Yields P
        (if has_mapper_data persisted then err (invalid_rom mapper_data_not_empty) else ok value)
no_data-Yields P persisted value h = if-Yields P (has_mapper_data persisted) _ _ (λ e. tt) (λ e. h)

-- A mapper that is made of the image, boxed.
boxed-Yields :
    {A : Type 0} (Q : AnyMapper → Type 0) (r : Result A) (box : A → AnyMapper)
    → Yields (λ m. Q (box m)) r
    → Yields Q (boxed r box)
boxed-Yields Q r box h = bind-Yields (λ m. Q (box m)) Q r _ h (λ m e. e)

two_checks-Yields :
    {A : Type 0} (c d : Bool) (reason reason' : CoreError) (value : A)
    → Yields Anything (if c then err reason else if d then err reason' else ok value)
two_checks-Yields true d reason reason' value = tt
two_checks-Yields false true reason reason' value = tt
two_checks-Yields false false reason reason' value = tt

from_bytes-Yields : (bytes : List ℕ) (now : ℕ) → Yields Anything (Rtc.from_bytes bytes now)
unfolding Rtc.from_bytes
from_bytes-Yields bytes now =
    two_checks-Yields (not (length bytes == 22) || not (Rtc.equal_bytes (take 4 bytes) Rtc.schema))
      (leb Rtc.rtc_period_seconds (Rtc.from_le_bytes (take 8 (drop 4 bytes)))
        || (ltb 1 (get_or bytes 20 0) || ltb 1 (get_or bytes 21 0)))
      (invalid_rom mbc3_schema) (invalid_rom mbc3_values) _

load_rtc-Yields :
    (has_timer : Bool) (persisted : Option BatteryState) (now : ℕ)
    → Yields Anything (load_rtc has_timer persisted now)
unfolding load_rtc
load_rtc-Yields true none now = tt
load_rtc-Yields true (some state) now =
    bind-Yields Anything Anything (Rtc.from_bytes state.mapper_data now) _
      (from_bytes-Yields state.mapper_data now) (λ rtc e. tt)
load_rtc-Yields false persisted now = no_data-Yields Anything persisted none tt

pub new_mapper-IsMade :
    (rom : List ℕ) (header : Header) (persisted : Option BatteryState) (now : ℕ)
    → Yields
        (λ m. IsMade rom m × IsKind header.features.mapper m)
        (new_mapper rom header persisted now)
unfolding new_mapper RomOnly.new Mbc1.new Mbc3.new Mbc5.new
new_mapper-IsMade rom header persisted now = by_kind header.features.mapper
  where
    found : Features
    found = header.features

    ram_known : Yields Anything (persisted_ram persisted header.ram_bytes found.has_battery)
    ram_known = persisted_ram-Yields persisted header.ram_bytes found.has_battery

    by_kind :
        (k : MapperKind)
        → Yields
            (λ m. IsMade rom m × IsKind k m)
            (elim k [
              | rom_only ↦
                  boxed (RomOnly.new rom header.ram_bytes found.has_battery persisted) of_rom_only
              | mbc1 ↦ boxed (Mbc1.new rom header.ram_bytes found.has_battery persisted) of_mbc1
              | mbc3 ↦
                  boxed
                    (Mbc3.new rom header.ram_bytes found.has_battery found.has_timer persisted now)
                    of_mbc3
              | mbc5 ↦
                  boxed
                    (Mbc5.new rom header.ram_bytes found.has_rumble found.has_battery persisted)
                    of_mbc5
            ])
    by_kind rom_only =
        boxed-Yields (λ m. IsMade rom m × IsKind rom_only m) _ of_rom_only
          (bind-Yields Anything (λ m. IsMade rom (of_rom_only m) × Unit {0}) _ _ ram_known
            (λ ram e.
              no_data-Yields (λ m. IsMade rom (of_rom_only m) × Unit {0}) persisted _ (refl, tt)))
    by_kind mbc1 =
        boxed-Yields (λ m. IsMade rom m × IsKind mbc1 m) _ of_mbc1
          (bind-Yields Anything (λ m. IsMade rom (of_mbc1 m) × Unit {0}) _ _ ram_known
            (λ ram e.
              no_data-Yields (λ m. IsMade rom (of_mbc1 m) × Unit {0}) persisted _
                ((refl, refl, refl, refl, refl), tt)))
    by_kind mbc3 =
        boxed-Yields (λ m. IsMade rom m × IsKind mbc3 m) _ of_mbc3
          (bind-Yields Anything (λ m. IsMade rom (of_mbc3 m) × Unit {0}) _ _ ram_known
            (λ ram e.
              bind-Yields Anything (λ m. IsMade rom (of_mbc3 m) × Unit {0}) _ _
                (load_rtc-Yields found.has_timer persisted now)
                (λ rtc e'. ((refl, refl, refl), tt))))
    by_kind mbc5 =
        boxed-Yields (λ m. IsMade rom m × IsKind mbc5 m) _ of_mbc5
          (bind-Yields Anything (λ m. IsMade rom (of_mbc5 m) × Unit {0}) _ _ ram_known
            (λ ram e.
              no_data-Yields (λ m. IsMade rom (of_mbc5 m) × Unit {0}) persisted _
                ((refl, refl, refl), tt)))
