-- ===== src/Cartridge/Ram.antt =====
-- Cartridge RAM: what a write changes, and what a battery keeps.
use pockiva.Prelude.{
  ℕ, ◌/◌, ◌^◌, ◌≤◌, ◌<◌, ◌≡◌, refl, ◌≢◌, inl, inr, true, false, some, List, [], arith, ◌==◌,
  if◌then◌else◌, ==_iff, Bool-cases, length, get_or-set_self, get_or-set_ne,
}
use pockiva.Contracts.{ok}
use pockiva.Cartridge.Mapper.{persisted_ram, has_mapper_data, ram_offset, ram_byte, write_ram_byte}
use pockiva.Cartridge.Rtc.{RtcState, live, bytes, from_bytes, registers}
use pockiva.Cartridge.Clock.{IsValid, from_bytes-live}
use pockiva.Cartridge.Mbc1
use pockiva.Cartridge.Mbc1.{Mbc1, ram_bank}
use pockiva.Cartridge.Mbc3
use pockiva.Cartridge.Mbc3.{Mbc3, load_rtc}
use pockiva.Cartridge.Mbc5
use pockiva.Cartridge.Mbc5.{Mbc5}

-- The window of the address space that shows cartridge RAM.
abbrev pub InWindow : ℕ → Type 0
InWindow address = (0xa000 ≤ address) × (address ≤ 0xbfff)

offset_injective :
    (bank a b : ℕ) → InWindow a → InWindow b → ram_offset bank a ≡ ram_offset bank b → a ≡ b
unfolding ram_offset
offset_injective bank a b wa wb e = omega arith

ram_byte-write_ram_byte :
    (ram : List ℕ) (bank a b value : ℕ)
    → InWindow a
    → InWindow b
    → ram_offset bank a < length ram
    → ram_byte (write_ram_byte ram bank a value) bank b
      ≡ (if a == b then value else ram_byte ram bank b)
unfolding ram_byte write_ram_byte
ram_byte-write_ram_byte ram bank a b value wa wb h = elim (Bool-cases (a == b)) [
  | inl e ↦
      rw (e, (==_iff a b).0 e)
        (get_or-set_self ram (ram_offset bank b) value 0xff (rw (← (==_iff a b).0 e) h))
  | inr n ↦
      rw n (get_or-set_ne ram (ram_offset bank a) (ram_offset bank b) value 0xff (offset_ne n))
]
  where
    offset_ne : (a == b) ≡ false → ram_offset bank a ≢ ram_offset bank b
    offset_ne n e = ground (arith, offset_injective bank a b wa wb e)

-- After a write to MBC1 RAM, at an address of the window inside the RAM, the window reads the value at
-- that address and as before at every other, or 0xff everywhere while RAM is disabled.
pub mbc1-write_ram :
    (m : Mbc1) (a b value : ℕ)
    → InWindow a
    → InWindow b
    → ram_offset (ram_bank m) a < length m.ram
    → Mbc1.read_ram (Mbc1.write_ram m a value) b
      ≡ (if m.ram_enabled then (if a == b then value else Mbc1.read_ram m b) else 0xff)
unfolding Mbc1.read_ram Mbc1.write_ram ram_bank
mbc1-write_ram m a b value wa wb h = ground (
  arith,
  ram_byte-write_ram_byte m.ram (if m.ram_banking_mode then m.bank_high else 0) a b value wa wb h,
)

-- After a write to MBC5 RAM, at an address of the window inside the RAM, the window reads the value at
-- that address and as before at every other, or 0xff everywhere while RAM is disabled.
pub mbc5-write_ram :
    (m : Mbc5) (a b value : ℕ)
    → InWindow a
    → InWindow b
    → ram_offset m.ram_bank a < length m.ram
    → Mbc5.read_ram (Mbc5.write_ram m a value) b
      ≡ (if m.ram_enabled then (if a == b then value else Mbc5.read_ram m b) else 0xff)
unfolding Mbc5.read_ram Mbc5.write_ram
mbc5-write_ram m a b value wa wb h =
    ground (arith, ram_byte-write_ram_byte m.ram m.ram_bank a b value wa wb h)

-- After a write to MBC3 RAM, while a RAM bank is selected and at an address of the window inside the
-- RAM, the window reads the value at that address and as before at every other, or 0xff everywhere
-- while RAM is disabled.
pub mbc3-write_ram :
    (m : Mbc3) (a b value now : ℕ)
    → InWindow a
    → InWindow b
    → m.selector ≤ 3
    → ram_offset m.selector a < length m.ram
    → Mbc3.read_ram (Mbc3.write_ram m a value now) b
      ≡ (if m.ram_enabled then (if a == b then value else Mbc3.read_ram m b) else 0xff)
unfolding Mbc3.read_ram Mbc3.write_ram
mbc3-write_ram m a b value now wa wb s h =
    ground (arith, ram_byte-write_ram_byte m.ram m.selector a b value wa wb h)

same_length : (n : ℕ) → (n == n) ≡ true
same_length n = ground arith

persisted_ram-saved :
    (ram data' : List ℕ)
    → persisted_ram
        (some (record { version = 1; ram = ram; mapper_data = data' }))
        (length ram)
        true
      ≡ ok ram
unfolding persisted_ram
persisted_ram-saved ram data' = rw (same_length (length ram))

-- What a battery-backed MBC1 saves is accepted by a cartridge of the same RAM size, which then has
-- the same RAM, disabled, and 1 in its low bank register.
pub mbc1-battery_state :
    (m : Mbc1) (rom : List ℕ)
    → m.has_battery ≡ true
    → (m' : Mbc1) × (Mbc1.new rom (length m.ram) true (Mbc1.battery_state m) ≡ ok m')
      × (m'.ram ≡ m.ram)
      × (m'.ram_enabled ≡ false)
      × (m'.rom_bank_low ≡ 1)
unfolding Mbc1.battery_state Mbc1.new has_mapper_data
mbc1-battery_state m rom h = (fresh, rw (h, persisted_ram-saved m.ram []) refl, refl, refl, refl)
  where
    fresh : Mbc1
    fresh = record {
      rom = rom;
      ram = m.ram;
      rom_banks = length rom / 0x4000;
      ram_enabled = false;
      rom_bank_low = 1;
      bank_high = 0;
      ram_banking_mode = false;
      has_battery = true;
    }

-- What a battery-backed MBC3 with a clock saves is accepted, at any later time, by a cartridge of the
-- same RAM size; that has the same RAM, and its clock reads from then on as the original's would.
pub mbc3-battery_state :
    (m : Mbc3) (rtc : RtcState) (rom : List ℕ) (now loaded later : ℕ)
    → m.has_battery ≡ true
    → m.rtc ≡ some rtc
    → IsValid rtc
    → now ≤ loaded
    → loaded ≤ later
    → now < 2 ^ 64
    → (m' : Mbc3) × (r' : RtcState) × (Mbc3.new rom
          (length m.ram)
          true
          true
          (Mbc3.battery_state m now)
          loaded
        ≡ ok m')
      × (m'.ram ≡ m.ram)
      × (m'.rtc ≡ some r')
      × (live r' later ≡ live rtc later)
unfolding Mbc3.battery_state Mbc3.new load_rtc
mbc3-battery_state m rtc rom now loaded later h e v p q u = (
  fresh,
  r',
  rw (h, e, persisted_ram-saved m.ram (bytes rtc now), back.1) refl,
  refl,
  refl,
  back.2,
)
  where
    back :
        (r' : RtcState) × (from_bytes (bytes rtc now) loaded ≡ ok r')
        × (live r' later ≡ live rtc later)
        × (r'.halted ≡ rtc.halted)
        × (r'.latched ≡ registers rtc loaded)
    back = from_bytes-live rtc now loaded later v p q u

    r' : RtcState
    r' = back.0

    fresh : Mbc3
    fresh = record {
      rom = rom;
      ram = m.ram;
      rom_banks = length rom / 0x4000;
      ram_enabled = false;
      rom_bank = 1;
      selector = 0;
      rtc = some r';
      has_battery = true;
    }
