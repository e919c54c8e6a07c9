-- ===== src/Cartridge/Mbc3.antt =====
-- crates/gb-core/src/cartridge/mbc3.rs: the mapper with a clock.
use pockiva.Prelude.{
  ℕ, ◌-◌, ◌/◌, ◌%◌, bit_and, Bool, true, false, not, Option, none, some, List, [], ltb, ◌==◌,
  within, if◌then◌else◌, length,
}
use pockiva.Contracts.{Result, ok, err, invalid_rom, mapper_data_not_empty, ◌>>=◌}
use pockiva.Cartridge.Mapper.{
  BatteryState, persisted_ram, has_mapper_data, rom_byte, ram_byte, write_ram_byte,
}
use pockiva.Cartridge.Rtc
use pockiva.Cartridge.Rtc.{RtcState, register_at}

pub record Mbc3 : Type 0 where
  pub rom : List ℕ
  pub ram : List ℕ
  pub rom_banks : ℕ
  pub ram_enabled : Bool
  pub rom_bank : ℕ  -- u8
  pub selector : ℕ  -- u8
  pub rtc : Option RtcState
  pub has_battery : Bool

unfoldable pub load_rtc : Bool → Option BatteryState → ℕ → Result (Option RtcState)
load_rtc true none now = ok (some (Rtc.new now))
load_rtc true (some state) now = do rtc ← Rtc.from_bytes state.mapper_data now; ok (some rtc)
load_rtc false persisted now =
    if has_mapper_data persisted then err (invalid_rom mapper_data_not_empty) else ok none

unfoldable pub new : List ℕ → ℕ → Bool → Bool → Option BatteryState → ℕ → Result Mbc3
new rom ram_bytes has_battery has_timer persisted now = do
  ram ← persisted_ram persisted ram_bytes has_battery
  rtc ← load_rtc has_timer persisted now
  ok (record {
    rom = rom;
    ram = ram;
    rom_banks = length rom / 0x4000;
    ram_enabled = false;
    rom_bank = 1;
    selector = 0;
    rtc = rtc;
    has_battery = has_battery;
  })

unfoldable pub switch_bank : Mbc3 → ℕ
switch_bank m = m.rom_bank % m.rom_banks

unfoldable pub read_rom : Mbc3 → ℕ → ℕ
read_rom m address = rom_byte m.rom (if ltb address 0x4000 then 0 else switch_bank m) address

-- `if let Some(rtc) = self.rtc.as_mut() { … }`
unfoldable pub with_rtc : (RtcState → RtcState) → Mbc3 → Mbc3
with_rtc f m = elim m.rtc [ none ↦ m | some rtc ↦ record m { rtc = some (f rtc) } ]

unfoldable pub write_rom : Mbc3 → ℕ → ℕ → ℕ → Mbc3
write_rom m address value now =
    let bank = bit_and value 0x7f in
    if within 0x0000 0x1fff address
    then record m { ram_enabled = bit_and value 0x0f == 0x0a }
    else if within 0x2000 0x3fff address
    then record m { rom_bank = if bank == 0 then 1 else bank }
    else if within 0x4000 0x5fff address
    then record m { selector = value }
    else if within 0x6000 0x7fff address
    then with_rtc (λ rtc. Rtc.latch rtc value now) m
    else m

unfoldable pub read_ram : Mbc3 → ℕ → ℕ
read_ram m address =
    if not m.ram_enabled
    then 0xff
    else if within 0x00 0x03 m.selector
    then ram_byte m.ram m.selector address
    else if within 0x08 0x0c m.selector
    then elim m.rtc [ none ↦ 0xff | some rtc ↦ register_at rtc.latched (m.selector - 0x08) ]
    else 0xff

unfoldable pub write_ram : Mbc3 → ℕ → ℕ → ℕ → Mbc3
write_ram m address value now =
    if not m.ram_enabled
    then m
    else if within 0x00 0x03 m.selector
    then record m { ram = write_ram_byte m.ram m.selector address value }
    else if within 0x08 0x0c m.selector
    then with_rtc (λ rtc. Rtc.write_register rtc m.selector value now) m
    else m

unfoldable pub reset : Mbc3 → ℕ → Mbc3
reset m now =
    with_rtc (λ rtc. record (Rtc.sync rtc now) { latch_armed = false })
      (record m { ram_enabled = false; rom_bank = 1; selector = 0 })

unfoldable pub battery_state : Mbc3 → ℕ → Option BatteryState
battery_state m now =
    if m.has_battery
    then some (record {
      version = 1;
      ram = m.ram;
      mapper_data = elim m.rtc [ none ↦ [] | some rtc ↦ Rtc.bytes rtc now ];
    })
    else none
