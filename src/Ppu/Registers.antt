-- ===== src/Ppu/Registers.antt =====
-- crates/gb-core/src/ppu/registers.rs. `Lcdc(u8)` and `Stat(u8)` are their bits, a number.
use pockiva.Prelude.{ℕ, Bool, not, bit_and, ◌==◌, if◌then◌else◌}

-- `register & mask != 0`
abbrev pub has_bits : ℕ → ℕ → Bool
has_bits register mask = not (bit_and register mask == 0)

-- The bits of LCDC.
unfoldable pub enabled : ℕ → Bool
enabled lcdc = has_bits lcdc 0x80

unfoldable pub window_map_high : ℕ → Bool
window_map_high lcdc = has_bits lcdc 0x40

unfoldable pub window_enabled : ℕ → Bool
window_enabled lcdc = has_bits lcdc 0x20

unfoldable pub tile_data_unsigned : ℕ → Bool
tile_data_unsigned lcdc = has_bits lcdc 0x10

unfoldable pub background_map_high : ℕ → Bool
background_map_high lcdc = has_bits lcdc 0x08

unfoldable pub object_height : ℕ → ℕ
object_height lcdc = if has_bits lcdc 0x04 then 16 else 8

unfoldable pub objects_enabled : ℕ → Bool
objects_enabled lcdc = has_bits lcdc 0x02

unfoldable pub background_enabled : ℕ → Bool
background_enabled lcdc = has_bits lcdc 0x01

-- `Stat::enables`, and what `Stat::write` keeps.
unfoldable pub enables : ℕ → ℕ
enables bits = bit_and bits 0x78

pub record Registers : Type 0 where
  pub lcdc : ℕ  -- u8
  pub stat : ℕ  -- u8
  pub scy : ℕ  -- u8
  pub scx : ℕ  -- u8
  pub lyc : ℕ  -- u8
  pub dma : ℕ  -- u8
  pub bgp : ℕ  -- u8
  pub obp0 : ℕ  -- u8
  pub obp1 : ℕ  -- u8
  pub wy : ℕ  -- u8
  pub wx : ℕ  -- u8

-- `Registers::post_boot_dmg`
abbrev pub post_boot_registers : Registers
post_boot_registers = record {
  lcdc = 0x91;
  stat = 0;
  scy = 0;
  scx = 0;
  lyc = 0;
  dma = 0xff;
  bgp = 0xfc;
  obp0 = 0xff;
  obp1 = 0xff;
  wy = 0;
  wx = 0;
}
