-- ===== src/Ppu/State.antt =====
-- crates/gb-core/src/ppu/mod.rs: the constants, the shades and the state; the selected sprites of
-- ppu/sprite.rs and the rows of ppu/render.rs. A fixed array is a function of its index.
use pockiva.Prelude.{
  ℕ, ◌+◌, ◌*◌, ◌/◌, ◌^◌, ◌==◌, bit_and, Bool, true, false, Option, none, List, [], ◌∷◌,
  if◌then◌else◌,
}
use pockiva.Contracts.{Frame}
use pockiva.Ppu.Registers.{Registers, post_boot_registers}

abbrev pub dots_per_line : ℕ
dots_per_line = 456

abbrev pub visible_lines : ℕ
visible_lines = 144

abbrev pub lines_per_frame : ℕ
lines_per_frame = 154

abbrev pub mode2_dots : ℕ
mode2_dots = 80

abbrev pub startup_mode3_dot : ℕ
startup_mode3_dot = 84

abbrev pub base_mode3_dots : ℕ
base_mode3_dots = 172

-- `[u8; 4]`
abbrev pub Rgba : Type 0
Rgba = List ℕ

abbrev pub white : Rgba
white = 0xff ∷ 0xff ∷ 0xff ∷ 0xff ∷ []

-- `DMG_SHADES`, at an index below 4
abbrev pub dmg_shade : ℕ → Rgba
dmg_shade shade =
    if shade == 0
    then white
    else if shade == 1
    then 0xaa ∷ 0xaa ∷ 0xaa ∷ 0xff ∷ []
    else if shade == 2
    then 0x55 ∷ 0x55 ∷ 0x55 ∷ 0xff ∷ []
    else 0x00 ∷ 0x00 ∷ 0x00 ∷ 0xff ∷ []

unfoldable pub map_palette : ℕ → ℕ → Rgba
map_palette register color_number = dmg_shade (bit_and (register / 2 ^ (color_number * 2)) 0x03)

pub data LcdMode : Type 0 where
  hblank vblank oam_scan drawing : LcdMode

-- `mode as u8`
unfoldable pub mode_bits : LcdMode → ℕ
mode_bits hblank = 0
mode_bits vblank = 1
mode_bits oam_scan = 2
mode_bits drawing = 3

-- `self.mode == LcdMode::…`
unfoldable pub is_mode : LcdMode → LcdMode → Bool
unfolding mode_bits
is_mode a b = mode_bits a == mode_bits b

pub record SelectedSprite : Type 0 where
  pub raw_y : ℕ  -- u8
  pub raw_x : ℕ  -- u8
  pub tile : ℕ  -- u8
  pub flags : ℕ  -- u8
  pub oam_index : ℕ  -- u8

pub data PixelSource : Type 0 where
  background window : PixelSource
  sprite : ℕ → PixelSource

pub record RenderedRow : Type 0 where
  pub rgba : ℕ → Rgba
  pub colors : ℕ → ℕ
  pub sources : ℕ → PixelSource
  pub winning_sprites : ℕ → Option ℕ
  pub window_drawn : Bool

pub record Ppu : Type 0 where
  pub vram : ℕ → ℕ  -- [u8; 0x2000]
  pub oam : ℕ → ℕ  -- [u8; 0xa0]
  pub registers : Registers
  pub mode : LcdMode
  pub dot : ℕ  -- u16
  pub internal_line : ℕ  -- u8
  pub visible_hblank_dot : ℕ  -- u16
  pub mode3_end_dot : ℕ  -- u16
  pub stat_line_high : Bool
  pub lyc_equal : Bool
  pub startup_line : Bool
  pub lcd_phase : ℕ  -- u16
  pub window_line : ℕ  -- u8
  pub blank_first_frame : Bool
  pub framebuffer : ℕ → ℕ  -- the 160 * 144 * 4 bytes of the vector
  pub pending_frame : Option Frame
  pub next_sequence : ℕ  -- u64
  pub selected_sprites : List SelectedSprite
  pub last_rendered_row : Option RenderedRow

-- `Ppu::post_boot_dmg`
abbrev pub post_boot_dmg : Ppu
post_boot_dmg = record {
  vram = λ i. 0;
  oam = λ i. 0;
  registers = post_boot_registers;
  mode = oam_scan;
  dot = 0;
  internal_line = 0;
  visible_hblank_dot = mode2_dots + base_mode3_dots;
  mode3_end_dot = mode2_dots + base_mode3_dots;
  stat_line_high = false;
  lyc_equal = true;
  startup_line = false;
  lcd_phase = 0;
  window_line = 0;
  blank_first_frame = false;
  framebuffer = λ i. 0xff;
  pending_frame = none;
  next_sequence = 1;
  selected_sprites = [];
  last_rendered_row = none;
}
