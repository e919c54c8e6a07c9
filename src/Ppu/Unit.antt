-- ===== src/Ppu/Unit.antt =====
-- crates/gb-core/src/ppu/mod.rs: the registers and memories as the processor reads and writes them,
-- and the loop of dots. With the implementation of `VideoDevice`.
use pockiva.Prelude.{
  ℕ, zero, suc, ◌+◌, ◌-◌, ◌*◌, ◌==◌, ltb, leb, bit_or, Bool, true, false, not, ◌&&◌, ◌||◌, Option,
  none, some, [], within, if◌then◌else◌, from_bool, update,
}
use pockiva.Interrupts.{InterruptMask, no_interrupt, union}
use pockiva.Contracts.{Frame}
use pockiva.Bus.Devices.{VideoDevice}
use pockiva.Ppu.Registers.{Registers, enabled, enables}
use pockiva.Ppu.State.{
  Ppu, hblank, mode_bits, visible_lines, mode2_dots, base_mode3_dots, post_boot_dmg,
}
use pockiva.Ppu.Timing.{
  Effects, and_then, evaluate_stat, evaluate_stat_with_enables, mode3_start_dot, readable_ly,
  update_lyc_comparison, tick_one,
}

unfoldable pub access_hblank_dot : Ppu → ℕ
access_hblank_dot p = if p.lcd_phase == 0 then p.visible_hblank_dot else p.mode3_end_dot

unfoldable pub vram_cpu_accessible : Ppu → Bool
unfolding enabled mode3_start_dot access_hblank_dot
vram_cpu_accessible p =
    if not (enabled p.registers.lcdc) || leb visible_lines p.internal_line
    then true
    else if p.startup_line
    then ltb p.dot (mode3_start_dot p) || leb (access_hblank_dot p) p.dot
    else ltb p.dot mode2_dots || leb (access_hblank_dot p) p.dot

unfoldable pub vram_cpu_write_accessible : Ppu → Bool
unfolding vram_cpu_accessible enabled
vram_cpu_write_accessible p =
    vram_cpu_accessible p
    || enabled p.registers.lcdc
      && not p.startup_line
      && ltb p.internal_line visible_lines
      && p.dot == mode2_dots

unfoldable pub oam_cpu_accessible : Ppu → Bool
unfolding enabled mode3_start_dot access_hblank_dot
oam_cpu_accessible p =
    if not (enabled p.registers.lcdc) || leb visible_lines p.internal_line
    then true
    else if p.startup_line
    then ltb p.dot (mode3_start_dot p) || leb (access_hblank_dot p) p.dot
    else leb (access_hblank_dot p) p.dot

unfoldable pub oam_cpu_write_accessible : Ppu → Bool
unfolding oam_cpu_accessible enabled
oam_cpu_write_accessible p =
    oam_cpu_accessible p
    || enabled p.registers.lcdc
      && not p.startup_line
      && ltb p.internal_line visible_lines
      && (ltb p.dot 4 || p.dot == mode2_dots)

-- The registers from 0xff40 on, as `read` gives them.
unfoldable pub read_register : Ppu → ℕ → ℕ
unfolding enables mode_bits readable_ly
read_register p address =
    let r = p.registers in
    if address == 0xff40
    then r.lcdc
    else if address == 0xff41
    then bit_or (bit_or (bit_or 0x80 (enables r.stat)) (from_bool p.lyc_equal * 4))
        (mode_bits p.mode)
    else if address == 0xff42
    then r.scy
    else if address == 0xff43
    then r.scx
    else if address == 0xff44
    then readable_ly p
    else if address == 0xff45
    then r.lyc
    else if address == 0xff46
    then r.dma
    else if address == 0xff47
    then r.bgp
    else if address == 0xff48
    then r.obp0
    else if address == 0xff49
    then r.obp1
    else if address == 0xff4a
    then r.wy
    else if address == 0xff4b
    then r.wx
    else 0xff

unfoldable pub read : Ppu → ℕ → ℕ
read p address =
    if within 0x8000 0x9fff address && vram_cpu_accessible p
    then p.vram (address - 0x8000)
    else if within 0xfe00 0xfe9f address && oam_cpu_accessible p
    then p.oam (address - 0xfe00)
    else read_register p address

-- The two changes of the LCD's power.
unfoldable pub turn_off : Ppu → Ppu
turn_off p = record p {
  mode = hblank;
  dot = 0;
  internal_line = 0;
  window_line = 0;
  startup_line = false;
  lcd_phase = 0;
  selected_sprites = [];
  visible_hblank_dot = mode2_dots + base_mode3_dots;
}

unfoldable pub turn_on : Ppu → Ppu
unfolding update_lyc_comparison
turn_on p =
    let started = update_lyc_comparison (record p {
      mode = hblank;
      dot = 8;
      internal_line = 0;
      window_line = 0;
      blank_first_frame = true;
      startup_line = true;
      lcd_phase = 2;
    }) in
    record started {
      selected_sprites = [];
      mode3_end_dot = mode2_dots + base_mode3_dots;
      visible_hblank_dot = mode2_dots + base_mode3_dots;
    }

unfoldable pub write_lcdc : Ppu → ℕ → Effects
unfolding enabled turn_off turn_on evaluate_stat
write_lcdc p value =
    let was_enabled = enabled p.registers.lcdc in
    let written = record p { registers = record p.registers { lcdc = value } } in
    if was_enabled && not (enabled value)
    then (turn_off written, no_interrupt)
    else if not was_enabled && enabled value
    then evaluate_stat (turn_on written)
    else evaluate_stat written

-- STAT: as if all of its sources were enabled for a moment.
unfoldable pub write_stat : Ppu → ℕ → Effects
unfolding evaluate_stat_with_enables evaluate_stat enables
write_stat p value =
    and_then (evaluate_stat_with_enables p 0x78)
      (λ q. evaluate_stat (record q { registers = record q.registers { stat = enables value } }))

unfoldable pub write_lyc : Ppu → ℕ → Effects
unfolding enabled update_lyc_comparison evaluate_stat
write_lyc p value =
    let written = record p { registers = record p.registers { lyc = value } } in
    evaluate_stat (if enabled p.registers.lcdc then update_lyc_comparison written else written)

-- The registers that are only stored.
unfoldable pub store_register : Registers → ℕ → ℕ → Registers
store_register r address value =
    if address == 0xff42
    then record r { scy = value }
    else if address == 0xff43
    then record r { scx = value }
    else if address == 0xff46
    then record r { dma = value }
    else if address == 0xff47
    then record r { bgp = value }
    else if address == 0xff48
    then record r { obp0 = value }
    else if address == 0xff49
    then record r { obp1 = value }
    else if address == 0xff4a
    then record r { wy = value }
    else if address == 0xff4b
    then record r { wx = value }
    else r

unfoldable pub write : Ppu → ℕ → ℕ → Effects
write p address value =
    if within 0x8000 0x9fff address && vram_cpu_write_accessible p
    then (record p { vram = update p.vram (address - 0x8000) value }, no_interrupt)
    else if within 0xfe00 0xfe9f address && oam_cpu_write_accessible p
    then (record p { oam = update p.oam (address - 0xfe00) value }, no_interrupt)
    else if address == 0xff40
    then write_lcdc p value
    else if address == 0xff41
    then write_stat p value
    else if address == 0xff45
    then write_lyc p value
    else (record p { registers = store_register p.registers address value }, no_interrupt)

unfoldable pub dma_write_oam : Ppu → ℕ → ℕ → Ppu
dma_write_oam p index value =
    if ltb index 0xa0 then record p { oam = update p.oam index value } else p

-- `for _ in 0..t_cycles`, with `effects` as its accumulator
unfoldable pub ticks_from : ℕ → Ppu → InterruptMask → Effects
ticks_from zero p effects = (p, effects)
ticks_from (suc n) p effects = let (p', more) = tick_one p in ticks_from n p' (union effects more)

unfoldable pub tick : Ppu → ℕ → Effects
unfolding enabled ticks_from
tick p t_cycles =
    if not (enabled p.registers.lcdc) then (p, no_interrupt) else ticks_from t_cycles p no_interrupt

unfoldable pub frame_ready : Ppu → Bool
frame_ready p = elim p.pending_frame [ none ↦ false | some frame ↦ true ]

unfoldable pub take_frame : Ppu → Option Frame × Ppu
take_frame p = (p.pending_frame, record p { pending_frame = none })

unfoldable pub video_device : VideoDevice Ppu
unfolding read write dma_write_oam tick frame_ready take_frame
video_device = record {
  read = read;
  write = write;
  dma_write_oam = dma_write_oam;
  tick = tick;
  frame_ready = frame_ready;
  take_frame = take_frame;
  post_boot_dmg = post_boot_dmg;
}
