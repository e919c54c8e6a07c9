-- ===== src/Ppu/Timing.antt =====
-- crates/gb-core/src/ppu/timing.rs: the STAT line, the length of mode 3 and one dot. With the
-- functions of ppu/mod.rs that a dot calls. `TickEffects` is its one field.
use pockiva.Prelude.{
  ℕ, ◌+◌, ◌-◌, ◌==◌, ltb, leb, min, bit_and, Bool, false, not, ◌&&◌, ◌||◌, some, if◌then◌else◌,
}
use pockiva.Interrupts
use pockiva.Interrupts.{InterruptMask, no_interrupt, union, from_bits, bit}
use pockiva.Ppu.Registers.{has_bits, enabled, enables}
use pockiva.Ppu.State.{
  Ppu, hblank, vblank, oam_scan, drawing, is_mode, dots_per_line, visible_lines, lines_per_frame,
  mode2_dots, startup_mode3_dot, base_mode3_dots,
}
use pockiva.Ppu.Sprite.{select_sprites_for_line, sprite_mode3_penalty, window_visible_on_line}
use pockiva.Ppu.Render.{store_scanline}

-- The unit after a call, and the interrupts that the call requests.
abbrev pub Effects : Type 0
Effects = Ppu × InterruptMask

-- `effects = effects.union(self.…)`
abbrev pub and_then : Effects → (Ppu → Effects) → Effects
and_then (p, effects) next = let (p', more) = next p in (p', union effects more)

unfoldable pub stat_level_with_enables : Ppu → ℕ → Bool
unfolding enabled is_mode
stat_level_with_enables p bits =
    let lcd_enabled = enabled p.registers.lcdc in
    lcd_enabled
      && is_mode p.mode hblank
      && (p.startup_line || leb p.mode3_end_dot p.dot)
      && has_bits bits 0x08
    || lcd_enabled && is_mode p.mode vblank && has_bits bits 0x10
    || lcd_enabled
      && (is_mode p.mode oam_scan || p.internal_line == visible_lines && p.dot == 0)
      && has_bits bits 0x20
    || p.lyc_equal && has_bits bits 0x40

unfoldable pub evaluate_stat_with_enables : Ppu → ℕ → Effects
unfolding stat_level_with_enables from_bits bit
evaluate_stat_with_enables p bits =
    let level = stat_level_with_enables p bits in
    let rising = level && not p.stat_line_high in
    (record p { stat_line_high = level }, from_bits (if rising then bit Interrupts.lcd_stat else 0))

unfoldable pub evaluate_stat : Ppu → Effects
unfolding evaluate_stat_with_enables enables
evaluate_stat p = evaluate_stat_with_enables p (enables p.registers.stat)

unfoldable pub mode3_start_dot : Ppu → ℕ
mode3_start_dot p = if p.startup_line then startup_mode3_dot else mode2_dots + p.lcd_phase

unfoldable pub compute_mode3_end_dot : Ppu → ℕ
unfolding window_visible_on_line sprite_mode3_penalty mode3_start_dot
compute_mode3_end_dot p =
    let fine = bit_and p.registers.scx 7 in
    let length =
      if window_visible_on_line p p.internal_line
      then base_mode3_dots + fine + 6 - (if p.registers.wx == 0 && not (fine == 0) then 1 else 0)
      else base_mode3_dots + fine in
    mode3_start_dot p + min (length + sprite_mode3_penalty p) 289

unfoldable pub readable_ly : Ppu → ℕ
readable_ly p =
    if p.internal_line == 153 && leb 4 p.dot
    then 0
    else if p.lcd_phase == 0 && ltb p.internal_line 153 && leb 452 p.dot
    then p.internal_line + 1
    else p.internal_line

unfoldable pub update_lyc_comparison : Ppu → Ppu
unfolding readable_ly
update_lyc_comparison p = record p { lyc_equal = readable_ly p == p.registers.lyc }

-- A sequence number past 64 bits is a panic, after which there is no state.
unfoldable pub publish_frame : Ppu → Ppu
publish_frame p =
    let framebuffer' : ℕ → ℕ = if p.blank_first_frame then (λ i. 0xff) else p.framebuffer in
    record p {
      framebuffer = framebuffer';
      blank_first_frame = false;
      pending_frame = some (record { sequence = p.next_sequence; rgba = framebuffer' });
      next_sequence = p.next_sequence + 1;
    }

-- The three parts of `tick_one` before the last dot's, in their order.
unfoldable pub compare_line : Ppu → Effects
unfolding update_lyc_comparison evaluate_stat
compare_line p =
    if p.internal_line == 153 && p.dot == 4
    then evaluate_stat (update_lyc_comparison p)
    else (p, no_interrupt)

unfoldable pub enter_vblank : Ppu → Effects
unfolding evaluate_stat
enter_vblank p =
    if p.internal_line == visible_lines && p.dot == 1 then evaluate_stat p else (p, no_interrupt)

unfoldable pub begin_phase : Ppu → Effects
unfolding update_lyc_comparison evaluate_stat
begin_phase p =
    if not p.startup_line
      && ltb p.internal_line visible_lines
      && not (p.lcd_phase == 0)
      && p.dot == p.lcd_phase
    then evaluate_stat (update_lyc_comparison (record p { mode = oam_scan }))
    else (p, no_interrupt)

-- The state in which mode 3 begins.
unfoldable pub drawing_state : Ppu → Ppu
unfolding select_sprites_for_line compute_mode3_end_dot sprite_mode3_penalty
drawing_state p =
    let selected = record p {
      mode = drawing;
      selected_sprites = select_sprites_for_line p p.internal_line;
    } in
    let end_dot = compute_mode3_end_dot selected in
    record selected {
      mode3_end_dot = end_dot;
      visible_hblank_dot = if sprite_mode3_penalty selected == 0 then end_dot else end_dot - 1;
    }

unfoldable pub begin_drawing : Ppu → Effects
unfolding drawing_state evaluate_stat
begin_drawing p = evaluate_stat (drawing_state p)

unfoldable pub begin_hblank : Ppu → Effects
unfolding store_scanline evaluate_stat
begin_hblank p = evaluate_stat (record (store_scanline p p.internal_line) { mode = hblank })

unfoldable pub draw_line : Ppu → Effects
unfolding mode3_start_dot begin_drawing begin_hblank evaluate_stat
draw_line p =
    if ltb p.internal_line visible_lines
    then (if p.dot == mode3_start_dot p
        then begin_drawing p
        else if p.dot == p.visible_hblank_dot
        then begin_hblank p
        else if p.dot == p.mode3_end_dot
        then evaluate_stat p
        else (p, no_interrupt))
    else (p, no_interrupt)

-- A visible line's state at its first dot.
unfoldable pub begin_line : Ppu → Ppu
unfolding select_sprites_for_line
begin_line p = record p {
  mode = if p.lcd_phase == 0 then oam_scan else hblank;
  selected_sprites = select_sprites_for_line p p.internal_line;
  mode3_end_dot = mode2_dots + base_mode3_dots;
  visible_hblank_dot = mode2_dots + base_mode3_dots;
}

-- The choice by the new line's number.
unfoldable pub turn_line : Ppu → Effects
unfolding publish_frame begin_line from_bits bit
turn_line p =
    if p.internal_line == visible_lines
    then (publish_frame (record p { mode = vblank }), from_bits (bit Interrupts.vblank))
    else if p.internal_line == lines_per_frame
    then (begin_line (record p { internal_line = 0; window_line = 0 }), no_interrupt)
    else if ltb p.internal_line visible_lines
    then (begin_line p, no_interrupt)
    else (p, no_interrupt)

unfoldable pub compare_new_line : Ppu → Effects
unfolding update_lyc_comparison readable_ly evaluate_stat
compare_new_line p = evaluate_stat (
    if p.lcd_phase == 0 || leb visible_lines p.internal_line
    then update_lyc_comparison p
    else if readable_ly p == p.registers.lyc
    then p
    else record p { lyc_equal = false })

unfoldable pub end_line : Ppu → Effects
unfolding turn_line compare_new_line
end_line p =
    if p.dot == dots_per_line
    then and_then
        (turn_line
          (record p { dot = 0; internal_line = p.internal_line + 1; startup_line = false }))
        compare_new_line
    else (p, no_interrupt)

unfoldable pub tick_one : Ppu → Effects
tick_one p =
    and_then
      (and_then
        (and_then (and_then (compare_line (record p { dot = p.dot + 1 })) enter_vblank) begin_phase)
        draw_line)
      end_line
