-- ===== src/Ppu/Tests.antt =====
-- The unit after a start, in the middle of a line, and with one sprite on a striped tile.
use pockiva.Prelude.{
  ◌+◌, ◌/◌, ◌%◌, ◌≤◌, ◌≡◌, refl, inr, true, not, ◌&&◌, if◌then◌else◌, ◌==◌, ltb, arith,
}
use pockiva.Interrupts
use pockiva.Interrupts.{contains}
use pockiva.Ppu.Registers.{post_boot_registers, enabled}
use pockiva.Ppu.State.{Ppu, post_boot_dmg, drawing}
use pockiva.Ppu.Sprite.{on_line, select_sprites_for_line}
use pockiva.Ppu.Render.{render_scanline}
use pockiva.Ppu.Timing.{mode3_start_dot, compute_mode3_end_dot, tick_one}
use pockiva.Ppu.Timing
use pockiva.Ppu.Unit.{read, write, tick}
use pockiva.Ppu.Frames.{beam, IsOnScreen, pending_sequence, tick-frames}
use pockiva.Ppu.Drawing.{compute_mode3_end_dot_bounds}
use pockiva.Ppu.Modes.{mode_at, HasBounds, IsTimed}
use pockiva.Ppu.Timed.{tick_one-IsTimed}
use pockiva.Ppu.Access.{IsClocked, write-IsClocked}
use pockiva.Ppu.Locked.{read-drawing, read-write, write-stat}
use pockiva.Ppu.Selection.{has_entry, count_on_line, select_sprites-has_entry}
use pockiva.Ppu.Pixels.{pixel_at, layers, render_scanline-layers}

-- Line 3, dot 100, while it is drawn.
abbrev mid_line : Ppu
mid_line = record post_boot_dmg { internal_line = 3; dot = 100; mode = drawing }

-- A sprite at the left edge of the first line, whose tile has a filled row.
abbrev with_sprite : Ppu
with_sprite = record post_boot_dmg {
  registers = record post_boot_registers { lcdc = 0x93 };
  oam = λ i. if i == 0 then 16 else if i == 1 then 8 else if i == 2 then 1 else 0;
  vram = λ i. if i == 16 then 0xff else 0;
}

post_boot-IsTimed : IsTimed post_boot_dmg
unfolding IsTimed HasBounds mode_at mode3_start_dot
post_boot-IsTimed =
    (omega arith, (omega arith, omega arith, omega arith, omega arith, omega arith), refl)

mid_line-IsTimed : IsTimed mid_line
unfolding IsTimed HasBounds mode_at mode3_start_dot
mid_line-IsTimed =
    (omega arith, (omega arith, omega arith, omega arith, omega arith, omega arith), refl)

tick-frames_example :
    let r = tick post_boot_dmg 70224 in
    IsOnScreen r.0
    × (beam r.0 ≡ (beam post_boot_dmg + 70224) % 70224)
    × (r.0.next_sequence + (beam post_boot_dmg + 4560) / 70224
        ≡ post_boot_dmg.next_sequence + (beam post_boot_dmg + 4560 + 70224) / 70224)
    × (pending_sequence r.0 ≡ (
        if ltb post_boot_dmg.next_sequence r.0.next_sequence
        then r.0.next_sequence
        else pending_sequence post_boot_dmg))
    × (contains r.1 Interrupts.vblank ≡ ltb post_boot_dmg.next_sequence r.0.next_sequence)
unfolding enabled
tick-frames_example = tick-frames post_boot_dmg 70224 refl (omega arith, omega arith)

tick_one-IsTimed_example : IsTimed (tick_one mid_line).0
tick_one-IsTimed_example = tick_one-IsTimed mid_line mid_line-IsTimed

write-IsClocked_example : IsClocked (write mid_line 0xff40 0x11).0
unfolding IsClocked
write-IsClocked_example = write-IsClocked mid_line 0xff40 0x11 (inr mid_line-IsTimed)

compute_mode3_end_dot_bounds_example :
    (mode3_start_dot with_sprite + 172 ≤ compute_mode3_end_dot with_sprite)
    × (compute_mode3_end_dot with_sprite ≤ mode3_start_dot with_sprite + 289)
compute_mode3_end_dot_bounds_example = compute_mode3_end_dot_bounds with_sprite

read-drawing_example : read mid_line 0x9000 ≡ 0xff
unfolding enabled
read-drawing_example = read-drawing mid_line 0x9000 refl mid_line-IsTimed refl refl

-- With the LCD off.
read-write_example :
    let off = record post_boot_dmg { registers = record post_boot_registers { lcdc = 0 } } in
    read (write off 0x9800 0x42).0 0xfe10 ≡ (if 0x9800 == 0xfe10 then 0x42 else read off 0xfe10)
unfolding enabled
read-write_example =
    read-write (record post_boot_dmg { registers = record post_boot_registers { lcdc = 0 } }) 0x9800
      0xfe10 0x42 refl refl refl

write-stat_example :
    contains (write mid_line 0xff41 0x00).1 Interrupts.lcd_stat
    ≡ (not mid_line.stat_line_high && Timing.stat_level_with_enables mid_line 0x78)
write-stat_example = write-stat mid_line 0x00

select_sprites-has_entry_example :
    has_entry 0 (select_sprites_for_line with_sprite 7)
    ≡ (on_line with_sprite 7 0 && ltb (count_on_line with_sprite 7 0 0) 10)
select_sprites-has_entry_example = select_sprites-has_entry with_sprite 7 0 (omega arith)

selected_first : has_entry 0 (select_sprites_for_line with_sprite 7) ≡ true
unfolding select_sprites_for_line
selected_first = refl

render_scanline-layers_example : pixel_at (render_scanline with_sprite 0) 5 ≡ layers with_sprite 0 5
render_scanline-layers_example = render_scanline-layers with_sprite 0 5 (omega arith)
