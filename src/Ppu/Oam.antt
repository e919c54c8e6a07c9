-- ===== src/Ppu/Oam.antt =====
-- crates/gb-core/src/ppu: the sprites' memory, which a transfer writes and no dot changes.
use pockiva.Prelude.{
  ℕ, zero, suc, ◌<◌, ◌≡◌, refl, ◌∙◌, ap, ◌+◌, not, ◌==◌, if◌then◌else◌, arith, Bool, true, false,
}
use pockiva.Interrupts.{InterruptMask, no_interrupt}
use pockiva.Ppu.Registers.{enabled}
use pockiva.Ppu.State.{Ppu, dots_per_line}
use pockiva.Ppu.Timing.{
  Effects, and_then, evaluate_stat, evaluate_stat_with_enables, update_lyc_comparison, compare_line,
  enter_vblank, begin_phase, draw_line, begin_drawing, drawing_state, begin_hblank, end_line,
  turn_line, begin_line, publish_frame, compare_new_line, tick_one,
}
use pockiva.Ppu.Render.{store_scanline}
use pockiva.Ppu.Unit.{tick, ticks_from, dma_write_oam, video_device}
use pockiva.Bus.Oam.{OamLaws}

abbrev pub Same : Ppu → Effects → Type 0
Same p r = r.0.oam ≡ p.oam

choose : (p : Ppu) (c : Bool) (r q : Effects) → Same p r → Same p q → Same p (if c then r else q)
choose p true r q h k = h
choose p false r q h k = k

compare_line-Same : (p : Ppu) → Same p (compare_line p)
unfolding compare_line evaluate_stat evaluate_stat_with_enables update_lyc_comparison
compare_line-Same p = ground arith

enter_vblank-Same : (p : Ppu) → Same p (enter_vblank p)
unfolding enter_vblank evaluate_stat evaluate_stat_with_enables
enter_vblank-Same p = ground arith

begin_phase-Same : (p : Ppu) → Same p (begin_phase p)
unfolding begin_phase evaluate_stat evaluate_stat_with_enables update_lyc_comparison
begin_phase-Same p = ground arith

draw_line-Same : (p : Ppu) → Same p (draw_line p)
unfolding draw_line begin_drawing begin_hblank drawing_state store_scanline evaluate_stat
    evaluate_stat_with_enables
draw_line-Same p = ground arith

turn_line-Same : (p : Ppu) → Same p (turn_line p)
unfolding turn_line begin_line publish_frame
turn_line-Same p = ground arith

compare_new_line-Same : (p : Ppu) → Same p (compare_new_line p)
unfolding compare_new_line evaluate_stat evaluate_stat_with_enables update_lyc_comparison
compare_new_line-Same p = ground arith

end_line-Same : (p : Ppu) → Same p (end_line p)
unfolding end_line
end_line-Same p =
    let turned : Ppu = record p {
      dot = 0;
      internal_line = p.internal_line + 1;
      startup_line = false;
    } in
    choose p (p.dot == dots_per_line) (and_then (turn_line turned) compare_new_line)
      (p, no_interrupt) (compare_new_line-Same (turn_line turned).0 ∙ turn_line-Same turned) refl

tick_one-Same : (p : Ppu) → Same p (tick_one p)
unfolding tick_one
tick_one-Same p =
    let p1 : Ppu = (compare_line (record p { dot = p.dot + 1 })).0 in
    let p2 : Ppu = (enter_vblank p1).0 in
    let p3 : Ppu = (begin_phase p2).0 in
    end_line-Same (draw_line p3).0
    ∙ draw_line-Same p3
    ∙ begin_phase-Same p2
    ∙ enter_vblank-Same p1
    ∙ compare_line-Same (record p { dot = p.dot + 1 })

ticks_from-Same :
    (n : ℕ) (p : Ppu) (effects : InterruptMask) → (ticks_from n p effects).0.oam ≡ p.oam
unfolding ticks_from
ticks_from-Same zero p effects = refl
ticks_from-Same (suc n) p effects = ticks_from-Same n (tick_one p).0 _ ∙ tick_one-Same p

pub tick-Same : (p : Ppu) (t_cycles : ℕ) → Same p (tick p t_cycles)
unfolding tick
tick-Same p t_cycles =
    choose p (not (enabled p.registers.lcdc)) (p, no_interrupt) (ticks_from t_cycles p no_interrupt)
      refl (ticks_from-Same t_cycles p no_interrupt)

pub dma_write_oam-place :
    (p : Ppu) (index value place : ℕ)
    → index < 160
    → (dma_write_oam p index value).oam place ≡ (if place == index then value else p.oam place)
unfolding dma_write_oam
dma_write_oam-place p index value place h = ground arith

-- The unit as the bus's device.
unfoldable pub ppu_oam_laws : OamLaws video_device
unfolding video_device
ppu_oam_laws = record {
  oam = λ p place. p.oam place;
  oam-dma_write_oam = dma_write_oam-place;
  oam-tick = λ p t_cycles place. ap (λ (f : ℕ → ℕ). f place) (tick-Same p t_cycles);
}
