-- ===== src/Ppu/Frames.antt =====
-- crates/gb-core/src/ppu/timing.rs: where the beam is, and when a picture is published.
use pockiva.Prelude.{
  none, some, ℕ, zero, suc, ◌+◌, ◌*◌, ◌/◌, ◌%◌, ◌<◌, max, ◌≡◌, refl, bit_or, true, false, not, ◌&&◌,
  if◌then◌else◌, ◌==◌, ltb, if-holds, if-cases, arith,
}
use mathlib.Core.Path.{subst}
use pockiva.Prelude.Bits.{bit_at-bit_and, bit_at-bit_or}
use pockiva.Interrupts.{InterruptMask, union, from_bits, bit, contains, no_interrupt, lcd_stat}
use pockiva.Interrupts
use pockiva.Interrupts.Laws.{contains_lem}
use pockiva.Ppu.Registers.{enabled, enables}
use pockiva.Ppu.State.{Ppu, oam_scan, visible_lines, dots_per_line}
use pockiva.Ppu.Render.{store_scanline}
use pockiva.Ppu.Timing.{
  mode3_start_dot, Effects, and_then, evaluate_stat, evaluate_stat_with_enables,
  update_lyc_comparison, compare_line, enter_vblank, begin_phase, begin_drawing, drawing_state,
  begin_hblank, draw_line, begin_line, publish_frame, turn_line, compare_new_line, end_line,
  tick_one, stat_level_with_enables,
}
use pockiva.Ppu.Unit.{ticks_from, tick}

-- The dots since the first one of the first line.
abbrev pub beam : Ppu → ℕ
beam p = p.internal_line * 456 + p.dot

abbrev pub IsOnScreen : Ppu → Type 0
IsOnScreen p = (p.dot < 456) × (p.internal_line < 154)

-- The number after that of the picture that waits to be taken, or 0 where none does.
abbrev pub pending_sequence : Ppu → ℕ
pending_sequence p = elim p.pending_frame [ none ↦ 0 | some frame ↦ frame.sequence + 1 ]

-- The bit of VBlank is the lowest one.
pub low_from_bits : (a : ℕ) → from_bits a % 2 ≡ a % 2
unfolding from_bits
low_from_bits a = omega (arith, bit_at-bit_and 0 a 0x1f)

pub low_union : (a b : InterruptMask) → union a b % 2 ≡ max (a % 2) (b % 2)
unfolding union
low_union a b = omega (arith, low_from_bits (bit_or a b), bit_at-bit_or 0 a b)

-- A call that leaves the beam where it is and publishes nothing.
Stays : Ppu → Effects → Type 0
Stays p r =
    (r.0.dot ≡ p.dot)
    × (r.0.internal_line ≡ p.internal_line)
    × (r.0.next_sequence ≡ p.next_sequence)
    × (pending_sequence r.0 ≡ pending_sequence p)
    × (r.1 % 2 ≡ 0)

and_then-Stays :
    (p : Ppu) (r : Effects) (next : Ppu → Effects)
    → Stays p r
    → Stays r.0 (next r.0)
    → Stays p (and_then r next)
unfolding Stays
and_then-Stays p r next s t = omega (arith, low_union r.1 (next r.0).1)

Stays-self : (p : Ppu) → Stays p (p, no_interrupt)
unfolding Stays
Stays-self p = (refl, refl, refl, refl, refl)

evaluate_stat-Stays :
    (p q : Ppu)
    → q.dot ≡ p.dot
    → q.internal_line ≡ p.internal_line
    → q.next_sequence ≡ p.next_sequence
    → pending_sequence q ≡ pending_sequence p
    → Stays p (evaluate_stat q)
unfolding Stays evaluate_stat evaluate_stat_with_enables bit
evaluate_stat-Stays p q d l n w =
    let rising = stat_level_with_enables q (enables q.registers.stat) && not q.stat_line_high in
    let quiet : from_bits (if rising then 2 else 0) % 2 ≡ 0 =
      if-holds (λ t. from_bits t % 2 ≡ 0) rising (low_from_bits 2) (low_from_bits 0) in
    (d, l, n, w, quiet)

compare_line-Stays : (p : Ppu) → Stays p (compare_line p)
unfolding compare_line update_lyc_comparison Stays
compare_line-Stays p =
    ground (arith, evaluate_stat-Stays p (update_lyc_comparison p) refl refl refl refl)

enter_vblank-Stays : (p : Ppu) → Stays p (enter_vblank p)
unfolding enter_vblank Stays
enter_vblank-Stays p = ground (arith, evaluate_stat-Stays p p refl refl refl refl)

begin_phase-Stays : (p : Ppu) → Stays p (begin_phase p)
unfolding begin_phase update_lyc_comparison Stays
begin_phase-Stays p = ground (
  arith,
  evaluate_stat-Stays p (update_lyc_comparison (record p { mode = oam_scan })) refl refl refl refl,
)

begin_drawing-Stays : (p : Ppu) → Stays p (begin_drawing p)
unfolding begin_drawing
begin_drawing-Stays p = evaluate_stat-Stays p (drawing_state p) refl refl refl refl

begin_hblank-Stays : (p : Ppu) → Stays p (begin_hblank p)
unfolding begin_hblank store_scanline
begin_hblank-Stays p = evaluate_stat-Stays p _ refl refl refl refl

draw_line-Stays : (p : Ppu) → Stays p (draw_line p)
unfolding draw_line
draw_line-Stays p =
    if-holds (Stays p) (ltb p.internal_line visible_lines)
      (if-holds (Stays p) (p.dot == mode3_start_dot p) (begin_drawing-Stays p) (
        if-holds (Stays p) (p.dot == p.visible_hblank_dot) (begin_hblank-Stays p) (
          if-holds (Stays p) (p.dot == p.mode3_end_dot)
            (evaluate_stat-Stays p p refl refl refl refl) (Stays-self p))))
      (Stays-self p)

compare_new_line-Stays : (p : Ppu) → Stays p (compare_new_line p)
unfolding compare_new_line update_lyc_comparison Stays
compare_new_line-Stays p = ground (
  arith,
  evaluate_stat-Stays p (update_lyc_comparison p) refl refl refl refl,
  evaluate_stat-Stays p p refl refl refl refl,
  evaluate_stat-Stays p (record p { lyc_equal = false }) refl refl refl refl,
)

before_end-Stays :
    (p : Ppu)
    → Stays p (and_then (and_then (and_then (compare_line p) enter_vblank) begin_phase) draw_line)
before_end-Stays p =
    let compared = compare_line p in
    let entered = and_then compared enter_vblank in
    let begun = and_then entered begin_phase in
    and_then-Stays p begun draw_line
      (and_then-Stays p entered begin_phase
        (and_then-Stays p compared enter_vblank (compare_line-Stays p)
          (enter_vblank-Stays compared.0))
        (begin_phase-Stays entered.0))
      (draw_line-Stays begun.0)

-- A call that moves the beam on, to a picture's first dot after its last, and publishes a picture on
-- its way to the first dot below the visible lines, which is the only time that it requests VBlank.
unfoldable pub Moves : ℕ → ℕ → ℕ → Effects → Type 0
Moves sequence pending next r =
    IsOnScreen r.0
    × (beam r.0 ≡ next % 70224)
    × (r.0.next_sequence ≡ sequence + (if next == 65664 then 1 else 0))
    × (pending_sequence r.0 ≡ (if next == 65664 then r.0.next_sequence else pending))
    × (r.1 % 2 ≡ (if next == 65664 then 1 else 0))

Moves-Stays :
    (sequence pending next : ℕ) (r : Effects) (more : Ppu → Effects)
    → Moves sequence pending next r
    → Stays r.0 (more r.0)
    → Moves sequence pending next (and_then r more)
unfolding Moves Stays
Moves-Stays sequence pending next r more m s = ground (arith, low_union r.1 (more r.0).1)

turn_line-beam :
    (p : Ppu)
    → p.dot ≡ 0
    → p.internal_line < 155
    → 0 < p.internal_line
    → Moves p.next_sequence (pending_sequence p) (beam p) (turn_line p)
unfolding turn_line publish_frame begin_line bit Moves
turn_line-beam p d l h = ground (arith, low_from_bits 1)

no_turn :
    (p : Ppu)
    → p.dot < 456
    → p.internal_line < 154
    → 0 < p.dot
    → Moves p.next_sequence (pending_sequence p) (beam p) (p, no_interrupt)
unfolding Moves
no_turn p d l pos = ground arith

end_line-beam :
    (p : Ppu)
    → p.dot < 457
    → p.internal_line < 154
    → 0 < p.dot
    → Moves p.next_sequence (pending_sequence p) (beam p) (end_line p)
unfolding end_line
end_line-beam p d l pos =
    let q : Ppu = record p { dot = 0; internal_line = p.internal_line + 1; startup_line = false } in
    if-cases (Moves p.next_sequence (pending_sequence p) (beam p)) (p.dot == dots_per_line)
      (λ last.
        subst
          (λ next.
            Moves p.next_sequence (pending_sequence p) next
              (and_then (turn_line q) compare_new_line))
          (ground arith)
          (Moves-Stays p.next_sequence (pending_sequence p) (beam q) (turn_line q) compare_new_line
            (turn_line-beam q refl (omega arith) (omega arith))
            (compare_new_line-Stays (turn_line q).0)))
      (λ inside. no_turn p (ground arith) l pos)

Stays-Moves :
    (p : Ppu) (r : Effects) (more : Ppu → Effects)
    → Stays p r
    → Moves r.0.next_sequence (pending_sequence r.0) (beam r.0) (more r.0)
    → Moves p.next_sequence (pending_sequence p) (beam p) (and_then r more)
unfolding Moves Stays
Stays-Moves p r more s m = ground (arith, low_union r.1 (more r.0).1)

-- One dot moves the beam by one.
pub tick_one-Moves :
    (p : Ppu) → IsOnScreen p → Moves p.next_sequence (pending_sequence p) (beam p + 1) (tick_one p)
unfolding tick_one Stays
tick_one-Moves p on =
    let q : Ppu = record p { dot = p.dot + 1 } in
    let before =
      and_then (and_then (and_then (compare_line q) enter_vblank) begin_phase) draw_line in
    let s : Stays q before = before_end-Stays q in
    subst (λ next. Moves p.next_sequence (pending_sequence p) next (and_then before end_line))
      (omega arith)
      (Stays-Moves q before end_line s
        (end_line-beam before.0 (omega arith) (omega arith) (omega arith)))

-- What `n` dots do, from the effects before them.
ticks_from-frames :
    (n : ℕ) (p : Ppu) (effects : InterruptMask)
    → IsOnScreen p
    → let r = ticks_from n p effects in
      IsOnScreen r.0
      × (beam r.0 ≡ (beam p + n) % 70224)
      × (r.0.next_sequence + (beam p + 4560) / 70224
          ≡ p.next_sequence + (beam p + 4560 + n) / 70224)
      × (pending_sequence r.0 ≡ (
          if ltb p.next_sequence r.0.next_sequence then r.0.next_sequence else pending_sequence p))
      × (r.1 % 2 ≡ (if ltb p.next_sequence r.0.next_sequence then 1 else effects % 2))
unfolding ticks_from Moves
ticks_from-frames zero p effects on = ground arith
ticks_from-frames (suc n) p effects on =
    let step = tick_one-Moves p on in
    let q = tick_one p in
    ground (arith, low_union effects q.1, ticks_from-frames n q.0 (union effects q.1) step.0)

-- While the LCD is on, from any dot of the picture, the calls of `tick` move the beam on by their
-- clocks modulo 70224 and publish a picture each time that it reaches the first dot below the visible
-- lines; a call requests VBlank exactly when it publishes one, and then the last one that it publishes
-- is the one that waits to be taken, and otherwise what waited before.
pub tick-frames :
    (p : Ppu) (n : ℕ)
    → enabled p.registers.lcdc ≡ true
    → IsOnScreen p
    → let r = tick p n in
      IsOnScreen r.0
      × (beam r.0 ≡ (beam p + n) % 70224)
      × (r.0.next_sequence + (beam p + 4560) / 70224
          ≡ p.next_sequence + (beam p + 4560 + n) / 70224)
      × (pending_sequence r.0 ≡ (
          if ltb p.next_sequence r.0.next_sequence then r.0.next_sequence else pending_sequence p))
      × (contains r.1 Interrupts.vblank ≡ ltb p.next_sequence r.0.next_sequence)
unfolding tick
tick-frames p n lcd on =
    let ticked = ticks_from-frames n p no_interrupt on in
    rw (lcd, contains_lem (ticks_from n p no_interrupt).1 Interrupts.vblank) (ground arith)
