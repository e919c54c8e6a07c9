-- ===== src/Ppu/Timed.antt =====
-- crates/gb-core/src/ppu: every dot and every write keep the mode that the beam's place gives.
use pockiva.Prelude.{
  ℕ, suc, ◌+◌, ◌<◌, ◌≤◌, ◌≡◌, refl, sym, ◌∙◌, Bool, true, false, ◌||◌, if◌then◌else◌, ◌==◌, ltb,
  leb, if-holds, if-cases, arith, ==_iff, ltb→lt,
}
use mathlib.Core.Path.{subst}
use pockiva.Ppu.State.{Ppu, hblank, vblank, oam_scan, drawing, visible_lines, dots_per_line}
use pockiva.Ppu.Timing.{
  Effects, evaluate_stat, evaluate_stat_with_enables, update_lyc_comparison, mode3_start_dot,
  readable_ly, compare_line, enter_vblank, begin_phase, draw_line, begin_line, publish_frame,
  turn_line, compare_new_line, end_line, tick_one,
}
use pockiva.Ppu.Modes.{
  mode_at, HasBounds, IsTimed, Waiting, Done, compare_line-Waiting, enter_vblank-Waiting,
  begin_phase-Begun, draw_line-Done,
}

evaluate_stat-IsTimed : (p : Ppu) → IsTimed p → IsTimed (evaluate_stat p).0
unfolding evaluate_stat evaluate_stat_with_enables IsTimed HasBounds mode_at
evaluate_stat-IsTimed p v = v

lyc_equal-IsTimed : (p : Ppu) (b : Bool) → IsTimed p → IsTimed (record p { lyc_equal = b })
unfolding IsTimed HasBounds mode_at
lyc_equal-IsTimed p b v = v

compare_new_line-IsTimed : (p : Ppu) → IsTimed p → IsTimed (compare_new_line p).0
unfolding compare_new_line update_lyc_comparison
compare_new_line-IsTimed p v =
    let Q : Ppu → Type 0 = λ q. IsTimed (evaluate_stat q).0 in
    if-holds Q (p.lcd_phase == 0 || leb visible_lines p.internal_line)
      (evaluate_stat-IsTimed _ (lyc_equal-IsTimed p (readable_ly p == p.registers.lyc) v))
      (if-holds Q (readable_ly p == p.registers.lyc) (evaluate_stat-IsTimed p v)
        (evaluate_stat-IsTimed _ (lyc_equal-IsTimed p false v)))

-- The state after the last dot of a line, before the choice by the new line.
next_line : Ppu → Ppu
next_line p = record p { dot = 0; internal_line = p.internal_line + 1; startup_line = false }

begun_mode_at :
    (line phase : ℕ)
    → line < 144
    → phase ≤ 2
    → (if phase == 0 then oam_scan else hblank) ≡ (
        if leb 144 line
        then vblank
        else if ltb 0 (80 + phase)
        then (if ltb 0 phase then hblank else oam_scan)
        else if ltb 0 252
        then drawing
        else hblank)
begun_mode_at line phase l h = ground arith

begin_line-IsTimed :
    (p : Ppu)
    → p.dot ≡ 0
    → p.startup_line ≡ false
    → p.internal_line < 144
    → p.lcd_phase ≤ 2
    → IsTimed (begin_line p)
unfolding begin_line IsTimed HasBounds mode_at mode3_start_dot
begin_line-IsTimed p d s l h =
    simp (d, s)
      (
        omega arith,
        (omega arith, h, omega arith, omega arith, omega arith),
        begun_mode_at p.internal_line p.lcd_phase l h,
      )

vblank-IsTimed :
    (p : Ppu)
    → p.dot ≡ 0
    → leb 144 p.internal_line ≡ true
    → HasBounds p
    → p.mode ≡ vblank
    → IsTimed p
unfolding IsTimed mode_at
vblank-IsTimed p d l b m = (omega arith, b, m ∙ rw l refl)

-- Without the first line's delay mode 3 starts no later.
next_line-HasBounds : (p : Ppu) → p.internal_line < 153 → HasBounds p → HasBounds (next_line p)
unfolding HasBounds next_line mode3_start_dot
next_line-HasBounds p l b =
    let start_le : 80 + p.lcd_phase ≤ (if p.startup_line then 84 else 80 + p.lcd_phase) =
      if-holds (λ n. 80 + p.lcd_phase ≤ n) p.startup_line (omega arith) (omega arith) in
    (omega arith, b.1, omega arith, b.3, b.4)

mode_at-vblank : (p : Ppu) (dot : ℕ) → leb 144 p.internal_line ≡ true → mode_at p dot ≡ vblank
unfolding mode_at
mode_at-vblank p dot l = rw l refl

turn_line-IsTimed : (p : Ppu) → Done 456 p → IsTimed (turn_line (next_line p)).0
unfolding turn_line publish_frame Done next_line HasBounds mode3_start_dot
turn_line-IsTimed p v =
    let Q : Effects → Type 0 = λ r. IsTimed r.0 in
    if-cases Q (p.internal_line + 1 == 144)
      (λ c.
        vblank-IsTimed (publish_frame (record (next_line p) { mode = vblank })) refl (ground arith)
          (next_line-HasBounds p (ground arith) v.0) refl)
      (λ c.
        if-cases Q (p.internal_line + 1 == 154)
          (λ e.
            begin_line-IsTimed (record (next_line p) { internal_line = 0; window_line = 0 }) refl
              refl (omega arith) v.0.1)
          (λ e.
            if-cases Q (ltb (p.internal_line + 1) 144)
              (λ l. begin_line-IsTimed (next_line p) refl refl (ltb→lt _ _ l) v.0.1)
              (λ l.
                vblank-IsTimed (next_line p) refl (ground arith)
                  (next_line-HasBounds p (ground arith) v.0)
                  (v.2 ∙ mode_at-vblank p 456 (ground arith)))))

inside_line : (dot : ℕ) (p : Ppu) → dot < 456 → Done dot p → IsTimed p
unfolding IsTimed Done mode_at
inside_line dot p h v = (rw v.1 h, v.0, rw v.1 v.2)

end_line-IsTimed : (dot : ℕ) (p : Ppu) → dot < 457 → Done dot p → IsTimed (end_line p).0
unfolding end_line next_line Done
end_line-IsTimed dot p h v =
    if-cases (λ (r : Effects). IsTimed r.0) (p.dot == dots_per_line)
      (λ last.
        let at_end : p.dot ≡ 456 = (==_iff p.dot 456).0 last in
        compare_new_line-IsTimed (turn_line (next_line p)).0 (
          turn_line-IsTimed p
            (v.0, at_end, subst (λ d. p.mode ≡ mode_at p d) (sym v.1 ∙ at_end) v.2)))
      (λ inside. inside_line dot p (ground arith) v)

started : (p : Ppu) → IsTimed p → Waiting p.dot (record p { dot = p.dot + 1 })
unfolding IsTimed Waiting HasBounds mode_at
started p v = (v.1, omega arith, v.2)

-- Each clock of the unit keeps it timed.
pub tick_one-IsTimed : (p : Ppu) → IsTimed p → IsTimed (tick_one p).0
unfolding tick_one IsTimed Waiting
tick_one-IsTimed p v =
    let q : Ppu = record p { dot = p.dot + 1 } in
    let entered : Ppu = (enter_vblank (compare_line q).0).0 in
    let waiting : Waiting p.dot entered =
      enter_vblank-Waiting p.dot (compare_line q).0 (compare_line-Waiting p.dot q (started p v)) in
    end_line-IsTimed (suc p.dot) (draw_line (begin_phase entered).0).0 (omega arith)
      (draw_line-Done p.dot (begin_phase entered).0 (begin_phase-Begun p.dot entered waiting))
