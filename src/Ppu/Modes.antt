-- ===== src/Ppu/Modes.antt =====
-- crates/gb-core/src/ppu/timing.rs: the mode follows from the place of the beam.
use pockiva.Prelude.{
  ℕ, suc, ◌+◌, ◌-◌, ◌<◌, ◌≤◌, ◌≡◌, refl, Bool, true, false, not, ◌&&◌, ◌||◌, if◌then◌else◌, ◌==◌,
  ltb, leb, if-holds, if-cases, arith, ==_iff,
}
use pockiva.Ppu.State.{Ppu, LcdMode, hblank, vblank, oam_scan, drawing, visible_lines}
use pockiva.Ppu.Sprite.{sprite_mode3_penalty, select_sprites_for_line}
use pockiva.Ppu.Render.{store_scanline}
use pockiva.Ppu.Timing.{
  Effects, evaluate_stat, evaluate_stat_with_enables, update_lyc_comparison, mode3_start_dot,
  readable_ly, compute_mode3_end_dot, compare_line, enter_vblank, begin_phase, begin_drawing,
  drawing_state, begin_hblank, draw_line,
}
use pockiva.Ppu.Drawing.{compute_mode3_end_dot_bounds}

-- The mode that the documentation of the unit's timing gives a dot of the unit's line. The first dots
-- of a line count as HBlank where the LCD was turned on inside a line.
unfoldable pub mode_at : Ppu → ℕ → LcdMode
unfolding mode3_start_dot
mode_at p dot =
    if leb visible_lines p.internal_line
    then vblank
    else if ltb dot (mode3_start_dot p)
    then (if p.startup_line || ltb dot p.lcd_phase then hblank else oam_scan)
    else if ltb dot p.visible_hblank_dot
    then drawing
    else hblank

-- The bounds of the line's dots.
unfoldable pub HasBounds : Ppu → Type 0
HasBounds p =
    (p.internal_line < 154)
    × (p.lcd_phase ≤ 2)
    × (mode3_start_dot p < p.visible_hblank_dot)
    × (p.visible_hblank_dot ≤ p.mode3_end_dot)
    × (p.mode3_end_dot ≤ 373)

-- The unit is at a dot of the picture, its mode is the one of that dot, and the drawing of the line
-- ends inside the line.
unfoldable pub IsTimed : Ppu → Type 0
IsTimed p = (p.dot < 456) × HasBounds p × (p.mode ≡ mode_at p p.dot)

-- Inside a clock, before `begin_phase`
unfoldable pub Waiting : ℕ → Ppu → Type 0
Waiting dot p = HasBounds p × (p.dot ≡ suc dot) × (p.mode ≡ mode_at p dot)

evaluate_stat-Waiting : (dot : ℕ) (p : Ppu) → Waiting dot p → Waiting dot (evaluate_stat p).0
unfolding evaluate_stat evaluate_stat_with_enables Waiting HasBounds mode_at
evaluate_stat-Waiting dot p v = v

lyc_equal-Waiting :
    (dot : ℕ) (p : Ppu) (b : Bool) → Waiting dot p → Waiting dot (record p { lyc_equal = b })
unfolding Waiting HasBounds mode_at
lyc_equal-Waiting dot p b v = v

pub compare_line-Waiting : (dot : ℕ) (p : Ppu) → Waiting dot p → Waiting dot (compare_line p).0
unfolding compare_line update_lyc_comparison
compare_line-Waiting dot p v =
    if-holds (λ (r : Effects). Waiting dot r.0) (p.internal_line == 153 && p.dot == 4)
      (evaluate_stat-Waiting dot _ (lyc_equal-Waiting dot p (readable_ly p == p.registers.lyc) v)) v

pub enter_vblank-Waiting : (dot : ℕ) (p : Ppu) → Waiting dot p → Waiting dot (enter_vblank p).0
unfolding enter_vblank
enter_vblank-Waiting dot p v =
    if-holds (λ (r : Effects). Waiting dot r.0) (p.internal_line == 144 && p.dot == 1)
      (evaluate_stat-Waiting dot p v) v

-- After `begin_phase`
unfoldable pub begun_mode : Ppu → ℕ → LcdMode
begun_mode p dot =
    if not p.startup_line
      && ltb p.internal_line visible_lines
      && not (p.lcd_phase == 0)
      && suc dot == p.lcd_phase
    then oam_scan
    else mode_at p dot

unfoldable pub Begun : ℕ → Ppu → Type 0
Begun dot p = HasBounds p × (p.dot ≡ suc dot) × (p.mode ≡ begun_mode p dot)

-- The same at a dot whose mode is set.
unfoldable pub Done : ℕ → Ppu → Type 0
Done dot p = HasBounds p × (p.dot ≡ dot) × (p.mode ≡ mode_at p dot)

evaluate_stat-Begun : (dot : ℕ) (p : Ppu) → Begun dot p → Begun dot (evaluate_stat p).0
unfolding evaluate_stat evaluate_stat_with_enables Begun HasBounds begun_mode mode_at
evaluate_stat-Begun dot p v = v

evaluate_stat-Done : (dot : ℕ) (p : Ppu) → Done dot p → Done dot (evaluate_stat p).0
unfolding evaluate_stat evaluate_stat_with_enables Done HasBounds mode_at
evaluate_stat-Done dot p v = v

phase_test : Ppu → Bool
phase_test p =
    not p.startup_line
    && ltb p.internal_line visible_lines
    && not (p.lcd_phase == 0)
    && p.dot == p.lcd_phase

Begun-here :
    (dot : ℕ) (p : Ppu)
    → phase_test p ≡ true
    → HasBounds p
    → p.dot ≡ suc dot
    → Begun dot (update_lyc_comparison (record p { mode = oam_scan }))
unfolding Begun HasBounds begun_mode update_lyc_comparison phase_test mode3_start_dot
Begun-here dot p c b d = (b, d, rw (← d) (rw c refl))

Begun-before :
    (dot : ℕ) (p : Ppu)
    → phase_test p ≡ false
    → HasBounds p
    → p.dot ≡ suc dot
    → p.mode ≡ mode_at p dot
    → Begun dot p
unfolding Begun begun_mode phase_test
Begun-before dot p c b d m = (b, d, rw (← d) (rw c m))

pub begin_phase-Begun : (dot : ℕ) (p : Ppu) → Waiting dot p → Begun dot (begin_phase p).0
unfolding begin_phase phase_test Waiting
begin_phase-Begun dot p v =
    if-cases (λ (r : Effects). Begun dot r.0) (phase_test p)
      (λ c. evaluate_stat-Begun dot _ (Begun-here dot p c v.0 v.1))
      (λ c. Begun-before dot p c v.0 v.1 v.2)

-- The parts of `draw_line`.
drawn_outside :
    (dot : ℕ) (p : Ppu) → ltb p.internal_line 144 ≡ false → Begun dot p → Done (suc dot) p
unfolding Begun Done begun_mode mode_at
drawn_outside dot p c v = ground arith

drawn_mode :
    (line dot start end : ℕ) (early : LcdMode)
    → ltb line 144 ≡ true
    → dot ≡ start
    → start < end
    → drawing ≡ (
        if leb 144 line
        then vblank
        else if ltb dot start
        then early
        else if ltb dot end
        then drawing
        else hblank)
drawn_mode line dot start end early i e h = ground arith

pub mode3_start_dot-le : (p : Ppu) → p.lcd_phase ≤ 2 → mode3_start_dot p ≤ 84
unfolding mode3_start_dot
mode3_start_dot-le p h = if-holds (λ n. n ≤ 84) p.startup_line (omega arith) (omega arith)

drawing_state-Done :
    (dot : ℕ) (p : Ppu)
    → ltb p.internal_line 144 ≡ true
    → (p.dot == mode3_start_dot p) ≡ true
    → Begun dot p
    → Done (suc dot) (drawing_state p)
unfolding drawing_state Begun Done mode_at HasBounds
drawing_state-Done dot p i c v =
    let selected : Ppu = record p {
      mode = drawing;
      selected_sprites = select_sprites_for_line p p.internal_line;
    } in
    let end_dot : ℕ = compute_mode3_end_dot selected in
    let start : ℕ = mode3_start_dot p in
    let unpenalized : Bool = sprite_mode3_penalty selected == 0 in
    let end_bounds : (start + 172 ≤ end_dot) × (end_dot ≤ start + 289) =
      compute_mode3_end_dot_bounds selected in
    let visible : ℕ = if unpenalized then end_dot else end_dot - 1 in
    let visible_bounds : (start < visible) × (visible ≤ end_dot) =
      if-holds (λ n. (start < n) × (n ≤ end_dot)) unpenalized (omega arith) (omega arith) in
    let start_le : start ≤ 84 = mode3_start_dot-le p v.0.1 in
    let at_start : p.dot ≡ start = (==_iff p.dot start).0 c in
    (
      (v.0.0, v.0.1, visible_bounds.0, visible_bounds.1, omega arith),
      v.1,
      drawn_mode p.internal_line (suc dot) start visible _ i (omega arith) visible_bounds.0,
    )

begun_drawing :
    (dot : ℕ) (p : Ppu)
    → ltb p.internal_line 144 ≡ true
    → (p.dot == mode3_start_dot p) ≡ true
    → Begun dot p
    → Done (suc dot) (begin_drawing p).0
unfolding begin_drawing
begun_drawing dot p i c v =
    evaluate_stat-Done (suc dot) (drawing_state p) (drawing_state-Done dot p i c v)

hblank_state :
    (dot : ℕ) (p : Ppu)
    → ltb p.internal_line 144 ≡ true
    → (p.dot == mode3_start_dot p) ≡ false
    → (p.dot == p.visible_hblank_dot) ≡ true
    → Begun dot p
    → Done (suc dot) (record (store_scanline p p.internal_line) { mode = hblank })
unfolding store_scanline Begun Done mode_at HasBounds mode3_start_dot
hblank_state dot p i c h v = ground arith

begun_hblank :
    (dot : ℕ) (p : Ppu)
    → ltb p.internal_line 144 ≡ true
    → (p.dot == mode3_start_dot p) ≡ false
    → (p.dot == p.visible_hblank_dot) ≡ true
    → Begun dot p
    → Done (suc dot) (begin_hblank p).0
unfolding begin_hblank
begun_hblank dot p i c h v =
    evaluate_stat-Done (suc dot) (record (store_scanline p p.internal_line) { mode = hblank })
      (hblank_state dot p i c h v)

drawn_on :
    (dot : ℕ) (p : Ppu)
    → ltb p.internal_line 144 ≡ true
    → (p.dot == mode3_start_dot p) ≡ false
    → (p.dot == p.visible_hblank_dot) ≡ false
    → Begun dot p
    → Done (suc dot) p
unfolding Begun Done begun_mode mode_at HasBounds
drawn_on dot p i c h v = ground arith

pub draw_line-Done : (dot : ℕ) (p : Ppu) → Begun dot p → Done (suc dot) (draw_line p).0
unfolding draw_line
draw_line-Done dot p v =
    let Q : Effects → Type 0 = λ r. Done (suc dot) r.0 in
    if-cases Q (ltb p.internal_line 144)
      (λ i.
        if-cases Q (p.dot == mode3_start_dot p) (λ c. begun_drawing dot p i c v)
          (λ c.
            if-cases Q (p.dot == p.visible_hblank_dot) (λ h. begun_hblank dot p i c h v)
              (λ h.
                if-holds Q (p.dot == p.mode3_end_dot)
                  (evaluate_stat-Done (suc dot) p (drawn_on dot p i c h v))
                  (drawn_on dot p i c h v))))
      (λ i. drawn_outside dot p i v)
