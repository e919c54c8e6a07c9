-- ===== src/Ppu/Locked.antt =====
-- crates/gb-core/src/ppu/mod.rs: the memories while the unit draws and while it does not, and the
-- interrupt of a write to STAT.
use pockiva.Prelude.{
  ℕ, ◌-◌, ◌<◌, ◌≤◌, ◌≡◌, refl, inl, inr, Bool, true, false, not, ◌&&◌, ◌||◌, if◌then◌else◌, ◌==◌,
  leb, within, Bool-cases, arith, update,
}
use pockiva.Interrupts.{no_interrupt, InterruptMask, union, from_bits, contains, bit}
use pockiva.Interrupts
use pockiva.Ppu.Registers.{enabled, enables}
use pockiva.Ppu.State.{Ppu, drawing}
use pockiva.Ppu.Timing.{
  evaluate_stat, evaluate_stat_with_enables, stat_level_with_enables, mode3_start_dot,
}
use pockiva.Ppu.Unit.{
  vram_cpu_accessible, vram_cpu_write_accessible, oam_cpu_accessible, oam_cpu_write_accessible,
  read_register, read, write_stat, write,
}
use pockiva.Ppu.Modes.{mode_at, HasBounds, IsTimed}

abbrev pub in_vram : ℕ → Bool
in_vram address = within 0x8000 0x9fff address

abbrev pub in_oam : ℕ → Bool
in_oam address = within 0xfe00 0xfe9f address

drawing_dots :
    (p : Ppu)
    → IsTimed p
    → p.mode ≡ drawing
    → (p.internal_line < 144) × (mode3_start_dot p ≤ p.dot) × (p.dot < p.visible_hblank_dot)
unfolding IsTimed mode_at
drawing_dots p v m = ground arith

locked :
    (p : Ppu)
    → enabled p.registers.lcdc ≡ true
    → IsTimed p
    → p.mode ≡ drawing
    → (vram_cpu_accessible p ≡ false) × (oam_cpu_accessible p ≡ false)
unfolding vram_cpu_accessible oam_cpu_accessible IsTimed HasBounds
locked p on v m = let dots = drawing_dots p v m in ground (arith)

read_register-memory :
    (p : Ppu) (address : ℕ)
    → (in_vram address || in_oam address) ≡ true
    → read_register p address ≡ 0xff
unfolding read_register
read_register-memory p address h = ground arith

-- While a timed unit draws, the processor reads 0xff from both of its memories.
pub read-drawing :
    (p : Ppu) (address : ℕ)
    → enabled p.registers.lcdc ≡ true
    → IsTimed p
    → p.mode ≡ drawing
    → (in_vram address || in_oam address) ≡ true
    → read p address ≡ 0xff
unfolding read
read-drawing p address on v m h =
    let (no_vram, no_oam) = locked p on v m in
    let register = read_register-memory p address h in ground (arith, no_vram, no_oam, register)

-- The LCD is off, or the beam is below the visible lines.
abbrev pub is_open : Ppu → Bool
is_open p = not (enabled p.registers.lcdc) || leb 144 p.internal_line

module _ (p : Ppu) (o : is_open p ≡ true) where
  vram_open : vram_cpu_accessible p ≡ true
  unfolding vram_cpu_accessible
  vram_open = rw o refl

  oam_open : oam_cpu_accessible p ≡ true
  unfolding oam_cpu_accessible
  oam_open = rw o refl

  write_vram :
      (a value : ℕ)
      → in_vram a ≡ true
      → (write p a value).0 ≡ record p { vram = update p.vram (a - 0x8000) value }
  unfolding write vram_cpu_write_accessible
  write_vram a value h = rw (h, vram_open) refl

  write_oam :
      (a value : ℕ)
      → in_vram a ≡ false
      → in_oam a ≡ true
      → (write p a value).0 ≡ record p { oam = update p.oam (a - 0xfe00) value }
  unfolding write oam_cpu_write_accessible
  write_oam a value h k = rw (h, k, oam_open) refl

  read_vram : (b : ℕ) → in_vram b ≡ true → read p b ≡ p.vram (b - 0x8000)
  unfolding read
  read_vram b h = rw (h, vram_open) refl

  read_oam : (b : ℕ) → in_vram b ≡ false → in_oam b ≡ true → read p b ≡ p.oam (b - 0xfe00)
  unfolding read
  read_oam b h k = rw (h, k, oam_open) refl

-- While the LCD is off or below the visible lines, a byte that is written to a memory of the unit is
-- read back at its address, and no other byte of the memories changes.
pub read-write :
    (p : Ppu) (a b value : ℕ)
    → is_open p ≡ true
    → (in_vram a || in_oam a) ≡ true
    → (in_vram b || in_oam b) ≡ true
    → read (write p a value).0 b ≡ (if a == b then value else read p b)
read-write p a b value o ha hb = elim (Bool-cases (in_vram a)) [
  | inl va ↦ rw (write_vram p o a value va) (elim (Bool-cases (in_vram b)) [
    | inl vb ↦
        rw
          (
            read_vram (record p { vram = update p.vram (a - 0x8000) value }) o b vb,
            read_vram p o b vb,
          )
          (ground arith)
    | inr vb ↦
        rw
          (
            read_oam (record p { vram = update p.vram (a - 0x8000) value }) o b vb (ground arith),
            read_oam p o b vb (ground arith),
          )
          (ground arith)
  ])
  | inr va ↦ rw (write_oam p o a value va (ground arith)) (elim (Bool-cases (in_vram b)) [
    | inl vb ↦
        rw
          (
            read_vram (record p { oam = update p.oam (a - 0xfe00) value }) o b vb,
            read_vram p o b vb,
          )
          (ground arith)
    | inr vb ↦
        rw
          (
            read_oam (record p { oam = update p.oam (a - 0xfe00) value }) o b vb (ground arith),
            read_oam p o b vb (ground arith),
          )
          (ground arith)
  ])
]

-- A level with some of the sources is one with all four.
stat_level-le :
    (p : Ppu) (bits stat : ℕ) (high : Bool)
    → stat_level_with_enables
        (record p { registers = record p.registers { stat = stat }; stat_line_high = high })
        bits
      ≡ true
    → stat_level_with_enables p 0x78 ≡ true
unfolding stat_level_with_enables
stat_level-le p bits stat high h = ground arith

rising_mask :
    (low all some : Bool)
    → (some ≡ true → all ≡ true)
    → contains
        (union
          (from_bits (if all && low then 2 else 0))
          (from_bits (if some && not all then 2 else 0)))
        Interrupts.lcd_stat
      ≡ (low && all)
unfolding union from_bits contains bit
rising_mask true true true h = refl
rising_mask true true false h = refl
rising_mask false true true h = refl
rising_mask false true false h = refl
rising_mask low false true h = cc (h refl)
rising_mask true false false h = refl
rising_mask false false false h = refl

-- A write to STAT requests the LCD interrupt exactly when the line was low and a source would raise
-- it if all four were enabled, whatever value is written.
pub write-stat :
    (p : Ppu) (value : ℕ)
    → contains (write p 0xff41 value).1 Interrupts.lcd_stat
      ≡ (not p.stat_line_high && stat_level_with_enables p 0x78)
unfolding write write_stat evaluate_stat evaluate_stat_with_enables
write-stat p value =
    rising_mask (not p.stat_line_high) (stat_level_with_enables p 0x78) _
      (stat_level-le p (enables (enables value)) (enables value) (stat_level_with_enables p 0x78))
