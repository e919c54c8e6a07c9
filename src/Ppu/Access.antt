-- ===== src/Ppu/Access.antt =====
-- crates/gb-core/src/ppu/mod.rs: what the processor may read and write, and that its writes keep the
-- unit timed.
use pockiva.Prelude.{
  ℕ, zero, suc, ◌-◌, ◌≡◌, refl, ◌∙◌, ◌⊎◌, inl, inr, Bool, false, not, ◌&&◌, ◌==◌, within, if-holds,
  if-cases, arith, update,
}
use pockiva.Interrupts.{no_interrupt, InterruptMask, union}
use pockiva.Ppu.Registers.{Registers, enabled, enables}
use pockiva.Ppu.State.{Ppu, post_boot_dmg}
use pockiva.Ppu.Timing.{
  Effects, evaluate_stat, evaluate_stat_with_enables, update_lyc_comparison, mode3_start_dot,
  readable_ly, tick_one,
}
use pockiva.Ppu.Unit.{
  vram_cpu_write_accessible, oam_cpu_write_accessible, turn_on, turn_off, write_lcdc, write_stat,
  write_lyc, store_register, write, ticks_from, tick,
}
use pockiva.Ppu.Modes.{mode_at, HasBounds, IsTimed}
use pockiva.Ppu.Timed.{tick_one-IsTimed}

-- The LCD is off, or the unit is timed.
unfoldable pub IsClocked : Ppu → Type 0
IsClocked p = (enabled p.registers.lcdc ≡ false) ⊎ IsTimed p

post_boot_dmg-IsTimed : IsTimed post_boot_dmg
unfolding IsTimed HasBounds mode_at mode3_start_dot
post_boot_dmg-IsTimed =
    (omega arith, (omega arith, omega arith, omega arith, omega arith, omega arith), refl)

ticks_from-IsTimed :
    (n : ℕ) (p : Ppu) (effects : InterruptMask) → IsTimed p → IsTimed (ticks_from n p effects).0
unfolding ticks_from
ticks_from-IsTimed zero p effects v = v
ticks_from-IsTimed (suc n) p effects v =
    ticks_from-IsTimed n (tick_one p).0 (union effects (tick_one p).1) (tick_one-IsTimed p v)

pub tick-IsClocked : (p : Ppu) (n : ℕ) → IsClocked p → IsClocked (tick p n).0
unfolding tick IsClocked
tick-IsClocked p n (inl off) = rw off (inl off)
tick-IsClocked p n (inr v) =
    if-cases (λ (r : Effects). (enabled r.0.registers.lcdc ≡ false) ⊎ IsTimed r.0)
      (not (enabled p.registers.lcdc)) (λ off. inr v)
      (λ on. inr (ticks_from-IsTimed n p no_interrupt v))

-- The timing does not read the memories, the palettes or the scroll registers.
memories-IsClocked :
    (p : Ppu) (vram oam : ℕ → ℕ) (r : Registers) (high equal : Bool)
    → r.lcdc ≡ p.registers.lcdc
    → IsClocked p
    → IsClocked (record p {
      vram = vram;
      oam = oam;
      registers = r;
      stat_line_high = high;
      lyc_equal = equal;
    })
unfolding IsClocked IsTimed HasBounds mode_at mode3_start_dot
memories-IsClocked p vram oam r high equal e (inl off) = inl (rw e off)
memories-IsClocked p vram oam r high equal e (inr v) = inr v

turn_on-IsTimed : (p : Ppu) → IsTimed (turn_on p)
unfolding turn_on update_lyc_comparison IsTimed HasBounds mode_at mode3_start_dot
turn_on-IsTimed p =
    (omega arith, (omega arith, omega arith, omega arith, omega arith, omega arith), refl)

evaluate_stat-IsClocked : (p : Ppu) → IsClocked p → IsClocked (evaluate_stat p).0
unfolding evaluate_stat evaluate_stat_with_enables
evaluate_stat-IsClocked p v = memories-IsClocked p p.vram p.oam p.registers _ p.lyc_equal refl v

-- A value of LCDC that leaves the LCD as it is.
powered-IsClocked :
    (p : Ppu) (value : ℕ)
    → enabled value ≡ enabled p.registers.lcdc
    → IsClocked p
    → IsClocked (record p { registers = record p.registers { lcdc = value } })
unfolding IsClocked IsTimed HasBounds mode_at mode3_start_dot
powered-IsClocked p value e (inl off) = inl (e ∙ off)
powered-IsClocked p value e (inr v) = inr v

write_lcdc-IsClocked : (p : Ppu) (value : ℕ) → IsClocked p → IsClocked (write_lcdc p value).0
unfolding write_lcdc turn_off IsClocked
write_lcdc-IsClocked p value v =
    let Q : Effects → Type 0 = λ r. IsClocked r.0 in
    let was : Bool = enabled p.registers.lcdc in
    let on : Bool = enabled value in
    let written : Ppu = record p { registers = record p.registers { lcdc = value } } in
    if-cases Q (was && not on) (λ off. inl (ground arith))
      (λ c.
        if-cases Q (not was && on)
          (λ d. evaluate_stat-IsClocked (turn_on written) (inr (turn_on-IsTimed written)))
          (λ d. evaluate_stat-IsClocked written (powered-IsClocked p value (ground arith) v)))

write_stat-IsClocked : (p : Ppu) (value : ℕ) → IsClocked p → IsClocked (write_stat p value).0
unfolding write_stat evaluate_stat evaluate_stat_with_enables
write_stat-IsClocked p value v =
    memories-IsClocked p p.vram p.oam (record p.registers { stat = enables value }) _ p.lyc_equal
      refl v

write_lyc-IsClocked : (p : Ppu) (value : ℕ) → IsClocked p → IsClocked (write_lyc p value).0
unfolding write_lyc update_lyc_comparison
write_lyc-IsClocked p value v =
    let r : Registers = record p.registers { lyc = value } in
    let written : Ppu = record p { registers = r } in
    if-holds (λ (q : Ppu). IsClocked (evaluate_stat q).0) (enabled p.registers.lcdc)
      (evaluate_stat-IsClocked _ (
        memories-IsClocked p p.vram p.oam r p.stat_line_high (readable_ly written == value) refl v))
      (evaluate_stat-IsClocked _
        (memories-IsClocked p p.vram p.oam r p.stat_line_high p.lyc_equal refl v))

lcdc-store_register :
    (r : Registers) (address value : ℕ) → (store_register r address value).lcdc ≡ r.lcdc
unfolding store_register
lcdc-store_register r address value = ground arith

-- A write keeps the LCD off or the unit timed; turning the LCD on starts it at a dot with its mode.
pub write-IsClocked :
    (p : Ppu) (address value : ℕ) → IsClocked p → IsClocked (write p address value).0
unfolding write
write-IsClocked p address value v =
    let Q : Effects → Type 0 = λ r. IsClocked r.0 in
    let keep : (vram oam : ℕ → ℕ) (r : Registers)
        → r.lcdc ≡ p.registers.lcdc
        → IsClocked (record p { vram = vram; oam = oam; registers = r }) =
      λ vram oam r e. memories-IsClocked p vram oam r p.stat_line_high p.lyc_equal e v in
    if-holds Q (within 0x8000 0x9fff address && vram_cpu_write_accessible p)
      (keep (update p.vram (address - 0x8000) value) p.oam p.registers refl)
      (if-holds Q (within 0xfe00 0xfe9f address && oam_cpu_write_accessible p)
        (keep p.vram (update p.oam (address - 0xfe00) value) p.registers refl)
        (if-holds Q (address == 0xff40) (write_lcdc-IsClocked p value v) (
          if-holds Q (address == 0xff41) (write_stat-IsClocked p value v) (
            if-holds Q (address == 0xff45) (write_lyc-IsClocked p value v) (
              keep p.vram p.oam (store_register p.registers address value)
                (lcdc-store_register p.registers address value))))))
