-- ===== src/Bus/Dma.antt =====
-- crates/gb-core/src/bus/dma.rs: the transfer of 160 bytes to the sprites' memory.
use pockiva.Prelude.{
  ℕ, ◌+◌, ◌*◌, ◌^◌, ◌<◌, bit_or, ◌≡◌, refl, ap, Bool, true, false, Option, none, some, ◌==◌,
  if◌then◌else◌, add8_wrap, arith, ==_iff,
}
use pockiva.Prelude.Bits.{all_below, all_below_sound}

pub record OamDma : Type 0 where
  pub source_high : ℕ  -- u8
  pub index : ℕ  -- u8
  pub active : Bool

abbrev pub default_dma : OamDma
default_dma = record { source_high = 0; index = 0; active = false }

unfoldable pub start : OamDma → ℕ → OamDma
start dma source_high = record { source_high = source_high; index = 0; active = true }

-- the address of the byte to copy, and its place
unfoldable pub next_address : OamDma → Option (ℕ × ℕ)
next_address dma =
    if dma.active then some (bit_or (dma.source_high * 2 ^ 8) dma.index, dma.index) else none

unfoldable pub advance : OamDma → OamDma
advance dma =
    let index = add8_wrap dma.index 1 in
    record dma { index = index; active = if index == 160 then false else dma.active }

address_table :
    all_below 256 (λ page. all_below 160 (λ i. bit_or (page * 2 ^ 8) i == page * 256 + i)) ≡ true
unfolding all_below
address_table = refl

pub joined : (page i : ℕ) → page < 256 → i < 160 → bit_or (page * 2 ^ 8) i ≡ page * 256 + i
joined page i p q = (==_iff _ _).0 (
    all_below_sound 160 (λ i. bit_or (page * 2 ^ 8) i == page * 256 + i) i
      (all_below_sound 256 (λ page. all_below 160 (λ i. bit_or (page * 2 ^ 8) i == page * 256 + i))
        page address_table p)
      q)

-- The transfer of a page in its turn.
abbrev pub running_at : ℕ → ℕ → OamDma
running_at page i = record { source_high = page; index = i; active = true }

pub advance-running :
    (page i : ℕ)
    → i < 160
    → advance (running_at page i)
      ≡ record { source_high = page; index = i + 1; active = if i + 1 == 160 then false else true }
unfolding advance
advance-running page i q =
    ap
      (λ (t : ℕ). record {
        source_high = page;
        index = t;
        active = if t == 160 then false else true;
      })
      (wrapped i q)
  where
    wrapped : (i : ℕ) → i < 160 → add8_wrap i 1 ≡ i + 1
    wrapped i q = omega arith
