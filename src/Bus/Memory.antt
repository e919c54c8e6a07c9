-- ===== src/Bus/Memory.antt =====
-- The work RAM and its echo as the processor reads and writes them, and the gate of an OAM transfer:
-- `read8` and `write8` of crates/gb-core/src/bus/mod.rs.
use pockiva.Prelude.{
  ℕ, ◌+◌, ◌-◌, ◌%◌, ◌<◌, ◌≤◌, ◌≡◌, refl, ◌∙◌, ap, Bool, true, false, not, ◌&&◌, ◌||◌, none, List,
  arith, ◌==◌, within, ◌⊎◌, inl, inr, if◌then◌else◌, get_or, set, length, get_or-set_self,
  get_or-set_ne, ==_iff, Bool-cases,
}
use pockiva.Timer
use pockiva.Bus.Dma.{OamDma, next_address}
use pockiva.Bus.Devices.{Mapper, VideoDevice, AudioDevice, MachineBus}
use pockiva.Bus.Map.{
  in_cartridge, in_video, read_unclocked, route_write, request_on, write_unclocked,
}
use pockiva.Bus.Cycle.{in_hram, is_early, transfer, tick_m_cycle, peek8, write8}

-- The place in work RAM that an address of it or of its echo stands for.
pub work_cell : ℕ → ℕ
work_cell address = (address - 0xc000) % 0x2000

work_cell-lt : (address : ℕ) → work_cell address < 0x2000
unfolding work_cell
work_cell-lt address = omega arith

lookup :
    (xs : List ℕ) (i j v : ℕ)
    → i < length xs
    → get_or (set xs i v) j 0 ≡ (if i == j then v else get_or xs j 0)
lookup xs i j v h = elim (Bool-cases (i == j)) [
  | inl same ↦ rw (same, ← (==_iff i j).0 same) (get_or-set_self xs i v 0 h)
  | inr other ↦ rw other (get_or-set_ne xs i j v 0 (λ e. grind arith))
]

abbrev pub IsWork : ℕ → Type 0
IsWork address = (0xc000 ≤ address) × (address ≤ 0xfdff)

-- The tests of the memory map that come before, and the array's place.
elsewhere : (a : ℕ) → IsWork a → (in_cartridge a ≡ false) × (in_video a ≡ false)
elsewhere a h = (ground arith, ground arith)

place :
    (a : ℕ)
    → IsWork a
    → ((within 0xc000 0xdfff a ≡ true) × (a - 0xc000 ≡ work_cell a))
      ⊎ ((within 0xc000 0xdfff a ≡ false)
          × (within 0xe000 0xfdff a ≡ true)
          × (a - 0xe000 ≡ work_cell a))
unfolding work_cell
place a h = elim (Bool-cases (within 0xc000 0xdfff a)) [
  | inl low ↦ let below : a ≤ 0xdfff = ground arith in inl (low, omega arith)
  | inr high ↦ let above : 0xdfff < a = ground arith in inr (high, ground arith, omega arith)
]

next_address-idle : (dma : OamDma) → dma.active ≡ false → next_address dma ≡ none
unfolding next_address
next_address-idle dma idle = ground arith

gate_open : (b c : Bool) → b ≡ false → (b && c) ≡ false
gate_open b c idle = ground arith

allowed_idle : (b c : Bool) → b ≡ false → (not b || c) ≡ true
allowed_idle b c idle = ground arith

module _ {M V A : Type 0} (mapper : Mapper M) (video : VideoDevice V) (audio : AudioDevice A) where
  pub read-work :
      (b : MachineBus M V A) (a : ℕ)
      → IsWork a
      → read_unclocked mapper video audio b a ≡ get_or b.wram (work_cell a) 0
  unfolding read_unclocked
  read-work b a h = elim (place a h) [
    | inl (low, cell) ↦ rw ((elsewhere a h).0, (elsewhere a h).1, low, cell) refl
    | inr (high, echo, cell) ↦ rw ((elsewhere a h).0, (elsewhere a h).1, high, echo, cell) refl
  ]

  write-work :
      (b : MachineBus M V A) (a v : ℕ)
      → IsWork a
      → (write_unclocked mapper video audio b a v).wram ≡ set b.wram (work_cell a) v
        × ((write_unclocked mapper video audio b a v).dma.active ≡ b.dma.active)
  unfolding write_unclocked route_write request_on
  write-work b a v h = elim (place a h) [
    | inl (low, cell) ↦ rw ((elsewhere a h).0, (elsewhere a h).1, low, cell) (refl, refl)
    | inr (high, echo, cell) ↦
        rw ((elsewhere a h).0, (elsewhere a h).1, high, echo, cell) (refl, refl)
  ]

  transfer-idle : (b : MachineBus M V A) → b.dma.active ≡ false → transfer mapper video audio b ≡ b
  unfolding transfer
  transfer-idle b idle = rw (transfer, next_address-idle b.dma idle) refl

  -- A cycle without a transfer leaves the work RAM, and no transfer begins.
  tick_m_cycle-idle :
      (b : MachineBus M V A)
      → b.dma.active ≡ false
      → ((tick_m_cycle mapper video audio b).wram ≡ b.wram)
        × ((tick_m_cycle mapper video audio b).dma.active ≡ false)
  unfolding tick_m_cycle request_on
  tick_m_cycle-idle b idle =
      let same =
        transfer-idle
          (record b { elapsed_t_cycles = b.elapsed_t_cycles + 4; timer = (Timer.tick 4 b.timer).0 })
          idle in
      (ap (λ c. c.wram) same, ap (λ c. c.dma.active) same ∙ idle)

  write8-work :
      (b : MachineBus M V A) (a v : ℕ)
      → b.dma.active ≡ false
      → IsWork a
      → write8 mapper video audio b a v
        ≡ write_unclocked mapper video audio (tick_m_cycle mapper video audio b) a v
  unfolding write8
  write8-work b a v idle h =
      let late : is_early mapper video audio a ≡ false = ground arith in
      rw (allowed_idle b.dma.active (in_hram a || a == 0xff46) idle, late) refl

  peek8-work :
      (b : MachineBus M V A) (a : ℕ)
      → b.dma.active ≡ false
      → IsWork a
      → peek8 mapper video audio b a ≡ get_or b.wram (work_cell a) 0
  unfolding peek8
  peek8-work b a idle h = rw (gate_open b.dma.active (not (in_hram a)) idle) (read-work b a h)

  -- With no transfer running, a read in work RAM or its echo, after a write there, gives the value
  -- written where both addresses stand for the same place, and what it gave before where they do not.
  pub peek8-write8 :
      (b : MachineBus M V A) (a a' v : ℕ)
      → b.dma.active ≡ false
      → length b.wram ≡ 0x2000
      → IsWork a
      → IsWork a'
      → peek8 mapper video audio (write8 mapper video audio b a v) a'
        ≡ (if work_cell a == work_cell a' then v else peek8 mapper video audio b a')
  peek8-write8 b a a' v idle full h h' =
      let ticked = tick_m_cycle-idle b idle in
      let written = write-work (tick_m_cycle mapper video audio b) a v h in
      rw
        (
          write8-work b a v idle h,
          peek8-work b a' idle h',
          peek8-work (write_unclocked mapper video audio (tick_m_cycle mapper video audio b) a v) a'
              (written.1 ∙ ticked.1) h',
          written.0,
          ticked.0,
        )
        (lookup b.wram (work_cell a) (work_cell a') v (rw full cell_lt))
    where
      cell_lt : work_cell a < 0x2000
      cell_lt = work_cell-lt a
