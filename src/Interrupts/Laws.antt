-- ===== src/Interrupts/Laws.antt =====
-- Masks as sets of sources, and the priority among them.
use pockiva.Prelude.{
  ℕ, ◌^◌, ◌<◌, bit_and, bit_or, ◌≡◌, refl, Bool, true, false, not, ◌&&◌, ◌||◌, Option, none, some,
  arith, ltb, ◌==◌, not8,
}
use pockiva.Prelude.Bits.{
  bit_at, bit_and-pow, bit_at-bit_and, bit_at-bit_or, bit_and-le, all_below, all_below_sound,
}
use pockiva.Interrupts.{
  Interrupt, vblank, lcd_stat, timer, serial, joypad, bit, InterruptMask, from_bits, union,
  intersection, without, contains, find, highest_priority, InterruptRegisters, request, pending,
  acknowledge,
}

abbrev is_some : Option Interrupt → Bool
is_some none = false
is_some (some _) = true

-- The place of a source in a mask, which is also its rank: 0 comes first.
abbrev pub index : Interrupt → ℕ
index vblank = 0
index lcd_stat = 1
index timer = 2
index serial = 3
index joypad = 4

pub index-lt : (i : Interrupt) → index i < 5
index-lt vblank = omega arith
index-lt _ = omega arith

bit-pow : (i : Interrupt) → bit i ≡ 2 ^ index i
unfolding bit
bit-pow vblank = refl
bit-pow _ = refl

-- A source is in a mask when its bit is set.
pub contains_lem :
    (mask : InterruptMask) (i : Interrupt) → contains mask i ≡ (bit_at (index i) mask == 1)
unfolding contains bit
contains_lem mask vblank = ground (arith, bit_and-pow 0 mask)
contains_lem mask lcd_stat = ground (arith, bit_and-pow 1 mask)
contains_lem mask timer = ground (arith, bit_and-pow 2 mask)
contains_lem mask serial = ground (arith, bit_and-pow 3 mask)
contains_lem mask joypad = ground (arith, bit_and-pow 4 mask)

-- The five low bits are kept.
bit_at-from_bits : (x : ℕ) (i : Interrupt) → bit_at (index i) (from_bits x) ≡ bit_at (index i) x
unfolding from_bits
bit_at-from_bits x vblank = omega (arith, bit_at-bit_and 0 x 0x1f)
bit_at-from_bits x lcd_stat = omega (arith, bit_at-bit_and 1 x 0x1f)
bit_at-from_bits x timer = omega (arith, bit_at-bit_and 2 x 0x1f)
bit_at-from_bits x serial = omega (arith, bit_at-bit_and 3 x 0x1f)
bit_at-from_bits x joypad = omega (arith, bit_at-bit_and 4 x 0x1f)

pub from_bits-lt : (x : ℕ) → from_bits x < 32
unfolding from_bits
from_bits-lt x = omega (arith, bit_and-le x 0x1f)

pub contains-from_bits : (x : ℕ) (i : Interrupt) → contains (from_bits x) i ≡ contains x i
contains-from_bits x i = rw (contains_lem (from_bits x) i, contains_lem x i, bit_at-from_bits x i)

-- `union` holds the sources of either mask.
pub contains-union :
    (a b : InterruptMask) (i : Interrupt) → contains (union a b) i ≡ (contains a i || contains b i)
unfolding union
contains-union a b i = ground (
  arith,
  contains-from_bits (bit_or a b) i,
  contains_lem (bit_or a b) i,
  contains_lem a i,
  contains_lem b i,
  bit_at-bit_or (index i) a b,
)

-- `intersection` holds the sources of both masks.
pub contains-intersection :
    (a b : InterruptMask) (i : Interrupt)
    → contains (intersection a b) i ≡ (contains a i && contains b i)
unfolding intersection
contains-intersection a b i = ground (
  arith,
  contains-from_bits (bit_and a b) i,
  contains_lem (bit_and a b) i,
  contains_lem a i,
  contains_lem b i,
  bit_at-bit_and (index i) a b,
)

contains-cleared :
    (i j : Interrupt) → contains (not8 (from_bits (bit i))) j ≡ not (index i == index j)
unfolding contains from_bits bit
contains-cleared vblank vblank = refl
contains-cleared vblank _ = refl
contains-cleared lcd_stat vblank = refl
contains-cleared lcd_stat _ = refl
contains-cleared timer vblank = refl
contains-cleared timer _ = refl
contains-cleared serial vblank = refl
contains-cleared serial _ = refl
contains-cleared joypad vblank = refl
contains-cleared joypad _ = refl

-- Acknowledging an interrupt removes it from the requested ones and leaves every other as it was;
-- the enabled ones are untouched.
pub acknowledge-flags :
    (r : InterruptRegisters) (i j : Interrupt)
    → (contains (acknowledge r i).flags j ≡ (contains r.flags j && not (index i == index j)))
      × ((acknowledge r i).enable ≡ r.enable)
unfolding acknowledge without
acknowledge-flags r i j = (
  ground (
    arith,
    contains-from_bits (bit_and r.flags (not8 (from_bits (bit i)))) j,
    contains_lem (bit_and r.flags (not8 (from_bits (bit i)))) j,
    contains_lem r.flags j,
    contains_lem (not8 (from_bits (bit i))) j,
    contains-cleared i j,
    bit_at-bit_and (index j) r.flags (not8 (from_bits (bit i))),
  ),
  refl,
)

-- A source is pending exactly when it is enabled and requested; requesting a mask adds exactly the
-- sources of the mask to those requested.
pub contains-pending :
    (r : InterruptRegisters) (mask : InterruptMask) (i : Interrupt)
    → (contains (pending r) i ≡ (contains r.enable i && contains r.flags i))
      × (contains (request r mask).flags i ≡ (contains r.flags i || contains mask i))
unfolding pending request
contains-pending r mask i =
    (contains-intersection r.enable r.flags i, contains-union r.flags mask i)

pub pending-lt : (r : InterruptRegisters) → pending r < 32
unfolding pending intersection
pending-lt r = from_bits-lt (bit_and r.enable r.flags)

chosen_contained :
    (mask : InterruptMask) {i : Interrupt} → highest_priority mask ≡ some i → contains mask i ≡ true
unfolding highest_priority
chosen_contained mask h = ground arith

lower_absent :
    (mask : InterruptMask) {i : Interrupt} (j : Interrupt)
    → highest_priority mask ≡ some i
    → index j < index i
    → contains mask j ≡ false
unfolding highest_priority
lower_absent mask vblank h l = ground arith
lower_absent mask _ h l = ground arith

-- The chosen source is in the mask, and no source of a lower place is.
pub highest_priority-some :
    (mask : InterruptMask) {i : Interrupt} (j : Interrupt)
    → highest_priority mask ≡ some i
    → (contains mask i ≡ true) × ((ltb (index j) (index i) && contains mask j) ≡ false)
highest_priority-some mask {i = i} j h =
    (chosen_contained mask h, ground (arith, lower_absent mask {i = i} j h))

empty_table : all_below 32 (λ m. (m == 0) || is_some (highest_priority m)) ≡ true
unfolding all_below highest_priority find contains bit
empty_table = refl

-- A mask of the five sources has a source of highest priority unless it is empty.
pub highest_priority-none :
    (mask : InterruptMask) → mask < 32 → highest_priority mask ≡ none → mask ≡ 0
highest_priority-none mask h e =
    ground
      (arith, all_below_sound 32 (λ m. (m == 0) || is_some (highest_priority m)) mask empty_table)
