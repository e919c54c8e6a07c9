-- ===== src/Interrupts.antt =====
-- crates/gb-core/src/interrupts.rs: interrupt sources, masks of them, and the IE and IF registers.
-- `InterruptMask(u8)` is its bits, a number.
pub mod Laws
mod Tests
use pockiva.Prelude.{
  ℕ, ◌==◌, bit_and, bit_or, not8, Bool, Option, none, some, not, if◌then◌else◌, List, [], ◌∷◌,
}

pub data Interrupt : Type 0 where
  vblank lcd_stat timer serial joypad : Interrupt

unfoldable pub bit : Interrupt → ℕ
bit vblank = 0x01
bit lcd_stat = 0x02
bit timer = 0x04
bit serial = 0x08
bit joypad = 0x10

unfoldable pub vector : Interrupt → ℕ
vector vblank = 0x0040
vector lcd_stat = 0x0048
vector timer = 0x0050
vector serial = 0x0058
vector joypad = 0x0060

abbrev pub InterruptMask : Type 0
InterruptMask = ℕ

-- `InterruptMask::default()`
abbrev pub no_interrupt : InterruptMask
no_interrupt = 0

unfoldable pub from_bits : ℕ → InterruptMask
from_bits bits = bit_and bits 0x1f

unfoldable pub union : InterruptMask → InterruptMask → InterruptMask
unfolding from_bits
union a b = from_bits (bit_or a b)

unfoldable pub intersection : InterruptMask → InterruptMask → InterruptMask
unfolding from_bits
intersection a b = from_bits (bit_and a b)

unfoldable pub without : InterruptMask → InterruptMask → InterruptMask
unfolding from_bits
without a b = from_bits (bit_and a (not8 b))

-- `self.0 & interrupt.bit() != 0`
unfoldable pub contains : InterruptMask → Interrupt → Bool
unfolding bit
contains mask i = not (bit_and mask (bit i) == 0)

-- `.into_iter().find(…)`
find : InterruptMask → List Interrupt → Option Interrupt
find mask [] = none
find mask (i ∷ is) = if contains mask i then some i else find mask is

unfoldable pub highest_priority : InterruptMask → Option Interrupt
unfolding find
highest_priority mask = find mask (vblank ∷ lcd_stat ∷ timer ∷ serial ∷ joypad ∷ [])

pub record InterruptRegisters : Type 0 where
  pub enable : InterruptMask
  pub flags : InterruptMask

abbrev pub default_registers : InterruptRegisters
default_registers = record { enable = 0; flags = 0 }

unfoldable pub read_if : InterruptRegisters → ℕ
read_if r = bit_or 0xe0 r.flags

unfoldable pub read_ie : InterruptRegisters → ℕ
read_ie r = r.enable

unfoldable pub write_if : InterruptRegisters → ℕ → InterruptRegisters
unfolding from_bits
write_if r value = record r { flags = from_bits value }

unfoldable pub write_ie : InterruptRegisters → ℕ → InterruptRegisters
unfolding from_bits
write_ie r value = record r { enable = from_bits value }

unfoldable pub request : InterruptRegisters → InterruptMask → InterruptRegisters
unfolding union
request r mask = record r { flags = union r.flags mask }

unfoldable pub pending : InterruptRegisters → InterruptMask
unfolding intersection
pending r = intersection r.enable r.flags

unfoldable pub acknowledge : InterruptRegisters → Interrupt → InterruptRegisters
unfolding without from_bits bit
acknowledge r i = record r { flags = without r.flags (from_bits (bit i)) }
