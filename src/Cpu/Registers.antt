-- ===== src/Cpu/Registers.antt =====
-- crates/gb-core/src/cpu/registers.rs: the flags, the register file and the 8-bit arithmetic.
-- `Flags(u8)` is its bits; a byte or a word is a number.
use pockiva.Prelude.{
  ℕ, ◌+◌, ◌%◌, bit_and, bit_or, Bool, not, ◌&&◌, ◌||◌, ltb, ◌==◌, if◌then◌else◌, from_bool,
  add8_wrap, sub8_wrap, not8, from_bytes16, high_byte, low_byte,
}

abbrev pub Flags : Type 0
Flags = ℕ

abbrev pub flag_z : Flags
flag_z = 0x80

abbrev pub flag_n : Flags
flag_n = 0x40

abbrev pub flag_h : Flags
flag_h = 0x20

abbrev pub flag_c : Flags
flag_c = 0x10

-- `Flags::default()`
abbrev pub no_flags : Flags
no_flags = 0

unfoldable pub from_bits : ℕ → Flags
from_bits bits = bit_and bits 0xf0

unfoldable pub contains : Flags → Flags → Bool
contains f other = not (bit_and f other == 0)

unfoldable pub union : Flags → Flags → Flags
unfolding from_bits
union f other = from_bits (bit_or f other)

unfoldable pub set_flag : Flags → Flags → Bool → Flags
set_flag f flag enabled = if enabled then bit_or f flag else bit_and f (not8 flag)

pub record Registers : Type 0 where
  pub a : ℕ
  pub f : Flags
  pub b : ℕ
  pub c : ℕ
  pub d : ℕ
  pub e : ℕ
  pub h : ℕ
  pub l : ℕ
  pub sp : ℕ
  pub pc : ℕ

unfoldable pub post_boot_dmg : Registers
unfolding from_bits
post_boot_dmg = record {
  a = 0x01;
  f = from_bits 0xb0;
  b = 0x00;
  c = 0x13;
  d = 0x00;
  e = 0xd8;
  h = 0x01;
  l = 0x4d;
  sp = 0xfffe;
  pc = 0x0100;
}

unfoldable pub af : Registers → ℕ
af r = from_bytes16 r.a r.f

unfoldable pub bc : Registers → ℕ
bc r = from_bytes16 r.b r.c

unfoldable pub de : Registers → ℕ
de r = from_bytes16 r.d r.e

unfoldable pub hl : Registers → ℕ
hl r = from_bytes16 r.h r.l

unfoldable pub set_af : Registers → ℕ → Registers
unfolding from_bits
set_af r value = record r { a = high_byte value; f = from_bits (low_byte value) }

unfoldable pub set_bc : Registers → ℕ → Registers
set_bc r value = record r { b = high_byte value; c = low_byte value }

unfoldable pub set_de : Registers → ℕ → Registers
set_de r value = record r { d = high_byte value; e = low_byte value }

unfoldable pub set_hl : Registers → ℕ → Registers
set_hl r value = record r { h = high_byte value; l = low_byte value }

-- `overflowing_add` of `u8`
abbrev overflowing_add : ℕ → ℕ → ℕ × Bool
overflowing_add x y = (add8_wrap x y, ltb 255 (x + y))

unfoldable pub add8 : ℕ → ℕ → Bool → ℕ × Flags
unfolding set_flag
add8 left right carry =
    let carry_value = from_bool carry in
    let (first, c1) = overflowing_add left right in
    let (result, c2) = overflowing_add first carry_value in
    let f1 = set_flag no_flags flag_z (result == 0) in
    let f2 = set_flag f1 flag_h (ltb 0x0f (bit_and left 0x0f + bit_and right 0x0f + carry_value)) in
    (result, set_flag f2 flag_c (c1 || c2))

unfoldable pub sub8 : ℕ → ℕ → Bool → ℕ × Flags
unfolding set_flag
sub8 left right carry =
    let carry_value = from_bool carry in
    let result = sub8_wrap (sub8_wrap left right) carry_value in
    let f1 = set_flag flag_n flag_z (result == 0) in
    let f2 = set_flag f1 flag_h (ltb (bit_and left 0x0f) (bit_and right 0x0f + carry_value)) in
    (result, set_flag f2 flag_c (ltb left (right + carry_value)))

unfoldable pub inc8 : ℕ → Bool → ℕ × Flags
unfolding set_flag
inc8 value carry =
    let result = add8_wrap value 1 in
    let f1 = set_flag (if carry then flag_c else no_flags) flag_z (result == 0) in
    (result, set_flag f1 flag_h (bit_and value 0x0f == 0x0f))

unfoldable pub dec8 : ℕ → Bool → ℕ × Flags
unfolding set_flag union
dec8 value carry =
    let result = sub8_wrap value 1 in
    let f1 = set_flag (union flag_n (if carry then flag_c else no_flags)) flag_z (result == 0) in
    (result, set_flag f1 flag_h (value % 16 == 0))

unfoldable pub daa : ℕ → Flags → ℕ × Flags
unfolding contains set_flag
daa a flags =
    let n = contains flags flag_n in
    let low : ℕ = if contains flags flag_h || (not n && ltb 9 (bit_and a 0x0f)) then 0x06 else 0 in
    let carry = contains flags flag_c || (not n && ltb 0x99 a) in
    let correction = if carry then bit_or low 0x60 else low in
    let result = if n then sub8_wrap a correction else add8_wrap a correction in
    let f1 = set_flag no_flags flag_z (result == 0) in
    let f2 = set_flag f1 flag_n n in (result, set_flag f2 flag_c carry)
