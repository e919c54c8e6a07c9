-- ===== src/Cpu/Alu.antt =====
-- The arithmetic of crates/gb-core/src/cpu/execute.rs on the registers: `alu`, `add_hl`, `add_sp`,
-- `accumulator_misc`, and the rotations of the prefixed opcodes.
use pockiva.Prelude.{
  ℕ, ◌+◌, ◌*◌, ◌/◌, ◌%◌, ◌^◌, bit_and, bit_or, bit_xor, Bool, true, false, not, ltb, ◌==◌,
  if◌then◌else◌, from_bool, add16_wrap, not8, add_signed,
}
use pockiva.Cpu.Registers.{
  Registers, Flags, flag_z, flag_n, flag_h, flag_c, no_flags, contains, set_flag, hl, set_hl, add8,
  sub8, daa,
}

-- `x << 1`, `x >> 1`, `rotate_left(1)`, `rotate_right(1)` and `rotate_left(4)` of `u8`
abbrev pub shift_left : ℕ → ℕ
shift_left x = x * 2 % 256

abbrev pub shift_right : ℕ → ℕ
shift_right x = x / 2

abbrev pub rotate_left : ℕ → ℕ
rotate_left x = x * 2 % 256 + x / 128

abbrev pub rotate_right : ℕ → ℕ
rotate_right x = x / 2 + x % 2 * 128

abbrev pub swap_nibbles : ℕ → ℕ
swap_nibbles x = x * 16 % 256 + x / 16

-- `x & 0x80 != 0` and `x & 1 != 0`
abbrev pub top_bit : ℕ → Bool
top_bit x = not (bit_and x 0x80 == 0)

abbrev pub low_bit : ℕ → Bool
low_bit x = not (bit_and x 1 == 0)

abbrev with_result : Registers → ℕ × Flags → Registers
with_result r (result, flags) = record r { a = result; f = flags }

unfoldable pub alu : Registers → ℕ → ℕ → Registers
unfolding contains set_flag
alu r operation value =
    let carry = contains r.f flag_c in
    if operation == 0
    then with_result r (add8 r.a value false)
    else if operation == 1
    then with_result r (add8 r.a value carry)
    else if operation == 2
    then with_result r (sub8 r.a value false)
    else if operation == 3
    then with_result r (sub8 r.a value carry)
    else if operation == 4
    then (let result = bit_and r.a value in
        record r { a = result; f = set_flag flag_h flag_z (result == 0) })
    else if operation == 5
    then (let result = bit_xor r.a value in
        record r { a = result; f = set_flag no_flags flag_z (result == 0) })
    else if operation == 6
    then (let result = bit_or r.a value in
        record r { a = result; f = set_flag no_flags flag_z (result == 0) })
    else record r { f = (sub8 r.a value false).1 }

unfoldable pub add_hl : Registers → ℕ → Registers
unfolding contains set_flag hl set_hl
add_hl r value =
    let old = hl r in
    let result = add16_wrap old value in
    let f1 = set_flag no_flags flag_z (contains r.f flag_z) in
    let f2 = set_flag f1 flag_h (ltb 0x0fff (bit_and old 0x0fff + bit_and value 0x0fff)) in
    let f3 = set_flag f2 flag_c (ltb 0xffff (old + value)) in record (set_hl r result) { f = f3 }

-- `offset` is the byte of the `i8`.
unfoldable pub add_sp : Registers → ℕ → Bool → Registers
unfolding set_flag set_hl
add_sp r offset to_sp =
    let result = add_signed r.sp offset in
    let f1 = set_flag no_flags flag_h (ltb 0x0f (bit_and r.sp 0x0f + bit_and offset 0x0f)) in
    let f2 = set_flag f1 flag_c (ltb 0xff (bit_and r.sp 0xff + bit_and offset 0xff)) in
    let r' = record r { f = f2 } in if to_sp then record r' { sp = result } else set_hl r' result

unfoldable pub accumulator_misc : Registers → ℕ → Registers
unfolding contains set_flag
accumulator_misc r operation =
    let carry = contains r.f flag_c in
    let old = r.a in
    let with_carry : ℕ → Bool → Registers =
      λ result out. record r { a = result; f = set_flag no_flags flag_c out } in
    if operation == 0
    then with_carry (rotate_left old) (top_bit old)
    else if operation == 1
    then with_carry (rotate_right old) (low_bit old)
    else if operation == 2
    then with_carry (bit_or (shift_left old) (from_bool carry)) (top_bit old)
    else if operation == 3
    then with_carry (bit_or (shift_right old) (from_bool carry * 128)) (low_bit old)
    else if operation == 4
    then with_result r (daa old r.f)
    else if operation == 5
    then record r { a = not8 old; f = set_flag (set_flag r.f flag_n true) flag_h true }
    else if operation == 6
    then record r { f = set_flag flag_c flag_z (contains r.f flag_z) }
    else record r {
      f = set_flag (set_flag no_flags flag_z (contains r.f flag_z)) flag_c (not carry);
    }

-- The rotations and shifts of the prefixed opcodes: the result and the carry out.
unfoldable pub rotate : ℕ → ℕ → Bool → ℕ × Bool
rotate y value carry =
    if y == 0
    then (rotate_left value, top_bit value)
    else if y == 1
    then (rotate_right value, low_bit value)
    else if y == 2
    then (bit_or (shift_left value) (from_bool carry), top_bit value)
    else if y == 3
    then (bit_or (shift_right value) (from_bool carry * 128), low_bit value)
    else if y == 4
    then (shift_left value, top_bit value)
    else if y == 5
    then (bit_or (shift_right value) (bit_and value 0x80), low_bit value)
    else if y == 6
    then (swap_nibbles value, false)
    else (shift_right value, low_bit value)

unfoldable pub rotate_flags : ℕ → Bool → Flags
unfolding set_flag
rotate_flags result carry = set_flag (set_flag no_flags flag_z (result == 0)) flag_c carry

-- The flags of `BIT y`.
unfoldable pub bit_flags : ℕ → ℕ → Flags → Flags
unfolding contains set_flag
bit_flags y value f =
    set_flag (set_flag flag_h flag_z (bit_and value (2 ^ y) == 0)) flag_c (contains f flag_c)
