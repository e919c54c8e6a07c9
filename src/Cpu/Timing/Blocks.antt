-- ===== src/Cpu/Timing/Blocks.antt =====
-- The clocks of each block of `execute_base` against its entry in the table of `decode`.
use pockiva.Prelude.{
  ℕ, ◌+◌, ◌/◌, ◌%◌, ◌^◌, ◌≤◌, ◌<◌, bit_and, bit_or, ◌≡◌, Bool, arith, if◌then◌else◌, not8,
}
use pockiva.Prelude.Bits.{bit_and_mask}
use pockiva.Cpu.Registers.{inc8, dec8, contains, flag_c}
use pockiva.Cpu.Alu.{rotate, rotate_flags}
use pockiva.Cpu.Decode.{
  Metadata, metadata0, metadata1, metadata2, metadata3, base_metadata, prefixed_cycles, x_of, y_of,
  z_of,
}
use pockiva.Cpu.State.{CpuBus, System, fetch8, read_r, set_f}
use pockiva.Cpu.Execute.{
  store_sp, jump_relative, load_pair, load_indirect, step_pair, step_byte, load_immediate, execute0,
  halt, execute1, execute2, return_or_high, pop_or_return, jump_or_load, jump_or_ime, call_address,
  call_if, push_or_call, execute3, execute_base, execute_cb,
}
use pockiva.Cpu.Timing.Access.{
  ClockLaws, clock, fetch8-clock, fetch16-clock, read_r-clock, write_r-clock, push-clock, pop-clock,
}

module _ {B : Type 0} (bus : CpuBus B) where
  -- The clock does not go back; the clocks so far, the four of the opcode's fetch included, stay within the table's entry, and
  -- what is left is a number of whole cycles.
  abbrev pub Within : System B → Bool × System B → Metadata → Type 0
  Within s (taken, s') (_, cycles, not_taken) =
      let target = if taken then cycles else not_taken in
      (clock bus s ≤ clock bus s')
      × (clock bus s' + 4 ≤ clock bus s + target)
      × (clock bus s' % 4 ≡ clock bus s % 4)
      × (target % 4 ≡ 0)

module _ {B : Type 0} (bus : CpuBus B) (laws : ClockLaws bus) where
  store_sp-clock : (s : System B) → clock bus (store_sp bus s).1 ≡ clock bus s + 16
  unfolding store_sp
  store_sp-clock s = omega (arith, fetch16-clock bus laws, laws.write_cost)

  jump_relative-Within :
      (y : ℕ) (s : System B) → Within bus s (jump_relative bus y s) (metadata0 0 y)
  unfolding jump_relative metadata0
  jump_relative-Within y s =
      ground (arith, fetch8-clock bus laws s, store_sp-clock s, laws.reset_cost s.bus)

  load_pair-Within :
      (y : ℕ) (s : System B) → Within bus s (load_pair bus (y / 2) (bit_and y 1) s) (metadata0 1 y)
  unfolding load_pair metadata0
  load_pair-Within y s = ground (arith, fetch16-clock bus laws s)

  load_indirect-Within :
      (y : ℕ) (s : System B)
      → Within bus s (load_indirect bus (y / 2) (bit_and y 1) s) (metadata0 2 y)
  unfolding load_indirect metadata0
  load_indirect-Within y s = grind (arith, laws.read_cost, laws.write_cost)

  step_pair-Within :
      (y : ℕ) (s : System B) → Within bus s (step_pair bus (y / 2) (bit_and y 1) s) (metadata0 3 y)
  unfolding step_pair metadata0
  step_pair-Within y s = ground arith

  step_byte-Within :
      (operation : ℕ → Bool → ℕ × ℕ) (z y : ℕ) (s : System B)
      → 4 ≤ z
      → z ≤ 5
      → Within bus s (step_byte bus operation y s) (metadata0 z y)
  unfolding step_byte metadata0
  step_byte-Within operation z y s low high =
      grind (arith, read_r-clock bus laws, write_r-clock bus laws)

  load_immediate-Within :
      (y : ℕ) (s : System B) → Within bus s (load_immediate bus y s) (metadata0 6 y)
  unfolding load_immediate metadata0
  load_immediate-Within y s = grind (arith, fetch8-clock bus laws, write_r-clock bus laws)

  accumulator-Within :
      (z y : ℕ) (s : System B) → 6 < z → z < 8 → Within bus s (execute0 bus z y s) (metadata0 z y)
  unfolding execute0 metadata0
  accumulator-Within z y s low high = ground arith

  execute0-Within :
      (z y : ℕ) (s : System B) → z < 8 → Within bus s (execute0 bus z y s) (metadata0 z y)
  unfolding execute0
  execute0-Within z y s h = ground (
    arith,
    jump_relative-Within y s,
    load_pair-Within y s,
    load_indirect-Within y s,
    step_pair-Within y s,
    step_byte-Within inc8 z y s,
    step_byte-Within dec8 z y s,
    load_immediate-Within y s,
    accumulator-Within z y s,
  )

  execute1-Within :
      (opcode : ℕ) (s : System B)
      → x_of opcode ≡ 1
      → Within bus s
          (execute1 bus opcode (z_of opcode) (y_of opcode) s)
          (metadata1 opcode (z_of opcode) (y_of opcode))
  unfolding execute1 metadata1 halt
  execute1-Within opcode s e =
      let value = (read_r bus (z_of opcode) s).0 in
      let s' = (read_r bus (z_of opcode) s).1 in
      ground (
        arith,
        bit_and_mask 3 opcode,
        bit_and_mask 3 (opcode / 8),
        read_r-clock bus laws (z_of opcode) s,
        write_r-clock bus laws (y_of opcode) value s',
      )

  execute2-Within : (z y : ℕ) (s : System B) → Within bus s (execute2 bus z y s) (metadata2 z)
  unfolding execute2 metadata2
  execute2-Within z y s = grind (arith, read_r-clock bus laws)

  return_or_high-Within :
      (y : ℕ) (s : System B) → Within bus s (return_or_high bus y s) (metadata3 0 y)
  unfolding return_or_high metadata3
  return_or_high-Within y s =
      let (offset, s') = fetch8 bus s in
      ground (
        arith,
        fetch8-clock bus laws s,
        pop-clock bus laws s,
        laws.read_cost s'.bus (bit_or 0xff00 offset),
        laws.write_cost s'.bus (bit_or 0xff00 offset) s'.cpu.registers.a,
      )

  pop_or_return-Within :
      (y : ℕ) (s : System B)
      → y < 8
      → Within bus s (pop_or_return bus (y / 2) (bit_and y 1) s) (metadata3 1 y)
  unfolding pop_or_return metadata3
  pop_or_return-Within y s h = ground (arith, pop-clock bus laws s)

  jump_or_load-Within :
      (y : ℕ) (s : System B) → y < 8 → Within bus s (jump_or_load bus y s) (metadata3 2 y)
  unfolding jump_or_load metadata3
  jump_or_load-Within y s h = grind (arith, fetch16-clock bus laws, laws.read_cost, laws.write_cost)

  jump_or_ime-Within : (y : ℕ) (s : System B) → Within bus s (jump_or_ime bus y s) (metadata3 3 y)
  unfolding jump_or_ime metadata3
  jump_or_ime-Within y s = ground (arith, fetch16-clock bus laws s)

  call_address-clock :
      (address : ℕ) (s : System B) → clock bus (call_address bus address s).1 ≡ clock bus s + 8
  unfolding call_address
  call_address-clock address s = omega (arith, push-clock bus laws)

  call_if-Within : (y : ℕ) (s : System B) → Within bus s (call_if bus y s) (metadata3 4 y)
  unfolding call_if metadata3
  call_if-Within y s = grind (arith, fetch16-clock bus laws, call_address-clock)

  push_or_call-Within :
      (y : ℕ) (s : System B)
      → Within bus s (push_or_call bus (y / 2) (bit_and y 1) s) (metadata3 5 y)
  unfolding push_or_call metadata3
  push_or_call-Within y s =
      grind (arith, fetch16-clock bus laws, call_address-clock, push-clock bus laws)

  alu_immediate-Within :
      (z y : ℕ) (s : System B) → 5 < z → z < 8 → Within bus s (execute3 bus z y s) (metadata3 z y)
  unfolding execute3 metadata3
  alu_immediate-Within z y s p q = grind (arith, fetch8-clock bus laws, call_address-clock)

  execute3-Within :
      (z y : ℕ) (s : System B) → z < 8 → y < 8 → Within bus s (execute3 bus z y s) (metadata3 z y)
  unfolding execute3
  execute3-Within z y s hz hy = ground (
    arith,
    return_or_high-Within y s,
    pop_or_return-Within y s,
    jump_or_load-Within y s,
    jump_or_ime-Within y s,
    call_if-Within y s,
    push_or_call-Within y s,
    alu_immediate-Within z y s,
  )

  -- Every opcode's accesses, its fetch included, stay within its entry in the table for the branch taken,
  -- and what is left is a number of whole machine cycles.
  pub execute_base-Within :
      (opcode : ℕ) (s : System B)
      → opcode < 256
      → Within bus s (execute_base bus opcode s) (base_metadata opcode)
  unfolding execute_base base_metadata
  execute_base-Within opcode s h = ground (
    arith,
    bit_and_mask 3 opcode,
    bit_and_mask 3 (opcode / 8),
    execute0-Within (z_of opcode) (y_of opcode) s,
    execute1-Within opcode s,
    execute2-Within (z_of opcode) (y_of opcode) s,
    execute3-Within (z_of opcode) (y_of opcode) s,
  )

  -- A prefixed opcode's accesses, both fetches included, stay within its entry, and what is left is a
  -- number of whole machine cycles.
  pub execute_cb-Within :
      (opcode : ℕ) (s : System B)
      → opcode < 256
      → let s' = (execute_cb bus opcode s).1 in
        (clock bus s ≤ clock bus s')
        × (clock bus s' + 8 ≤ clock bus s + prefixed_cycles opcode)
        × (clock bus s' % 4 ≡ clock bus s % 4)
        × (prefixed_cycles opcode % 4 ≡ 0)
  unfolding execute_cb prefixed_cycles
  execute_cb-Within opcode s h =
      let y = y_of opcode in
      let z = z_of opcode in
      let (value, s1) = read_r bus z s in
      let (result, carry) = rotate y value (contains s1.cpu.registers.f flag_c) in
      ground (
        arith,
        read_r-clock bus laws z s,
        write_r-clock bus laws z result (set_f (rotate_flags result carry) s1).1,
        write_r-clock bus laws z (bit_and value (not8 (2 ^ y))) s1,
        write_r-clock bus laws z (bit_or value (2 ^ y)) s1,
      )
