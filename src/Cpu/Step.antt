-- ===== src/Cpu/Step.antt =====
-- crates/gb-core/src/cpu/execute.rs: the prediction of a step, `next_step_t_cycles`, and `step`.
-- The bus clock is a number of clocks since power-on; the conversions to `u32` are not cut off.
use pockiva.Prelude.{
  ℕ, zero, suc, ◌-◌, Bool, true, false, not, ◌&&◌, ◌||◌, none, some, ltb, ◌==◌, if◌then◌else◌,
  add16_wrap,
}
use pockiva.Contracts.{illegal_opcode, Result, ok, err, panic}
use pockiva.Interrupts.{InterruptMask, from_bits, intersection, bit, joypad, highest_priority}
use pockiva.Cpu.Registers.{Flags, flag_z, flag_c, contains}
use pockiva.Cpu.Decode.{DecodedInstruction, decode}
use pockiva.Cpu.Execute.{execute_base, execute_cb, service_interrupt}
use pockiva.Cpu.State.{CpuBus, CpuMode, running, halted, stopped, Cpu, System, idle, fetch8}

abbrev pub is_stopped : CpuMode → Bool
is_stopped stopped = true
is_stopped _ = false

abbrev pub is_halted : CpuMode → Bool
is_halted halted = true
is_halted _ = false

unfoldable pub wake_capable_interrupts : Cpu → InterruptMask → InterruptMask
unfolding intersection from_bits bit
wake_capable_interrupts c pending =
    if is_stopped c.mode then intersection pending (from_bits (bit joypad)) else pending

-- The opcodes of a column of the conditional jumps, calls and returns.
abbrev pub one_of : ℕ → ℕ → ℕ → ℕ → ℕ → Bool
one_of o w x y z = o == w || (o == x || (o == y || o == z))

unfoldable pub branch_taken : Flags → ℕ → Bool
unfolding contains
branch_taken f opcode =
    if one_of opcode 0x20 0xc0 0xc2 0xc4
    then not (contains f flag_z)
    else if one_of opcode 0x28 0xc8 0xca 0xcc
    then contains f flag_z
    else if one_of opcode 0x30 0xd0 0xd2 0xd4
    then not (contains f flag_c)
    else if one_of opcode 0x38 0xd8 0xda 0xdc
    then contains f flag_c
    else true

-- The address of a prefixed opcode's second byte.
unfoldable pub prefixed_address : Cpu → ℕ
prefixed_address c = if c.halt_bug then c.registers.pc else add16_wrap c.registers.pc 1

-- The delayed effect of EI.
unfoldable pub enable_ime : Cpu → Cpu
enable_ime c =
    if ltb 0 c.ime_enable_delay
    then (let delay = c.ime_enable_delay - 1 in
        record c { ime_enable_delay = delay; ime = if delay == 0 then true else c.ime })
    else c

module _ {B : Type 0} (bus : CpuBus B) where
  open bus use {peek8, pending_interrupts, elapsed_t_cycles, idle_m_cycle}

  unfoldable pub decode_next : System B → DecodedInstruction
  decode_next s =
      let opcode = peek8 s.bus s.cpu.registers.pc in
      if opcode == 0xcb
      then decode (peek8 s.bus (prefixed_address s.cpu)) true
      else decode opcode false

  unfoldable pub predict_instruction : System B → Result ℕ
  predict_instruction s =
      let opcode = peek8 s.bus s.cpu.registers.pc in
      let decoded = decode_next s in
      if decoded.illegal
      then err (illegal_opcode opcode s.cpu.registers.pc)
      else ok (
          if branch_taken s.cpu.registers.f opcode
          then decoded.cycles_taken
          else decoded.cycles_not_taken)

  unfoldable pub next_step_t_cycles : System B → Result ℕ
  next_step_t_cycles s =
      let pending = wake_capable_interrupts s.cpu (pending_interrupts s.bus) in
      if is_stopped s.cpu.mode && (pending == 0)
      then ok 0
      else if s.cpu.ime && not (pending == 0)
      then ok 20
      else if is_halted s.cpu.mode && (pending == 0)
      then ok 4
      else predict_instruction s

  unfoldable pub elapsed : System B → ℕ → ℕ
  elapsed s start = elapsed_t_cycles s.bus - start

  -- The `while` loop of `pad_to`, on fuel.
  unfoldable pub pad_loop : ℕ → ℕ → ℕ → System B → System B
  unfolding elapsed
  pad_loop zero start target s = s
  pad_loop (suc fuel) start target s =
      let rest = pad_loop fuel start target (idle bus s).1 in
      if ltb (elapsed s start) target then rest else s

  -- Each round takes a clock at least, so `target` rounds are enough.
  unfoldable pub pad_to : ℕ → ℕ → System B → System B
  unfolding pad_loop
  pad_to start target s = pad_loop target start target s

  -- The part of `step` after the dispatch on the mode.
  unfoldable pub run_instruction : ℕ → System B → Result (System B)
  run_instruction start s =
      let opcode_address = s.cpu.registers.pc in
      let (opcode, s1) = fetch8 bus s in
      if opcode == 0xcb
      then (let (prefixed, s2) = fetch8 bus s1 in
          let (_, s3) = execute_cb bus prefixed s2 in
          ok (pad_to start ((decode prefixed true).cycles_taken) s3))
      else (let decoded = decode opcode false in
          if decoded.illegal
          then err (illegal_opcode opcode opcode_address)
          else (let (taken, s2) = execute_base bus opcode s1 in
              ok (
                pad_to start (if taken then decoded.cycles_taken else decoded.cycles_not_taken)
                  s2)))

  -- `Ok(StepResult)` is the clocks taken and the state; an error leaves no state of use.
  unfoldable pub finish : ℕ → Result (System B) → Result (ℕ × System B)
  unfolding elapsed enable_ime
  finish start (err e) = err e
  finish start panic = panic
  finish start (ok s) = let s' = record s { cpu = enable_ime s.cpu } in ok (elapsed s' start, s')

  -- A pending interrupt is served before anything else.
  unfoldable pub service_pending : ℕ → InterruptMask → System B → Result (ℕ × System B)
  unfolding elapsed
  service_pending start pending s = elim (highest_priority pending) [
    | none ↦ panic
    | some i ↦ let s' = (service_interrupt bus i s).1 in ok (elapsed s' start, s')
  ]

  unfoldable pub step : System B → Result (ℕ × System B)
  unfolding elapsed
  step s =
      let start = elapsed_t_cycles s.bus in
      let pending = wake_capable_interrupts s.cpu (pending_interrupts s.bus) in
      let awake = record s { cpu = record (s.cpu) { mode = running } } in
      let instruction = finish start (run_instruction start awake) in
      if s.cpu.ime && not (pending == 0)
      then service_pending start pending s
      else if is_stopped s.cpu.mode && (pending == 0)
      then ok (0, s)
      else if is_halted s.cpu.mode && (pending == 0)
      then (let s' = (idle bus s).1 in ok (elapsed s' start, s'))
      else instruction
