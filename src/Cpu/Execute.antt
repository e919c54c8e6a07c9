-- ===== src/Cpu/Execute.antt =====
-- crates/gb-core/src/cpu/execute.rs: `execute_base`, `execute_cb` and `service_interrupt`.
-- `execute_base` is one function by blocks of its matches on `x` and `z`; each returns whether the
-- branch is taken.
use pockiva.Prelude.{
  ℕ, ◌-◌, ◌*◌, ◌/◌, ◌^◌, bit_and, bit_or, Bool, true, false, not, ◌&&◌, ltb, leb, ◌==◌,
  if◌then◌else◌, add16_wrap, sub16_wrap, not8, high_byte, low_byte, add_signed,
}
use pockiva.Interrupts.{Interrupt, vector}
use pockiva.Cpu.Registers.{Flags, flag_c, contains, bc, de, hl, set_hl, inc8, dec8}
use pockiva.Cpu.Decode.{x_of, y_of, z_of}
use pockiva.Cpu.Alu.{alu, add_hl, add_sp, accumulator_misc, rotate, rotate_flags, bit_flags}
use pockiva.Cpu.State.{
  CpuBus, running, halted, stopped, Run, Done, pure, ◌>>=◌, ◌>>◌, get_registers, get_cpu, set_cpu,
  set_registers, set_pc, set_a, set_f, condition, rp, set_rp, rp2, set_rp2, read_bus, write_bus,
  idle, fetch8, fetch16, read_r, write_r, push, pop,
}

-- `if condition { then }`, with whether it was taken
abbrev when_taken : {B : Type 0} → Bool → Run B Done → Run B Bool
when_taken taken action s = if taken then (true, (action s).1) else (false, s)

module _ {B : Type 0} (bus : CpuBus B) where
  -- LD (a16),SP
  unfoldable pub store_sp : Run B Done
  store_sp = do
    address ← fetch16 bus
    r ← get_registers
    write_bus bus address (low_byte r.sp)
    write_bus bus (add16_wrap address 1) (high_byte r.sp)

  -- `x` is 0 and `z` is 0: NOP, LD (a16),SP, STOP and the relative jumps
  unfoldable pub jump_relative : ℕ → Run B Bool
  jump_relative y =
      if y == 0
      then pure true
      else if y == 1
      then (do store_sp; pure true)
      else if y == 2
      then (λ s.
          let c = s.cpu in
          let r = c.registers in
          (
            true,
            record {
              cpu = record c { registers = record r { pc = add16_wrap r.pc 1 }; mode = stopped };
              bus = bus.reset_divider s.bus;
            },
          ))
      else if y == 3
      then (do offset ← fetch8 bus; r ← get_registers; set_pc (add_signed r.pc offset); pure true)
      else (do
        offset ← fetch8 bus
        r ← get_registers
        when_taken (condition r (y - 4)) (set_pc (add_signed r.pc offset)))

  -- `x` is 0 and `z` is 1
  unfoldable pub load_pair : ℕ → ℕ → Run B Bool
  load_pair p q =
      if q == 0
      then (do value ← fetch16 bus; r ← get_registers; set_registers (set_rp r p value); pure true)
      else (do r ← get_registers; set_registers (add_hl r (rp r p)); pure true)

  -- `x` is 0 and `z` is 2
  unfoldable pub load_indirect : ℕ → ℕ → Run B Bool
  unfolding set_hl
  load_indirect p q = do
    r ← get_registers
    let address = if p == 0 then bc r else if p == 1 then de r else hl r
    (if q == 0 then write_bus bus address r.a else (do value ← read_bus bus address; set_a value))
    r ← get_registers
    (if p == 2
        then set_registers (set_hl r (add16_wrap address 1))
        else if p == 3
        then set_registers (set_hl r (sub16_wrap address 1))
        else pure tt)
    pure true

  -- `x` is 0 and `z` is 3
  unfoldable pub step_pair : ℕ → ℕ → Run B Bool
  step_pair p q = do
    r ← get_registers
    let value = if q == 0 then add16_wrap (rp r p) 1 else sub16_wrap (rp r p) 1
    set_registers (set_rp r p value)
    pure true

  -- `x` is 0 and `z` is 4 or 5
  unfoldable pub step_byte : (ℕ → Bool → ℕ × Flags) → ℕ → Run B Bool
  step_byte operation y = do
    value ← read_r bus y
    r ← get_registers
    let (result, flags) = operation value (contains r.f flag_c)
    write_r bus y result
    set_f flags
    pure true

  -- `x` is 0 and `z` is 6
  unfoldable pub load_immediate : ℕ → Run B Bool
  load_immediate y = do value ← fetch8 bus; write_r bus y value; pure true

  unfoldable pub execute0 : ℕ → ℕ → Run B Bool
  execute0 z y =
      let p = y / 2 in
      let q = bit_and y 1 in
      if z == 0
      then jump_relative y
      else if z == 1
      then load_pair p q
      else if z == 2
      then load_indirect p q
      else if z == 3
      then step_pair p q
      else if z == 4
      then step_byte inc8 y
      else if z == 5
      then step_byte dec8 y
      else if z == 6
      then load_immediate y
      else (do r ← get_registers; set_registers (accumulator_misc r y); pure true)

  -- HALT: with interrupts off and one pending the halt bug is armed instead.
  unfoldable pub halt : Run B Bool
  halt s =
      let c = s.cpu in
      (
        true,
        record s {
          cpu =
              if not c.ime && not (bus.pending_interrupts s.bus == 0)
              then record c { halt_bug = true }
              else record c { mode = halted };
        },
      )

  unfoldable pub execute1 : ℕ → ℕ → ℕ → Run B Bool
  execute1 opcode z y =
      if opcode == 0x76 then halt else (do value ← read_r bus z; write_r bus y value; pure true)

  unfoldable pub execute2 : ℕ → ℕ → Run B Bool
  execute2 z y = do
    value ← read_r bus z
    r ← get_registers
    set_registers (alu r y value)
    pure true

  -- `x` is 3 and `z` is 0: conditional returns, high-page accesses and SP offsets
  unfoldable pub return_or_high : ℕ → Run B Bool
  return_or_high y =
      if leb y 3
      then (do r ← get_registers; when_taken (condition r y) (do address ← pop bus; set_pc address))
      else if y == 4
      then (do
        offset ← fetch8 bus
        r ← get_registers
        write_bus bus (bit_or 0xff00 offset) r.a
        pure true)
      else if y == 5
      then (do
        offset ← fetch8 bus
        r ← get_registers
        set_registers (add_sp r offset true)
        pure true)
      else if y == 6
      then (do
        offset ← fetch8 bus
        value ← read_bus bus (bit_or 0xff00 offset)
        set_a value
        pure true)
      else (do
        offset ← fetch8 bus
        r ← get_registers
        set_registers (add_sp r offset false)
        pure true)

  -- `x` is 3 and `z` is 1
  unfoldable pub pop_or_return : ℕ → ℕ → Run B Bool
  unfolding hl
  pop_or_return p q =
      if q == 0
      then (do value ← pop bus; r ← get_registers; set_registers (set_rp2 r p value); pure true)
      else if p == 0
      then (do address ← pop bus; set_pc address; pure true)
      else if p == 1
      then (do
        address ← pop bus
        set_pc address
        c ← get_cpu
        set_cpu (record c { ime = true; ime_enable_delay = 0 })
        pure true)
      else if p == 2
      then (do r ← get_registers; set_pc (hl r); pure true)
      else (do r ← get_registers; set_registers (record r { sp = hl r }); pure true)

  -- `x` is 3 and `z` is 2
  unfoldable pub jump_or_load : ℕ → Run B Bool
  jump_or_load y =
      if ltb y 4
      then (do
        address ← fetch16 bus
        r ← get_registers
        when_taken (condition r y) (set_pc address))
      else if y == 4
      then (do r ← get_registers; write_bus bus (bit_or 0xff00 r.c) r.a; pure true)
      else if y == 5
      then (do address ← fetch16 bus; r ← get_registers; write_bus bus address r.a; pure true)
      else if y == 6
      then (do r ← get_registers; value ← read_bus bus (bit_or 0xff00 r.c); set_a value; pure true)
      else (do address ← fetch16 bus; value ← read_bus bus address; set_a value; pure true)

  -- `x` is 3 and `z` is 3; `y` is not 1, the prefix that `step` handles
  -- At 0xcb the source has `unreachable!`: `step` takes that opcode itself.
  unfoldable pub jump_or_ime : ℕ → Run B Bool
  jump_or_ime y =
      if y == 0
      then (do address ← fetch16 bus; set_pc address; pure true)
      else if y == 6
      then (do c ← get_cpu; set_cpu (record c { ime = false; ime_enable_delay = 0 }); pure true)
      else if y == 7
      then (do
        c ← get_cpu
        set_cpu (if c.ime_enable_delay == 0 then record c { ime_enable_delay = 2 } else c)
        pure true)
      else pure true

  unfoldable pub call_address : ℕ → Run B Done
  call_address address = do r ← get_registers; push bus r.pc; set_pc address

  -- `x` is 3 and `z` is 4
  unfoldable pub call_if : ℕ → Run B Bool
  call_if y = do
    address ← fetch16 bus
    r ← get_registers
    when_taken (condition r y) (call_address address)

  -- `x` is 3 and `z` is 5
  unfoldable pub push_or_call : ℕ → ℕ → Run B Bool
  push_or_call p q =
      if q == 0
      then (do r ← get_registers; push bus (rp2 r p); pure true)
      else if p == 0
      then (do address ← fetch16 bus; call_address address; pure true)
      else pure true

  unfoldable pub execute3 : ℕ → ℕ → Run B Bool
  execute3 z y =
      let p = y / 2 in
      let q = bit_and y 1 in
      if z == 0
      then return_or_high y
      else if z == 1
      then pop_or_return p q
      else if z == 2
      then jump_or_load y
      else if z == 3
      then jump_or_ime y
      else if z == 4
      then call_if y
      else if z == 5
      then push_or_call p q
      else if z == 6
      then (do value ← fetch8 bus; r ← get_registers; set_registers (alu r y value); pure true)
      else (do call_address (y * 8); pure true)

  unfoldable pub execute_base : ℕ → Run B Bool
  execute_base opcode =
      let x = x_of opcode in
      let y = y_of opcode in
      let z = z_of opcode in
      if x == 0
      then execute0 z y
      else if x == 1
      then execute1 opcode z y
      else if x == 2
      then execute2 z y
      else execute3 z y

  unfoldable pub execute_cb : ℕ → Run B Done
  execute_cb opcode = do
    let x = x_of opcode
    let y = y_of opcode
    let z = z_of opcode
    value ← read_r bus z
    r ← get_registers
    (if x == 0
        then (do
          let (result, carry) = rotate y value (contains r.f flag_c)
          set_f (rotate_flags result carry)
          write_r bus z result)
        else if x == 1
        then set_f (bit_flags y value r.f)
        else if x == 2
        then write_r bus z (bit_and value (not8 (2 ^ y)))
        else write_r bus z (bit_or value (2 ^ y)))

  unfoldable pub service_interrupt : Interrupt → Run B Done
  service_interrupt interrupt = do
    c ← get_cpu
    set_cpu (record c { ime = false; ime_enable_delay = 0; mode = running })
    (λ s. (tt, record s { bus = bus.acknowledge_interrupt s.bus interrupt }))
    idle bus
    idle bus
    r ← get_registers
    push bus r.pc
    idle bus
    set_pc (vector interrupt)
