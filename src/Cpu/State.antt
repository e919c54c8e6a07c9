-- ===== src/Cpu/State.antt =====
-- crates/gb-core/src/cpu/mod.rs and the operand accesses of execute.rs: the bus that the processor
-- is written against (the trait `CpuBus`), its state, and its reads and writes of operands.
-- Rust passes `&mut Cpu` and `&mut impl CpuBus`; here a computation takes both and returns them.
use pockiva.Prelude.{
  ℕ, Bool, false, not, ◌==◌, if◌then◌else◌, add16_wrap, sub16_wrap, from_bytes16, high_byte,
  low_byte,
}
use pockiva.Interrupts.{Interrupt, InterruptMask}
use pockiva.Cpu.Registers.{
  Registers, Flags, post_boot_dmg, bc, de, hl, af, set_bc, set_de, set_hl, set_af, contains, flag_z,
  flag_c,
}

-- The trait `CpuBus`.
pub record CpuBus (B : Type 0) : Type 0 where
  pub read8 : B → ℕ → ℕ × B
  pub write8 : B → ℕ → ℕ → B
  pub idle_m_cycle : B → B
  pub peek8 : B → ℕ → ℕ
  pub elapsed_t_cycles : B → ℕ
  pub pending_interrupts : B → InterruptMask
  pub acknowledge_interrupt : B → Interrupt → B
  pub reset_divider : B → B

pub data CpuMode : Type 0 where
  running halted stopped : CpuMode

pub record Cpu : Type 0 where
  pub registers : Registers
  pub ime : Bool
  pub ime_enable_delay : ℕ  -- u8
  pub mode : CpuMode
  pub halt_bug : Bool

abbrev pub post_boot_cpu : Cpu
post_boot_cpu = record {
  registers = post_boot_dmg;
  ime = false;
  ime_enable_delay = 0;
  mode = running;
  halt_bug = false;
}

-- The processor and its bus.
pub record System (B : Type 0) : Type 0 where
  pub cpu : Cpu
  pub bus : B

-- A computation on both.
abbrev pub Run : Type 0 → Type 0 → Type 0
Run B A = System B → A × System B

abbrev pub Done : Type 0
Done = Unit {0}

module _ {B A : Type 0} where
  abbrev pub pure : A → Run B A
  pure a s = (a, s)

infixl 5 ◌>>=◌ ◌>>◌
abbrev pub ◌>>=◌ : {B A C : Type 0} → Run B A → (A → Run B C) → Run B C
◌>>=◌ m f s = f (m s).0 (m s).1

abbrev pub ◌>>◌ : {B A C : Type 0} → Run B A → Run B C → Run B C
m >> k = m >>= λ _. k

module _ {B : Type 0} where
  -- `&Cpu` and `&mut Cpu`
  abbrev pub get_registers : Run B Registers
  get_registers s = (s.cpu.registers, s)

  abbrev pub get_cpu : Run B Cpu
  get_cpu s = (s.cpu, s)

  abbrev pub set_cpu : Cpu → Run B Done
  set_cpu c s = (tt, record s { cpu = c })

  abbrev pub set_registers : Registers → Run B Done
  set_registers r s = (tt, record s { cpu = record (s.cpu) { registers = r } })

  abbrev pub set_pc : ℕ → Run B Done
  set_pc address s = (
    tt,
    record s { cpu = record (s.cpu) { registers = record (s.cpu.registers) { pc = address } } },
  )

  abbrev pub set_sp : ℕ → Run B Done
  set_sp address s = (
    tt,
    record s { cpu = record (s.cpu) { registers = record (s.cpu.registers) { sp = address } } },
  )

  abbrev pub set_a : ℕ → Run B Done
  set_a value s =
      (tt, record s { cpu = record (s.cpu) { registers = record (s.cpu.registers) { a = value } } })

  abbrev pub set_f : Flags → Run B Done
  set_f flags s =
      (tt, record s { cpu = record (s.cpu) { registers = record (s.cpu.registers) { f = flags } } })

unfoldable pub condition : Registers → ℕ → Bool
unfolding contains
condition r code =
    if code == 0
    then not (contains r.f flag_z)
    else if code == 1
    then contains r.f flag_z
    else if code == 2
    then not (contains r.f flag_c)
    else contains r.f flag_c

unfoldable pub rp : Registers → ℕ → ℕ
unfolding bc de hl
rp r code = if code == 0 then bc r else if code == 1 then de r else if code == 2 then hl r else r.sp

unfoldable pub set_rp : Registers → ℕ → ℕ → Registers
unfolding set_bc set_de set_hl
set_rp r code value =
    if code == 0
    then set_bc r value
    else if code == 1
    then set_de r value
    else if code == 2
    then set_hl r value
    else record r { sp = value }

unfoldable pub rp2 : Registers → ℕ → ℕ
unfolding bc de hl af
rp2 r code =
    if code == 0 then bc r else if code == 1 then de r else if code == 2 then hl r else af r

unfoldable pub set_rp2 : Registers → ℕ → ℕ → Registers
unfolding set_bc set_de set_hl set_af
set_rp2 r code value =
    if code == 0
    then set_bc r value
    else if code == 1
    then set_de r value
    else if code == 2
    then set_hl r value
    else set_af r value

-- `fetch8` after its read: the program counter stays once after the halt bug.
unfoldable pub advance_pc : Cpu → Cpu
advance_pc c =
    if c.halt_bug
    then record c { halt_bug = false }
    else record c { registers = record (c.registers) { pc = add16_wrap c.registers.pc 1 } }

module _ {B : Type 0} (bus : CpuBus B) where
  open bus use {read8, write8, idle_m_cycle}

  abbrev pub read_bus : ℕ → Run B ℕ
  read_bus address s = let (value, b) = read8 s.bus address in (value, record s { bus = b })

  abbrev pub write_bus : ℕ → ℕ → Run B Done
  write_bus address value s = (tt, record s { bus = write8 s.bus address value })

  abbrev pub idle : Run B Done
  idle s = (tt, record s { bus = idle_m_cycle s.bus })

  unfoldable pub fetch8 : Run B ℕ
  unfolding advance_pc
  fetch8 = do
    r ← get_registers
    value ← read_bus r.pc
    c ← get_cpu
    set_cpu (advance_pc c)
    pure value

  unfoldable pub fetch16 : Run B ℕ
  fetch16 = do low ← fetch8; high ← fetch8; pure (from_bytes16 high low)

  unfoldable pub read_r : ℕ → Run B ℕ
  unfolding hl
  read_r code s =
      let r = s.cpu.registers in
      if code == 0
      then (r.b, s)
      else if code == 1
      then (r.c, s)
      else if code == 2
      then (r.d, s)
      else if code == 3
      then (r.e, s)
      else if code == 4
      then (r.h, s)
      else if code == 5
      then (r.l, s)
      else if code == 6
      then read_bus (hl r) s
      else (r.a, s)

  unfoldable pub write_r : ℕ → ℕ → Run B Done
  unfolding hl
  write_r code value s =
      let r = s.cpu.registers in
      if code == 0
      then set_registers (record r { b = value }) s
      else if code == 1
      then set_registers (record r { c = value }) s
      else if code == 2
      then set_registers (record r { d = value }) s
      else if code == 3
      then set_registers (record r { e = value }) s
      else if code == 4
      then set_registers (record r { h = value }) s
      else if code == 5
      then set_registers (record r { l = value }) s
      else if code == 6
      then write_bus (hl r) value s
      else set_registers (record r { a = value }) s

  unfoldable pub push : ℕ → Run B Done
  push value = do
    r ← get_registers
    set_sp (sub16_wrap r.sp 1)
    r ← get_registers
    write_bus r.sp (high_byte value)
    set_sp (sub16_wrap r.sp 1)
    r ← get_registers
    write_bus r.sp (low_byte value)

  unfoldable pub pop : Run B ℕ
  pop = do
    r ← get_registers
    low ← read_bus r.sp
    set_sp (add16_wrap r.sp 1)
    r ← get_registers
    high ← read_bus r.sp
    set_sp (add16_wrap r.sp 1)
    pure (from_bytes16 high low)
