-- ===== src/Cpu/Timing/Access.antt =====
-- What a bus promises of its clock, and the clocks of the operand accesses.
use pockiva.Prelude.{ℕ, ◌+◌, ◌<◌, ◌≡◌, arith, ◌==◌, if◌then◌else◌}
use pockiva.Interrupts.{Interrupt}
use pockiva.Cpu.Registers.{hl}
use pockiva.Cpu.State.{CpuBus, System, fetch8, fetch16, read_r, write_r, push, pop}

-- A read, a write and an idle cycle take four clocks, the rest none; a peek sees what a read would;
-- the pending interrupts are five bits.
pub record ClockLaws {B : Type 0} (bus : CpuBus B) : Type 0 where
  pub read_cost :
      (b : B) (address : ℕ)
      → bus.elapsed_t_cycles (bus.read8 b address).1 ≡ bus.elapsed_t_cycles b + 4
  pub write_cost :
      (b : B) (address value : ℕ)
      → bus.elapsed_t_cycles (bus.write8 b address value) ≡ bus.elapsed_t_cycles b + 4
  pub idle_cost : (b : B) → bus.elapsed_t_cycles (bus.idle_m_cycle b) ≡ bus.elapsed_t_cycles b + 4
  pub acknowledge_cost :
      (b : B) (i : Interrupt)
      → bus.elapsed_t_cycles (bus.acknowledge_interrupt b i) ≡ bus.elapsed_t_cycles b
  pub reset_cost : (b : B) → bus.elapsed_t_cycles (bus.reset_divider b) ≡ bus.elapsed_t_cycles b
  pub read_peek : (b : B) (address : ℕ) → (bus.read8 b address).0 ≡ bus.peek8 b address
  pub peek_byte : (b : B) (address : ℕ) → bus.peek8 b address < 256
  pub pending_lt : (b : B) → bus.pending_interrupts b < 32

-- the clock of a state
abbrev pub clock : {B : Type 0} → CpuBus B → System B → ℕ
clock bus s = bus.elapsed_t_cycles s.bus

module _ {B : Type 0} (bus : CpuBus B) (laws : ClockLaws bus) where
  pub fetch8-clock : (s : System B) → clock bus (fetch8 bus s).1 ≡ clock bus s + 4
  unfolding fetch8
  fetch8-clock s = omega (arith, laws.read_cost)

  pub fetch8-flags : (s : System B) → (fetch8 bus s).1.cpu.registers.f ≡ s.cpu.registers.f
  unfolding fetch8
  fetch8-flags s = ground arith

  pub fetch16-clock : (s : System B) → clock bus (fetch16 bus s).1 ≡ clock bus s + 8
  unfolding fetch16
  fetch16-clock s = omega (arith, fetch8-clock)

  pub fetch16-flags : (s : System B) → (fetch16 bus s).1.cpu.registers.f ≡ s.cpu.registers.f
  unfolding fetch16
  fetch16-flags s = ground (arith, fetch8-flags s, fetch8-flags (fetch8 bus s).1)

  pub read_r-clock :
      (code : ℕ) (s : System B)
      → clock bus (read_r bus code s).1 ≡ clock bus s + (if code == 6 then 4 else 0)
  unfolding read_r
  read_r-clock code s = ground (arith, laws.read_cost s.bus (hl s.cpu.registers))

  pub write_r-clock :
      (code value : ℕ) (s : System B)
      → clock bus (write_r bus code value s).1 ≡ clock bus s + (if code == 6 then 4 else 0)
  unfolding write_r
  write_r-clock code value s = ground (arith, laws.write_cost s.bus (hl s.cpu.registers) value)

  pub push-clock : (value : ℕ) (s : System B) → clock bus (push bus value s).1 ≡ clock bus s + 8
  unfolding push
  push-clock value s = omega (arith, laws.write_cost)

  pub pop-clock : (s : System B) → clock bus (pop bus s).1 ≡ clock bus s + 8
  unfolding pop
  pop-clock s = omega (arith, laws.read_cost)
