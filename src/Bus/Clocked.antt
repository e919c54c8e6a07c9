-- ===== src/Bus/Clocked.antt =====
-- The bus as the processor's: the implementation of `CpuBus` for `MachineBus`, on states in range.
-- A value that the processor writes is a `u8`, so it is taken modulo 256.
use pockiva.Prelude.{ℕ, ◌+◌, ◌%◌, ◌<◌, ◌≡◌, refl, Option, none, some, arith}
use pockiva.Interrupts.{InterruptMask}
use pockiva.Interrupts.Laws.{pending-lt}
use pockiva.Cpu.State.{CpuBus}
use pockiva.Cpu.Timing.Access.{ClockLaws}
use pockiva.Bus.Dma.{advance, next_address}
use pockiva.Bus.Devices.{Mapper, VideoDevice, AudioDevice, DeviceLaws, MachineBus}
use pockiva.Bus.Map.{read_unclocked, route_write, request_on, write_unclocked}
use pockiva.Bus.Cycle.{
  transfer, tick_m_cycle, peek8, read8, write8, pending_interrupts, acknowledge_interrupt,
  reset_divider,
}
use pockiva.Bus.Fields.{IsValid}
use pockiva.Bus.Valid.{
  tick_m_cycle-IsValid, write8-IsValid, peek8-lt, acknowledge_interrupt-IsValid,
  reset_divider-IsValid,
}

pub byte_lt : (value : ℕ) → value % 256 < 256
byte_lt value = omega arith

module _ {M V A : Type 0} (mapper : Mapper M) (video : VideoDevice V) (audio : AudioDevice A) where
  request_on-elapsed :
      (b : MachineBus M V A) (mask : InterruptMask)
      → (request_on mapper video audio b mask).elapsed_t_cycles ≡ b.elapsed_t_cycles
  unfolding request_on
  request_on-elapsed b mask = refl

  route_write-elapsed :
      (b : MachineBus M V A) (address value : ℕ)
      → (route_write mapper video audio b address value).0.elapsed_t_cycles ≡ b.elapsed_t_cycles
  unfolding route_write
  route_write-elapsed b address value = ground arith

  write_unclocked-elapsed :
      (b : MachineBus M V A) (address value : ℕ)
      → (write_unclocked mapper video audio b address value).elapsed_t_cycles ≡ b.elapsed_t_cycles
  unfolding write_unclocked
  write_unclocked-elapsed b address value = route_write-elapsed b address value

  transfer-elapsed :
      (b : MachineBus M V A) → (transfer mapper video audio b).elapsed_t_cycles ≡ b.elapsed_t_cycles
  unfolding transfer
  transfer-elapsed b = by_place (next_address b.dma)
    where
      by_place :
          (place : Option (ℕ × ℕ))
          → (let b' : MachineBus M V A = elim place [
            | none ↦ b
            | some (source, index) ↦
                let value = read_unclocked mapper video audio b source in
                record b { video = video.dma_write_oam b.video index value; dma = advance b.dma }
          ] in
              b'.elapsed_t_cycles)
            ≡ b.elapsed_t_cycles
      by_place none = refl
      by_place (some (source, index)) = refl

  -- A machine cycle takes four clocks.
  pub tick_m_cycle-elapsed :
      (b : MachineBus M V A)
      → (tick_m_cycle mapper video audio b).elapsed_t_cycles ≡ b.elapsed_t_cycles + 4
  unfolding tick_m_cycle
  tick_m_cycle-elapsed b = transfer-elapsed _

  write8-elapsed :
      (b : MachineBus M V A) (address value : ℕ)
      → (write8 mapper video audio b address value).elapsed_t_cycles ≡ b.elapsed_t_cycles + 4
  unfolding write8
  write8-elapsed b address value = ground (
    arith,
    tick_m_cycle-elapsed b,
    tick_m_cycle-elapsed (write_unclocked mapper video audio b address value),
    write_unclocked-elapsed b address value,
    write_unclocked-elapsed (tick_m_cycle mapper video audio b) address value,
  )

  -- A state of the bus whose bytes are bytes.
  abbrev pub ValidBus : Type 0
  ValidBus = (b : MachineBus M V A) × IsValid b

  unfoldable pub machine_bus : CpuBus ValidBus
  unfolding read8 peek8 pending_interrupts
  machine_bus = record {
    read8 = λ b address. (
      (read8 mapper video audio b.0 address).0,
      (tick_m_cycle mapper video audio b.0, tick_m_cycle-IsValid mapper video audio b.0 b.1),
    );
    write8 = λ b address value. (
      write8 mapper video audio b.0 address (value % 256),
      write8-IsValid mapper video audio b.0 address (value % 256) (byte_lt value) b.1,
    );
    idle_m_cycle =
        λ b. (tick_m_cycle mapper video audio b.0, tick_m_cycle-IsValid mapper video audio b.0 b.1);
    peek8 = λ b address. peek8 mapper video audio b.0 address;
    elapsed_t_cycles = λ b. b.0.elapsed_t_cycles;
    pending_interrupts = λ b. pending_interrupts mapper video audio b.0;
    acknowledge_interrupt = λ b i. (
      acknowledge_interrupt mapper video audio b.0 i,
      acknowledge_interrupt-IsValid mapper video audio b.0 i b.1,
    );
    reset_divider = λ b.
        (reset_divider mapper video audio b.0, reset_divider-IsValid mapper video audio b.0 b.1);
  }

  -- Over a mapper and units that read bytes, the bus keeps the laws that the processor relies on: a
  -- read, a write and an idle cycle take four clocks and the rest none, a read gives what a peek gave,
  -- which is a byte, and the pending interrupts are five bits.
  pub machine_bus-ClockLaws : DeviceLaws mapper video audio → ClockLaws machine_bus
  unfolding machine_bus acknowledge_interrupt reset_divider request_on pending_interrupts
  machine_bus-ClockLaws laws = record {
    read_cost = λ b address. tick_m_cycle-elapsed b.0;
    write_cost = λ b address value. write8-elapsed b.0 address (value % 256);
    idle_cost = λ b. tick_m_cycle-elapsed b.0;
    acknowledge_cost = λ b i. refl;
    reset_cost = λ b. refl;
    read_peek = λ b address. refl;
    peek_byte = λ b address. peek8-lt mapper video audio b.0 address laws b.1;
    pending_lt = λ b. pending-lt b.0.interrupts;
  }
