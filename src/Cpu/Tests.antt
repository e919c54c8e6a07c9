-- ===== src/Cpu/Tests.antt =====
-- The processor on a bus of constant memory that counts clocks, and its theorems there.
use pockiva.Prelude.{ℕ, ◌+◌, ◌≡◌, refl, false, true, if◌then◌else◌, ◌==◌, arith}
use pockiva.Contracts.{ok}
use pockiva.Cpu.Registers.{add8, sub8, inc8, dec8, daa, contains, flag_c}
use pockiva.Cpu.Arithmetic.{bcd, daa-add8}
use pockiva.Cpu.Decode.{base_metadata, prefixed_cycles}
use pockiva.Cpu.State.{CpuBus, System, post_boot_cpu}
use pockiva.Cpu.Step.{branch_taken, next_step_t_cycles, step, pad_to}
use pockiva.Cpu.Timing.Access.{ClockLaws}
use pockiva.Cpu.Timing.Predict.{Predicts, step-Predicts}

-- SWAP (HL) at the entry point, NOP elsewhere.
abbrev program : ℕ → ℕ
program address = if address == 0x100 then 0xcb else if address == 0x101 then 0x36 else 0

abbrev counting_bus : CpuBus ℕ
counting_bus = record {
  read8 = λ t address. (program address, t + 4);
  write8 = λ t address value. t + 4;
  idle_m_cycle = λ t. t + 4;
  peek8 = λ t address. program address;
  elapsed_t_cycles = λ t. t;
  pending_interrupts = λ t. 0;
  acknowledge_interrupt = λ t i. t;
  reset_divider = λ t. t;
}

counting_bus-ClockLaws : ClockLaws counting_bus
counting_bus-ClockLaws = record {
  read_cost = λ b address. refl;
  write_cost = λ b address value. refl;
  idle_cost = λ b. refl;
  acknowledge_cost = λ b i. refl;
  reset_cost = λ b. refl;
  read_peek = λ b address. refl;
  peek_byte = λ b address. ground arith;
  pending_lt = λ b. omega arith;
}

abbrev powered : System ℕ
powered = record { cpu = post_boot_cpu; bus = 100 }

step-Predicts_example :
    Predicts counting_bus counting_bus-ClockLaws 100
      (next_step_t_cycles counting_bus powered)
      (step counting_bus powered)
step-Predicts_example = step-Predicts counting_bus counting_bus-ClockLaws powered (λ _. refl)

predicted : next_step_t_cycles counting_bus powered ≡ ok 16
unfolding next_step_t_cycles pockiva.Cpu.Step.predict_instruction pockiva.Cpu.Step.decode_next
    pockiva.Cpu.Registers.post_boot_dmg pockiva.Cpu.Decode.decode branch_taken prefixed_cycles
    pockiva.Cpu.Step.prefixed_address
predicted = refl

daa-add8_example :
    let (sum, flags) = add8 (bcd 58) (bcd 67) false in
    let (result, flags') = daa sum flags in (result ≡ 0x25) × (contains flags' flag_c ≡ true)
unfolding bcd
daa-add8_example = daa-add8 58 67 false (omega arith) (omega arith)
