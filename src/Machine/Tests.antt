-- ===== src/Machine/Tests.antt =====
-- The scheduler on a bus of no-ops that counts clocks, with a budget that is no multiple of four.
use pockiva.Prelude.{ℕ, ◌+◌, ◌≡◌, refl, true, false, some, [], arith}
use pockiva.Contracts.{Result, ok}
use pockiva.Cpu.State.{CpuBus, Cpu, System, post_boot_cpu}
use pockiva.Cpu.Timing.Access.{ClockLaws, clock}
use pockiva.Machine.{BusOperations, GameBoy, RunOutcome, counted, run_cycles}
use pockiva.Machine.Budget.{RunsWithin}
use pockiva.Machine.Whole.{operations, operations-ClockLaws, machine-overrun}
use pockiva.Cpu.Step.{next_step_t_cycles, step}
use pockiva.Cpu.Timing.Overrun.{Approximates, step-Approximates}
use pockiva.Bus.Latch.{latch_mapper, latch_video, latch_audio, latch-DeviceLaws, fresh}
use pockiva.Bus.Valid.{new-IsValid}
use pockiva.Bus.Clocked.{ValidBus}

abbrev nop_bus : CpuBus ℕ
nop_bus = record {
  read8 = λ t address. (0, t + 4);
  write8 = λ t address value. t + 4;
  idle_m_cycle = λ t. t + 4;
  peek8 = λ t address. 0;
  elapsed_t_cycles = λ t. t;
  pending_interrupts = λ t. 0;
  acknowledge_interrupt = λ t i. t;
  reset_divider = λ t. t;
}

nop_bus-ClockLaws : ClockLaws nop_bus
nop_bus-ClockLaws = record {
  read_cost = λ b address. refl;
  write_cost = λ b address value. refl;
  idle_cost = λ b. refl;
  acknowledge_cost = λ b i. refl;
  reset_cost = λ b. refl;
  read_peek = λ b address. refl;
  peek_byte = λ b address. omega arith;
  pending_lt = λ b. omega arith;
}

abbrev nop_operations : BusOperations ℕ
nop_operations = record {
  cpu_bus = nop_bus;
  set_unix_seconds = λ b now. b;
  set_joypad_state = λ b state. b;
  reset = λ b now state. 0;
  has_frame = λ b. false;
  stereo_frames = λ b. 0;
}

abbrev loaded : GameBoy ℕ
loaded = record { cpu = post_boot_cpu; bus = some 40; inputs = [] }

abbrev reported : Result (RunOutcome × GameBoy ℕ) → ℕ
reported (ok (o, g)) = o.cycles_executed
reported _ = 0

two_nops_fit : reported (run_cycles nop_operations true (λ k. k) 10 loaded) ≡ 8
unfolding run_cycles counted pockiva.Cpu.Step.next_step_t_cycles
    pockiva.Cpu.Step.predict_instruction pockiva.Cpu.Step.decode_next pockiva.Cpu.Decode.decode
    pockiva.Cpu.Decode.is_illegal pockiva.Cpu.Step.branch_taken pockiva.Cpu.Decode.base_metadata
    pockiva.Cpu.Decode.metadata0 pockiva.Cpu.Step.step pockiva.Cpu.Step.finish
    pockiva.Cpu.Step.run_instruction pockiva.Cpu.State.fetch8 pockiva.Cpu.Step.pad_to
    pockiva.Cpu.Execute.execute_base pockiva.Cpu.Execute.execute0 pockiva.Cpu.Execute.jump_relative
two_nops_fit = refl

abbrev latch_operations : BusOperations (ValidBus latch_mapper latch_video latch_audio)
latch_operations = operations latch_mapper latch_video latch_audio

abbrev fresh_bus : ValidBus latch_mapper latch_video latch_audio
fresh_bus = (fresh, new-IsValid latch_mapper latch_video latch_audio 0 100)

abbrev fresh_machine : GameBoy (ValidBus latch_mapper latch_video latch_audio)
fresh_machine = record { cpu = post_boot_cpu; bus = some fresh_bus; inputs = [] }

machine-overrun_example :
    RunsWithin latch_operations
      (operations-ClockLaws latch_mapper latch_video latch_audio latch-DeviceLaws)
      ⊥
      8
      (latch_operations.cpu_bus.elapsed_t_cycles fresh_bus)
      70224
      (run_cycles latch_operations false (λ k. k) 70224 fresh_machine)
machine-overrun_example =
    machine-overrun latch_mapper latch_video latch_audio latch-DeviceLaws (λ k. k) 70224
      fresh_machine fresh_bus (omega arith) refl

step-Approximates_example :
    Approximates nop_bus nop_bus-ClockLaws
      (clock nop_bus (record { cpu = post_boot_cpu; bus = 40 }))
      (next_step_t_cycles nop_bus (record { cpu = post_boot_cpu; bus = 40 }))
      (step nop_bus (record { cpu = post_boot_cpu; bus = 40 }))
step-Approximates_example =
    step-Approximates nop_bus nop_bus-ClockLaws (record { cpu = post_boot_cpu; bus = 40 })
