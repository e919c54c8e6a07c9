-- ===== src/Machine.antt =====
-- crates/gb-core/src/machine.rs: the scheduler and the inputs of `GameBoy`. The bus is one that the
-- processor can be run on, with the operations that the scheduler calls besides.
pub mod Budget
pub mod Whole
mod Tests
use pockiva.Prelude.{
  ℕ, zero, suc, ◌+◌, ◌-◌, ◌%◌, ◌^◌, Bool, true, false, not, ◌&&◌, ◌||◌, leb, Option, none, some,
  ltb, ◌==◌, if◌then◌else◌,
}
use pockiva.Contracts.{Result, ok, err, panic, not_loaded, ◌>>=◌}
use pockiva.Joypad.{JoypadState, InputMatrix, set_source, clear_source, effective}
use pockiva.Cpu.State.{CpuBus, Cpu, System, post_boot_cpu}
use pockiva.Cpu.Step.{next_step_t_cycles, step}

pub record RunOutcome : Type 0 where
  pub cycles_executed : ℕ
  pub frame_ready : Bool
  pub stereo_frames_available : ℕ

-- The operations of `MachineBus` that `GameBoy` calls.
pub record BusOperations (B : Type 0) : Type 0 where
  pub cpu_bus : CpuBus B
  pub set_unix_seconds : B → ℕ → B
  pub set_joypad_state : B → JoypadState → B
  pub reset : B → ℕ → JoypadState → B
  pub has_frame : B → Bool
  pub stereo_frames : B → ℕ

pub record GameBoy (B : Type 0) : Type 0 where
  pub cpu : Cpu
  pub bus : Option B
  pub inputs : InputMatrix

module _ {B : Type 0} (ops : BusOperations B) where
  open ops use {cpu_bus, set_unix_seconds, set_joypad_state, reset, has_frame, stereo_frames}

  -- the bus at the moment of a turn
  unfoldable pub at_moment : ℕ → System B → System B
  at_moment now s = record s { bus = set_unix_seconds s.bus now }

  -- The end of a turn: `debug_assert_eq!(result.t_cycles, next)` and the addition of `u32`s, which in
  -- a build with checks panic and in one without are skipped and wrap around.
  unfoldable pub counted : Bool → ℕ → ℕ → ℕ → Result ℕ
  counted checks next executed t_cycles =
      if checks && not (t_cycles == next)
      then panic
      else if checks && leb (2 ^ 32) (executed + t_cycles)
      then panic
      else ok ((executed + t_cycles) % 2 ^ 32)

  -- The loop of `run_cycles`, in a build with checks or without; `moments` is what the clock gives at
  -- each turn. Fuel that runs out is a panic.
  unfoldable pub run_loop : Bool → (ℕ → ℕ) → ℕ → ℕ → ℕ → System B → Result (ℕ × System B)
  unfolding at_moment counted
  run_loop checks moments zero budget executed s =
      if ltb executed budget then panic else ok (executed, s)
  run_loop checks moments (suc fuel) budget executed s = elim (ltb executed budget) [
    | false ↦ ok (executed, s)
    | true ↦
        let s1 = at_moment (moments 0) s in
        next_step_t_cycles cpu_bus s1 >>= λ next. elim (next == 0 || ltb (budget - executed) next) [
          | true ↦ ok (executed, s1)
          | false ↦ step cpu_bus s1 >>= λ r. counted checks next executed r.0 >>= λ sum.
              run_loop checks (λ k. moments (suc k)) fuel budget sum r.1
        ]
  ]

  -- Each turn that goes on executes a clock or more, so the budget is enough fuel.
  unfoldable pub run_cycles : Bool → (ℕ → ℕ) → ℕ → GameBoy B → Result (RunOutcome × GameBoy B)
  unfolding run_loop
  run_cycles checks moments budget g = elim g.bus [
    | none ↦ err not_loaded
    | some b ↦ run_loop checks moments budget budget 0 (record { cpu = g.cpu; bus = b }) >>= λ r.
        let s = r.1 in
        ok (
          record {
            cycles_executed = r.0;
            frame_ready = has_frame s.bus;
            stereo_frames_available = stereo_frames s.bus;
          },
          record g { cpu = s.cpu; bus = some s.bus },
        )
  ]

  unfoldable pub reset_machine : ℕ → GameBoy B → Result (GameBoy B)
  unfolding effective
  reset_machine now g = elim g.bus [
    | none ↦ err not_loaded
    | some b ↦ ok (record g { bus = some (reset b now (effective g.inputs)); cpu = post_boot_cpu })
  ]

  -- `if let Some(bus) = self.bus.as_mut() { bus.set_joypad_state(self.inputs.effective()); }`
  unfoldable pub show_inputs : GameBoy B → GameBoy B
  unfolding effective
  show_inputs g = elim g.bus [
    | none ↦ g
    | some b ↦ record g { bus = some (set_joypad_state b (effective g.inputs)) }
  ]

  unfoldable pub set_input : ℕ → JoypadState → GameBoy B → GameBoy B
  unfolding set_source show_inputs
  set_input source state g = show_inputs (record g { inputs = set_source g.inputs source state })

  unfoldable pub clear_input_source : ℕ → GameBoy B → GameBoy B
  unfolding clear_source show_inputs
  clear_input_source source g = show_inputs (record g { inputs = clear_source g.inputs source })
