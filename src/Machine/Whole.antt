-- ===== src/Machine/Whole.antt =====
-- The scheduler on `MachineBus`, as crates/gb-core/src/machine.rs composes the two.
use pockiva.Prelude.{ℕ, ◌+◌, ◌^◌, ◌<◌, ◌%◌, ◌≡◌, refl, some, false}
use pockiva.Cpu.Timing.Access.{ClockLaws}
use pockiva.Bus.Devices.{Mapper, VideoDevice, AudioDevice, DeviceLaws}
use pockiva.Bus.Cycle.{set_unix_seconds, set_joypad_state, reset}
use pockiva.Bus.Valid.{set_unix_seconds-IsValid, set_joypad_state-IsValid, reset-IsValid}
use pockiva.Bus.Clocked.{ValidBus, machine_bus, machine_bus-ClockLaws, byte_lt}
use pockiva.Machine.{BusOperations, GameBoy, run_cycles}
use pockiva.Machine.Budget.{IsFree, RunsWithin, run_cycles-outcome}

module _ {M V A : Type 0} (mapper : Mapper M) (video : VideoDevice V) (audio : AudioDevice A) where
  -- The bus's operations on states in range; a joypad's state is a `u8`, so it is taken modulo 256.
  unfoldable pub operations : BusOperations (ValidBus mapper video audio)
  operations = record {
    cpu_bus = machine_bus mapper video audio;
    set_unix_seconds = λ b now. (
      set_unix_seconds mapper video audio b.0 now,
      set_unix_seconds-IsValid mapper video audio b.0 now b.1,
    );
    set_joypad_state = λ b state. (
      set_joypad_state mapper video audio b.0 (state % 256),
      set_joypad_state-IsValid mapper video audio b.0 (state % 256) (byte_lt state) b.1,
    );
    reset = λ b now state. (
      reset mapper video audio b.0 now (state % 256),
      reset-IsValid mapper video audio b.0 now (state % 256) (byte_lt state),
    );
    has_frame = λ b. video.frame_ready b.0.video;
    stereo_frames = λ b. audio.stereo_frames_available b.0.audio;
  }

  pub operations-ClockLaws : DeviceLaws mapper video audio → ClockLaws operations.cpu_bus
  unfolding operations
  operations-ClockLaws laws = machine_bus-ClockLaws mapper video audio laws

  operations-IsFree :
      (laws : DeviceLaws mapper video audio) → IsFree operations (operations-ClockLaws laws)
  unfolding operations machine_bus set_unix_seconds
  operations-IsFree laws b now = refl

  -- The machine on its own bus, over any mapper, picture and audio units that read bytes, from any
  -- state in range and with a budget at least 8 below 2 ^ 32, in a build without checks: `run_cycles`
  -- neither panics nor runs out of fuel; it fails with an error, or the clocks it reports exceed the
  -- budget by 8 at most, are what the bus's clock advances by, and nothing that fits is left to run.
  pub machine-overrun :
      (laws : DeviceLaws mapper video audio) (moments : ℕ → ℕ) (budget : ℕ)
      (g : GameBoy (ValidBus mapper video audio)) (b : ValidBus mapper video audio)
      → budget + 8 < 2 ^ 32
      → g.bus ≡ some b
      → RunsWithin operations
          (operations-ClockLaws laws)
          ⊥
          8
          (operations.cpu_bus.elapsed_t_cycles b)
          budget
          (run_cycles operations false moments budget g)
  machine-overrun laws moments budget g b bound loaded =
      run_cycles-outcome operations (operations-ClockLaws laws) false moments budget g b
        (operations-IsFree laws) bound loaded
