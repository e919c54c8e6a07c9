-- ===== src/Audio/Device.antt =====
-- The implementation of `AudioDevice` for `Apu`: crates/gb-core/src/bus/devices.rs. A call of `tick`
-- requests no interrupt.
use pockiva.Prelude.{ℕ, zero, suc}
use pockiva.Interrupts.{no_interrupt}
use pockiva.Bus.Devices.{AudioDevice}
use pockiva.Audio.Pcm.{stereo_frames_available}
use pockiva.Audio.Unit
use pockiva.Audio.Unit.{Apu, MixerOperations}

module _ {X F : Type 0} (mixing : MixerOperations X F) where
  -- `for _ in 0..t_cycles`
  unfoldable pub ticks : ℕ → Apu X F → Apu X F
  unfolding Unit.tick_t_cycle
  ticks zero a = a
  ticks (suc t_cycles) a = ticks t_cycles (Unit.tick_t_cycle mixing a)

  -- The unit at a sample rate, as the bus has it.
  unfoldable pub audio_device : ℕ → AudioDevice (Apu X F)
  unfolding ticks Unit.read Unit.write Unit.new stereo_frames_available
  audio_device sample_rate = record {
    read = λ a address. Unit.read mixing a address;
    write = λ a address value. Unit.write mixing a address value;
    tick = λ a t_cycles. (ticks t_cycles a, no_interrupt);
    stereo_frames_available = λ a. stereo_frames_available a.pcm;
    new = Unit.new mixing sample_rate;
  }
