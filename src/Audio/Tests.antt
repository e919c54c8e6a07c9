-- ===== src/Audio/Tests.antt =====
-- A length counter with three steps left, a buffer with no frame, and a channel that was triggered.
use pockiva.Prelude.{ℕ, ◌≤◌, ◌<◌, ◌≡◌, refl, true, false, [], ◌∷◌, ◌++◌, replicate, arith}
use pockiva.Audio.Length.{LengthCounter, clocks}
use pockiva.Audio.Pcm.{PcmBuffer, default_buffer}
use pockiva.Audio.Pulse
use pockiva.Audio.Pulse.{PulseChannel}
use pockiva.Audio.Unit
use pockiva.Audio.Unit.{MixerOperations, Apu, dmg_clock_hz, tick_t_cycle}
use pockiva.Audio.Counting.{HoldsFrames, clocks-ends, tick_t_cycle-phase}
use pockiva.Audio.Channel
use pockiva.Audio.Channel.{Reachable, reachable-output}

abbrev three_left : LengthCounter
three_left = record { remaining = 3; enabled = true }

clocks-ends_example : clocks 3 three_left ≡ replicate 2 false ++ true ∷ []
clocks-ends_example = clocks-ends three_left 2 refl refl

abbrev empty_buffer : PcmBuffer ℕ
empty_buffer = default_buffer

empty-HoldsFrames : HoldsFrames empty_buffer 0
unfolding HoldsFrames
empty-HoldsFrames = (refl, omega arith)

-- It gives the first channel's output on both sides.
abbrev first_output : MixerOperations ℕ ℕ
first_output = record {
  new = λ rate. rate;
  reset = λ x. x;
  mix_with_dacs = λ x outputs dacs nr50 nr51. (x, (nr50, nr51));
  silence = 0;
}

abbrev booted : Apu ℕ ℕ
booted = Unit.new first_output 48000

tick_t_cycle-phase_example : (tick_t_cycle first_output booted).sample_phase < dmg_clock_hz
tick_t_cycle-phase_example = tick_t_cycle-phase first_output booted

abbrev triggered : PulseChannel
triggered = Pulse.tick_t_cycle (Pulse.write (Pulse.write (Pulse.new true) 2 0xf3 true) 4 0x87 true)

triggered-Reachable : Reachable triggered
triggered-Reachable = Channel.tick _ (
    Channel.write _ 4 0x87 true (omega arith)
      (Channel.write _ 2 0xf3 true (omega arith) (Channel.new true)))

reachable-output_example :
    (Pulse.output triggered ≤ 15) × (4 ≤ Pulse.period triggered) × (Pulse.period triggered ≤ 8192)
reachable-output_example = reachable-output triggered triggered-Reachable
