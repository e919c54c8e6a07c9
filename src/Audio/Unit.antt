-- ===== src/Audio/Unit.antt =====
-- crates/gb-core/src/apu/mod.rs: the registers, the frame sequencer and the samples. The mixer works
-- in floating point, so its operations are a parameter.
use pockiva.Prelude.{
  ℕ, zero, suc, ◌+◌, ◌-◌, ◌*◌, Bool, true, false, not, ◌&&◌, ◌||◌, bit_and, bit_or, List, [], ◌∷◌,
  ◌==◌, leb, within, if◌then◌else◌, from_bool, add16_wrap,
}
use pockiva.Audio.Pulse
use pockiva.Audio.Pulse.{PulseChannel}
use pockiva.Audio.Wave
use pockiva.Audio.Wave.{WaveChannel, default_wave}
use pockiva.Audio.Noise
use pockiva.Audio.Noise.{NoiseChannel, default_noise}
use pockiva.Audio.Pcm.{PcmBuffer, default_buffer, push_stereo}

-- `Mixer`: a pair of samples of the channels' outputs, their converters, NR50 and NR51.
pub record MixerOperations (X F : Type 0) : Type 0 where
  pub new : ℕ → X
  pub reset : X → X
  pub mix_with_dacs : X → List ℕ → List Bool → ℕ → ℕ → X × (F × F)
  pub silence : F

pub record Apu (X F : Type 0) : Type 0 where
  pub sample_rate : ℕ  -- not zero
  pub master_enabled : Bool
  pub divider_mirror : ℕ  -- u16
  pub frame_step : ℕ
  pub nr50 : ℕ
  pub nr51 : ℕ
  pub sample_phase : ℕ  -- u64
  pub channel1 : PulseChannel
  pub channel2 : PulseChannel
  pub channel3 : WaveChannel
  pub channel4 : NoiseChannel
  pub mixer : X
  pub pcm : PcmBuffer F

-- `DMG_CLOCK_HZ`
abbrev pub dmg_clock_hz : ℕ
dmg_clock_hz = 4194304

module _ {X F : Type 0} (mixing : MixerOperations X F) where
  unfoldable pub next_step_clocks_length : Apu X F → Bool
  next_step_clocks_length a = bit_and a.frame_step 1 == 0

  -- `Apu::new`, with the writes that leave channel 1 as the boot ROM does
  unfoldable pub new : ℕ → Apu X F
  unfolding Pulse.write
  new sample_rate = record {
    sample_rate = sample_rate;
    master_enabled = true;
    divider_mirror = 0xabcc;
    frame_step = 0;
    nr50 = 0x77;
    nr51 = 0xf3;
    sample_phase = 0;
    channel1 =
        Pulse.write
          (Pulse.write
            (Pulse.write (Pulse.write (Pulse.write (Pulse.new true) 0 0x00 true) 1 0x80 true) 2 0xf3
              true)
            3 0x00 true)
          4 0x80 true;
    channel2 = Pulse.new false;
    channel3 = default_wave;
    channel4 = default_noise;
    mixer = mixing.new sample_rate;
    pcm = default_buffer;
  }

  -- NR52, with a bit for each channel that is active
  unfoldable pub read_nr52 : Apu X F → ℕ
  read_nr52 a =
      bit_or
        (bit_or
          (bit_or
            (bit_or (bit_or 0x70 (from_bool a.master_enabled * 128)) (from_bool a.channel1.enabled))
            (from_bool a.channel2.enabled * 2))
          (from_bool a.channel3.enabled * 4))
        (from_bool a.channel4.enabled * 8)

  unfoldable pub read : Apu X F → ℕ → ℕ
  unfolding Pulse.read Wave.read Noise.read read_nr52 Wave.read_wave_ram
  read a address =
      if within 0xff10 0xff14 address
      then Pulse.read a.channel1 (address - 0xff10)
      else if within 0xff16 0xff19 address
      then Pulse.read a.channel2 (address - 0xff15)
      else if within 0xff1a 0xff1e address
      then Wave.read a.channel3 (address - 0xff1a)
      else if within 0xff20 0xff23 address
      then Noise.read a.channel4 (address - 0xff20)
      else if address == 0xff24
      then a.nr50
      else if address == 0xff25
      then a.nr51
      else if address == 0xff26
      then read_nr52 a
      else if within 0xff30 0xff3f address
      then Wave.read_wave_ram a.channel3 address
      else 0xff

  unfoldable pub clock_lengths : Apu X F → Apu X F
  unfolding Pulse.clock_length Wave.clock_length Noise.clock_length
  clock_lengths a = record a {
    channel1 = Pulse.clock_length a.channel1;
    channel2 = Pulse.clock_length a.channel2;
    channel3 = Wave.clock_length a.channel3;
    channel4 = Noise.clock_length a.channel4;
  }

  -- what the step that is due clocks
  unfoldable pub clock_step : Apu X F → Apu X F
  unfolding clock_lengths Pulse.clock_sweep Pulse.clock_envelope Noise.clock_envelope
  clock_step a =
      if a.frame_step == 0 || a.frame_step == 4
      then clock_lengths a
      else if a.frame_step == 2 || a.frame_step == 6
      then (let a' = clock_lengths a in record a' { channel1 = Pulse.clock_sweep a'.channel1 })
      else if a.frame_step == 7
      then record a {
        channel1 = Pulse.clock_envelope a.channel1;
        channel2 = Pulse.clock_envelope a.channel2;
        channel4 = Noise.clock_envelope a.channel4;
      }
      else a

  unfoldable pub clock_frame_sequencer : Apu X F → Apu X F
  unfolding clock_step
  clock_frame_sequencer a =
      let a' = clock_step a in record a' { frame_step = bit_and (a'.frame_step + 1) 7 }

  unfoldable pub write_nr52 : Apu X F → ℕ → Apu X F
  unfolding Wave.power_off_preserving_ram
  write_nr52 a value =
      let enable = not (bit_and value 0x80 == 0) in
      if a.master_enabled && not enable
      then record a {
        master_enabled = false;
        nr50 = 0;
        nr51 = 0;
        frame_step = 0;
        channel1 = Pulse.new a.channel1.has_sweep;
        channel2 = Pulse.new a.channel2.has_sweep;
        channel3 = Wave.power_off_preserving_ram a.channel3;
        channel4 = default_noise;
        mixer = mixing.reset a.mixer;
        pcm = default_buffer;
      }
      else if not a.master_enabled && enable
      then record a { master_enabled = true; frame_step = 0 }
      else a

  -- a write while the unit is off
  unfoldable pub write_off : Apu X F → ℕ → ℕ → Apu X F
  unfolding next_step_clocks_length Pulse.write_length_while_powered_off Wave.write Noise.write
      Wave.write_wave_ram
  write_off a address value =
      let next = next_step_clocks_length a in
      if address == 0xff11
      then record a { channel1 = Pulse.write_length_while_powered_off a.channel1 value }
      else if address == 0xff16
      then record a { channel2 = Pulse.write_length_while_powered_off a.channel2 value }
      else if address == 0xff1b
      then record a { channel3 = Wave.write a.channel3 1 value next }
      else if address == 0xff20
      then record a { channel4 = Noise.write a.channel4 0 value next }
      else if within 0xff30 0xff3f address
      then record a { channel3 = Wave.write_wave_ram a.channel3 address value }
      else a

  -- a write while it is on, to any register but NR52
  unfoldable pub write_on : Apu X F → ℕ → ℕ → Apu X F
  unfolding next_step_clocks_length Pulse.write Wave.write Noise.write Wave.write_wave_ram
  write_on a address value =
      let next = next_step_clocks_length a in
      if within 0xff10 0xff14 address
      then record a { channel1 = Pulse.write a.channel1 (address - 0xff10) value next }
      else if within 0xff16 0xff19 address
      then record a { channel2 = Pulse.write a.channel2 (address - 0xff15) value next }
      else if within 0xff1a 0xff1e address
      then record a { channel3 = Wave.write a.channel3 (address - 0xff1a) value next }
      else if within 0xff20 0xff23 address
      then record a { channel4 = Noise.write a.channel4 (address - 0xff20) value next }
      else if address == 0xff24
      then record a { nr50 = value }
      else if address == 0xff25
      then record a { nr51 = value }
      else if within 0xff30 0xff3f address
      then record a { channel3 = Wave.write_wave_ram a.channel3 address value }
      else a

  unfoldable pub write : Apu X F → ℕ → ℕ → Apu X F
  unfolding clock_frame_sequencer write_nr52 write_off write_on
  write a address value =
      if address == 0xff04
      then (let a' = if bit_and a.divider_mirror 0x1000 == 0 then a else clock_frame_sequencer a in
          record a' { divider_mirror = 0 })
      else if address == 0xff26
      then write_nr52 a value
      else if not a.master_enabled
      then write_off a address value
      else write_on a address value

  unfoldable pub tick_channels : Apu X F → Apu X F
  unfolding Pulse.tick_t_cycle Wave.tick_t_cycle Noise.tick_t_cycle
  tick_channels a = record a {
    channel1 = Pulse.tick_t_cycle a.channel1;
    channel2 = Pulse.tick_t_cycle a.channel2;
    channel3 = Wave.tick_t_cycle a.channel3;
    channel4 = Noise.tick_t_cycle a.channel4;
  }

  -- the pair of samples of the moment
  unfoldable pub sample : Apu X F → Apu X F
  unfolding Pulse.output Wave.output Noise.output push_stereo
  sample a =
      if not a.master_enabled
      then record a { pcm = push_stereo a.pcm mixing.silence mixing.silence }
      else (let (mixer', pair) =
            mixing.mix_with_dacs a.mixer
              (Pulse.output a.channel1
                ∷ Pulse.output a.channel2
                ∷ Wave.output a.channel3
                ∷ Noise.output a.channel4
                ∷ [])
              (a.channel1.dac_enabled ∷ a.channel2.dac_enabled ∷ a.channel3.dac_enabled
                ∷ a.channel4.dac_enabled ∷ [])
              a.nr50 a.nr51 in
          record a { mixer = mixer'; pcm = push_stereo a.pcm pair.0 pair.1 })

  -- the loop on the phase; each turn takes a second's clocks from it
  unfoldable pub samples : ℕ → Apu X F → Apu X F
  unfolding sample
  samples zero a = a
  samples (suc fuel) a =
      let rest =
        samples fuel (sample (record a { sample_phase = a.sample_phase - dmg_clock_hz })) in
      if leb dmg_clock_hz a.sample_phase then rest else a

  unfoldable pub tick_t_cycle : Apu X F → Apu X F
  unfolding clock_frame_sequencer tick_channels samples
  tick_t_cycle a =
      let old_high = not (bit_and a.divider_mirror 0x1000 == 0) in
      let a1 = record a { divider_mirror = add16_wrap a.divider_mirror 1 } in
      let a2 =
        if old_high && bit_and a1.divider_mirror 0x1000 == 0
        then clock_frame_sequencer a1
        else a1 in
      let a3 = if a2.master_enabled then tick_channels a2 else a2 in
      let phase = a3.sample_phase + a3.sample_rate in
      samples phase (record a3 { sample_phase = phase })
