-- ===== src/Audio/Pulse.antt =====
-- crates/gb-core/src/apu/pulse.rs
use pockiva.Prelude.{
  ℕ, ◌+◌, ◌-◌, ◌*◌, ◌/◌, Bool, false, not, ◌&&◌, ◌||◌, bit_and, bit_or, Option, none, some, List,
  [], ◌∷◌, ◌==◌, if◌then◌else◌, from_bool, get_or,
}
use pockiva.Audio.Length
use pockiva.Audio.Length.{LengthCounter, default_length}
use pockiva.Audio.Envelope
use pockiva.Audio.Envelope.{VolumeEnvelope, default_envelope}
use pockiva.Audio.Sweep
use pockiva.Audio.Sweep.{
  FrequencySweep, SweepTrigger, trigger_disabled, trigger_enabled, SweepClock, idle, disabled,
  applied, applied_and_disabled, default_sweep,
}

-- `DUTY`
abbrev pub duty_waves : List (List ℕ)
duty_waves =
    (0 ∷ 0 ∷ 0 ∷ 0 ∷ 0 ∷ 0 ∷ 0 ∷ 1 ∷ [])
    ∷ (1 ∷ 0 ∷ 0 ∷ 0 ∷ 0 ∷ 0 ∷ 0 ∷ 1 ∷ [])
    ∷ (1 ∷ 0 ∷ 0 ∷ 0 ∷ 0 ∷ 1 ∷ 1 ∷ 1 ∷ [])
    ∷ (0 ∷ 1 ∷ 1 ∷ 1 ∷ 1 ∷ 1 ∷ 1 ∷ 0 ∷ [])
    ∷ []

pub record PulseChannel : Type 0 where
  pub has_sweep : Bool
  pub enabled : Bool
  pub dac_enabled : Bool
  pub duty : ℕ
  pub duty_position : ℕ
  pub frequency : ℕ  -- u16
  pub timer : ℕ  -- u16
  pub length : LengthCounter
  pub envelope : VolumeEnvelope
  pub sweep : Option FrequencySweep

abbrev pub new : Bool → PulseChannel
new has_sweep = record {
  has_sweep = has_sweep;
  enabled = false;
  dac_enabled = false;
  duty = 0;
  duty_position = 0;
  frequency = 0;
  timer = 0;
  length = default_length;
  envelope = default_envelope;
  sweep = if has_sweep then some default_sweep else none;
}

-- the register of a sweep, and 0xff without one
unfoldable pub sweep_register : Option FrequencySweep → ℕ
sweep_register none = 0xff
sweep_register (some s) = bit_or s.register 0x80

unfoldable pub read : PulseChannel → ℕ → ℕ
unfolding sweep_register
read c register =
    if register == 0 && c.has_sweep
    then sweep_register c.sweep
    else if register == 1
    then bit_or (c.duty * 64) 0x3f
    else if register == 2
    then c.envelope.register
    else if register == 4
    then bit_or 0xbf (from_bool c.length.enabled * 64)
    else 0xff

-- `(2048 - self.frequency) * 4`
unfoldable pub period : PulseChannel → ℕ
period c = (2048 - c.frequency) * 4

-- the last part of `trigger`
unfoldable pub trigger_sweep : PulseChannel → PulseChannel
unfolding Sweep.trigger
trigger_sweep c = elim c.sweep [
  | none ↦ c
  | some s ↦
      let (s', result) = Sweep.trigger s c.frequency in
      elim result [
        | trigger_disabled ↦ record c { sweep = some s'; enabled = false }
        | trigger_enabled ↦ record c { sweep = some s' }
      ]
]

unfoldable pub trigger : PulseChannel → Bool → PulseChannel
unfolding Length.trigger Envelope.trigger period trigger_sweep
trigger c next_step_clocks_length = trigger_sweep (record c {
  length = (Length.trigger 64 c.length next_step_clocks_length).0;
  timer = period c;
  envelope = Envelope.trigger c.envelope;
  enabled = c.dac_enabled;
})

unfoldable pub write_sweep : PulseChannel → ℕ → PulseChannel
unfolding Sweep.write
write_sweep c value = elim c.sweep [
  | none ↦ c
  | some s ↦
      let (s', disables) = Sweep.write s value in
      record c { sweep = some s'; enabled = if disables then false else c.enabled }
]

-- the write to register 4 before its trigger
unfoldable pub write_control : PulseChannel → ℕ → Bool → PulseChannel
unfolding Length.set_enabled
write_control c value next_step_clocks_length =
    let (length', ends) =
      Length.set_enabled c.length (not (bit_and value 0x40 == 0)) next_step_clocks_length
        c.enabled in
    record c {
      frequency = bit_or (bit_and c.frequency 0x00ff) (bit_and value 0x07 * 256);
      length = length';
      enabled = if ends then false else c.enabled;
    }

unfoldable pub write : PulseChannel → ℕ → ℕ → Bool → PulseChannel
unfolding write_sweep Length.load Envelope.write Envelope.dac_enabled write_control trigger
write c register value next_step_clocks_length =
    if register == 0 && c.has_sweep
    then write_sweep c value
    else if register == 1
    then record c { duty = value / 64; length = Length.load 64 c.length (bit_and value 0x3f) }
    else if register == 2
    then (let envelope' = Envelope.write c.envelope value in
        let dac = Envelope.dac_enabled envelope' in
        record c {
          envelope = envelope';
          dac_enabled = dac;
          enabled = if not dac then false else c.enabled;
        })
    else if register == 3
    then record c { frequency = bit_or (bit_and c.frequency 0x0700) value }
    else if register == 4
    then (let c' = write_control c value next_step_clocks_length in
        if bit_and value 0x80 == 0 then c' else trigger c' next_step_clocks_length)
    else c

unfoldable pub write_length_while_powered_off : PulseChannel → ℕ → PulseChannel
unfolding Length.load
write_length_while_powered_off c value = record c {
  length = Length.load 64 c.length (bit_and value 0x3f);
}

unfoldable pub tick_t_cycle : PulseChannel → PulseChannel
unfolding period
tick_t_cycle c =
    let timer = c.timer - 1 in
    if timer == 0
    then record c { timer = period c; duty_position = bit_and (c.duty_position + 1) 7 }
    else record c { timer = timer }

unfoldable pub clock_length : PulseChannel → PulseChannel
unfolding Length.clock
clock_length c =
    let (length', ends) = Length.clock c.length in
    record c { length = length'; enabled = if ends then false else c.enabled }

unfoldable pub clock_envelope : PulseChannel → PulseChannel
unfolding Envelope.clock
clock_envelope c = record c { envelope = Envelope.clock c.envelope }

unfoldable pub clock_sweep : PulseChannel → PulseChannel
unfolding Sweep.clock
clock_sweep c = elim c.sweep [
  | none ↦ c
  | some s ↦
      let (s', result) = Sweep.clock s in
      elim result [
        | applied frequency ↦ record c { sweep = some s'; frequency = frequency }
        | applied_and_disabled frequency ↦ record c {
          sweep = some s';
          frequency = frequency;
          enabled = false;
        }
        | disabled ↦ record c { sweep = some s'; enabled = false }
        | idle ↦ record c { sweep = some s' }
      ]
]

-- The tables have a place for every duty and position in range, so the values of `get_or` out of
-- range are not used.
unfoldable pub output : PulseChannel → ℕ
output c =
    if not c.enabled || not c.dac_enabled
    then 0
    else get_or (get_or duty_waves c.duty []) c.duty_position 0 * c.envelope.current_volume
