-- ===== src/Audio/Channel.antt =====
-- A pulse channel of crates/gb-core/src/apu/pulse.rs under every operation of the audio unit on it.
use pockiva.Prelude.{
  ℕ, ◌*◌, ◌≤◌, ◌<◌, Bool, false, ◌&&◌, bit_and, bit_or, Option, none, some, ◌==◌, if◌then◌else◌,
  arith, if-holds,
}
use pockiva.Prelude.Bits.{bit_and-le, bit_or-lt}
use pockiva.Audio.Sweep
use pockiva.Audio.Sweep.{FrequencySweep, SweepTrigger, trigger_disabled, trigger_enabled}
use pockiva.Audio.Pulse
use pockiva.Audio.Pulse.{PulseChannel}
use pockiva.Audio.Range.{
  EnvelopeIsValid, SweepIsValid, IsValid, envelope_write-IsValid, envelope_trigger-IsValid,
  tick-IsValid, clock_envelope-IsValid, clock_sweep-IsValid, output-le,
}

low_frequency : (f value : ℕ) → value < 256 → bit_or (bit_and f 0x0700) value < 2048
low_frequency f value h =
    bit_or-lt 11 (bit_and f 0x0700) value (omega (arith, bit_and-le f 0x0700)) (omega arith)

high_frequency : (f value : ℕ) → bit_or (bit_and f 0x00ff) (bit_and value 0x07 * 256) < 2048
high_frequency f value =
    bit_or-lt 11 (bit_and f 0x00ff) (bit_and value 0x07 * 256) (omega (arith, bit_and-le f 0x00ff))
      (omega (arith, bit_and-le value 0x07))

new-IsValid : (has_sweep : Bool) → IsValid (Pulse.new has_sweep)
unfolding EnvelopeIsValid SweepIsValid
new-IsValid has_sweep = record {
  duty_lt = omega arith;
  position_lt = omega arith;
  frequency_lt = omega arith;
  envelope_valid = (omega arith, omega arith);
  sweep_valid = if-holds SweepIsValid has_sweep (omega arith) tt;
}

sweep_trigger-lt :
    (s : FrequencySweep) (f : ℕ) → f < 2048 → (Sweep.trigger s f).0.shadow_frequency < 2048
unfolding Sweep.trigger
sweep_trigger-lt s f h = ground arith

trigger_sweep-IsValid : (c : PulseChannel) → IsValid c → IsValid (Pulse.trigger_sweep c)
unfolding Pulse.trigger_sweep SweepIsValid
trigger_sweep-IsValid c v = by_sweep c.sweep
  where
    swept : FrequencySweep × SweepTrigger → PulseChannel
    swept r = elim r.1 [
      | trigger_disabled ↦ record c { sweep = some r.0; enabled = false }
      | trigger_enabled ↦ record c { sweep = some r.0 }
    ]

    kept :
        (s' : FrequencySweep) (result : SweepTrigger)
        → s'.shadow_frequency < 2048
        → IsValid (swept (s', result))
    kept s' trigger_disabled h = record {
      duty_lt = v.duty_lt;
      position_lt = v.position_lt;
      frequency_lt = v.frequency_lt;
      envelope_valid = v.envelope_valid;
      sweep_valid = h;
    }
    kept s' trigger_enabled h = record {
      duty_lt = v.duty_lt;
      position_lt = v.position_lt;
      frequency_lt = v.frequency_lt;
      envelope_valid = v.envelope_valid;
      sweep_valid = h;
    }

    by_sweep :
        (o : Option FrequencySweep)
        → IsValid (elim o [ none ↦ c | some s ↦ swept (Sweep.trigger s c.frequency) ])
    by_sweep none = v
    by_sweep (some s) =
        kept (Sweep.trigger s c.frequency).0 (Sweep.trigger s c.frequency).1
          (sweep_trigger-lt s c.frequency v.frequency_lt)

trigger-IsValid : (c : PulseChannel) (next : Bool) → IsValid c → IsValid (Pulse.trigger c next)
unfolding Pulse.trigger
trigger-IsValid c next v = trigger_sweep-IsValid _ (record {
  duty_lt = v.duty_lt;
  position_lt = v.position_lt;
  frequency_lt = v.frequency_lt;
  envelope_valid = envelope_trigger-IsValid c.envelope v.envelope_valid;
  sweep_valid = v.sweep_valid;
})

write_control-IsValid :
    (c : PulseChannel) (value : ℕ) (next : Bool)
    → IsValid c
    → IsValid (Pulse.write_control c value next)
unfolding Pulse.write_control
write_control-IsValid c value next v = record {
  duty_lt = v.duty_lt;
  position_lt = v.position_lt;
  frequency_lt = high_frequency c.frequency value;
  envelope_valid = v.envelope_valid;
  sweep_valid = v.sweep_valid;
}

write_sweep-IsValid :
    (c : PulseChannel) (value : ℕ) → IsValid c → IsValid (Pulse.write_sweep c value)
unfolding Pulse.write_sweep Sweep.write SweepIsValid
write_sweep-IsValid c value v = by_sweep c.sweep v.sweep_valid
  where
    by_sweep :
        (o : Option FrequencySweep)
        → SweepIsValid o
        → IsValid (elim o [
          | none ↦ c
          | some s ↦
              let (s', disables) = Sweep.write s value in
              record c { sweep = some s'; enabled = if disables then false else c.enabled }
        ])
    by_sweep none h = v
    by_sweep (some s) h = record {
      duty_lt = v.duty_lt;
      position_lt = v.position_lt;
      frequency_lt = v.frequency_lt;
      envelope_valid = v.envelope_valid;
      sweep_valid = h;
    }

write-IsValid :
    (c : PulseChannel) (register value : ℕ) (next : Bool)
    → value < 256
    → IsValid c
    → IsValid (Pulse.write c register value next)
unfolding Pulse.write
write-IsValid c register value next h v =
    if-holds IsValid (register == 0 && c.has_sweep) (write_sweep-IsValid c value v) (
      if-holds IsValid (register == 1)
        (record {
          duty_lt = omega arith;
          position_lt = v.position_lt;
          frequency_lt = v.frequency_lt;
          envelope_valid = v.envelope_valid;
          sweep_valid = v.sweep_valid;
        })
        (if-holds IsValid (register == 2)
          (record {
            duty_lt = v.duty_lt;
            position_lt = v.position_lt;
            frequency_lt = v.frequency_lt;
            envelope_valid = envelope_write-IsValid c.envelope value h v.envelope_valid;
            sweep_valid = v.sweep_valid;
          })
          (if-holds IsValid (register == 3)
            (record {
              duty_lt = v.duty_lt;
              position_lt = v.position_lt;
              frequency_lt = low_frequency c.frequency value h;
              envelope_valid = v.envelope_valid;
              sweep_valid = v.sweep_valid;
            })
            (if-holds IsValid (register == 4)
              (if-holds IsValid (bit_and value 0x80 == 0) (write_control-IsValid c value next v) (
                trigger-IsValid (Pulse.write_control c value next) next
                  (write_control-IsValid c value next v)))
              v))))

-- The channel after any of the audio unit's operations on it.
pub data Reachable : PulseChannel → Type 0 where
  new : (has_sweep : Bool) → Reachable (Pulse.new has_sweep)
  write :
      (c : PulseChannel) (register value : ℕ) (next : Bool)
      → value < 256
      → Reachable c
      → Reachable (Pulse.write c register value next)
  write_off :
      (c : PulseChannel) (value : ℕ)
      → Reachable c
      → Reachable (Pulse.write_length_while_powered_off c value)
  tick : (c : PulseChannel) → Reachable c → Reachable (Pulse.tick_t_cycle c)
  length : (c : PulseChannel) → Reachable c → Reachable (Pulse.clock_length c)
  envelope : (c : PulseChannel) → Reachable c → Reachable (Pulse.clock_envelope c)
  sweep : (c : PulseChannel) → Reachable c → Reachable (Pulse.clock_sweep c)

same-IsValid :
    (c : PulseChannel) (l : pockiva.Audio.Length.LengthCounter) (enabled : Bool)
    → IsValid c
    → IsValid (record c { length = l; enabled = enabled })
same-IsValid c l enabled v = record {
  duty_lt = v.duty_lt;
  position_lt = v.position_lt;
  frequency_lt = v.frequency_lt;
  envelope_valid = v.envelope_valid;
  sweep_valid = v.sweep_valid;
}

reachable-IsValid : (c : PulseChannel) → Reachable c → IsValid c
unfolding Pulse.write_length_while_powered_off Pulse.clock_length
reachable-IsValid _ (new has_sweep) = new-IsValid has_sweep
reachable-IsValid _ (write c register value next h r) =
    write-IsValid c register value next h (reachable-IsValid c r)
reachable-IsValid _ (write_off c value r) = same-IsValid c _ c.enabled (reachable-IsValid c r)
reachable-IsValid _ (tick c r) = tick-IsValid c (reachable-IsValid c r)
reachable-IsValid _ (length c r) = same-IsValid c _ _ (reachable-IsValid c r)
reachable-IsValid _ (envelope c r) = clock_envelope-IsValid c (reachable-IsValid c r)
reachable-IsValid _ (sweep c r) = clock_sweep-IsValid c (reachable-IsValid c r)

-- However a pulse channel is reached from a new one, by byte writes, clocks and its counters' steps,
-- its output is at most 15, and its period is at least four clocks: `2048 - self.frequency` does not
-- go below one.
pub reachable-output :
    (c : PulseChannel)
    → Reachable c
    → (Pulse.output c ≤ 15) × (4 ≤ Pulse.period c) × (Pulse.period c ≤ 8192)
unfolding Pulse.period
reachable-output c r =
    let v = reachable-IsValid c r in
    let f = v.frequency_lt in (output-le c v, omega arith, omega arith)
