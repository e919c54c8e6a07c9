-- ===== src/Audio/Range.antt =====
-- What the fields of the channels of crates/gb-core/src/apu range over: no period is below zero, no
-- table is read out of range and no output is above 15.
use pockiva.Prelude.{
  ℕ, zero, suc, ◌+◌, ◌-◌, ◌*◌, ◌≤◌, ◌<◌, ◌≡◌, refl, true, false, not, ◌||◌, bit_and, Option, none,
  some, [], ◌==◌, leb, if◌then◌else◌, get_or, arith, if-holds,
}
use pockiva.Prelude.Bits.{bit_and_mask, all_below, all_below_sound}
use pockiva.Audio.Envelope
use pockiva.Audio.Envelope.{VolumeEnvelope}
use pockiva.Audio.Sweep
use pockiva.Audio.Sweep.{
  FrequencySweep, SweepClock, idle, disabled, applied, applied_and_disabled, trigger_disabled,
  trigger_enabled, calculate,
}
use pockiva.Audio.Pulse
use pockiva.Audio.Pulse.{PulseChannel}

unfoldable pub EnvelopeIsValid : VolumeEnvelope → Type 0
EnvelopeIsValid e = (e.initial_volume ≤ 15) × (e.current_volume ≤ 15)

pub envelope_write-IsValid :
    (e : VolumeEnvelope) (value : ℕ)
    → value < 256
    → EnvelopeIsValid e
    → EnvelopeIsValid (Envelope.write e value)
unfolding Envelope.write EnvelopeIsValid
envelope_write-IsValid e value h v = (omega arith, v.1)

pub envelope_trigger-IsValid :
    (e : VolumeEnvelope) → EnvelopeIsValid e → EnvelopeIsValid (Envelope.trigger e)
unfolding Envelope.trigger EnvelopeIsValid
envelope_trigger-IsValid e v = (v.0, v.0)

envelope_clock-IsValid :
    (e : VolumeEnvelope) → EnvelopeIsValid e → EnvelopeIsValid (Envelope.clock e)
unfolding Envelope.clock Envelope.next_volume EnvelopeIsValid
envelope_clock-IsValid e v = (ground arith, ground arith)

-- The frequency that a sweep goes on from fits its eleven bits.
unfoldable pub SweepIsValid : Option FrequencySweep → Type 0
SweepIsValid none = Unit {0}
SweepIsValid (some s) = s.shadow_frequency < 2048

FrequencyIsValid : SweepClock → Type 0
FrequencyIsValid idle = Unit {0}
FrequencyIsValid disabled = Unit {0}
FrequencyIsValid (applied frequency) = frequency < 2048
FrequencyIsValid (applied_and_disabled frequency) = frequency < 2048

calculate-lt : (s : FrequencySweep) (f : ℕ) → calculate s ≡ some f → f < 2048
unfolding calculate
calculate-lt s f h = ground arith

ClockIsValid : FrequencySweep × SweepClock → Type 0
ClockIsValid r = (r.0.shadow_frequency < 2048) × FrequencyIsValid r.1

sweep_clock-IsValid :
    (s : FrequencySweep) → s.shadow_frequency < 2048 → ClockIsValid (Sweep.clock s)
unfolding Sweep.clock calculate FrequencyIsValid ClockIsValid
sweep_clock-IsValid s h =
    if-holds ClockIsValid (not s.enabled) (h, tt)
      (if-holds ClockIsValid (not (s.timer - 1 == 0)) (h, tt)
        (if-holds ClockIsValid (s.pace == 0) (h, tt) (by_value (calculate s) (calculate-lt s))))
  where
    reloaded : FrequencySweep
    reloaded = record s { timer = Sweep.reload_period s }

    by_value :
        (o : Option ℕ)
        → ((f : ℕ) → o ≡ some f → f < 2048)
        → ClockIsValid (elim o [
          | none ↦ (record reloaded { enabled = false }, disabled)
          | some frequency ↦
              let s2 = record reloaded { negate_used = s.negate || s.negate_used } in
              if s2.shift == 0
              then (s2, idle)
              else (let s3 = record s2 { shadow_frequency = frequency } in
                  if not (Sweep.is_some (calculate s3))
                  then (record s3 { enabled = false }, applied_and_disabled frequency)
                  else (s3, applied frequency))
        ])
    by_value none small = (h, tt)
    by_value (some f) small =
        if-holds ClockIsValid (s.shift == 0) (h, tt)
          (if-holds ClockIsValid
            (not (
              Sweep.is_some (
                calculate (record reloaded {
                  negate_used = s.negate || s.negate_used;
                  shadow_frequency = f;
                }))))
            (small f refl, small f refl) (small f refl, small f refl))

-- The duty and its position name a place in the table, the frequency has eleven bits, and the volume
-- four.
pub record IsValid (c : PulseChannel) : Type 0 where
  pub duty_lt : c.duty < 4
  pub position_lt : c.duty_position < 8
  pub frequency_lt : c.frequency < 2048
  pub envelope_valid : EnvelopeIsValid c.envelope
  pub sweep_valid : SweepIsValid c.sweep

and_seven : (x : ℕ) → bit_and x 7 < 8
and_seven x = omega (arith, bit_and_mask 3 x)

pub tick-IsValid : (c : PulseChannel) → IsValid c → IsValid (Pulse.tick_t_cycle c)
unfolding Pulse.tick_t_cycle
tick-IsValid c v =
    if-holds IsValid (c.timer - 1 == 0)
      (record {
        duty_lt = v.duty_lt;
        position_lt = and_seven (c.duty_position + 1);
        frequency_lt = v.frequency_lt;
        envelope_valid = v.envelope_valid;
        sweep_valid = v.sweep_valid;
      })
      (record {
        duty_lt = v.duty_lt;
        position_lt = v.position_lt;
        frequency_lt = v.frequency_lt;
        envelope_valid = v.envelope_valid;
        sweep_valid = v.sweep_valid;
      })

table :
    all_below 4
      (λ duty. all_below 8 (λ place. leb (get_or (get_or Pulse.duty_waves duty []) place 0) 1))
    ≡ true
unfolding all_below
table = refl

leb_sound : {x : ℕ} → leb x 1 ≡ true → x ≤ 1
leb_sound h = ground arith

bit_times : (x y : ℕ) → x ≤ 1 → y ≤ 15 → x * y ≤ 15
bit_times zero y h k = omega arith
bit_times (suc zero) y h k = omega arith
bit_times (suc (suc x)) y h k = absurd (omega arith)

-- The output of a valid channel is at most 15.
pub output-le : (c : PulseChannel) → IsValid c → Pulse.output c ≤ 15
unfolding Pulse.output EnvelopeIsValid
output-le c v =
    if-holds (λ x. x ≤ 15) (not c.enabled || not c.dac_enabled) (omega arith)
      (bit_times _ c.envelope.current_volume
        (leb_sound (
          all_below_sound 8 (λ place. leb (get_or (get_or Pulse.duty_waves c.duty []) place 0) 1)
            c.duty_position
            (all_below_sound 4
              (λ duty.
                all_below 8 (λ place. leb (get_or (get_or Pulse.duty_waves duty []) place 0) 1))
              c.duty table v.duty_lt)
            v.position_lt))
        v.envelope_valid.1)

pub clock_envelope-IsValid : (c : PulseChannel) → IsValid c → IsValid (Pulse.clock_envelope c)
unfolding Pulse.clock_envelope
clock_envelope-IsValid c v = record {
  duty_lt = v.duty_lt;
  position_lt = v.position_lt;
  frequency_lt = v.frequency_lt;
  envelope_valid = envelope_clock-IsValid c.envelope v.envelope_valid;
  sweep_valid = v.sweep_valid;
}

-- A valid channel is valid after its sweep is clocked: the frequency that it takes over has eleven
-- bits.
pub clock_sweep-IsValid : (c : PulseChannel) → IsValid c → IsValid (Pulse.clock_sweep c)
unfolding Pulse.clock_sweep SweepIsValid FrequencyIsValid ClockIsValid
clock_sweep-IsValid c v = by_sweep c.sweep v.sweep_valid
  where
    swept : FrequencySweep → SweepClock → PulseChannel
    swept s' result = elim result [
      | applied frequency ↦ record c { sweep = some s'; frequency = frequency }
      | applied_and_disabled frequency ↦ record c {
        sweep = some s';
        frequency = frequency;
        enabled = false;
      }
      | disabled ↦ record c { sweep = some s'; enabled = false }
      | idle ↦ record c { sweep = some s' }
    ]

    kept :
        (s' : FrequencySweep) (result : SweepClock)
        → s'.shadow_frequency < 2048
        → FrequencyIsValid result
        → IsValid (swept s' result)
    kept s' idle h f = record {
      duty_lt = v.duty_lt;
      position_lt = v.position_lt;
      frequency_lt = v.frequency_lt;
      envelope_valid = v.envelope_valid;
      sweep_valid = h;
    }
    kept s' disabled h f = record {
      duty_lt = v.duty_lt;
      position_lt = v.position_lt;
      frequency_lt = v.frequency_lt;
      envelope_valid = v.envelope_valid;
      sweep_valid = h;
    }
    kept s' (applied frequency) h f = record {
      duty_lt = v.duty_lt;
      position_lt = v.position_lt;
      frequency_lt = f;
      envelope_valid = v.envelope_valid;
      sweep_valid = h;
    }
    kept s' (applied_and_disabled frequency) h f = record {
      duty_lt = v.duty_lt;
      position_lt = v.position_lt;
      frequency_lt = f;
      envelope_valid = v.envelope_valid;
      sweep_valid = h;
    }

    by_sweep :
        (o : Option FrequencySweep)
        → SweepIsValid o
        → IsValid
            (elim o [ none ↦ c | some s ↦ let (s', result) = Sweep.clock s in swept s' result ])
    by_sweep none h = v
    by_sweep (some s) h =
        let clocked = sweep_clock-IsValid s h in
        kept (Sweep.clock s).0 (Sweep.clock s).1 clocked.0 clocked.1
