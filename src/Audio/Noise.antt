-- ===== src/Audio/Noise.antt =====
-- crates/gb-core/src/apu/noise.rs
use pockiva.Prelude.{
  ℕ, ◌-◌, ◌*◌, ◌/◌, ◌^◌, Bool, false, not, ◌&&◌, bit_and, bit_or, bit_xor, List, [], ◌∷◌, ◌==◌,
  if◌then◌else◌, from_bool, get_or,
}
use pockiva.Audio.Length
use pockiva.Audio.Length.{LengthCounter, default_length}
use pockiva.Audio.Envelope
use pockiva.Audio.Envelope.{VolumeEnvelope, default_envelope}

-- `DIVISORS`
abbrev pub divisors : List ℕ
divisors = 8 ∷ 16 ∷ 32 ∷ 48 ∷ 64 ∷ 80 ∷ 96 ∷ 112 ∷ []

-- The largest is 112 * 2 ^ 15, which a `u32` holds.
unfoldable pub noise_period : ℕ → ℕ → ℕ
noise_period divisor_code shift = get_or divisors divisor_code 0 * 2 ^ shift

pub record NoiseChannel : Type 0 where
  pub enabled : Bool
  pub dac_enabled : Bool
  pub lfsr : ℕ  -- u16
  pub timer : ℕ  -- u32
  pub divisor_code : ℕ
  pub shift : ℕ
  pub width_mode : Bool
  pub length : LengthCounter
  pub envelope : VolumeEnvelope

abbrev pub default_noise : NoiseChannel
default_noise = record {
  enabled = false;
  dac_enabled = false;
  lfsr = 0;
  timer = 0;
  divisor_code = 0;
  shift = 0;
  width_mode = false;
  length = default_length;
  envelope = default_envelope;
}

unfoldable pub read : NoiseChannel → ℕ → ℕ
read c register =
    if register == 1
    then c.envelope.register
    else if register == 2
    then bit_or (bit_or (c.shift * 16) (from_bool c.width_mode * 8)) c.divisor_code
    else if register == 3
    then bit_or 0xbf (from_bool c.length.enabled * 64)
    else 0xff

unfoldable pub trigger : NoiseChannel → Bool → NoiseChannel
unfolding Length.trigger Envelope.trigger noise_period
trigger c next_step_clocks_length = record c {
  length = (Length.trigger 64 c.length next_step_clocks_length).0;
  lfsr = 0x7fff;
  timer = noise_period c.divisor_code c.shift;
  envelope = Envelope.trigger c.envelope;
  enabled = c.dac_enabled;
}

unfoldable pub write_control : NoiseChannel → ℕ → Bool → NoiseChannel
unfolding Length.set_enabled
write_control c value next_step_clocks_length =
    let (length', ends) =
      Length.set_enabled c.length (not (bit_and value 0x40 == 0)) next_step_clocks_length
        c.enabled in
    record c { length = length'; enabled = if ends then false else c.enabled }

unfoldable pub write : NoiseChannel → ℕ → ℕ → Bool → NoiseChannel
unfolding Length.load Envelope.write Envelope.dac_enabled write_control trigger
write c register value next_step_clocks_length =
    if register == 0
    then record c { length = Length.load 64 c.length (bit_and value 0x3f) }
    else if register == 1
    then (let envelope' = Envelope.write c.envelope value in
        let dac = Envelope.dac_enabled envelope' in
        record c {
          envelope = envelope';
          dac_enabled = dac;
          enabled = if not dac then false else c.enabled;
        })
    else if register == 2
    then record c {
      shift = value / 16;
      width_mode = not (bit_and value 0x08 == 0);
      divisor_code = bit_and value 0x07;
    }
    else if register == 3
    then (let c' = write_control c value next_step_clocks_length in
        if bit_and value 0x80 == 0 then c' else trigger c' next_step_clocks_length)
    else c

-- a step of the shift register: `!(1 << 6)` of a `u16` is 0xffbf
unfoldable pub shift_lfsr : Bool → ℕ → ℕ
shift_lfsr width_mode lfsr =
    let bit = bit_and (bit_xor lfsr (lfsr / 2)) 1 in
    let shifted = bit_or (lfsr / 2) (bit * 2 ^ 14) in
    if width_mode then bit_or (bit_and shifted 0xffbf) (bit * 2 ^ 6) else shifted

unfoldable pub tick_t_cycle : NoiseChannel → NoiseChannel
unfolding noise_period shift_lfsr
tick_t_cycle c =
    let timer = c.timer - 1 in
    if timer == 0
    then record c {
      timer = noise_period c.divisor_code c.shift;
      lfsr = shift_lfsr c.width_mode c.lfsr;
    }
    else record c { timer = timer }

unfoldable pub clock_length : NoiseChannel → NoiseChannel
unfolding Length.clock
clock_length c =
    let (length', ends) = Length.clock c.length in
    record c { length = length'; enabled = if ends then false else c.enabled }

unfoldable pub clock_envelope : NoiseChannel → NoiseChannel
unfolding Envelope.clock
clock_envelope c = record c { envelope = Envelope.clock c.envelope }

unfoldable pub output : NoiseChannel → ℕ
output c =
    if c.enabled && (c.dac_enabled && bit_and c.lfsr 1 == 0) then c.envelope.current_volume else 0
