-- ===== src/Audio/Wave.antt =====
-- crates/gb-core/src/apu/wave.rs
use pockiva.Prelude.{
  ℕ, ◌+◌, ◌-◌, ◌*◌, ◌/◌, ◌^◌, Bool, false, not, ◌&&◌, ◌||◌, bit_and, bit_or, List, ◌++◌, ◌==◌, ltb,
  if◌then◌else◌, from_bool, get_or, set, take, drop, replicate,
}
use pockiva.Audio.Length
use pockiva.Audio.Length.{LengthCounter, default_length}

pub record WaveChannel : Type 0 where
  pub enabled : Bool
  pub dac_enabled : Bool
  pub frequency : ℕ
  pub timer : ℕ
  pub position : ℕ
  pub sample_buffer : ℕ
  pub output_level : ℕ
  pub length : LengthCounter
  pub wave_ram : List ℕ
  pub access_window_t_cycles : ℕ

abbrev pub default_wave : WaveChannel
default_wave = record {
  enabled = false;
  dac_enabled = false;
  frequency = 0;
  timer = 0;
  position = 0;
  sample_buffer = 0;
  output_level = 0;
  length = default_length;
  wave_ram = replicate 16 0;
  access_window_t_cycles = 0;
}

unfoldable pub read : WaveChannel → ℕ → ℕ
read c register =
    if register == 0
    then bit_or (from_bool c.dac_enabled * 128) 0x7f
    else if register == 2
    then bit_or (c.output_level * 32) 0x9f
    else if register == 4
    then bit_or 0xbf (from_bool c.length.enabled * 64)
    else 0xff

unfoldable pub period : WaveChannel → ℕ
period c = (2048 - c.frequency) * 2

-- the byte of the next fetch
unfoldable pub next_byte_index : WaveChannel → ℕ
next_byte_index c = bit_and (c.position + 1) 31 / 2

-- What a trigger on the cycle of a fetch does to the RAM: the byte due, or its aligned four, are
-- copied to the start.
unfoldable pub corrupt : List ℕ → ℕ → List ℕ
corrupt ram byte_index =
    if ltb byte_index 4
    then set ram 0 (get_or ram byte_index 0)
    else (let start = byte_index / 4 * 4 in take 4 (drop start ram) ++ drop 4 ram)

unfoldable pub trigger : WaveChannel → Bool → WaveChannel
unfolding Length.trigger period next_byte_index corrupt
trigger c next_step_clocks_length = record c {
  wave_ram =
      if c.enabled && c.timer == 2 then corrupt c.wave_ram (next_byte_index c) else c.wave_ram;
  length = (Length.trigger 256 c.length next_step_clocks_length).0;
  enabled = c.dac_enabled;
  position = 0;
  timer = period c + 6;
  access_window_t_cycles = 0;
}

unfoldable pub write_control : WaveChannel → ℕ → Bool → WaveChannel
unfolding Length.set_enabled
write_control c value next_step_clocks_length =
    let (length', ends) =
      Length.set_enabled c.length (not (bit_and value 0x40 == 0)) next_step_clocks_length
        c.enabled in
    record c {
      frequency = bit_or (bit_and c.frequency 0x00ff) (bit_and value 7 * 256);
      length = length';
      enabled = if ends then false else c.enabled;
    }

unfoldable pub write : WaveChannel → ℕ → ℕ → Bool → WaveChannel
unfolding Length.load write_control trigger
write c register value next_step_clocks_length =
    if register == 0
    then (let dac = not (bit_and value 0x80 == 0) in
        record c { dac_enabled = dac; enabled = if not dac then false else c.enabled })
    else if register == 1
    then record c { length = Length.load 256 c.length value }
    else if register == 2
    then record c { output_level = bit_and (value / 32) 0x03 }
    else if register == 3
    then record c { frequency = bit_or (bit_and c.frequency 0x0700) value }
    else if register == 4
    then (let c' = write_control c value next_step_clocks_length in
        if bit_and value 0x80 == 0 then c' else trigger c' next_step_clocks_length)
    else c

unfoldable pub tick_t_cycle : WaveChannel → WaveChannel
unfolding period
tick_t_cycle c =
    let timer = c.timer - 1 in
    if timer == 0
    then (let position = bit_and (c.position + 1) 31 in
        record c {
          timer = period c;
          position = position;
          sample_buffer = get_or c.wave_ram (position / 2) 0;
          access_window_t_cycles = 1;
        })
    else record c { timer = timer; access_window_t_cycles = c.access_window_t_cycles - 1 }

unfoldable pub clock_length : WaveChannel → WaveChannel
unfolding Length.clock
clock_length c =
    let (length', ends) = Length.clock c.length in
    record c { length = length'; enabled = if ends then false else c.enabled }

unfoldable pub output : WaveChannel → ℕ
output c =
    if not c.enabled || (not c.dac_enabled || c.output_level == 0)
    then 0
    else (let sample =
          if bit_and c.position 1 == 0
          then c.sample_buffer / 16
          else bit_and c.sample_buffer 0x0f in
        sample / 2 ^ (c.output_level - 1))

unfoldable pub read_wave_ram : WaveChannel → ℕ → ℕ
unfolding next_byte_index
read_wave_ram c address =
    if not c.enabled
    then get_or c.wave_ram (address - 0xff30) 0
    else if c.timer == 4
    then get_or c.wave_ram (next_byte_index c) 0
    else 0xff

unfoldable pub write_wave_ram : WaveChannel → ℕ → ℕ → WaveChannel
write_wave_ram c address value =
    if not c.enabled
    then record c { wave_ram = set c.wave_ram (address - 0xff30) value }
    else if ltb 0 c.access_window_t_cycles
    then record c { wave_ram = set c.wave_ram (c.position / 2) value }
    else c

unfoldable pub power_off_preserving_ram : WaveChannel → WaveChannel
power_off_preserving_ram c = record default_wave { wave_ram = c.wave_ram }
