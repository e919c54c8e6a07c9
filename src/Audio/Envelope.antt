-- ===== src/Audio/Envelope.antt =====
-- crates/gb-core/src/apu/envelope.rs
use pockiva.Prelude.{
  ℕ, ◌+◌, ◌-◌, ◌/◌, Bool, true, false, not, bit_and, Option, none, some, ◌==◌, leb, if◌then◌else◌,
}

pub record VolumeEnvelope : Type 0 where
  pub register : ℕ
  pub initial_volume : ℕ
  pub increase : Bool
  pub pace : ℕ
  pub timer : ℕ
  pub current_volume : ℕ
  pub running : Bool

abbrev pub default_envelope : VolumeEnvelope
default_envelope = record {
  register = 0;
  initial_volume = 0;
  increase = false;
  pace = 0;
  timer = 0;
  current_volume = 0;
  running = false;
}

unfoldable pub write : VolumeEnvelope → ℕ → VolumeEnvelope
write e value = record e {
  register = value;
  initial_volume = value / 16;
  increase = not (bit_and value 0x08 == 0);
  pace = bit_and value 0x07;
}

unfoldable pub reload_period : VolumeEnvelope → ℕ
reload_period e = if e.pace == 0 then 8 else e.pace

unfoldable pub trigger : VolumeEnvelope → VolumeEnvelope
unfolding reload_period
trigger e = record e { current_volume = e.initial_volume; timer = reload_period e; running = true }

-- the next volume, if it is in range
unfoldable pub next_volume : VolumeEnvelope → Option ℕ
next_volume e =
    if e.increase
    then (if leb (e.current_volume + 1) 15 then some (e.current_volume + 1) else none)
    else if e.current_volume == 0
    then none
    else some (e.current_volume - 1)

unfoldable pub clock : VolumeEnvelope → VolumeEnvelope
unfolding reload_period next_volume
clock e =
    if not e.running
    then e
    else (let timer = e.timer - 1 in
        if not (timer == 0) then record e { timer = timer } else elim (next_volume e) [
          | some next ↦ record e { timer = reload_period e; current_volume = next }
          | none ↦ record e { timer = reload_period e; running = false }
        ])

unfoldable pub dac_enabled : VolumeEnvelope → Bool
dac_enabled e = not (bit_and e.register 0xf8 == 0)
