-- ===== src/Audio/Sweep.antt =====
-- crates/gb-core/src/apu/sweep.rs
use pockiva.Prelude.{
  ℕ, ◌+◌, ◌-◌, ◌/◌, ◌^◌, Bool, true, false, not, ◌&&◌, ◌||◌, bit_and, Option, none, some, ◌==◌, leb,
  if◌then◌else◌,
}

pub data SweepTrigger : Type 0 where
  trigger_disabled trigger_enabled : SweepTrigger

pub data SweepClock : Type 0 where
  idle disabled : SweepClock
  applied applied_and_disabled : ℕ → SweepClock

pub record FrequencySweep : Type 0 where
  pub register : ℕ
  pub pace : ℕ
  pub negate : Bool
  pub shift : ℕ
  pub timer : ℕ
  pub shadow_frequency : ℕ
  pub enabled : Bool
  pub negate_used : Bool

abbrev pub default_sweep : FrequencySweep
default_sweep = record {
  register = 0;
  pace = 0;
  negate = false;
  shift = 0;
  timer = 0;
  shadow_frequency = 0;
  enabled = false;
  negate_used = false;
}

unfoldable pub write : FrequencySweep → ℕ → FrequencySweep × Bool
write s value = (
  record s {
    register = bit_and value 0x7f;
    pace = bit_and (value / 16) 0x07;
    negate = not (bit_and value 0x08 == 0);
    shift = bit_and value 0x07;
  },
  s.negate_used && (s.negate && bit_and value 0x08 == 0),
)

unfoldable pub reload_period : FrequencySweep → ℕ
reload_period s = if s.pace == 0 then 8 else s.pace

-- A shifted frequency is at most the frequency, so `checked_sub` gives a value; the sum of two
-- frequencies fits a `u16`.
unfoldable pub calculate : FrequencySweep → Option ℕ
calculate s =
    let delta = s.shadow_frequency / 2 ^ s.shift in
    let result = if s.negate then s.shadow_frequency - delta else s.shadow_frequency + delta in
    if leb result 2047 then some result else none

unfoldable pub is_some : Option ℕ → Bool
is_some none = false
is_some (some x) = true

unfoldable pub trigger : FrequencySweep → ℕ → FrequencySweep × SweepTrigger
unfolding reload_period calculate is_some
trigger s frequency =
    let s1 = record s {
      shadow_frequency = frequency;
      timer = reload_period s;
      enabled = not (s.pace == 0) || not (s.shift == 0);
      negate_used = false;
    } in
    if s1.shift == 0
    then (s1, trigger_enabled)
    else if not (is_some (calculate s1))
    then (record s1 { enabled = false }, trigger_disabled)
    else (record s1 { negate_used = s1.negate }, trigger_enabled)

unfoldable pub clock : FrequencySweep → FrequencySweep × SweepClock
unfolding reload_period calculate is_some
clock s =
    if not s.enabled
    then (s, idle)
    else (let timer = s.timer - 1 in
        if not (timer == 0)
        then (record s { timer = timer }, idle)
        else (let s1 = record s { timer = reload_period s } in
            if s1.pace == 0 then (s1, idle) else elim (calculate s1) [
              | none ↦ (record s1 { enabled = false }, disabled)
              | some frequency ↦
                  let s2 = record s1 { negate_used = s1.negate || s1.negate_used } in
                  if s2.shift == 0
                  then (s2, idle)
                  else (let s3 = record s2 { shadow_frequency = frequency } in
                      if not (is_some (calculate s3))
                      then (record s3 { enabled = false }, applied_and_disabled frequency)
                      else (s3, applied frequency))
            ]))
