-- ===== src/Desktop/Pacing.antt =====
-- apps/desktop/src-tauri/src/audio/policy.rs: the marks of the audio queue and the pace that they set.
-- With the types of audio/mod.rs; a duration is a number of nanoseconds.
use pockiva.Prelude.{
  ℕ, ◌+◌, ◌-◌, ◌*◌, ◌/◌, ◌<◌, ◌≤◌, ◌≡◌, min, ltb, leb, not, Bool, true, false, ◌&&◌, Option, none,
  some, if◌then◌else◌, arith,
}

pub data PacingDecision : Type 0 where
  prime run_one_batch fallback_frame_deadline : PacingDecision
  wait backpressured : ℕ → PacingDecision

pub record AudioHealth : Type 0 where
  pub queued_stereo_frames : ℕ
  pub flush_pending : Bool
  pub underruns : ℕ
  pub dropped_stereo_frames : ℕ
  pub stream_errors : ℕ
  pub usable : Bool

pub record AudioWatermarks : Type 0 where
  pub sample_rate : ℕ  -- not zero
  pub low : ℕ
  pub target : ℕ
  pub high : ℕ
  pub capacity : ℕ

unfoldable pub marks : ℕ → AudioWatermarks
marks rate = record {
  sample_rate = rate;
  low = rate * 40 / 1000;
  target = rate * 80 / 1000;
  high = rate * 120 / 1000;
  capacity = rate * 160 / 1000;
}

-- `none` is the failed assertion.
unfoldable pub for_rate : ℕ → Option AudioWatermarks
unfolding marks
for_rate rate =
    let m = marks rate in
    if ltb m.low m.target && ltb m.target m.high && ltb m.high m.capacity then some m else none

unfoldable pub sample_capacity : AudioWatermarks → ℕ
sample_capacity m = m.capacity * 2

-- `div_ceil`
abbrev pub div_ceil : ℕ → ℕ → ℕ
div_ceil a b = (a + b - 1) / b

unfoldable pub pacing_decision : AudioHealth → AudioWatermarks → PacingDecision
pacing_decision health m =
    let queued = health.queued_stereo_frames in
    let nanos = min (div_ceil ((queued - m.target) * 1000000000) m.sample_rate) 5000000 in
    if not health.usable
    then fallback_frame_deadline
    else if ltb queued m.low
    then prime
    else if leb queued m.target
    then run_one_batch
    else if ltb m.high queued
    then backpressured nanos
    else wait nanos

-- The assertion holds at every rate from 25 on, and the ring then holds whole stereo frames for a
-- time from the first mark to four times it.
pub for_rate-some :
    (rate : ℕ)
    → 25 ≤ rate
    → (for_rate rate ≡ some (marks rate))
      × (sample_capacity (marks rate) * 1000 ≤ rate * 320)
      × (rate * 320 < sample_capacity (marks rate) * 1000 + 2000)
unfolding for_rate sample_capacity
for_rate-some rate h = ground arith

abbrev pub WaitsWithin : ℕ → PacingDecision → Type 0
WaitsWithin bound prime = Unit {0}
WaitsWithin bound run_one_batch = Unit {0}
WaitsWithin bound fallback_frame_deadline = Unit {0}
WaitsWithin bound (wait nanos) = nanos ≤ bound
WaitsWithin bound (backpressured nanos) = nanos ≤ bound

abbrev pub runs_core : PacingDecision → Bool
runs_core prime = true
runs_core run_one_batch = true
runs_core other = false

abbrev pub presses_back : PacingDecision → Bool
presses_back (backpressured nanos) = true
presses_back other = false

-- The pace never sleeps longer than five milliseconds, it runs the core exactly up to the target, and
-- it presses back exactly above the high mark.
pub pacing_decision_lem :
    (health : AudioHealth) (rate : ℕ)
    → 25 ≤ rate
    → health.usable ≡ true
    → let d = pacing_decision health (marks rate) in
      WaitsWithin 5000000 d
      × (runs_core d ≡ leb health.queued_stereo_frames (marks rate).target)
      × (presses_back d ≡ ltb (marks rate).high health.queued_stereo_frames)
unfolding pacing_decision marks
pacing_decision_lem health rate h u = ground arith
