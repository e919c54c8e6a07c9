-- ===== src/Desktop/AudioQueue.antt =====
-- apps/desktop/src-tauri/src/audio/queue.rs: the samples on their way to the audio output. The ring of
-- the crate `ringbuf` and the floating-point samples and gain are parameters; both halves of the
-- queue are one record, since they share the ring and the state. A call is one step of it.
use pockiva.Prelude.{
  ℕ, ◌+◌, ◌-◌, ◌/◌, ◌%◌, ◌^◌, ◌≡◌, Bool, true, false, not, ◌&&◌, List, [], ◌∷◌, ◌++◌, length,
  replicate, take, ltb, ◌==◌, if◌then◌else◌, arith,
}
use pockiva.Desktop.Pacing.{AudioHealth, marks, sample_capacity}

pub data AudioBackendErrorKind : Type 0 where
  no_output_device unsupported_configuration device_unavailable device_busy permission_denied
        stream_invalidated backend :
      AudioBackendErrorKind

pub data Enqueued (A : Type 0) : Type 0 where
  accepted : A → Enqueued A
  refused : AudioBackendErrorKind → A → Enqueued A

-- The kinds of `cpal::ErrorKind` that the code looks at.
pub data StreamErrorKind : Type 0 where
  xrun device_not_available stream_invalid other_error : StreamErrorKind

-- `HeapRb` and its halves: `pop_slice` gives at most as many samples as it is asked for.
pub record RingOperations (Q S : Type 0) : Type 0 where
  pub new_ring : ℕ → Q
  pub occupied_len : Q → ℕ
  pub vacant_len : Q → ℕ
  pub push_slice : Q → List S → Q
  pub pop_slice : Q → ℕ → List S × Q
  pub clear_ring : Q → Q

pub record SampleOperations (S G : Type 0) : Type 0 where
  pub silence : S
  pub scale : G → S → S
  pub unit_gain : G
  pub is_finite : G → Bool
  pub in_unit_interval : G → Bool

pub record QueueState (G : Type 0) : Type 0 where
  pub paused : Bool
  pub gain : G
  pub flush_epoch : ℕ
  pub flushed_epoch : ℕ
  pub underruns : ℕ
  pub dropped_frames : ℕ
  pub stream_errors : ℕ
  pub usable : Bool

pub record AudioQueue (Q G : Type 0) : Type 0 where
  pub ring : Q
  pub sample_rate : ℕ
  pub state : QueueState G
  pub observed_epoch : ℕ

-- `fetch_add` on an `AtomicU64`
unfoldable pub fetch_add : ℕ → ℕ → ℕ
fetch_add counter n = (counter + n) % 2 ^ 64

module _ {Q S G : Type 0} (rings : RingOperations Q S) (samples : SampleOperations S G) where
  unfoldable pub default_state : QueueState G
  default_state = record {
    paused = true;
    gain = samples.unit_gain;
    flush_epoch = 0;
    flushed_epoch = 0;
    underruns = 0;
    dropped_frames = 0;
    stream_errors = 0;
    usable = true;
  }

  unfoldable pub new_queue : ℕ → AudioQueue Q G
  unfolding default_state
  new_queue rate = record {
    ring = rings.new_ring (sample_capacity (marks rate));
    sample_rate = rate;
    state = default_state;
    observed_epoch = 0;
  }

  unfoldable pub is_flush_pending : QueueState G → Bool
  is_flush_pending s = not (s.flush_epoch == s.flushed_epoch)

  unfoldable pub enqueue : AudioQueue Q G → ℕ → List S → Enqueued (AudioQueue Q G)
  unfolding is_flush_pending fetch_add
  enqueue q rate batch =
      let s = q.state in
      if not (rate == q.sample_rate)
      then refused unsupported_configuration q
      else if not (length batch % 2 == 0)
      then refused backend q
      else if is_flush_pending s
      then refused stream_invalidated q
      else if ltb (rings.vacant_len q.ring) (length batch)
      then refused device_busy (record q {
        state = record s { dropped_frames = fetch_add s.dropped_frames (length batch / 2) };
      })
      else accepted (record q { ring = rings.push_slice q.ring batch })

  unfoldable pub queue_health : AudioQueue Q G → AudioHealth
  unfolding is_flush_pending
  queue_health q = record {
    queued_stereo_frames = rings.occupied_len q.ring / 2;
    flush_pending = is_flush_pending q.state;
    underruns = q.state.underruns;
    dropped_stereo_frames = q.state.dropped_frames;
    stream_errors = q.state.stream_errors;
    usable = q.state.usable;
  }

  unfoldable pub set_gain : AudioQueue Q G → G → Enqueued (AudioQueue Q G)
  set_gain q gain =
      if samples.is_finite gain && samples.in_unit_interval gain
      then accepted (record q { state = record q.state { gain = gain } })
      else refused backend q

  unfoldable pub pause_and_flush : AudioQueue Q G → AudioQueue Q G
  unfolding fetch_add
  pause_and_flush q = record q {
    state = record q.state { paused = true; flush_epoch = fetch_add q.state.flush_epoch 1 };
  }

  unfoldable pub play : AudioQueue Q G → Enqueued (AudioQueue Q G)
  unfolding is_flush_pending
  play q =
      if is_flush_pending q.state
      then refused stream_invalidated q
      else accepted (record q { state = record q.state { paused = false } })

  unfoldable pub report : QueueState G → StreamErrorKind → QueueState G
  unfolding fetch_add
  report s xrun = record s { underruns = fetch_add s.underruns 1 }
  report s device_not_available = record s {
    stream_errors = fetch_add s.stream_errors 1;
    usable = false;
  }
  report s stream_invalid = record s { stream_errors = fetch_add s.stream_errors 1; usable = false }
  report s other_error = record s { stream_errors = fetch_add s.stream_errors 1 }

  -- The first part of `fill_output`
  unfoldable pub observe_flush : AudioQueue Q G → AudioQueue Q G
  observe_flush q =
      let epoch = q.state.flush_epoch in
      if epoch == q.observed_epoch then q else record q {
        ring = rings.clear_ring q.ring;
        observed_epoch = epoch;
        state = record q.state { flushed_epoch = epoch };
      }

  unfoldable pub scaled : G → List S → List S
  scaled gain [] = []
  scaled gain (sample ∷ rest) = samples.scale gain sample ∷ scaled gain rest

  -- An output of an odd length ends in silence.
  unfoldable pub padded : List S → ℕ → List S
  padded given size =
      let whole = given ++ replicate (size - length given) samples.silence in
      if size % 2 == 0 then whole else take (size - 1) whole ++ samples.silence ∷ []

  unfoldable pub play_out : AudioQueue Q G → ℕ → List S × AudioQueue Q G
  unfolding scaled padded fetch_add
  play_out q size =
      let (given, rest) = rings.pop_slice q.ring size in
      let s = q.state in
      let count = if ltb (length given) size then fetch_add s.underruns 1 else s.underruns in
      (
        padded (scaled s.gain given) size,
        record q { ring = rest; state = record s { underruns = count } },
      )

  unfoldable pub fill_output : AudioQueue Q G → ℕ → List S × AudioQueue Q G
  unfolding observe_flush play_out
  fill_output q size =
      let seen = observe_flush q in
      if seen.state.paused then (replicate size samples.silence, seen) else play_out seen size

  -- Where the consumer has kept what it stored, a call of `fill_output` that follows a
  -- `pause_and_flush` gives silence, and no flush is pending after it.
  pause_and_flush-fill_output :
      (q : AudioQueue Q G) (size : ℕ)
      → q.observed_epoch ≡ q.state.flushed_epoch
      → ((fill_output (pause_and_flush q) size).0 ≡ replicate size samples.silence)
        × (is_flush_pending (fill_output (pause_and_flush q) size).1.state ≡ false)
  unfolding pause_and_flush fill_output observe_flush fetch_add is_flush_pending
  pause_and_flush-fill_output q size e = ground arith
