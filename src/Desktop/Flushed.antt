-- ===== src/Desktop/Flushed.antt =====
-- apps/desktop/src-tauri/src/audio/queue.rs: what is played after a flush, over any calls of the queue.
use pockiva.Prelude.{
  ℕ, zero, suc, ◌+◌, ◌-◌, ◌<◌, ◌≤◌, ◌^◌, ◌≡◌, refl, ◌⊎◌, inl, inr, false, List, [], ◌∷◌, ◌++◌,
  length, replicate, take, arith, ◌==◌, ltb, if-cases, ◌%◌, not, ◌&&◌,
}
use mathlib.Core.Path.{subst, subst⁻¹}
use pockiva.Desktop.AudioQueue.{
  RingOperations, SampleOperations, AudioQueue, Enqueued, accepted, refused, StreamErrorKind, xrun,
  device_not_available, stream_invalid, other_error, enqueue, set_gain, pause_and_flush, play,
  report, fill_output, observe_flush, play_out, scaled, padded, fetch_add, is_flush_pending,
}

pub data Call (S G : Type 0) : Type 0 where
  enqueueing : ℕ → List S → Call S G
  gaining : G → Call S G
  flushing playing : Call S G
  reporting : StreamErrorKind → Call S G
  filling : ℕ → Call S G

abbrev queue_of : {A : Type 0} → Enqueued A → A
queue_of (accepted a) = a
queue_of (refused kind a) = a

abbrev pub Each : {S : Type 0} → (S → Type 0) → List S → Type 0
Each P [] = Unit {0}
Each P (s ∷ l) = P s × Each P l

-- What `ringbuf` documents: the samples leave in their order, and a cleared ring is empty.
pub record RingLaws {Q S : Type 0} (rings : RingOperations Q S) : Type 0 where
  pub contents : Q → List S
  pub contents-clear_ring : (r : Q) → contents (rings.clear_ring r) ≡ []
  pub contents-push_slice :
      (r : Q) (batch : List S)
      → length batch ≤ rings.vacant_len r
      → contents (rings.push_slice r batch) ≡ contents r ++ batch
  pub contents-pop_slice :
      (r : Q) (n : ℕ) → contents r ≡ (rings.pop_slice r n).0 ++ contents (rings.pop_slice r n).1

module _ {S : Type 0} (P : S → Type 0) where
  Each-append : (a b : List S) → Each P a → Each P b → Each P (a ++ b)
  Each-append [] b h k = k
  Each-append (s ∷ a) b (h, hs) k = (h, Each-append a b hs k)

  Each-before : (a b : List S) → Each P (a ++ b) → Each P a
  Each-before [] b h = tt
  Each-before (s ∷ a) b (h, hs) = (h, Each-before a b hs)

  Each-after : (a b : List S) → Each P (a ++ b) → Each P b
  Each-after [] b h = h
  Each-after (s ∷ a) b (h, hs) = Each-after a b hs

  Each-replicate : (n : ℕ) (s : S) → P s → Each P (replicate n s)
  Each-replicate zero s h = tt
  Each-replicate (suc n) s h = (h, Each-replicate n s h)

  Each-take : (n : ℕ) (l : List S) → Each P l → Each P (take n l)
  Each-take zero l h = tt
  Each-take (suc n) [] h = tt
  Each-take (suc n) (s ∷ l) (h, hs) = (h, Each-take n l hs)

unfoldable pub turn_call :
    {Q S G : Type 0}
    → RingOperations Q S
    → SampleOperations S G
    → AudioQueue Q G
    → Call S G
    → List S × AudioQueue Q G
turn_call rings samples q (enqueueing rate batch) =
    ([], queue_of (enqueue rings samples q rate batch))
turn_call rings samples q (gaining g) = ([], queue_of (set_gain rings samples q g))
turn_call rings samples q flushing = ([], pause_and_flush rings samples q)
turn_call rings samples q playing = ([], queue_of (play rings samples q))
turn_call rings samples q (reporting kind) =
    ([], record q { state = report rings samples q.state kind })
turn_call rings samples q (filling size) = fill_output rings samples q size

unfoldable pub played :
    {Q S G : Type 0}
    → RingOperations Q S
    → SampleOperations S G
    → AudioQueue Q G
    → List (Call S G)
    → List S
unfolding turn_call
played rings samples q [] = []
played rings samples q (call ∷ calls) =
    let (output, next) = turn_call rings samples q call in output ++ played rings samples next calls

abbrev Gives : {S G : Type 0} → (S → Type 0) → Call S G → Type 0
Gives P (enqueueing rate batch) = Each P batch
Gives P other = Unit {0}

abbrev EachGives : {S G : Type 0} → (S → Type 0) → List (Call S G) → Type 0
EachGives P [] = Unit {0}
EachGives P (call ∷ calls) = Gives P call × EachGives P calls

module _ {Q S G : Type 0} (rings : RingOperations Q S) (samples : SampleOperations S G)
    (laws : RingLaws rings) (P : S → Type 0) (silent : P samples.silence)
    (scales : (g : G) (s : S) → P s → P (samples.scale g s)) where
  -- Either a flush is still to be seen by the consumer, or every sample of the ring satisfies `P`.
  abbrev Clean : AudioQueue Q G → ℕ → Type 0
  Clean q n =
      (q.observed_epoch ≡ q.state.flushed_epoch)
      × (q.observed_epoch ≤ q.state.flush_epoch)
      × (q.state.flush_epoch + n < 2 ^ 64)
      × ((q.observed_epoch < q.state.flush_epoch) ⊎ Each P (laws.contents q.ring))

  Each-scaled : (g : G) (l : List S) → Each P l → Each P (scaled rings samples g l)
  unfolding scaled
  Each-scaled g [] h = tt
  Each-scaled g (s ∷ l) (h, hs) = (scales g s h, Each-scaled g l hs)

  Each-padded : (l : List S) (size : ℕ) → Each P l → Each P (padded rings samples l size)
  unfolding padded
  Each-padded l size h =
      let whole = Each-append P l _ h (Each-replicate P (size - length l) samples.silence silent) in
      if-cases (λ (o : List S). Each P o) (size % 2 == 0) (λ _. whole)
        (λ _. Each-append P _ _ (Each-take P (size - 1) _ whole) (silent, tt))

  Clean-seen :
      (q : AudioQueue Q G) (n : ℕ)
      → Clean q n
      → q.state.flush_epoch ≡ q.observed_epoch
      → Each P (laws.contents q.ring)
  Clean-seen q n (_, _, _, inl unseen) e = ground arith
  Clean-seen q n (_, _, _, inr each) e = each

  Clean-less : (q : AudioQueue Q G) (n : ℕ) → Clean q (suc n) → Clean q n
  Clean-less q n (same, le, bound, clean) = (same, le, omega arith, clean)

  observe_flush-Clean :
      (q : AudioQueue Q G) (n : ℕ)
      → Clean q n
      → Clean (observe_flush rings samples q) n
        × Each P (laws.contents (observe_flush rings samples q).ring)
  unfolding observe_flush
  observe_flush-Clean q n h =
      let each = subst⁻¹ (λ (l : List S). Each P l) (laws.contents-clear_ring q.ring) tt in
      if-cases (λ (r : AudioQueue Q G). Clean r n × Each P (laws.contents r.ring))
        (q.state.flush_epoch == q.observed_epoch) (λ e. (h, Clean-seen q n h (ground arith)))
        (λ e. ((refl, omega arith, h.2, inr each), each))

  play_out-Clean :
      (q : AudioQueue Q G) (n size : ℕ)
      → Clean q n
      → Each P (laws.contents q.ring)
      → Each P (play_out rings samples q size).0 × Clean (play_out rings samples q size).1 n
  unfolding play_out
  play_out-Clean q n size (same, le, bound, _) h =
      let both = subst (λ (l : List S). Each P l) (laws.contents-pop_slice q.ring size) h in
      (
        Each-padded _ size (Each-scaled q.state.gain _ (Each-before P _ _ both)),
        (same, le, bound, inr (Each-after P _ _ both)),
      )

  abbrev Kept : ℕ → Enqueued (AudioQueue Q G) → Type 0
  Kept n r = Clean (queue_of r) n

  turn_call-Clean :
      (q : AudioQueue Q G) (n : ℕ) (call : Call S G)
      → Clean q (suc n)
      → Gives P call
      → Each P (turn_call rings samples q call).0 × Clean (turn_call rings samples q call).1 n
  unfolding turn_call enqueue set_gain pause_and_flush play report fill_output fetch_add
      is_flush_pending
  turn_call-Clean q n (enqueueing rate batch) h g =
      let less = Clean-less q n h in
      let pushed =
        λ (seen : not (q.state.flush_epoch == q.state.flushed_epoch) ≡ false)
            (fits : ltb (rings.vacant_len q.ring) (length batch) ≡ false).
          subst⁻¹ (λ (l : List S). Each P l) (laws.contents-push_slice q.ring batch (ground arith))
            (Each-append P _ _ (Clean-seen q n less (ground arith)) g) in
      (
        tt,
        if-cases (Kept n) (not (rate == q.sample_rate)) (λ _. less)
            (λ _.
              if-cases (Kept n) (not (length batch % 2 == 0)) (λ _. less)
                (λ _.
                  if-cases (Kept n) (not (q.state.flush_epoch == q.state.flushed_epoch)) (λ _. less)
                    (λ seen.
                      if-cases (Kept n) (ltb (rings.vacant_len q.ring) (length batch)) (λ _. less)
                        (λ fits. (less.0, less.1, less.2, inr (pushed seen fits)))))),
      )
  turn_call-Clean q n (gaining gain) h g = (
    tt,
    if-cases (Kept n) (samples.is_finite gain && samples.in_unit_interval gain)
        (λ _. Clean-less q n h) (λ _. Clean-less q n h),
  )
  turn_call-Clean q n flushing h g = (tt, (h.0, ground arith, ground arith, inl (ground arith)))
  turn_call-Clean q n playing h g = (
    tt,
    if-cases (Kept n) (not (q.state.flush_epoch == q.state.flushed_epoch)) (λ _. Clean-less q n h)
        (λ _. Clean-less q n h),
  )
  turn_call-Clean q n (reporting xrun) h g = (tt, Clean-less q n h)
  turn_call-Clean q n (reporting device_not_available) h g = (tt, Clean-less q n h)
  turn_call-Clean q n (reporting stream_invalid) h g = (tt, Clean-less q n h)
  turn_call-Clean q n (reporting other_error) h g = (tt, Clean-less q n h)
  turn_call-Clean q n (filling size) h g =
      let (clean, each) = observe_flush-Clean q n (Clean-less q n h) in
      if-cases (λ (r : List S × AudioQueue Q G). Each P r.0 × Clean r.1 n)
        (observe_flush rings samples q).state.paused
        (λ _. (Each-replicate P size samples.silence silent, clean))
        (λ _. play_out-Clean (observe_flush rings samples q) n size clean each)

  played-Clean :
      (q : AudioQueue Q G) (calls : List (Call S G))
      → Clean q (length calls)
      → EachGives P calls
      → Each P (played rings samples q calls)
  unfolding played
  played-Clean q [] h g = tt
  played-Clean q (call ∷ calls) h (g, gs) =
      let (each, next) = turn_call-Clean q (length calls) call h g in
      Each-append P _ _ each (played-Clean (turn_call rings samples q call).1 calls next gs)

  -- Over a ring that keeps its laws, once the queue is told to flush, whatever the calls of its two
  -- halves after that, as long as the epochs stay below 2 ^ 64 and the epoch that the consumer has
  -- stored is not ahead: each sample played has every property that silence has, that scaling by a
  -- gain keeps, and that the samples of the later calls have. So no sample from before the flush is
  -- played.
  pub played-pause_and_flush :
      (q : AudioQueue Q G) (calls : List (Call S G))
      → q.observed_epoch ≡ q.state.flushed_epoch
      → q.observed_epoch ≤ q.state.flush_epoch
      → q.state.flush_epoch + suc (length calls) < 2 ^ 64
      → EachGives P calls
      → Each P (played rings samples (pause_and_flush rings samples q) calls)
  unfolding pause_and_flush fetch_add
  played-pause_and_flush q calls same le bound g =
      played-Clean (pause_and_flush rings samples q) calls
        (same, ground arith, ground arith, inl (ground arith)) g
