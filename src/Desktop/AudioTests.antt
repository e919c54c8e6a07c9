-- ===== src/Desktop/AudioTests.antt =====
-- A queue of samples that are numbers, in a list of a fixed room: old samples are above 10.
use pockiva.Prelude.{
  ℕ, zero, suc, ◌-◌, ◌≤◌, ◌≡◌, refl, ap, true, List, [], ◌∷◌, ◌++◌, length, take, drop, arith,
  if◌then◌else◌, ◌==◌, leb, false,
}
use pockiva.Desktop.AudioQueue.{
  RingOperations, SampleOperations, AudioQueue, pause_and_flush, enqueue, play, fill_output,
  observe_flush, play_out, scaled, padded, fetch_add, is_flush_pending,
}
use pockiva.Desktop.Flushed.{
  RingLaws, Call, turn_call, enqueueing, playing, filling, played, Each, played-pause_and_flush,
}

abbrev lists : RingOperations (List ℕ) ℕ
lists = record {
  new_ring = λ n. [];
  occupied_len = λ r. length r;
  vacant_len = λ r. 8 - length r;
  push_slice = λ r batch. r ++ batch;
  pop_slice = λ r n. (take n r, drop n r);
  clear_ring = λ r. [];
}

take-drop : (r : List ℕ) (n : ℕ) → r ≡ take n r ++ drop n r
take-drop r zero = refl
take-drop [] (suc n) = refl
take-drop (s ∷ r) (suc n) = ap (λ l. s ∷ l) (take-drop r n)

abbrev lists_laws : RingLaws lists
lists_laws = record {
  contents = λ r. r;
  contents-clear_ring = λ r. refl;
  contents-push_slice = λ r batch fits. refl;
  contents-pop_slice = take-drop;
}

abbrev numbers : SampleOperations ℕ ℕ
numbers = record {
  silence = 0;
  scale = λ g s. if g == 0 then 0 else s;
  unit_gain = 1;
  is_finite = λ g. true;
  in_unit_interval = λ g. leb g 1;
}

abbrev sounding : AudioQueue (List ℕ) ℕ
sounding = record {
  ring = 11 ∷ 12 ∷ 13 ∷ 14 ∷ [];
  sample_rate = 48000;
  state = record {
    paused = false;
    gain = 1;
    flush_epoch = 3;
    flushed_epoch = 3;
    underruns = 0;
    dropped_frames = 0;
    stream_errors = 0;
    usable = true;
  };
  observed_epoch = 3;
}

abbrev calls : List (Call ℕ ℕ)
calls = filling 2 ∷ enqueueing 48000 (1 ∷ 2 ∷ []) ∷ playing ∷ filling 4 ∷ []

calls-played :
    played lists numbers (pause_and_flush lists numbers sounding) calls ≡ 0 ∷ 0 ∷ 1 ∷ 2 ∷ 0 ∷ 0 ∷ []
unfolding played pause_and_flush turn_call enqueue play fill_output observe_flush play_out scaled
    padded fetch_add is_flush_pending
calls-played = refl

scaled-le : (g s : ℕ) → s ≤ 10 → numbers.scale g s ≤ 10
scaled-le g s h = ground arith

played-pause_and_flush_example :
    Each (λ (s : ℕ). s ≤ 10) (played lists numbers (pause_and_flush lists numbers sounding) calls)
played-pause_and_flush_example =
    played-pause_and_flush lists numbers lists_laws (λ (s : ℕ). s ≤ 10) (omega arith) scaled-le
      sounding calls refl (omega arith) (omega arith)
      (tt, ((omega arith, (omega arith, tt)), (tt, (tt, tt))))
