-- ===== src/Timer/Tests.antt =====
-- The timer's tests, after those of the source, and its theorems at concrete timers.
use pockiva.Prelude.{ℕ, ◌≡◌, refl, none, some, false, arith}
use pockiva.Interrupts.{bit, timer}
use pockiva.Timer.{Timer, tick, write, read, tick_one}
use pockiva.Timer.Valid.{IsValid}
use pockiva.Timer.Counting.{period, crossings, tick-counts, tick-overflow}

abbrev for_test : ℕ → ℕ → ℕ → Timer
for_test counter modulo control = record {
  divider = 0;
  tima = counter;
  tma = modulo;
  tac = control;
  reload_delay = none;
  reloaded_this_cycle = false;
}

period_16 : read (tick 16 (for_test 0 0 5)).0 0xff05 ≡ 1
unfolding read tick tick_one
period_16 = refl

before_period_1024 : read (tick 1023 (for_test 0 0 4)).0 0xff05 ≡ 0
unfolding read tick tick_one
before_period_1024 = refl

overflow_reloads : (tick 4 (tick 16 (for_test 0xff 0xa5 5)).0).1 ≡ 4
unfolding tick tick_one
overflow_reloads = refl

div_write_falls : read (write (tick 8 (for_test 0 0 5)).0 0xff04 0).0 0xff05 ≡ 1
unfolding read tick tick_one write
div_write_falls = refl

abbrev counting : Timer
counting = for_test 3 0 5

abbrev full : Timer
full = record (for_test 255 0x42 5) { divider = 15 }

counting-IsValid : IsValid counting
counting-IsValid = omega arith

full-IsValid : IsValid full
full-IsValid = omega arith

tick-counts_example :
    let (t, mask) = tick 40 counting in
    (t.tima ≡ 5) × (t.divider ≡ 40) × (t.reload_delay ≡ none) × (mask ≡ 0)
unfolding crossings period
tick-counts_example = tick-counts 40 counting counting-IsValid refl refl (omega arith)

tick-overflow_example :
    ((tick 1 full).0.tima ≡ 0)
    × ((tick 1 full).0.reload_delay ≡ some 4)
    × ((tick 4 full).0.tima ≡ 0)
    × ((tick 4 full).1 ≡ 0)
    × ((tick 5 full).0.tima ≡ 0x42)
    × ((tick 5 full).0.reload_delay ≡ none)
    × ((tick 5 full).1 ≡ bit timer)
unfolding period
tick-overflow_example = tick-overflow full full-IsValid refl refl refl refl
