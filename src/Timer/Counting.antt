-- ===== src/Timer/Counting.antt =====
-- What TIMA counts, against arithmetic on the divider, and its reload after an overflow.
use pockiva.Prelude.{
  ℕ, zero, suc, ◌+◌, ◌-◌, ◌*◌, ◌/◌, ◌%◌, ◌≤◌, ◌<◌, bit_and, ◌≡◌, refl, ◌≢◌, ◌⊎◌, true, false, not,
  none, some, arith, ◌==◌, if◌then◌else◌, add16_wrap,
}
use pockiva.Prelude.Bits.{bit_and-pow, bit_and_mask}
use pockiva.Timer.{
  Timer, timer_input, increment_tima, after_input, reload, tick_one, tick_from, tick,
}
use pockiva.Timer.Valid.{IsValid, tick_one-IsValid}
use pockiva.Interrupts.{InterruptMask, bit, timer}

-- The number of clocks in which TIMA counts once, for each value of the low two bits of TAC.
unfoldable pub period : ℕ → ℕ
period tac =
    let selector = tac % 4 in
    if selector == 0 then 1024 else if selector == 1 then 16 else if selector == 2 then 64 else 256

abbrev pub IsEnabled : Timer → Type 0
IsEnabled t = t.tac / 4 % 2 ≡ 1

-- The timer's input falls with the next clock exactly at the multiples of the period.
edge_at : Timer → ℕ
unfolding period
edge_at t = if (t.divider + 1) % period t.tac == 0 then 1 else 0

tac_masks : (tac : ℕ) → (bit_and tac 0x04 ≡ tac / 4 % 2 * 4) × (bit_and tac 0x03 ≡ tac % 4)
tac_masks tac = (bit_and-pow 2 tac, bit_and_mask 2 tac)

timer_input_lem :
    (t : Timer) → IsEnabled t → timer_input t ≡ not (t.divider / (period t.tac / 2) % 2 == 0)
unfolding timer_input period
timer_input_lem t e = ground (
  arith,
  tac_masks t.tac,
  bit_and-pow 9 t.divider,
  bit_and-pow 3 t.divider,
  bit_and-pow 5 t.divider,
  bit_and-pow 7 t.divider,
)

period_cases :
    (tac : ℕ) → (period tac ≡ 1024) ⊎ ((period tac ≡ 16) ⊎ ((period tac ≡ 64) ⊎ (period tac ≡ 256)))
unfolding period
period_cases tac = ground arith

tick_one-counts :
    (t : Timer)
    → IsValid t
    → IsEnabled t
    → t.reload_delay ≡ none
    → t.tima + edge_at t ≤ 255
    → let (t', reloaded) = tick_one t in
      (reloaded ≡ false)
      × (t'.divider ≡ add16_wrap t.divider 1)
      × (t'.tima ≡ t.tima + edge_at t)
      × (t'.tac ≡ t.tac)
      × (t'.reload_delay ≡ none)
unfolding tick_one after_input increment_tima reload edge_at
tick_one-counts t v e d room = ground (
  arith,
  period_cases t.tac,
  timer_input_lem (record t { reloaded_this_cycle = false }) e,
  timer_input_lem (record t { reloaded_this_cycle = false; divider = add16_wrap t.divider 1 }) e,
)

-- The multiples of the period that the divider meets in `n` clocks.
unfoldable pub crossings : ℕ → ℕ → ℕ → ℕ
crossings divider tac n = (divider + n) / period tac - divider / period tac

crossings-step :
    (t : Timer) (n : ℕ)
    → t.divider < 65536
    → edge_at t + crossings (add16_wrap t.divider 1) t.tac n ≡ crossings t.divider t.tac (suc n)
unfolding crossings edge_at
crossings-step t n h = ground (arith, period_cases t.tac)

crossings-zero : (divider tac : ℕ) → crossings divider tac 0 ≡ 0
unfolding crossings
crossings-zero divider tac = ground (arith, period_cases tac)

tick_from-counts :
    (n : ℕ) (t : Timer) (m : InterruptMask)
    → IsValid t
    → IsEnabled t
    → t.reload_delay ≡ none
    → t.tima + crossings t.divider t.tac n ≤ 255
    → let (t', m') = tick_from n t m in
      (t'.tima ≡ t.tima + crossings t.divider t.tac n)
      × (t'.divider ≡ add16_wrap t.divider n)
      × (t'.reload_delay ≡ none)
      × (m' ≡ m)
unfolding tick_from
tick_from-counts zero t m v e d room = ground (arith, crossings-zero t.divider t.tac)
tick_from-counts (suc n) t m v e d room =
    let step = tick_one-counts t v e d (omega (arith, crossings-step t n v.divider_u16)) in
    let t' = (tick_one t).0 in
    let same : crossings t'.divider t'.tac n ≡ crossings (add16_wrap t.divider 1) t.tac n =
      ground arith in
    ground (
      arith,
      crossings-step t n v.divider_u16,
      tick_from-counts n t' m (tick_one-IsValid t v) (rw step.3 e) step.4,
    )

-- A timer that is enabled with no reload pending counts TIMA up by exactly the multiples of the
-- selected period that the divider meets, as long as that stays within a byte; the divider advances
-- by the clocks modulo 65536, no reload is scheduled and no interrupt requested.
pub tick-counts :
    (n : ℕ) (t : Timer)
    → IsValid t
    → IsEnabled t
    → t.reload_delay ≡ none
    → t.tima + crossings t.divider t.tac n ≤ 255
    → let (t', m') = tick n t in
      (t'.tima ≡ t.tima + crossings t.divider t.tac n)
      × (t'.divider ≡ add16_wrap t.divider n)
      × (t'.reload_delay ≡ none)
      × (m' ≡ 0)
unfolding tick
tick-counts n t v e d room = tick_from-counts n t 0 v e d room

tick_one-overflow :
    (t : Timer)
    → IsValid t
    → IsEnabled t
    → t.reload_delay ≡ none
    → t.tima ≡ 255
    → (t.divider + 1) % period t.tac ≡ 0
    → tick_one t ≡ (
      record t {
        divider = add16_wrap t.divider 1;
        tima = 0;
        reload_delay = some 4;
        reloaded_this_cycle = false;
      },
      false,
    )
unfolding tick_one after_input increment_tima reload edge_at
tick_one-overflow t v e d full edge = ground (
  arith,
  period_cases t.tac,
  timer_input_lem (record t { reloaded_this_cycle = false }) e,
  timer_input_lem (record t { reloaded_this_cycle = false; divider = add16_wrap t.divider 1 }) e,
)

-- No edge in the clocks that follow one.
tick_one-pending :
    (t : Timer) (k : ℕ)
    → IsValid t
    → IsEnabled t
    → t.reload_delay ≡ some (suc (suc k))
    → (t.divider + 1) % 16 ≢ 0
    → tick_one t ≡ (
      record t {
        divider = add16_wrap t.divider 1;
        reload_delay = some (suc k);
        reloaded_this_cycle = false;
      },
      false,
    )
unfolding tick_one after_input increment_tima reload
tick_one-pending t k v e d quiet = ground (
  arith,
  period_cases t.tac,
  timer_input_lem (record t { reloaded_this_cycle = false; reload_delay = some (suc k) }) e,
  timer_input_lem
      (record t {
        reloaded_this_cycle = false;
        reload_delay = some (suc k);
        divider = add16_wrap t.divider 1;
      })
      e,
)

tick_one-reload :
    (t : Timer)
    → IsValid t
    → IsEnabled t
    → t.reload_delay ≡ some 1
    → (t.divider + 1) % 16 ≢ 0
    → tick_one t ≡ (
      record t {
        divider = add16_wrap t.divider 1;
        tima = t.tma;
        reload_delay = none;
        reloaded_this_cycle = true;
      },
      true,
    )
unfolding tick_one after_input increment_tima reload
tick_one-reload t v e d quiet = ground (
  arith,
  period_cases t.tac,
  timer_input_lem (record t { reloaded_this_cycle = true; reload_delay = none; tima = t.tma }) e,
  timer_input_lem
      (record t {
        reloaded_this_cycle = true;
        reload_delay = none;
        tima = t.tma;
        divider = add16_wrap t.divider 1;
      })
      e,
)

-- The edge that makes TIMA overflow: it leaves 0 and a reload four clocks away. Three clocks later
-- TIMA is still 0 and nothing was requested; the fourth loads TMA, cancels the delay and requests
-- exactly the timer interrupt.
pub tick-overflow :
    (t : Timer)
    → IsValid t
    → IsEnabled t
    → t.reload_delay ≡ none
    → t.tima ≡ 255
    → (t.divider + 1) % period t.tac ≡ 0
    → ((tick 1 t).0.tima ≡ 0)
      × ((tick 1 t).0.reload_delay ≡ some 4)
      × ((tick 4 t).0.tima ≡ 0)
      × ((tick 4 t).1 ≡ 0)
      × ((tick 5 t).0.tima ≡ t.tma)
      × ((tick 5 t).0.reload_delay ≡ none)
      × ((tick 5 t).1 ≡ bit timer)
unfolding tick tick_from
tick-overflow t v e d full edge =
    let waiting : Timer → ℕ → Timer = λ s delay. record s {
      divider = add16_wrap s.divider 1;
      reload_delay = some delay;
      reloaded_this_cycle = false;
    } in
    let t1 : Timer = record (waiting t 4) { tima = 0 } in
    let t2 : Timer = waiting t1 3 in
    let t3 : Timer = waiting t2 2 in
    let t4 : Timer = waiting t3 1 in
    let aligned : (t.divider + 1) % 16 ≡ 0 = ground (arith, period_cases t.tac) in
    let v1 : IsValid t1 = ground arith in
    let v4 : IsValid t4 = ground arith in
    rw (tick_one-overflow t v e d full edge) (
      rw (tick_one-pending t1 2 v1 e refl (omega arith)) (
        rw (tick_one-pending t2 1 (ground arith) e refl (omega arith)) (
          rw (tick_one-pending t3 0 (ground arith) e refl (omega arith)) (
            rw (tick_one-reload t4 v4 e refl (omega arith))
              (refl, refl, refl, refl, refl, refl, refl)))))
