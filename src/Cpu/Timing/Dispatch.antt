-- ===== src/Cpu/Timing/Dispatch.antt =====
-- The order of the tests in `next_step_t_cycles` and in `step`, two functions of
-- crates/gb-core/src/cpu/execute.rs.
use pockiva.Prelude.{ℕ, ◌≡◌, refl, Bool, true, false, not, ◌&&◌, if◌then◌else◌}
use pockiva.Contracts.{Result, ok}
use pockiva.Cpu.State.{System}

module _ {B : Type 0} where
  -- What holds of the results of each mode holds of the predicted and the executed result.
  pub dispatch-holds :
      (Agree : Result ℕ → Result (ℕ × System B) → Type 0) (quiet ime is_stop is_halt : Bool)
      (r : Result ℕ) (service stop_result halt_result run : Result (ℕ × System B))
      → (quiet ≡ false → Agree (ok 20) service)
      → Agree (ok 0) stop_result
      → Agree (ok 4) halt_result
      → Agree r run
      → Agree
          (if is_stop && quiet
            then ok 0
            else if ime && not quiet
            then ok 20
            else if is_halt && quiet
            then ok 4
            else r)
          (if ime && not quiet
            then service
            else if is_stop && quiet
            then stop_result
            else if is_halt && quiet
            then halt_result
            else run)
  dispatch-holds p true true true _ r a b c d hs h0 h4 hr = h0
  dispatch-holds p true false true _ r a b c d hs h0 h4 hr = h0
  dispatch-holds p true true false true r a b c d hs h0 h4 hr = h4
  dispatch-holds p true false false true r a b c d hs h0 h4 hr = h4
  dispatch-holds p true true false false r a b c d hs h0 h4 hr = hr
  dispatch-holds p true false false false r a b c d hs h0 h4 hr = hr
  dispatch-holds p false true true _ r a b c d hs h0 h4 hr = hs refl
  dispatch-holds p false true false _ r a b c d hs h0 h4 hr = hs refl
  dispatch-holds p false false true true r a b c d hs h0 h4 hr = hr
  dispatch-holds p false false true false r a b c d hs h0 h4 hr = hr
  dispatch-holds p false false false true r a b c d hs h0 h4 hr = hr
  dispatch-holds p false false false false r a b c d hs h0 h4 hr = hr
