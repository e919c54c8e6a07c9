-- ===== src/Cpu/Timing/Overrun.antt =====
-- `step` against `next_step_t_cycles` on a bus where the second byte of a prefixed opcode may read
-- otherwise than it was peeked: an OAM transfer may end in between, or a device register stand there.
use pockiva.Prelude.{
  ℕ, ◌+◌, ◌-◌, ◌<◌, ◌≤◌, ◌⊎◌, ◌≡◌, refl, ◌∙◌, inl, inr, arith, ◌==◌, ==_iff, Bool-cases,
}
use pockiva.Contracts.{Result, ok, err, panic}
use pockiva.Cpu.Decode.{prefixed_cycles}
use pockiva.Cpu.State.{CpuBus, System, fetch8}
use pockiva.Cpu.Step.{
  is_stopped, is_halted, wake_capable_interrupts, prefixed_address, decode_next,
  predict_instruction, next_step_t_cycles, elapsed, run_instruction, finish, step,
}
use pockiva.Cpu.Timing.Access.{ClockLaws, clock}
use pockiva.Cpu.Timing.Dispatch.{dispatch-holds}
use pockiva.Cpu.Timing.Predict.{
  Advances, fetch8-value, wake-lt, predict-prefixed, run-prefixed, prefixed-clock, base-Advances,
  Predicts, serviced-Predicts, awake,
}

prefixed_cycles_bounds : (p : ℕ) → (8 ≤ prefixed_cycles p) × (prefixed_cycles p ≤ 16)
unfolding prefixed_cycles
prefixed_cycles_bounds p = ground arith

module _ {B : Type 0} (bus : CpuBus B) (laws : ClockLaws bus) where
  -- A prediction and a count that agree, or two counts of prefixed opcodes.
  abbrev pub Nearly : ℕ → ℕ → Type 0
  Nearly n t = (t ≡ n) ⊎ ((8 ≤ n) × (n ≤ 16) × (8 ≤ t) × (t ≤ 16))

  -- A prediction and a step: both fail in one way, or the clock advances by the count of the step,
  -- which is nearly the predicted one.
  abbrev pub Approximates : ℕ → Result ℕ → Result (ℕ × System B) → Type 0
  Approximates start (ok n) (ok (t_cycles, s)) =
      Nearly n t_cycles × (clock bus s ≡ start + t_cycles)
  Approximates start (err e) (err e') = e ≡ e'
  Approximates start _ _ = ⊥

  AdvancesNearly : ℕ → Result ℕ → Result (System B) → Type 0
  AdvancesNearly start (ok n) (ok s) = (t : ℕ) × Nearly n t × (clock bus s ≡ start + t)
  AdvancesNearly start (err e) (err e') = e ≡ e'
  AdvancesNearly start _ _ = ⊥

  from_Advances :
      (start : ℕ) (r : Result ℕ) (q : Result (System B))
      → Advances bus laws start r q
      → AdvancesNearly start r q
  unfolding AdvancesNearly
  from_Advances start (ok n) (ok s) h = (n, inl refl, h)
  from_Advances start (ok n) (err e) h = absurd h
  from_Advances start (ok n) panic h = absurd h
  from_Advances start (err e) (ok s) h = absurd h
  from_Advances start (err e) (err e') h = h
  from_Advances start (err e) panic h = absurd h
  from_Advances start panic (ok s) h = absurd h
  from_Advances start panic (err e) h = absurd h
  from_Advances start panic panic h = absurd h

  from_Predicts :
      (start : ℕ) (r : Result ℕ) (q : Result (ℕ × System B))
      → Predicts bus laws start r q
      → Approximates start r q
  from_Predicts start (ok n) (ok (t, s)) h = (inl h.0, omega arith)
  from_Predicts start (ok n) (err e) h = absurd h
  from_Predicts start (ok n) panic h = absurd h
  from_Predicts start (err e) (ok r) h = absurd h
  from_Predicts start (err e) (err e') h = h
  from_Predicts start (err e) panic h = absurd h
  from_Predicts start panic (ok r) h = absurd h
  from_Predicts start panic (err e) h = absurd h
  from_Predicts start panic panic h = absurd h

  finish-Approximates :
      (start : ℕ) (r : Result ℕ) (q : Result (System B))
      → AdvancesNearly start r q
      → Approximates start r (finish bus start q)
  unfolding finish AdvancesNearly
  finish-Approximates start (ok n) (ok s) (t, near, clocks) =
      let count : clock bus s - start ≡ t = omega arith in (rw count near, omega arith)
  finish-Approximates start (ok n) (err e) h = absurd h
  finish-Approximates start (ok n) panic h = absurd h
  finish-Approximates start (err e) (ok s) h = absurd h
  finish-Approximates start (err e) (err e') h = h
  finish-Approximates start (err e) panic h = absurd h
  finish-Approximates start panic (ok s) h = absurd h
  finish-Approximates start panic (err e) h = absurd h
  finish-Approximates start panic panic h = absurd h

  second_lt : (s : System B) → (fetch8 bus (fetch8 bus s).1).0 < 256
  unfolding fetch8
  second_lt s = rw (laws.read_peek _ _) (laws.peek_byte _ _)

  instruction-AdvancesNearly :
      (s : System B)
      → AdvancesNearly
          (clock bus s)
          (predict_instruction bus s)
          (run_instruction bus (clock bus s) s)
  unfolding AdvancesNearly
  instruction-AdvancesNearly s = elim (Bool-cases (bus.peek8 s.bus s.cpu.registers.pc == 0xcb)) [
    | inr base ↦ from_Advances _ _ _ (base-Advances bus laws s base)
    | inl cb ↦
        let is_cb : bus.peek8 s.bus s.cpu.registers.pc ≡ 0xcb = (==_iff _ _).0 cb in
        let peeked : ℕ = bus.peek8 s.bus (prefixed_address s.cpu) in
        let p : ℕ = (fetch8 bus (fetch8 bus s).1).0 in
        rw
          (
            predict-prefixed bus laws s is_cb,
            run-prefixed bus laws (clock bus s) s (fetch8-value bus laws s ∙ is_cb),
          )
          (
            prefixed_cycles p,
            inr (omega (arith, prefixed_cycles_bounds)),
            prefixed-clock bus laws p s (second_lt s),
          )
  ]

  awake-Approximates :
      (s : System B)
      → Approximates
          (clock bus s)
          (predict_instruction bus s)
          (finish bus (clock bus s) (run_instruction bus (clock bus s) (awake bus laws s)))
  unfolding predict_instruction decode_next prefixed_address awake
  awake-Approximates s =
      finish-Approximates (clock bus s) (predict_instruction bus s) _
        (instruction-AdvancesNearly (awake bus laws s))

  -- On any bus that keeps its clock's laws a step takes the clocks that `next_step_t_cycles` predicts,
  -- or both counts are between 8 and 16; the count that the step reports is what the bus's clock
  -- advances by. An illegal opcode fails both with the same error, and neither panics.
  pub step-Approximates :
      (s : System B) → Approximates (clock bus s) (next_step_t_cycles bus s) (step bus s)
  unfolding next_step_t_cycles step elapsed awake
  step-Approximates s =
      let pending = wake_capable_interrupts s.cpu (bus.pending_interrupts s.bus) in
      dispatch-holds (Approximates (clock bus s)) (pending == 0) s.cpu.ime (is_stopped s.cpu.mode)
        (is_halted s.cpu.mode) (predict_instruction bus s) _ _ _ _
        (λ some_pending. from_Predicts (clock bus s) (ok 20) _ (
          serviced-Predicts bus laws s (clock bus s) pending (wake-lt bus laws s.cpu s.bus)
            some_pending refl))
        (inl (omega arith), omega arith)
        (inl (omega (arith, laws.idle_cost)), omega (arith, laws.idle_cost)) (awake-Approximates s)
