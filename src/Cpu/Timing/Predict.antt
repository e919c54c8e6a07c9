-- ===== src/Cpu/Timing/Predict.antt =====
-- `next_step_t_cycles` and `step` of cpu/execute.rs, side by side.
use pockiva.Prelude.{
  ℕ, ◌+◌, ◌<◌, bit_and, ◌≡◌, refl, ap, ◌∙◌, inl, inr, Bool, false, arith, ◌==◌, if◌then◌else◌,
  ==_iff, Bool-cases, Option-cases,
}
use pockiva.Contracts.{illegal_opcode, Result, ok, err, panic}
use pockiva.Interrupts.{Interrupt, joypad, bit, InterruptMask, from_bits, highest_priority}
use pockiva.Interrupts.Laws.{highest_priority-none, from_bits-lt}
use pockiva.Cpu.Decode.{decode, base_metadata, is_illegal, prefixed_cycles}
use pockiva.Cpu.Execute.{execute_base, execute_cb, service_interrupt}
use pockiva.Cpu.State.{CpuBus, running, Cpu, System, fetch8, advance_pc}
use pockiva.Cpu.Step.{
  is_stopped, is_halted, wake_capable_interrupts, branch_taken, prefixed_address, decode_next,
  predict_instruction, next_step_t_cycles, elapsed, pad_to, run_instruction, finish,
  service_pending, step,
}
use pockiva.Cpu.Timing.Access.{ClockLaws, clock, fetch8-clock, fetch8-flags, push-clock}
use pockiva.Cpu.Timing.Blocks.{execute_base-Within, execute_cb-Within}
use pockiva.Cpu.Timing.Branches.{execute_base-branch}
use pockiva.Cpu.Timing.Dispatch.{dispatch-holds}
use pockiva.Cpu.Timing.Padding.{pad_to-clock}

second-address : (c : Cpu) → (advance_pc c).registers.pc ≡ prefixed_address c
unfolding advance_pc prefixed_address
second-address c = ground arith

-- the table's clocks for an opcode whose branch is taken or not
cycles_of : ℕ → Bool → ℕ
cycles_of opcode taken =
    let (_, cycles, not_taken) = base_metadata opcode in if taken then cycles else not_taken

module _ {B : Type 0} (bus : CpuBus B) (laws : ClockLaws bus) where
  pub fetch8-value : (s : System B) → (fetch8 bus s).0 ≡ bus.peek8 s.bus s.cpu.registers.pc
  unfolding fetch8
  fetch8-value s = laws.read_peek s.bus s.cpu.registers.pc

  -- The second byte of a prefixed opcode is read where the prediction looked.
  second-value :
      (s : System B)
      → let s1 = (fetch8 bus s).1 in (fetch8 bus s1).0 ≡ bus.peek8 s1.bus (prefixed_address s.cpu)
  unfolding fetch8 prefixed_address
  second-value s =
      laws.read_peek (bus.read8 s.bus s.cpu.registers.pc).1 _
      ∙ ap (bus.peek8 (bus.read8 s.bus s.cpu.registers.pc).1) (second-address s.cpu)

  -- A prefix byte reads, after the clocks of the opcode's own fetch, as it was peeked before them.
  abbrev pub IsStable : System B → Type 0
  IsStable s =
      let s1 = (fetch8 bus s).1 in
      bus.peek8 s.bus s.cpu.registers.pc ≡ 0xcb
      → bus.peek8 s1.bus (prefixed_address s.cpu) ≡ bus.peek8 s.bus (prefixed_address s.cpu)

  service_interrupt-clock :
      (i : Interrupt) (s : System B) → clock bus (service_interrupt bus i s).1 ≡ clock bus s + 20
  unfolding service_interrupt
  service_interrupt-clock i s =
      omega (arith, laws.idle_cost, laws.acknowledge_cost, push-clock bus laws)

  pub wake-lt : (c : Cpu) (b : B) → wake_capable_interrupts c (bus.pending_interrupts b) < 32
  unfolding wake_capable_interrupts
  wake-lt c b = ground (
    arith,
    laws.pending_lt b,
    from_bits-lt (bit_and (bus.pending_interrupts b) (from_bits (bit joypad))),
  )

  pub predict-prefixed :
      (s : System B)
      → bus.peek8 s.bus s.cpu.registers.pc ≡ 0xcb
      → predict_instruction bus s ≡ ok (prefixed_cycles (bus.peek8 s.bus (prefixed_address s.cpu)))
  unfolding predict_instruction decode_next decode
  predict-prefixed s e = ground arith

  pub run-prefixed :
      (start : ℕ) (s : System B)
      → (fetch8 bus s).0 ≡ 0xcb
      → let (p, s2) = fetch8 bus (fetch8 bus s).1 in
        run_instruction bus start s
        ≡ ok (pad_to bus start (prefixed_cycles p) (execute_cb bus p s2).1)
  unfolding run_instruction decode
  run-prefixed start s e = ground arith

  pub prefixed-clock :
      (p : ℕ) (s : System B)
      → p < 256
      → let s2 = (fetch8 bus (fetch8 bus s).1).1 in
        clock bus (pad_to bus (clock bus s) (prefixed_cycles p) (execute_cb bus p s2).1)
        ≡ clock bus s + prefixed_cycles p
  prefixed-clock p s h =
      let s1 = (fetch8 bus s).1 in
      let s2 = (fetch8 bus s1).1 in
      let s3 = (execute_cb bus p s2).1 in
      let cost = execute_cb-Within bus laws p s2 h in
      let first = fetch8-clock bus laws s in
      let second = fetch8-clock bus laws s1 in
      (pad_to-clock bus laws (clock bus s) (prefixed_cycles p) s3 (omega arith) (omega arith)
        (omega arith)).0

  predict-base :
      (s : System B)
      → (bus.peek8 s.bus s.cpu.registers.pc == 0xcb) ≡ false
      → let opcode = bus.peek8 s.bus s.cpu.registers.pc in
        predict_instruction bus s ≡ (
          if is_illegal opcode
          then err (illegal_opcode opcode s.cpu.registers.pc)
          else ok (cycles_of opcode (branch_taken s.cpu.registers.f opcode)))
  unfolding predict_instruction decode_next decode cycles_of
  predict-base s e = ground arith

  run-base :
      (start : ℕ) (s : System B)
      → ((fetch8 bus s).0 == 0xcb) ≡ false
      → let (opcode, s1) = fetch8 bus s in
        let (taken, s2) = execute_base bus opcode s1 in
        run_instruction bus start s ≡ (
          if is_illegal opcode
          then err (illegal_opcode opcode s.cpu.registers.pc)
          else ok (pad_to bus start (cycles_of opcode taken) s2))
  unfolding run_instruction decode cycles_of
  run-base start s e = ground arith

  base-clock :
      (opcode : ℕ) (s : System B)
      → opcode < 256
      → let (taken, s2) = execute_base bus opcode (fetch8 bus s).1 in
        clock bus (pad_to bus (clock bus s) (cycles_of opcode taken) s2)
        ≡ clock bus s + cycles_of opcode taken
  unfolding cycles_of
  base-clock opcode s h =
      let s1 = (fetch8 bus s).1 in
      let (taken, s2) = execute_base bus opcode s1 in
      let cost = execute_base-Within bus laws opcode s1 h in
      let first = fetch8-clock bus laws s in
      (pad_to-clock bus laws (clock bus s) (cycles_of opcode taken) s2 (omega arith) (omega arith)
        (omega arith)).0

  -- A predicted count and an executed instruction: both fail in one way, or the clock advances by the
  -- count.
  abbrev pub Advances : ℕ → Result ℕ → Result (System B) → Type 0
  Advances start (ok n) (ok s) = clock bus s ≡ start + n
  Advances start (err e) (err e') = e ≡ e'
  Advances start _ _ = ⊥

  base_cases :
      (o : ℕ) (s : System B)
      → o < 256
      → let s2 = execute_base bus o (fetch8 bus s).1 in
        Advances
          (clock bus s)
          (if is_illegal o
            then err (illegal_opcode o s.cpu.registers.pc)
            else ok (cycles_of o (branch_taken s.cpu.registers.f o)))
          (if is_illegal o
            then err (illegal_opcode o s.cpu.registers.pc)
            else ok (pad_to bus (clock bus s) (cycles_of o s2.0) s2.1))
  base_cases o s h = elim (Bool-cases (is_illegal o)) [
    | inl illegal ↦ rw illegal refl
    | inr legal ↦
        let agrees : (execute_base bus o (fetch8 bus s).1).0 ≡ branch_taken s.cpu.registers.f o =
          execute_base-branch bus laws o (fetch8 bus s).1 h legal
          ∙ ap (λ f. branch_taken f o) (fetch8-flags bus laws s) in
        rw (legal, ← agrees) (base-clock o s h)
  ]

  pub base-Advances :
      (s : System B)
      → (bus.peek8 s.bus s.cpu.registers.pc == 0xcb) ≡ false
      → Advances (clock bus s) (predict_instruction bus s) (run_instruction bus (clock bus s) s)
  base-Advances s base =
      let o : ℕ = bus.peek8 s.bus s.cpu.registers.pc in
      let same_o : (fetch8 bus s).0 ≡ o = fetch8-value s in
      rw (predict-base s base, run-base (clock bus s) s (rw same_o base), same_o)
        (base_cases o s (laws.peek_byte _ _))

  instruction-Advances :
      (s : System B)
      → IsStable s
      → Advances (clock bus s) (predict_instruction bus s) (run_instruction bus (clock bus s) s)
  instruction-Advances s stable = elim (Bool-cases (bus.peek8 s.bus s.cpu.registers.pc == 0xcb)) [
    | inl cb ↦
        let is_cb : bus.peek8 s.bus s.cpu.registers.pc ≡ 0xcb = (==_iff _ _).0 cb in
        let p : ℕ = bus.peek8 s.bus (prefixed_address s.cpu) in
        let same_p : (fetch8 bus (fetch8 bus s).1).0 ≡ p = second-value s ∙ stable is_cb in
        rw (predict-prefixed s is_cb, run-prefixed (clock bus s) s (fetch8-value s ∙ is_cb), same_p)
          (prefixed-clock p s (laws.peek_byte _ _))
    | inr base ↦ base-Advances s base
  ]

  -- A predicted count and a step: both fail in one way, or the step reports the count and the clock
  -- advances by it.
  abbrev pub Predicts : ℕ → Result ℕ → Result (ℕ × System B) → Type 0
  Predicts start (ok n) (ok (t_cycles, s)) = (t_cycles ≡ n) × (clock bus s ≡ start + n)
  Predicts start (err e) (err e') = e ≡ e'
  Predicts start _ _ = ⊥

  finish-Predicts :
      (start : ℕ) (r : Result ℕ) (q : Result (System B))
      → Advances start r q
      → Predicts start r (finish bus start q)
  unfolding finish
  finish-Predicts start (ok n) (ok s) h = omega arith
  finish-Predicts start (ok n) (err e) h = absurd h
  finish-Predicts start (ok n) panic h = absurd h
  finish-Predicts start (err e) (ok s) h = absurd h
  finish-Predicts start (err e) (err e') h = h
  finish-Predicts start (err e) panic h = absurd h
  finish-Predicts start panic (ok s) h = absurd h
  finish-Predicts start panic (err e) h = absurd h
  finish-Predicts start panic panic h = absurd h

  unfoldable pub awake : System B → System B
  awake s = record s { cpu = record (s.cpu) { mode = running } }

  awake-Predicts :
      (s : System B)
      → IsStable s
      → Predicts
          (clock bus s)
          (predict_instruction bus s)
          (finish bus (clock bus s) (run_instruction bus (clock bus s) (awake s)))
  unfolding predict_instruction decode_next fetch8 prefixed_address awake
  awake-Predicts s stable =
      finish-Predicts (clock bus s) (predict_instruction bus s) _
        (instruction-Advances (awake s) stable)

  pub serviced-Predicts :
      (s : System B) (start : ℕ) (pending : InterruptMask)
      → pending < 32
      → (pending == 0) ≡ false
      → start ≡ clock bus s
      → Predicts start (ok 20) (service_pending bus start pending s)
  unfolding service_pending elapsed
  serviced-Predicts s start pending h some_pending e =
      elim (Option-cases (highest_priority pending)) [
        | inl missing ↦ absurd (ground (arith, highest_priority-none pending h missing))
        | inr (i, chosen) ↦
            rw (service_pending, chosen) (omega (arith, service_interrupt-clock i s))
      ]

  -- On a bus that keeps its clock's laws, a step takes exactly the clocks that
  -- `next_step_t_cycles` predicts, by the count it reports and by the bus; an illegal opcode fails
  -- both with the same error, and neither panics. For a prefixed opcode the second byte must read
  -- after the first fetch as it was peeked before it.
  pub step-Predicts :
      (s : System B) → IsStable s → Predicts (clock bus s) (next_step_t_cycles bus s) (step bus s)
  unfolding next_step_t_cycles step elapsed awake
  step-Predicts s stable =
      let pending = wake_capable_interrupts s.cpu (bus.pending_interrupts s.bus) in
      dispatch-holds (Predicts (clock bus s)) (pending == 0) s.cpu.ime (is_stopped s.cpu.mode)
        (is_halted s.cpu.mode) (predict_instruction bus s) _ _ _ _
        (λ some_pending.
          serviced-Predicts s (clock bus s) pending (wake-lt s.cpu s.bus) some_pending refl)
        (omega arith) (omega (arith, laws.idle_cost)) (awake-Predicts s stable)
