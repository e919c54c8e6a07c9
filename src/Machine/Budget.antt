-- ===== src/Machine/Budget.antt =====
-- The loop of `run_cycles` against its budget and the bus's clock.
use pockiva.Prelude.{
  ℕ, zero, suc, ◌+◌, ◌-◌, ◌%◌, ◌^◌, leb, Bool-cases, ==_iff, ◌≤◌, ◌<◌, ◌≡◌, refl, ◌⊎◌, inl, inr,
  Bool, true, false, ◌||◌, some, ltb, ◌==◌, arith,
}
use mathlib.Core.Path.{subst}
use native.Mathlib.Nat.{mod-eq_of_lt}
use pockiva.Contracts.{Result, ok, err, panic, ◌>>=◌}
use pockiva.Cpu.State.{System}
use pockiva.Cpu.Step.{next_step_t_cycles, step}
use pockiva.Cpu.Timing.Access.{ClockLaws, clock}
use pockiva.Cpu.Timing.Overrun.{Approximates, step-Approximates}
use pockiva.Cpu.Timing.Predict.{IsStable, Predicts, step-Predicts}
use pockiva.Machine.{BusOperations, GameBoy, RunOutcome, at_moment, counted, run_loop, run_cycles}

false-true : false ≡ true → ⊥
false-true e = ground arith

not_below : (m n : ℕ) → n ≤ m → ltb m n ≡ false
not_below m n h = ground arith

module _ {B : Type 0} (ops : BusOperations B) (laws : ClockLaws ops.cpu_bus) where
  -- Setting the moment takes no clocks.
  abbrev pub IsFree : Type 0
  IsFree =
      (b : B) (now : ℕ)
      → ops.cpu_bus.elapsed_t_cycles (ops.set_unix_seconds b now) ≡ ops.cpu_bus.elapsed_t_cycles b

  -- Nothing is left to run: the budget is used up, or the next step waits or does not fit.
  abbrev pub IsExhausted : ℕ → ℕ → Result ℕ → Type 0
  IsExhausted budget n (ok next) = (budget ≤ n) ⊎ ((next ≡ 0) ⊎ (budget < n + next))
  IsExhausted budget n _ = budget ≤ n

  -- A prediction and a step: both fail in one way, or the clock advances by the count of the step,
  -- which is at most `slack` above the predicted one, and is not zero where that is not.
  abbrev pub Overruns : ℕ → ℕ → Result ℕ → Result (ℕ × System B) → Type 0
  Overruns slack start (ok n) (ok (t, s)) =
      (t ≤ n + slack) × (0 < n → 0 < t) × (clock ops.cpu_bus s ≡ start + t)
  Overruns slack start (err e) (err e') = e ≡ e'
  Overruns slack start _ _ = ⊥

  Approximates-Overruns :
      (start : ℕ) (r : Result ℕ) (q : Result (ℕ × System B))
      → Approximates ops.cpu_bus laws start r q
      → Overruns 8 start r q
  Approximates-Overruns start (ok n) (ok (t, s)) (near, clocks) =
      (omega arith, λ some. omega arith, clocks)
  Approximates-Overruns start (ok n) (err e) h = absurd h
  Approximates-Overruns start (ok n) panic h = absurd h
  Approximates-Overruns start (err e) (ok r) h = absurd h
  Approximates-Overruns start (err e) (err e') h = h
  Approximates-Overruns start (err e) panic h = absurd h
  Approximates-Overruns start panic (ok r) h = absurd h
  Approximates-Overruns start panic (err e) h = absurd h
  Approximates-Overruns start panic panic h = absurd h

  -- The clocks executed exceed the budget by the slack at most, are those by which the bus's clock
  -- advances, and nothing is left to run; a panic happens only with `P`.
  abbrev pub KeepsBudget : Type 0 → ℕ → ℕ → ℕ → ℕ → Result (ℕ × System B) → Type 0
  KeepsBudget P slack start executed budget (ok (n, s)) =
      (n ≤ budget + slack)
      × (clock ops.cpu_bus s + executed ≡ start + n)
      × IsExhausted budget n (next_step_t_cycles ops.cpu_bus s)
  KeepsBudget P slack start executed budget (err e) = Unit {0}
  KeepsBudget P slack start executed budget panic = P

  -- The same of an outcome and the machine after it.
  abbrev pub RunsWithin : Type 0 → ℕ → ℕ → ℕ → Result (RunOutcome × GameBoy B) → Type 0
  RunsWithin P slack start budget (ok (o, g)) =
      (o.cycles_executed ≤ budget + slack)
      × ((b : B) × (g.bus ≡ some b)
          × (ops.cpu_bus.elapsed_t_cycles b ≡ start + o.cycles_executed)
          × IsExhausted budget o.cycles_executed
              (next_step_t_cycles ops.cpu_bus (record { cpu = g.cpu; bus = b })))
  RunsWithin P slack start budget (err e) = Unit {0}
  RunsWithin P slack start budget panic = P

  exhausted : (budget n : ℕ) (r : Result ℕ) → budget ≤ n → IsExhausted budget n r
  exhausted budget n (ok next) h = inl h
  exhausted budget n (err e) h = h
  exhausted budget n panic h = h

  shift :
      (P : Type 0) (slack start executed budget t : ℕ) (q : Result (ℕ × System B))
      → KeepsBudget P slack (start + t) (executed + t) budget q
      → KeepsBudget P slack start executed budget q
  shift P slack start executed budget t (ok (n, s)) (fits, clocks, rest) = (fits, omega arith, rest)
  shift P slack start executed budget t (err e) h = h
  shift P slack start executed budget t panic h = h

  -- By how much a run may exceed its budget, in a build with checks and in one without.
  abbrev pub slack_of : Bool → ℕ
  slack_of true = 0
  slack_of false = 8

  -- The count of a step that fits, or a panic where the build checks and the count is another.
  counted-KeepsBudget :
      (P : Type 0) (checks : Bool) (start next executed t budget : ℕ)
      (go_on : ℕ → Result (ℕ × System B))
      → executed + next ≤ budget
      → t ≤ next + 8
      → budget + slack_of checks < 2 ^ 32
      → (checks ≡ true → (t ≡ next → ⊥) → P)
      → (executed + t ≤ budget + slack_of checks
          → KeepsBudget P (slack_of checks) start executed budget (go_on (executed + t)))
      → KeepsBudget P
          (slack_of checks)
          start
          executed
          budget
          (counted ops checks next executed t >>= go_on)
  unfolding counted
  counted-KeepsBudget P false start next executed t budget go_on fits near bound odd rest =
      let same : (executed + t) % 2 ^ 32 ≡ executed + t = mod-eq_of_lt (omega arith) in
      rw same (rest (omega arith))
  counted-KeepsBudget P true start next executed t budget go_on fits near bound odd rest =
      elim (Bool-cases (t == next)) [
        | inl e ↦
            let count : t ≡ next = (==_iff _ _).0 e in
            let small : leb (2 ^ 32) (executed + t) ≡ false = ground arith in
            let same : (executed + t) % 2 ^ 32 ≡ executed + t = mod-eq_of_lt (omega arith) in
            rw (e, small, same) (rest (omega arith))
        | inr e ↦ rw e (odd refl (λ same. ground arith))
      ]

  -- One turn, from a prediction and the step that it predicts.
  turn-KeepsBudget :
      (P : Type 0) (slack start executed budget : ℕ) (s : System B) (r : Result ℕ)
      (q : Result (ℕ × System B)) (go_on : ℕ → ℕ × System B → Result (ℕ × System B))
      → next_step_t_cycles ops.cpu_bus s ≡ r
      → clock ops.cpu_bus s ≡ start
      → executed < budget
      → Overruns 8 start r q
      → ((next t : ℕ) (s' : System B)
          → r ≡ ok next
          → q ≡ ok (t, s')
          → clock ops.cpu_bus s' ≡ start + t
          → 0 < t
          → executed + next ≤ budget
          → t ≤ next + 8
          → KeepsBudget P slack start executed budget (go_on next (t, s')))
      → KeepsBudget P slack start executed budget (
          r >>= λ next. elim (next == 0 || ltb (budget - executed) next) [
            | true ↦ ok (executed, s)
            | false ↦ q >>= go_on next
          ])
  turn-KeepsBudget P slack start executed budget s (ok next) (ok (t, s')) go_on same now fits
        (count, some_clocks, clocks) rest =
      decide (next == 0 || ltb (budget - executed) next) refl
    where
      decide :
          (stops : Bool)
          → (next == 0 || ltb (budget - executed) next) ≡ stops
          → KeepsBudget P slack start executed budget
              (elim stops [ true ↦ ok (executed, s) | false ↦ go_on next (t, s') ])
      decide true stops = (omega arith, rw now refl, rw same (ground arith))
      decide false goes =
          let room : (0 < next) × (next ≤ budget - executed) = ground arith in
          rest next t s' refl refl clocks (some_clocks room.0) (omega arith) count
  turn-KeepsBudget P slack start executed budget s (ok next) (err e) go_on same now fits p rest =
      absurd p
  turn-KeepsBudget P slack start executed budget s (ok next) panic go_on same now fits p rest =
      absurd p
  turn-KeepsBudget P slack start executed budget s (err e) q go_on same now fits p rest = tt
  turn-KeepsBudget P slack start executed budget s panic (ok r) go_on same now fits p rest =
      absurd p
  turn-KeepsBudget P slack start executed budget s panic (err e) go_on same now fits p rest =
      absurd p
  turn-KeepsBudget P slack start executed budget s panic panic go_on same now fits p rest = absurd p

  -- The states in which the turns of a run take their steps.
  pub data Turned (first : System B) : System B → Type 0 where
    begins : (now : ℕ) → Turned first (at_moment ops now first)
    turns :
        (now t : ℕ) (s s' : System B)
        → Turned first s
        → step ops.cpu_bus s ≡ ok (t, s')
        → Turned first (at_moment ops now s')

  -- A turn of the run whose prefixed opcode reads another second byte than it was peeked.
  abbrev pub IsUnforeseen : Bool → System B → Type 0
  IsUnforeseen true first = (s : System B) × Turned first s × (IsStable ops.cpu_bus laws s → ⊥)
  IsUnforeseen false first = ⊥

  Predicts-same :
      (start n t : ℕ) (s : System B) (r : Result ℕ) (q : Result (ℕ × System B))
      → r ≡ ok n
      → q ≡ ok (t, s)
      → Predicts ops.cpu_bus laws start r q
      → t ≡ n
  Predicts-same start n t s r q e f h =
      (subst (Predicts ops.cpu_bus laws start (ok n)) f
        (subst (λ k. Predicts ops.cpu_bus laws start k q) e h)).0

  odd_turn :
      (checks : Bool) (first s s' : System B) (n t : ℕ)
      → checks ≡ true
      → Turned first s
      → next_step_t_cycles ops.cpu_bus s ≡ ok n
      → step ops.cpu_bus s ≡ ok (t, s')
      → (t ≡ n → ⊥)
      → IsUnforeseen checks first
  odd_turn true first s s' n t c v e f odd = (
    s,
    v,
    λ stable. odd (Predicts-same _ n t s' _ _ e f (step-Predicts ops.cpu_bus laws s stable)),
  )
  odd_turn false first s s' n t c v e f odd = absurd (false-true c)

  -- Where setting the moment takes no clocks, the loop, with the clocks left as fuel, does not run
  -- out: it fails with an error, or what it counts exceeds the budget by the slack at most, is what
  -- the bus's clock advances by, and leaves nothing to run.
  run_loop-KeepsBudget :
      (checks : Bool) (first : System B) (moments : ℕ → ℕ) (fuel budget executed : ℕ) (s : System B)
      → IsFree
      → budget + slack_of checks < 2 ^ 32
      → ((now : ℕ) → Turned first (at_moment ops now s))
      → executed ≤ budget + slack_of checks
      → budget ≤ executed + fuel
      → KeepsBudget
          (IsUnforeseen checks first)
          (slack_of checks)
          (clock ops.cpu_bus s)
          executed
          budget
          (run_loop ops checks moments fuel budget executed s)
  unfolding run_loop at_moment
  run_loop-KeepsBudget checks first moments zero budget executed s free bound reach fits enough =
      rw (not_below executed budget (omega arith))
        (fits, refl, exhausted budget executed _ (omega arith))
  run_loop-KeepsBudget checks first moments (suc fuel) budget executed s free bound reach fits
        enough =
      by_test (ltb executed budget) refl (λ t s' f clocks room. rw (← clocks) (
        run_loop-KeepsBudget checks first (λ k. moments (suc k)) fuel budget (executed + t.0) s'
          free bound (λ later. turns later t.0 s1 s' (reach (moments 0)) f) room
          (omega (arith, t.1))))
    where
      start : ℕ
      start = clock ops.cpu_bus s

      s1 : System B
      s1 = at_moment ops (moments 0) s

      P : Type 0
      P = IsUnforeseen checks first

      next_turn : ℕ → System B → Result (ℕ × System B)
      next_turn sum s' = run_loop ops checks (λ k. moments (suc k)) fuel budget sum s'

      go_on : ℕ → ℕ × System B → Result (ℕ × System B)
      go_on next r = counted ops checks next executed r.0 >>= λ sum. next_turn sum r.1

      now : clock ops.cpu_bus s1 ≡ start
      now = free s.bus (moments 0)

      predicted : Overruns 8 start (next_step_t_cycles ops.cpu_bus s1) (step ops.cpu_bus s1)
      predicted = rw (← now) (Approximates-Overruns _ _ _ (step-Approximates ops.cpu_bus laws s1))

      by_test :
          (below : Bool)
          → ltb executed budget ≡ below
          → ((t : (t : ℕ) × (0 < t)) (s' : System B)
              → step ops.cpu_bus s1 ≡ ok (t.0, s')
              → clock ops.cpu_bus s' ≡ start + t.0
              → executed + t.0 ≤ budget + slack_of checks
              → KeepsBudget P
                  (slack_of checks)
                  (start + t.0)
                  (executed + t.0)
                  budget
                  (next_turn (executed + t.0) s'))
          → KeepsBudget P (slack_of checks) start executed budget (elim below [
            | false ↦ ok (executed, s)
            | true ↦ next_step_t_cycles ops.cpu_bus s1 >>= λ next.
                elim (next == 0 || ltb (budget - executed) next) [
                  | true ↦ ok (executed, s1)
                  | false ↦ step ops.cpu_bus s1 >>= go_on next
                ]
          ])
      by_test false reached later = (fits, refl, exhausted budget executed _ (ground arith))
      by_test true more later =
          turn-KeepsBudget P (slack_of checks) start executed budget s1
            (next_step_t_cycles ops.cpu_bus s1) (step ops.cpu_bus s1) go_on refl now (ground arith)
            predicted
            (λ next t s' e f clocks some_clocks room near.
              counted-KeepsBudget P checks start next executed t budget (λ sum. next_turn sum s')
                room near bound
                (λ c odd. odd_turn checks first s1 s' next t c (reach (moments 0)) e f odd)
                (λ within.
                  shift P (slack_of checks) start executed budget t (next_turn (executed + t) s')
                    (later (t, some_clocks) s' f clocks within)))

  -- On any bus that keeps its clock's laws, where setting the moment takes no clocks, `run_cycles` of a
  -- loaded machine does not run out of fuel: it fails with an error, or the clocks it reports keep to
  -- the budget, in a build without checks exceed it by 8 at most, and are what the bus's clock
  -- advances by, and it stops only where the budget is used up, or the next step waits or does not fit
  -- in what is left. It panics only in a build with checks, and where a state of the run is one in
  -- which a prefixed opcode reads another second byte than was peeked.
  pub run_cycles-outcome :
      (checks : Bool) (moments : ℕ → ℕ) (budget : ℕ) (g : GameBoy B) (b : B)
      → IsFree
      → budget + slack_of checks < 2 ^ 32
      → g.bus ≡ some b
      → RunsWithin
          (IsUnforeseen checks (record { cpu = g.cpu; bus = b }))
          (slack_of checks)
          (ops.cpu_bus.elapsed_t_cycles b)
          budget
          (run_cycles ops checks moments budget g)
  unfolding run_cycles
  run_cycles-outcome checks moments budget g b free bound loaded = rw loaded (
      outcome (run_loop ops checks moments budget budget 0 first) (
        run_loop-KeepsBudget checks first moments budget budget 0 first free bound begins
          (omega arith) (omega arith)))
    where
      first : System B
      first = record { cpu = g.cpu; bus = b }

      P : Type 0
      P = IsUnforeseen checks first

      outcome :
          (q : Result (ℕ × System B))
          → KeepsBudget P (slack_of checks) (ops.cpu_bus.elapsed_t_cycles b) 0 budget q
          → RunsWithin P (slack_of checks) (ops.cpu_bus.elapsed_t_cycles b) budget (
              q >>= λ r.
              let s = r.1 in
              ok (
                record {
                  cycles_executed = r.0;
                  frame_ready = ops.has_frame s.bus;
                  stereo_frames_available = ops.stereo_frames s.bus;
                },
                record g { cpu = s.cpu; bus = some s.bus },
              ))
      outcome (ok (n, s)) (fits, clocks, rest) = (fits, (s.bus, refl, omega arith, rest))
      outcome (err e) h = tt
      outcome panic h = h
