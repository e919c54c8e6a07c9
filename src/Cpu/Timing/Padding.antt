-- ===== src/Cpu/Timing/Padding.antt =====
-- The loop of `pad_to` in cpu/execute.rs.
use pockiva.Prelude.{ℕ, zero, suc, ◌+◌, ◌*◌, ◌%◌, ◌≤◌, ◌≡◌, refl, arith}
use pockiva.Cpu.State.{CpuBus, System, idle}
use pockiva.Cpu.Step.{pad_loop, pad_to}
use pockiva.Cpu.Timing.Access.{ClockLaws, clock}

module _ {B : Type 0} (bus : CpuBus B) (laws : ClockLaws bus) where
  pad_loop-clock :
      (fuel start target : ℕ) (s : System B)
      → start ≤ clock bus s
      → clock bus s ≤ start + target
      → clock bus s % 4 ≡ (start + target) % 4
      → start + target ≤ clock bus s + 4 * fuel
      → (clock bus (pad_loop bus fuel start target s) ≡ start + target)
        × ((pad_loop bus fuel start target s).cpu ≡ s.cpu)
  unfolding pad_loop
  pad_loop-clock zero start target s a b c d = (omega arith, refl)
  pad_loop-clock (suc fuel) start target s a b c d =
      ground (arith, laws.idle_cost s.bus, pad_loop-clock fuel start target (idle bus s).1)

  -- Started within its target and a whole number of cycles from it, `pad_to` ends exactly there (its
  -- assertion holds, and the fuel is enough), and leaves the processor alone.
  pub pad_to-clock :
      (start target : ℕ) (s : System B)
      → start ≤ clock bus s
      → clock bus s ≤ start + target
      → clock bus s % 4 ≡ (start + target) % 4
      → (clock bus (pad_to bus start target s) ≡ start + target)
        × ((pad_to bus start target s).cpu ≡ s.cpu)
  unfolding pad_to
  pad_to-clock start target s a b c = pad_loop-clock target start target s a b c (omega arith)
