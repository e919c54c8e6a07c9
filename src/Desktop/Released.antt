-- ===== src/Desktop/Released.antt =====
-- apps/desktop/src-tauri/src/emulator/runtime.rs: over any steps of the callers and of the worker, a
-- drain leaves no input of a controller that has left, neither kept nor pressed in the core.
use pockiva.Prelude.{ℕ, ◌<◌, ◌≡◌, ◌⊎◌, Option, none, some}
use pockiva.Joypad.{JoypadState}
use pockiva.Desktop.Lifecycle.{RuntimeResult, remote_input_source}
use pockiva.Desktop.Controllers.{RemoteInputSnapshot, RemoteInputs, snapshot_of, InputOperations}

-- What a source presses in a core, as `EmulatorCore::set_input` and `clear_input_source` leave it.
pub record InputLaws {K : Type 0} (inputs : InputOperations K) : Type 0 where
  pub held : K → ℕ → JoypadState
  pub held-set_input :
      (core : K) (source : ℕ) (state : JoypadState)
      → held (inputs.set_input core source state) source ≡ state
  pub held-clear_input_source :
      (core : K) (source : ℕ) → held (inputs.clear_input_source core source) source ≡ 0

module _ {K : Type 0} (inputs : InputOperations K) (laws : InputLaws inputs) where
  -- The core's remote source presses nothing, or the state that is kept.
  abbrev pub Shows : Option K → RemoteInputs → Type 0
  Shows none r = Unit {0}
  Shows (some k) r =
      (laws.held k remote_input_source ≡ 0)
      ⊎ ((s : RemoteInputSnapshot) × (snapshot_of r.snapshots remote_input_source ≡ some s)
          × (laws.held k remote_input_source ≡ s.state))

  ShowsAfter : (Option K × RemoteInputs) × RuntimeResult (Unit {0}) → Type 0
  ShowsAfter q = Shows q.0.0 q.0.1

  -- What is kept belongs to a generation that is not cancelled, and so does what the core's remote
  -- source presses, if anything.
  abbrev pub IsReleased : Option K → Option RemoteInputSnapshot → ℕ → Type 0
  IsReleased none kept cancelled =
      (s : RemoteInputSnapshot) → kept ≡ some s → cancelled < s.generation
  IsReleased (some k) kept cancelled =
      ((s : RemoteInputSnapshot) → kept ≡ some s → cancelled < s.generation)
      × ((laws.held k remote_input_source ≡ 0)
          ⊎ ((s : RemoteInputSnapshot) × (kept ≡ some s)
              × (laws.held k remote_input_source ≡ s.state)
              × (cancelled < s.generation)))
