-- ===== src/Desktop/Retained.antt =====
-- apps/desktop/src-tauri/src/emulator/runtime.rs: callers of `apply_controller_event` and the worker,
-- in any order of their steps, and the inputs that are kept of a controller that has left.
use pockiva.Prelude.{
  ℕ, ◌<◌, ◌≤◌, ◌≡◌, refl, ◌⊎◌, ◌==◌, Option, none, some, List, [], ◌∷◌, ◌++◌, if◌then◌else◌, arith,
}
use pockiva.Network.{ControllerEvent, event_source}
use pockiva.Desktop.Lifecycle.{RuntimeResult, ok, err, remote_input_source}
use pockiva.Desktop.Controllers.{
  CurrentController, ControllerGenerations, prepare, RemoteInputSnapshot, RemoteInputs,
  default_inputs, snapshot_of, insert_snapshot, remove_snapshot, InputOperations,
  apply_controller_event, drain_cancelled_remote_input,
}

pub record World (K : Type 0) : Type 0 where
  pub generations : ControllerGenerations
  pub sending : Option (ControllerEvent × ℕ)
  pub commands : List (ControllerEvent × ℕ)
  pub received : Option (ControllerEvent × ℕ)
  pub core : Option K
  pub remote : RemoteInputs

-- The steps of a call of `apply_controller_event`: `prepare`, and then the sending of its command, or
-- the end of the time to send it. Its wait for the answer may end at any time, so the next call can
-- come as soon as the command is sent; calls are made one after the other, as the controllers'
-- server makes them. And the worker's steps: its `drain_cancelled_remote_input` at the start of its
-- loop; its receipt of a command with the drain after it; its work on that command.
pub data Move : Type 0 where
  submit : ControllerEvent → Move
  send give_up drain receive apply : Move

module _ {K : Type 0} (inputs : InputOperations K) where
  unfoldable pub keep_prepared :
      World K → ControllerEvent → ControllerGenerations → RuntimeResult (Option ℕ) → World K
  keep_prepared w event g (err code) = record w { generations = g }
  keep_prepared w event g (ok none) = record w { generations = g }
  keep_prepared w event g (ok (some generation)) = record w {
    generations = g;
    sending = some (event, generation);
  }

  -- `DesktopRuntimeHandle::apply_controller_event`, up to its command
  unfoldable pub submitted : World K → ControllerEvent → World K
  unfolding keep_prepared prepare event_source
  submitted w event =
      let (g, result) = prepare w.generations event in
      if event_source event == remote_input_source then keep_prepared w event g result else w

  -- A call is prepared only after the one before has sent its command or given it up.
  unfoldable pub submitted_next : World K → ControllerEvent → Option (ControllerEvent × ℕ) → World K
  unfolding submitted
  submitted_next w event none = submitted w event
  submitted_next w event (some command) = w

  -- `try_send` that finds room, and one that does not before the deadline
  unfoldable pub sent : World K → Option (ControllerEvent × ℕ) → World K
  sent w none = w
  sent w (some command) = record w { sending = none; commands = w.commands ++ command ∷ [] }

  unfoldable pub given_up : World K → World K
  given_up w = record w { sending = none }

  unfoldable pub drained : World K → World K
  unfolding drain_cancelled_remote_input
  drained w =
      let (core, remote) =
        drain_cancelled_remote_input inputs w.core w.remote w.generations.cancelled_through in
      record w { core = core; remote = remote }

  unfoldable pub taken : World K → List (ControllerEvent × ℕ) → World K
  taken w [] = w
  taken w (command ∷ commands) = record (drained (record w { commands = commands })) {
    received = some command;
  }

  unfoldable pub applied : World K → Option (ControllerEvent × ℕ) → World K
  unfolding apply_controller_event
  applied w none = w
  applied w (some (event, generation)) =
      let ((core, remote), result) =
        apply_controller_event inputs w.core w.remote event generation
          w.generations.cancelled_through in
      record w { core = core; remote = remote; received = none }

  -- The worker receives a command only after its work on the one before.
  unfoldable pub received_next : World K → Option (ControllerEvent × ℕ) → World K
  unfolding taken drained
  received_next w none = taken w w.commands
  received_next w (some command) = w

  unfoldable pub moved : World K → Move → World K
  unfolding submitted_next sent given_up drained received_next applied
  moved w (submit event) = submitted_next w event w.sending
  moved w send = sent w w.sending
  moved w give_up = given_up w
  moved w drain = drained w
  moved w receive = received_next w w.received
  moved w apply = applied w w.received

  unfoldable pub run : World K → List Move → World K
  unfolding moved
  run w [] = w
  run w (m ∷ ms) = run (moved w m) ms

-- Before any controller has connected.
abbrev pub fresh : {K : Type 0} → Option K → World K
fresh core = record {
  generations = record { current = none; next_generation = 0; cancelled_through = 0 };
  sending = none;
  commands = [];
  received = none;
  core = core;
  remote = default_inputs;
}

-- A kept state belongs to a generation after those cleared, and is cancelled only with its owner.
abbrev pub Keeps : Option CurrentController → Option RemoteInputSnapshot → ℕ → ℕ → ℕ → Type 0
Keeps none none cancelled cleared given = Unit {0}
Keeps none (some s) cancelled cleared given = ⊥
Keeps (some o) none cancelled cleared given = o.generation ≤ given
Keeps (some o) (some s) cancelled cleared given =
    (o.generation ≤ given)
    × (cleared < s.generation)
    × ((cancelled < s.generation) ⊎ (o.generation ≤ cancelled))

abbrev pub IsNewest : Option CurrentController → ℕ → Type 0
IsNewest none given = Unit {0}
IsNewest (some c) given = c.generation ≡ given

abbrev pub AllGiven : List (ControllerEvent × ℕ) → ℕ → Type 0
AllGiven [] given = Unit {0}
AllGiven ((event, generation) ∷ commands) given = (generation ≤ given) × AllGiven commands given

abbrev pub IsGiven : Option (ControllerEvent × ℕ) → ℕ → Type 0
IsGiven none given = Unit {0}
IsGiven (some (event, generation)) given = generation ≤ given

-- The command in hand was drained before, unless it is cancelled itself.
abbrev pub InHand : Option (ControllerEvent × ℕ) → ℕ → ℕ → ℕ → Type 0
InHand none cancelled cleared given = Unit {0}
InHand (some (event, generation)) cancelled cleared given =
    (generation ≤ given) × ((cancelled ≤ cleared) ⊎ (generation ≤ cancelled))

pub record IsValid {K : Type 0} (w : World K) : Type 0 where
  pub cancelled_given : w.generations.cancelled_through ≤ w.generations.next_generation
  pub cleared_cancelled : w.remote.cleared_through ≤ w.generations.cancelled_through
  pub newest : IsNewest w.generations.current w.generations.next_generation
  pub sent_given : IsGiven w.sending w.generations.next_generation
  pub given : AllGiven w.commands w.generations.next_generation
  pub in_hand :
      InHand w.received w.generations.cancelled_through w.remote.cleared_through
        w.generations.next_generation
  pub keeps :
      Keeps w.remote.owner
        (snapshot_of w.remote.snapshots remote_input_source)
        w.generations.cancelled_through
        w.remote.cleared_through
        w.generations.next_generation

pub snapshot_of-insert :
    (m : List (ℕ × RemoteInputSnapshot)) (source : ℕ) (t : RemoteInputSnapshot)
    → snapshot_of (insert_snapshot m source t) source ≡ some t
unfolding snapshot_of insert_snapshot
snapshot_of-insert [] source t = ground arith
snapshot_of-insert ((s, u) ∷ m) source t = ground (arith, snapshot_of-insert m source t)

pub snapshot_of-remove :
    (m : List (ℕ × RemoteInputSnapshot)) (source : ℕ)
    → snapshot_of (remove_snapshot m source) source ≡ none
unfolding snapshot_of remove_snapshot
snapshot_of-remove [] source = refl
snapshot_of-remove ((s, u) ∷ m) source = ground (arith, snapshot_of-remove m source)
