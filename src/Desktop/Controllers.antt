-- ===== src/Desktop/Controllers.antt =====
-- apps/desktop/src-tauri/src/emulator/runtime.rs: the generations of the remote controllers, which a
-- call of `apply_controller_event` gives out, and the inputs that the worker keeps for them.
use pockiva.Prelude.{
  ℕ, ◌+◌, ◌^◌, ◌==◌, ltb, leb, max, Bool, false, Option, none, some, List, [], ◌∷◌, if◌then◌else◌,
}
use pockiva.Joypad.{JoypadState, press, release}
use pockiva.Joypad
use pockiva.Network
use pockiva.Network.{
  Text, same_text, ClientMessage, hello, button_down, button_up, state_sync, ping, ControllerEvent,
  connected, message, disconnected, event_source,
}
use pockiva.Desktop.Lifecycle.{
  RuntimeResult, ok, err, invalid_lifecycle, runtime_unavailable, remote_input_source,
}

pub record CurrentController : Type 0 where
  pub connection_id : Text
  pub generation : ℕ  -- u64

pub record ControllerGenerations : Type 0 where
  pub current : Option CurrentController
  pub next_generation : ℕ  -- u64
  pub cancelled_through : ℕ  -- u64

-- `.as_ref().filter(|current| current.connection_id == *connection_id).map(|current| …)`
unfoldable pub current_generation : ControllerGenerations → Text → Option ℕ
unfolding same_text
current_generation g connection_id = elim g.current [
  | none ↦ none
  | some c ↦ if same_text c.connection_id connection_id then some c.generation else none
]

-- The end of the arm of `Disconnected`.
unfoldable pub cancel_current :
    ControllerGenerations → Option ℕ → ControllerGenerations × RuntimeResult (Option ℕ)
cancel_current g none = (g, ok none)
cancel_current g (some generation) = (
  record g { cancelled_through = max g.cancelled_through generation; current = none },
  ok (some generation),
)

unfoldable pub prepare :
    ControllerGenerations → ControllerEvent → ControllerGenerations × RuntimeResult (Option ℕ)
unfolding current_generation cancel_current
prepare g (connected connection_id input_source) =
    let generation = g.next_generation + 1 in
    if ltb generation (2 ^ 64)
    then (
      record g {
        next_generation = generation;
        current = some (record { connection_id = connection_id; generation = generation });
      },
      ok (some generation),
    )
    else (g, err runtime_unavailable)
prepare g (message connection_id input_source m) = (g, ok (current_generation g connection_id))
prepare g (disconnected connection_id input_source) =
    cancel_current g (current_generation g connection_id)

pub record RemoteInputSnapshot : Type 0 where
  pub generation : ℕ  -- u64
  pub state : JoypadState

pub record RemoteInputs : Type 0 where
  pub snapshots : List (ℕ × RemoteInputSnapshot)
  pub owner : Option CurrentController
  pub cleared_through : ℕ  -- u64

abbrev pub default_inputs : RemoteInputs
default_inputs = record { snapshots = []; owner = none; cleared_through = 0 }

-- `get`, `insert` and `remove` of the map.
unfoldable pub snapshot_of : List (ℕ × RemoteInputSnapshot) → ℕ → Option RemoteInputSnapshot
snapshot_of [] source = none
snapshot_of ((s, t) ∷ m) source = if s == source then some t else snapshot_of m source

unfoldable pub insert_snapshot :
    List (ℕ × RemoteInputSnapshot) → ℕ → RemoteInputSnapshot → List (ℕ × RemoteInputSnapshot)
insert_snapshot [] source t = (source, t) ∷ []
insert_snapshot ((s, u) ∷ m) source t =
    if s == source then (source, t) ∷ m else (s, u) ∷ insert_snapshot m source t

unfoldable pub remove_snapshot : List (ℕ × RemoteInputSnapshot) → ℕ → List (ℕ × RemoteInputSnapshot)
remove_snapshot [] source = []
remove_snapshot ((s, t) ∷ m) source =
    if s == source then remove_snapshot m source else (s, t) ∷ remove_snapshot m source

unfoldable pub map_network_button : Network.Button → Joypad.Button
map_network_button Network.Button.up = Joypad.Button.up
map_network_button Network.Button.down = Joypad.Button.down
map_network_button Network.Button.left = Joypad.Button.left
map_network_button Network.Button.right = Joypad.Button.right
map_network_button Network.Button.a = Joypad.Button.a
map_network_button Network.Button.b = Joypad.Button.b
map_network_button Network.Button.start = Joypad.Button.start
map_network_button Network.Button.select = Joypad.Button.select

-- `for button in buttons { state.press(…) }`
unfoldable pub press_all : JoypadState → List Network.Button → JoypadState
unfolding map_network_button
press_all state [] = state
press_all state (button ∷ buttons) = press_all (press state (map_network_button button)) buttons

-- The state that a controller of a generation holds.
unfoldable pub held_state : RemoteInputs → ℕ → ℕ → JoypadState
unfolding snapshot_of
held_state r source generation = elim (snapshot_of r.snapshots source) [
  | none ↦ 0
  | some s ↦ if s.generation == generation then s.state else 0
]

-- The state after a message, which a handshake or a heartbeat does not have.
unfoldable pub message_state : RemoteInputs → ℕ → ℕ → ClientMessage → RuntimeResult JoypadState
unfolding press_all held_state
message_state r source generation (state_sync buttons sequence) = ok (press_all 0 buttons)
message_state r source generation (button_down button sequence) =
    ok (press (held_state r source generation) (map_network_button button))
message_state r source generation (button_up button sequence) =
    ok (release (held_state r source generation) (map_network_button button))
message_state r source generation (hello version token) = err invalid_lifecycle
message_state r source generation (ping nonce) = err invalid_lifecycle

-- What the worker uses of the core here.
pub record InputOperations (K : Type 0) : Type 0 where
  pub set_input : K → ℕ → JoypadState → K
  pub clear_input_source : K → ℕ → K

module _ {K : Type 0} (inputs : InputOperations K) where
  -- `if let Some(active) = core { active.set_input(…) }`
  abbrev pub set_core_input : Option K → ℕ → JoypadState → Option K
  set_core_input none source state = none
  set_core_input (some active) source state = some (inputs.set_input active source state)

  abbrev pub clear_core_input : Option K → ℕ → Option K
  clear_core_input none source = none
  clear_core_input (some active) source = some (inputs.clear_input_source active source)

  -- The end of the arm of `Message`.
  unfoldable pub keep_state :
      Option K
      → RemoteInputs
      → Text
      → ℕ
      → ℕ
      → RuntimeResult JoypadState
      → (Option K × RemoteInputs) × RuntimeResult (Unit {0})
  unfolding insert_snapshot
  keep_state core r connection_id source generation (err code) = ((core, r), err code)
  keep_state core r connection_id source generation (ok state) = (
    (
      set_core_input core source state,
      record r {
        owner = some (record { connection_id = connection_id; generation = generation });
        snapshots =
            insert_snapshot r.snapshots source (record { generation = generation; state = state });
      },
    ),
    ok tt,
  )

  -- The `match` of `apply_controller_event`, behind `validate_remote_event_source` and the other guard.
  unfoldable pub apply_current :
      Option K
      → RemoteInputs
      → ControllerEvent
      → ℕ
      → (Option K × RemoteInputs) × RuntimeResult (Unit {0})
  unfolding message_state keep_state
  apply_current core r (connected connection_id input_source) generation = (
    (
      core,
      record r { owner = some (record { connection_id = connection_id; generation = generation }) },
    ),
    ok tt,
  )
  apply_current core r (disconnected connection_id input_source) generation = ((core, r), ok tt)
  apply_current core r (message connection_id input_source m) generation =
      keep_state core r connection_id input_source generation
        (message_state r input_source generation m)

  unfoldable pub apply_controller_event :
      Option K
      → RemoteInputs
      → ControllerEvent
      → ℕ
      → ℕ
      → (Option K × RemoteInputs) × RuntimeResult (Unit {0})
  unfolding event_source apply_current
  apply_controller_event core r event generation cancelled_through =
      if event_source event == remote_input_source
      then (if leb generation cancelled_through
          then ((core, r), ok tt)
          else apply_current core r event generation)
      else ((core, r), err invalid_lifecycle)

  -- `owner.is_some_and(|owner| owner.generation <= cancelled_through)`
  abbrev pub is_cancelled : Option CurrentController → ℕ → Bool
  is_cancelled none cancelled_through = false
  is_cancelled (some owner) cancelled_through = leb owner.generation cancelled_through

  unfoldable pub drain_cancelled_remote_input :
      Option K → RemoteInputs → ℕ → Option K × RemoteInputs
  unfolding remove_snapshot
  drain_cancelled_remote_input core r cancelled_through =
      if leb cancelled_through r.cleared_through then (core, r) else (
        clear_core_input core remote_input_source,
        (if is_cancelled r.owner cancelled_through
            then record {
              owner = none;
              snapshots = remove_snapshot r.snapshots remote_input_source;
              cleared_through = cancelled_through;
            }
            else record r { cleared_through = cancelled_through }),
      )

  -- The iteration order of the map has no effect, since each source has one entry.
  unfoldable pub apply_retained_remote_inputs : K → List (ℕ × RemoteInputSnapshot) → K
  apply_retained_remote_inputs core [] = core
  apply_retained_remote_inputs core ((source, snapshot) ∷ m) =
      apply_retained_remote_inputs (inputs.set_input core source snapshot.state) m
