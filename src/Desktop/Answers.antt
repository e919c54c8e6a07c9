-- ===== src/Desktop/Answers.antt =====
-- apps/desktop/src-tauri/src/emulator/runtime.rs: every command keeps the phase that the window sees in
-- agreement with the core.
use pockiva.Prelude.{
  ℕ, ◌≡◌, refl, Option, none, some, List, [], ◌∷◌, ◌⊎◌, inl, inr, if-holds, leb, ◌==◌,
}
use pockiva.Joypad.{Button, JoypadState}
use pockiva.Network.{ControllerEvent, connected, message, disconnected, event_source}
use pockiva.Desktop.FrameQueue.{
  FrameQueue, default_queue, Acknowledgement, acknowledged, not_in_flight, clear, acknowledge,
}
use pockiva.Desktop.Lifecycle.{
  RuntimePhase, default_model, enter, paused, running, RuntimeSnapshot, RuntimeResult, ok, err,
  begin_load, close, start, pause, remote_input_source,
}
use pockiva.Desktop.Controllers.{
  RemoteInputs, default_inputs, keep_state, message_state, apply_current, apply_controller_event,
}
use pockiva.Desktop.Worker.{
  CoreOperations, ObserverOperations, AudioOperations, Worker, publish_control, acknowledged_next,
  run_tick, drop_core, load_rom, restart_core, Command, subscribe, acknowledge_frame, open_rom,
  start_command, pause_command, restart_command, close_command, snapshot, shutdown, set_audio_gain,
  set_keyboard_input, controller_event,
}
use pockiva.Desktop.Commands.{publish_ok, with_keyboard, with_model, answer, handle_command}
use pockiva.Desktop.Phases.{
  is_some, Agrees, IsConsistent, enter-Agrees, publish_control-keeps, publish_next-keeps,
  run_tick-IsConsistent, load_rom-keeps, restart_core-keeps,
}

module _ {K B O A C F : Type 0} (cores : CoreOperations K B) (observers : ObserverOperations O)
    (audios : AudioOperations A B C F) where
  -- An event gives no core and takes none away.
  keep_state-core :
      (core : Option K) (r : RemoteInputs) (id : List ℕ) (source generation : ℕ)
      (result : RuntimeResult JoypadState)
      → is_some (keep_state cores.inputs core r id source generation result).0.0 ≡ is_some core
  unfolding keep_state
  keep_state-core core r id source generation (err code) = refl
  keep_state-core none r id source generation (ok state) = refl
  keep_state-core (some active) r id source generation (ok state) = refl

  apply_current-core :
      (core : Option K) (r : RemoteInputs) (event : ControllerEvent) (generation : ℕ)
      → is_some (apply_current cores.inputs core r event generation).0.0 ≡ is_some core
  unfolding apply_current
  apply_current-core core r (connected id source) generation = refl
  apply_current-core core r (disconnected id source) generation = refl
  apply_current-core core r (message id source m) generation =
      keep_state-core core r id source generation (message_state r source generation m)

  apply-core :
      (core : Option K) (r : RemoteInputs) (event : ControllerEvent) (generation cancelled : ℕ)
      → is_some (apply_controller_event cores.inputs core r event generation cancelled).0.0
        ≡ is_some core
  unfolding apply_controller_event
  apply-core core r event generation cancelled =
      let P : (Option K × RemoteInputs) × RuntimeResult (Unit {0}) → Type 0 =
        λ s. is_some s.0.0 ≡ is_some core in
      if-holds P (event_source event == remote_input_source)
        (if-holds P (leb generation cancelled) refl (apply_current-core core r event generation))
        refl

  with_keyboard-core :
      (core : Option K) (buttons : List Button)
      → is_some (with_keyboard cores observers audios core buttons).0 ≡ is_some core
  unfolding with_keyboard
  with_keyboard-core none buttons = refl
  with_keyboard-core (some active) buttons = refl

  core-IsConsistent :
      (w : Worker K O A) (core : Option K) (r : RemoteInputs)
      → is_some core ≡ is_some w.core
      → IsConsistent w
      → IsConsistent (record w { core = core; remote = r })
  unfolding IsConsistent
  core-IsConsistent w core r e v = rw e v

  publish_ok-keeps :
      (w : Worker K O A) (result : RuntimeResult RuntimeSnapshot)
      → IsConsistent w
      → IsConsistent (publish_ok cores observers audios w result).0
  unfolding publish_ok
  publish_ok-keeps w (err code) v = v
  publish_ok-keeps w (ok s) v = publish_control-keeps cores observers audios w v

  acknowledged_next-keeps :
      (next : Acknowledgement) (w : Worker K O A)
      → IsConsistent w
      → IsConsistent (acknowledged_next cores observers audios next w).0
  unfolding acknowledged_next
  acknowledged_next-keeps not_in_flight w v = v
  acknowledged_next-keeps (acknowledged next) w v =
      publish_next-keeps cores observers audios next w v

  closed :
      (w : Worker K O A) (audio : A)
      → IsConsistent (record w {
        audio = audio;
        core = none;
        delivery = clear w.delivery;
        model = close w.model;
      })
  unfolding IsConsistent close Agrees
  closed w audio = (refl, refl, refl, refl)

  others :
      (w : Worker K O A) (observer : Option O) (delivery : FrameQueue) (audio : A)
      → IsConsistent w
      → IsConsistent (record w { observer = observer; delivery = delivery; audio = audio })
  unfolding IsConsistent
  others w observer delivery audio v = v

  phase-IsConsistent :
      (w : Worker K O A) (target : RuntimePhase)
      → (target ≡ paused) ⊎ (target ≡ running)
      → IsConsistent w
      → IsConsistent (record w { model = (enter target w.model).0 })
  unfolding IsConsistent
  phase-IsConsistent w target t v =
      enter-Agrees target w.model.snapshot w.model.core_loaded (is_some w.core) t v

  answer-IsConsistent :
      (command : Command O F) (w : Worker K O A)
      → IsConsistent w
      → IsConsistent (answer cores observers audios command w).0
  unfolding answer start pause drop_core
  answer-IsConsistent (subscribe replacement) w v =
      publish_control-keeps cores observers audios
        (record w { delivery = clear w.delivery; observer = some replacement })
        (others w (some replacement) (clear w.delivery) w.audio v)
  answer-IsConsistent (acknowledge_frame sequence) w v =
      let next = acknowledge w.delivery sequence in
      acknowledged_next-keeps next.1 (record w { delivery = next.0 })
        (others w w.observer next.0 w.audio v)
  answer-IsConsistent (open_rom bytes file_name) w v =
      let dropped = drop_core cores observers audios w in
      let loading =
        publish_control cores observers audios
          (record dropped { model = begin_load dropped.model }) in
      publish_control-keeps cores observers audios
        (load_rom cores observers audios bytes file_name loading.0).0
        (load_rom-keeps cores observers audios bytes file_name loading.0)
  answer-IsConsistent start_command w v =
      publish_ok-keeps (record w { model = (start w.model).0 })
        (with_model (start w.model).0 (start w.model).1) (phase-IsConsistent w running (inr refl) v)
  answer-IsConsistent pause_command w v =
      let w' : Worker K O A = record w {
        audio = audios.pause w.audio;
        delivery = clear w.delivery;
      } in
      publish_ok-keeps (record w' { model = (pause w.model).0 })
        (with_model (pause w.model).0 (pause w.model).1)
        (phase-IsConsistent w' paused (inl refl)
          (others w w.observer (clear w.delivery) (audios.pause w.audio) v))
  answer-IsConsistent restart_command w v =
      let w' : Worker K O A = record w {
        audio = audios.pause w.audio;
        delivery = clear w.delivery;
      } in
      let restarted = restart_core cores observers audios w' in
      publish_ok-keeps restarted.0 restarted.1 (
        restart_core-keeps cores observers audios w'
          (others w w.observer (clear w.delivery) (audios.pause w.audio) v))
  answer-IsConsistent close_command w v =
      publish_control-keeps cores observers audios
        (record w {
          audio = audios.shutdown_output w.audio;
          core = none;
          delivery = clear w.delivery;
          model = close w.model;
        })
        (closed w (audios.shutdown_output w.audio))
  answer-IsConsistent (set_audio_gain gain) w v =
      others w w.observer w.delivery (audios.set_gain w.audio gain).0 v
  answer-IsConsistent (set_keyboard_input buttons) w v =
      core-IsConsistent w (with_keyboard cores observers audios w.core buttons).0 w.remote
        (with_keyboard-core w.core buttons) v
  answer-IsConsistent (controller_event event generation cancelled) w v =
      let applied =
        apply_controller_event cores.inputs w.core w.remote event generation cancelled in
      core-IsConsistent w applied.0.0 applied.0.1
        (apply-core w.core w.remote event generation cancelled) v
  answer-IsConsistent snapshot w v = v
  answer-IsConsistent shutdown w v = closed w (audios.shutdown_all w.audio)

  pub handle_command-IsConsistent :
      (command : Command O F) (w : Worker K O A)
      → IsConsistent w
      → IsConsistent (handle_command cores observers audios command w).0
  unfolding handle_command
  handle_command-IsConsistent shutdown w v = answer-IsConsistent shutdown w v
  handle_command-IsConsistent command w v = answer-IsConsistent command w v

-- The variables of `run_worker` at its start.
abbrev pub started : {K O A : Type 0} → A → Worker K O A
started audio = record {
  model = default_model;
  core = none;
  observer = none;
  delivery = default_queue;
  audio = audio;
  remote = default_inputs;
}

-- What the worker's loop does between two receipts: a tick, or a command.
pub data Turn (O F : Type 0) : Type 0 where
  ticks : Turn O F
  handles : Command O F → Turn O F

module _ {K B O A C F : Type 0} (cores : CoreOperations K B) (observers : ObserverOperations O)
    (audios : AudioOperations A B C F) where
  unfoldable pub turns : Worker K O A → List (Turn O F) → Worker K O A
  turns w [] = w
  turns w (ticks ∷ rest) = turns (run_tick cores observers audios w) rest
  turns w (handles command ∷ rest) = turns (handle_command cores observers audios command w).0 rest

  started-IsConsistent : (audio : A) → IsConsistent {K = K} {O = O} (started audio)
  unfolding IsConsistent Agrees
  started-IsConsistent audio = (refl, refl, refl, refl)

  turns-keeps :
      (w : Worker K O A) (rest : List (Turn O F)) → IsConsistent w → IsConsistent (turns w rest)
  unfolding turns
  turns-keeps w [] v = v
  turns-keeps w (ticks ∷ rest) v =
      turns-keeps (run_tick cores observers audios w) rest
        (run_tick-IsConsistent cores observers audios w v)
  turns-keeps w (handles command ∷ rest) v =
      turns-keeps (handle_command cores observers audios command w).0 rest
        (handle_command-IsConsistent cores observers audios command w v)

  -- From the worker's start, over any ticks and commands and whatever the core, the observers and the
  -- audio output do: the phase in the worker's snapshot agrees with the core. A paused or running phase
  -- has a core, a ROM and no error; an error phase has an error and no ROM; an empty one has none of
  -- the three; and the worker is never left loading.
  pub turns-IsConsistent :
      (audio : A) (rest : List (Turn O F)) → IsConsistent (turns (started audio) rest)
  turns-IsConsistent audio rest = turns-keeps (started audio) rest (started-IsConsistent audio)
