-- ===== src/Desktop/Commands.antt =====
-- apps/desktop/src-tauri/src/emulator/runtime.rs: `handle_command`.
use pockiva.Prelude.{Bool, true, false, Option, none, some, List, [], ◌∷◌}
use pockiva.Joypad.{Button, JoypadState, press}
use pockiva.Desktop.FrameQueue.{acknowledge, clear}
use pockiva.Desktop.Lifecycle.{
  keyboard_input_source, RuntimeSnapshot, RuntimeResult, ok, err, invalid_lifecycle, RuntimeModel,
  begin_load, close, start, pause,
}
use pockiva.Desktop.Controllers.{apply_controller_event}
use pockiva.Desktop.Worker.{
  CoreOperations, ObserverOperations, AudioOperations, Worker, Reply, with_snapshot, with_unit,
  Command, subscribe, acknowledge_frame, open_rom, start_command, pause_command, restart_command,
  close_command, snapshot, shutdown, set_audio_gain, set_keyboard_input, controller_event,
  publish_control, acknowledged_next, drop_core, load_rom, restart_core,
}

-- `for button in buttons { state.press(…) }`
unfoldable pub press_buttons : JoypadState → List Button → JoypadState
press_buttons state [] = state
press_buttons state (button ∷ buttons) = press_buttons (press state button) buttons

-- `result.map(|()| model.snapshot())`
abbrev pub with_model : RuntimeModel → RuntimeResult (Unit {0}) → RuntimeResult RuntimeSnapshot
with_model m (ok unit) = ok m.snapshot
with_model m (err code) = err code

module _ {K B O A C F : Type 0} (cores : CoreOperations K B) (observers : ObserverOperations O)
    (audios : AudioOperations A B C F) where
  -- `if result.is_ok() { publish_control(…) }`, and the reply.
  unfoldable pub publish_ok : Worker K O A → RuntimeResult RuntimeSnapshot → Worker K O A × Reply
  publish_ok w (err code) = (w, with_snapshot (err code))
  publish_ok w (ok s) = ((publish_control cores observers audios w).0, with_snapshot (ok s))

  unfoldable pub with_keyboard : Option K → List Button → Option K × RuntimeResult (Unit {0})
  with_keyboard none buttons = (none, err invalid_lifecycle)
  with_keyboard (some active) buttons =
      (some (cores.inputs.set_input active keyboard_input_source (press_buttons 0 buttons)), ok tt)

  -- The arms but `Shutdown`: each replies, and the worker goes on.
  unfoldable pub answer : Command O F → Worker K O A → Worker K O A × Reply
  answer (subscribe replacement) w =
      let (w', result) =
        publish_control cores observers audios
          (record w { delivery = clear w.delivery; observer = some replacement }) in
      (w', with_snapshot (with_model w'.model result))
  answer (acknowledge_frame sequence) w =
      let (delivery, next) = acknowledge w.delivery sequence in
      let (w', result) =
        acknowledged_next cores observers audios next (record w { delivery = delivery }) in
      (w', with_unit result)
  answer (open_rom bytes file_name) w =
      let dropped = drop_core cores observers audios w in
      let loading =
        publish_control cores observers audios
          (record dropped { model = begin_load dropped.model }) in
      let (w', result) = load_rom cores observers audios bytes file_name loading.0 in
      ((publish_control cores observers audios w').0, with_snapshot result)
  answer start_command w =
      let (model, result) = start w.model in
      publish_ok (record w { model = model }) (with_model model result)
  answer pause_command w =
      let (model, result) = pause w.model in
      publish_ok
        (record w { model = model; audio = audios.pause w.audio; delivery = clear w.delivery })
        (with_model model result)
  answer restart_command w =
      let (w', result) =
        restart_core cores observers audios
          (record w { audio = audios.pause w.audio; delivery = clear w.delivery }) in
      publish_ok w' result
  answer close_command w =
      let dropped = drop_core cores observers audios w in
      let closed =
        publish_control cores observers audios (record dropped { model = close dropped.model }) in
      (closed.0, with_snapshot (ok closed.0.model.snapshot))
  answer (set_audio_gain gain) w =
      let (audio, result) = audios.set_gain w.audio gain in
      (record w { audio = audio }, with_unit result)
  answer (set_keyboard_input buttons) w =
      let (core, result) = with_keyboard w.core buttons in
      (record w { core = core }, with_unit result)
  answer (controller_event event generation cancelled_through) w =
      let ((core, remote), result) =
        apply_controller_event cores.inputs w.core w.remote event generation cancelled_through in
      (record w { core = core; remote = remote }, with_unit result)
  answer snapshot w = (w, with_snapshot (ok w.model.snapshot))
  answer shutdown w =
      let dropped = drop_core cores observers audios w in
      (
        record dropped { audio = audios.shutdown_all w.audio; model = close dropped.model },
        with_unit (ok tt),
      )

  -- `handle_command`: the worker, the reply, and whether the loop ends.
  unfoldable pub handle_command : Command O F → Worker K O A → Worker K O A × Reply × Bool
  unfolding answer
  handle_command shutdown w = let (w', reply) = answer shutdown w in (w', reply, true)
  handle_command command w = let (w', reply) = answer command w in (w', reply, false)
