-- ===== src/Desktop/Worker.antt =====
-- apps/desktop/src-tauri/src/emulator/runtime.rs: the commands and the ticks of the worker. The core,
-- the observer and the audio output are trait objects, so their operations are parameters; so is what
-- reading a file gives.
use pockiva.Prelude.{ℕ, Bool, true, false, Option, none, some, List, ◌⊎◌, inl, inr, if◌then◌else◌}
use pockiva.Contracts.{CoreError, Frame}
use pockiva.Joypad.{Button}
use pockiva.Network.{ControllerEvent}
use pockiva.Cartridge.Header.{CartridgeMetadata}
use pockiva.Desktop.FrameQueue.{
  FrameQueue, offer, Acknowledgement, acknowledged, not_in_flight, clear,
}
use pockiva.Desktop.Packet.{encode_frame_packet}
use pockiva.Desktop.Lifecycle.{
  keyboard_input_source, from_core_error, RuntimeSnapshot, RuntimeResult, ok, err,
  file_inaccessible, invalid_lifecycle, runtime_unavailable, RuntimeModel, finish_load, fail_load,
  restart,
}
use pockiva.Desktop.Controllers.{InputOperations, RemoteInputs, apply_retained_remote_inputs}

-- The trait `EmulatorCore` and `CoreFactory`, with an audio batch `B`.
pub record CoreOperations (K B : Type 0) : Type 0 where
  pub create : K
  pub load_rom : K → List ℕ → K × (CartridgeMetadata ⊎ CoreError)
  pub reset : K → K × (Unit {0} ⊎ CoreError)
  pub run_cycles : K → ℕ → K × (Bool ⊎ CoreError)
  pub drain_audio : K → K × B
  pub take_frame : K → K × Option Frame
  pub inputs : InputOperations K

-- The trait `RuntimeObserver`
pub record ObserverOperations (O : Type 0) : Type 0 where
  pub publish_control : O → RuntimeSnapshot → O × RuntimeResult (Unit {0})
  pub publish_frame : O → List ℕ → O × RuntimeResult (Unit {0})

-- The operations of `RuntimeAudio`, with a candidate output `C` and a gain `F`.
pub record AudioOperations (A B C F : Type 0) : Type 0 where
  pub shutdown_output : A → A
  pub shutdown_all : A → A
  pub pause : A → A
  pub set_gain : A → F → A × RuntimeResult (Unit {0})
  pub prepare_candidate : A → A × C
  pub shutdown_candidate : A → C → A  -- `output.shutdown()` of an output that is not activated
  pub activate : A → C → A
  pub enqueue : A → B → A

pub record Worker (K O A : Type 0) : Type 0 where
  pub model : RuntimeModel
  pub core : Option K
  pub observer : Option O
  pub delivery : FrameQueue
  pub audio : A
  pub remote : RemoteInputs

abbrev pub is_ok : RuntimeResult (Unit {0}) → Bool
is_ok (ok unit) = true
is_ok (err code) = false

-- What a reply carries.
pub data Reply : Type 0 where
  with_snapshot : RuntimeResult RuntimeSnapshot → Reply
  with_unit : RuntimeResult (Unit {0}) → Reply

-- The contents of a file, if it could be read, and its name.
pub data Command (O F : Type 0) : Type 0 where
  subscribe : O → Command O F
  acknowledge_frame : ℕ → Command O F
  open_rom : Option (List ℕ) → List ℕ → Command O F
  start_command pause_command restart_command close_command snapshot shutdown : Command O F
  set_audio_gain : F → Command O F
  set_keyboard_input : List Button → Command O F
  controller_event : ControllerEvent → ℕ → ℕ → Command O F

abbrev pub frame_cycle_budget : ℕ
frame_cycle_budget = 70224

module _ {K B O A C F : Type 0} (cores : CoreOperations K B) (observers : ObserverOperations O)
    (audios : AudioOperations A B C F) where
  unfoldable pub publish_control : Worker K O A → Worker K O A × RuntimeResult (Unit {0})
  publish_control w = elim w.observer [
    | none ↦ (w, ok tt)
    | some active ↦
        let (active', result) = observers.publish_control active w.model.snapshot in
        (record w { observer = if is_ok result then some active' else none }, result)
  ]

  unfoldable pub publish_frame : Frame → Worker K O A → Worker K O A
  publish_frame frame w = elim w.observer [
    | none ↦ record w { delivery = clear w.delivery }
    | some active ↦
        let (active', result) = observers.publish_frame active (encode_frame_packet frame) in
        record w {
          observer = if is_ok result then some active' else none;
          delivery = if is_ok result then w.delivery else clear w.delivery;
        }
  ]

  -- `if let Some(frame) = next { publish_frame(…) }`
  unfoldable pub publish_next : Option Frame → Worker K O A → Worker K O A
  publish_next none w = w
  publish_next (some frame) w = publish_frame frame w

  unfoldable pub offer_frame : Frame → Worker K O A → Worker K O A
  offer_frame frame w = elim w.observer [
    | none ↦ record w { delivery = clear w.delivery }
    | some active ↦
        let (delivery, now) = offer w.delivery frame in
        publish_next now (record w { delivery = delivery })
  ]

  unfoldable pub acknowledged_next :
      Acknowledgement → Worker K O A → Worker K O A × RuntimeResult (Unit {0})
  acknowledged_next not_in_flight w = (w, err invalid_lifecycle)
  acknowledged_next (acknowledged next) w = (publish_next next w, ok tt)

  -- `if let Some(frame) = active.take_frame() { offer_frame(…) }`
  unfoldable pub offer_taken : Option Frame → Worker K O A → Worker K O A
  offer_taken none w = w
  offer_taken (some frame) w = offer_frame frame w

  -- After `run_cycles`: the audio, then the frame or the failure.
  unfoldable pub after_cycles : K → Bool ⊎ CoreError → Worker K O A → Worker K O A
  after_cycles active (inl false) w = record w { core = some active }
  after_cycles active (inl true) w =
      let (active', frame) = cores.take_frame active in
      offer_taken frame (record w { core = some active' })
  after_cycles active (inr error) w =
      (publish_control (record w {
        core = some active;
        model = fail_load w.model (from_core_error error);
        delivery = clear w.delivery;
        audio = audios.shutdown_output w.audio;
      })).0

  unfoldable pub tick_core : Option K → Worker K O A → Worker K O A
  tick_core none w =
      (publish_control (record w { model = fail_load w.model runtime_unavailable })).0
  tick_core (some active) w =
      let (ran, outcome) = cores.run_cycles active frame_cycle_budget in
      let (drained, batch) = cores.drain_audio ran in
      after_cycles drained outcome (record w { audio = audios.enqueue w.audio batch })

  unfoldable pub run_tick : Worker K O A → Worker K O A
  run_tick w = tick_core w.core w

  -- `active.clear_input_source(KEYBOARD_INPUT_SOURCE)`, before the core is dropped: only its audio
  -- and frames are seen from here, so the dropped core is not kept.
  unfoldable pub drop_core : Worker K O A → Worker K O A
  drop_core w = record w {
    audio = audios.shutdown_output w.audio;
    core = none;
    delivery = clear w.delivery;
  }

  unfoldable pub loaded :
      K
      → C
      → List ℕ
      → CartridgeMetadata ⊎ CoreError
      → Worker K O A
      → Worker K O A × RuntimeResult RuntimeSnapshot
  loaded candidate output file_name (inl metadata) w =
      let model = finish_load w.model metadata file_name in
      (
        record w {
          model = model;
          core = some (apply_retained_remote_inputs cores.inputs candidate w.remote.snapshots);
          audio = audios.activate w.audio output;
        },
        ok model.snapshot,
      )
  loaded candidate output file_name (inr error) w =
      let code = from_core_error error in
      (
        record w {
          model = fail_load w.model code;
          audio = audios.shutdown_candidate w.audio output;
        },
        err code,
      )

  unfoldable pub load_rom :
      Option (List ℕ) → List ℕ → Worker K O A → Worker K O A × RuntimeResult RuntimeSnapshot
  load_rom none file_name w =
      (record w { model = fail_load w.model file_inaccessible }, err file_inaccessible)
  load_rom (some bytes) file_name w =
      let (audio, output) = audios.prepare_candidate w.audio in
      let (candidate, result) = cores.load_rom cores.create bytes in
      loaded candidate output file_name result (record w { audio = audio })

  -- `restart_core` after `require_loaded`, and after the reset.
  unfoldable pub reset_done :
      K → Unit {0} ⊎ CoreError → Worker K O A → Worker K O A × RuntimeResult RuntimeSnapshot
  reset_done active (inr error) w = (record w { core = some active }, err (from_core_error error))
  reset_done active (inl unit) w =
      let model = (restart w.model).0 in
      (
        record w {
          core = some (apply_retained_remote_inputs cores.inputs active w.remote.snapshots);
          model = model;
        },
        ok model.snapshot,
      )

  unfoldable pub restart_active :
      Option K → Worker K O A → Worker K O A × RuntimeResult RuntimeSnapshot
  restart_active none w = (w, err runtime_unavailable)
  restart_active (some active) w =
      let (active', result) =
        cores.reset (cores.inputs.clear_input_source active keyboard_input_source) in
      reset_done active' result w

  unfoldable pub restart_core : Worker K O A → Worker K O A × RuntimeResult RuntimeSnapshot
  restart_core w =
      if w.model.core_loaded then restart_active w.core w else (w, err invalid_lifecycle)
