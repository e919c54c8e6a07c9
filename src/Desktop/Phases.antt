-- ===== src/Desktop/Phases.antt =====
-- apps/desktop/src-tauri/src/emulator/runtime.rs: the phase that the window sees is that of the core.
use mathlib.Core.Path.{subst}
use pockiva.Prelude.{
  ℕ, Bool, true, false, ◌≡◌, refl, Option, none, some, List, ◌⊎◌, inl, inr, if-holds, arith, sym,
  Option-cases,
}
use pockiva.Contracts.{CoreError, Frame}
use pockiva.Cartridge.Header.{CartridgeMetadata}
use pockiva.Desktop.FrameQueue.{FrameQueue, offer, clear}
use pockiva.Desktop.Lifecycle.{
  RuntimePhase, empty, loading, paused, running, error, RomSummary, RuntimeErrorCode,
  RuntimeSnapshot, RuntimeModel, RuntimeResult, from_core_error, finish_load, fail_load,
  require_loaded, enter, runtime_unavailable, file_inaccessible, restart, keyboard_input_source,
}
use pockiva.Desktop.Worker.{
  CoreOperations, ObserverOperations, AudioOperations, Worker, publish_control, publish_frame,
  publish_next, offer_frame, offer_taken, after_cycles, tick_core, run_tick, loaded, load_rom,
  reset_done, restart_active, restart_core,
}

abbrev pub is_some {ℓ} : {A : Type ℓ} → Option A → Bool
is_some none = false
is_some (some a) = true

-- What a phase says of the model and of the core. No command leaves the worker loading.
unfoldable pub Agrees :
    RuntimePhase → Bool → Option RomSummary → Option RuntimeErrorCode → Bool → Type 0
Agrees empty core_loaded rom failure has_core =
    (core_loaded ≡ false) × (is_some rom ≡ false) × (is_some failure ≡ false) × (has_core ≡ false)
Agrees loading core_loaded rom failure has_core = ⊥
Agrees paused core_loaded rom failure has_core =
    (core_loaded ≡ true) × (is_some rom ≡ true) × (is_some failure ≡ false) × (has_core ≡ true)
Agrees running core_loaded rom failure has_core =
    (core_loaded ≡ true) × (is_some rom ≡ true) × (is_some failure ≡ false) × (has_core ≡ true)
Agrees error core_loaded rom failure has_core =
    (core_loaded ≡ false) × (is_some rom ≡ false) × (is_some failure ≡ true)

abbrev pub ModelAgrees : RuntimeModel → Bool → Type 0
ModelAgrees m has_core =
    Agrees m.snapshot.phase m.core_loaded m.snapshot.rom m.snapshot.failure has_core

unfoldable pub IsConsistent : {K O A : Type 0} → Worker K O A → Type 0
IsConsistent w = ModelAgrees w.model (is_some w.core)

-- A model that is loaded agrees in either of the two phases of a loaded one.
entered :
    (phase target : RuntimePhase) (rom : Option RomSummary) (failure : Option RuntimeErrorCode)
    (has_core : Bool)
    → (target ≡ paused) ⊎ (target ≡ running)
    → Agrees phase true rom failure has_core
    → Agrees target true rom failure has_core
unfolding Agrees
entered empty target rom failure has_core t v = absurd (ground arith)
entered loading target rom failure has_core t v = absurd v
entered paused paused rom failure has_core t v = v
entered paused running rom failure has_core t v = v
entered running paused rom failure has_core t v = v
entered running running rom failure has_core t v = v
entered error target rom failure has_core t v = absurd (ground arith)
entered paused empty rom failure has_core t v = absurd (ground arith)
entered paused loading rom failure has_core t v = absurd (ground arith)
entered paused error rom failure has_core t v = absurd (ground arith)
entered running empty rom failure has_core t v = absurd (ground arith)
entered running loading rom failure has_core t v = absurd (ground arith)
entered running error rom failure has_core t v = absurd (ground arith)

-- Entering one of the two phases, or the refusal where nothing is loaded.
pub enter-Agrees :
    (target : RuntimePhase) (s : RuntimeSnapshot) (core_loaded has_core : Bool)
    → (target ≡ paused) ⊎ (target ≡ running)
    → Agrees s.phase core_loaded s.rom s.failure has_core
    → ModelAgrees (enter target (record { snapshot = s; core_loaded = core_loaded })).0 has_core
unfolding enter require_loaded
enter-Agrees target s true has_core t v = entered s.phase target s.rom s.failure has_core t v
enter-Agrees target s false has_core t v = v

module _ {K B O A C F : Type 0} (cores : CoreOperations K B) (observers : ObserverOperations O)
    (audios : AudioOperations A B C F) where
  -- Publishing changes only the observer and the queue of frames.
  pub publish_control-keeps :
      (w : Worker K O A)
      → IsConsistent w
      → IsConsistent (publish_control cores observers audios w).0
  unfolding publish_control IsConsistent
  publish_control-keeps w v = elim (Option-cases w.observer) [
    | inl e ↦ rw e v
    | inr (o, e) ↦ rw e v
  ]

  publish_frame-keeps :
      (frame : Frame) (w : Worker K O A)
      → IsConsistent w
      → IsConsistent (publish_frame cores observers audios frame w)
  unfolding publish_frame IsConsistent
  publish_frame-keeps frame w v = elim (Option-cases w.observer) [
    | inl e ↦ rw e v
    | inr (o, e) ↦ rw e v
  ]

  pub publish_next-keeps :
      (frame : Option Frame) (w : Worker K O A)
      → IsConsistent w
      → IsConsistent (publish_next cores observers audios frame w)
  unfolding publish_next
  publish_next-keeps none w v = v
  publish_next-keeps (some frame) w v = publish_frame-keeps frame w v

  delivery-keeps :
      (w : Worker K O A) (q : FrameQueue)
      → IsConsistent w
      → IsConsistent (record w { delivery = q })
  unfolding IsConsistent
  delivery-keeps w q v = v

  offer_frame-keeps :
      (frame : Frame) (w : Worker K O A)
      → IsConsistent w
      → IsConsistent (offer_frame cores observers audios frame w)
  unfolding offer_frame IsConsistent
  offer_frame-keeps frame w v = elim (Option-cases w.observer) [
    | inl e ↦ rw e (delivery-keeps w (clear w.delivery) v)
    | inr (o, e) ↦
        let offered = offer w.delivery frame in
        rw e (publish_next-keeps offered.1 _ (delivery-keeps w offered.0 v))
  ]

  offer_taken-keeps :
      (frame : Option Frame) (w : Worker K O A)
      → IsConsistent w
      → IsConsistent (offer_taken cores observers audios frame w)
  unfolding offer_taken
  offer_taken-keeps none w v = v
  offer_taken-keeps (some frame) w v = offer_frame-keeps frame w v

  -- A load or a run that failed.
  failed :
      (w : Worker K O A) (code : RuntimeErrorCode)
      → IsConsistent (record w { model = fail_load w.model code })
  unfolding IsConsistent Agrees fail_load
  failed w code = (refl, refl, refl)

  after_cycles-keeps :
      (active : K) (outcome : Bool ⊎ CoreError) (w : Worker K O A)
      → ModelAgrees w.model true
      → IsConsistent (after_cycles cores observers audios active outcome w)
  unfolding after_cycles IsConsistent
  after_cycles-keeps active (inl false) w v = v
  after_cycles-keeps active (inl true) w v =
      let next = cores.take_frame active in
      offer_taken-keeps next.1 (record w { core = some next.0 }) v
  after_cycles-keeps active (inr reason) w v = publish_control-keeps _ (
      failed
        (record w {
          core = some active;
          delivery = clear w.delivery;
          audio = audios.shutdown_output w.audio;
        })
        (from_core_error reason))

  tick_core-keeps :
      (core : Option K) (w : Worker K O A)
      → ModelAgrees w.model (is_some core)
      → IsConsistent (tick_core cores observers audios core w)
  unfolding tick_core
  tick_core-keeps none w v = publish_control-keeps _ (failed w runtime_unavailable)
  tick_core-keeps (some active) w v =
      let ran = cores.run_cycles active 70224 in
      let drained = cores.drain_audio ran.0 in
      after_cycles-keeps drained.0 ran.1 (record w { audio = audios.enqueue w.audio drained.1 }) v

  -- A tick keeps the phase and the core in agreement, whatever the core and the observer do.
  pub run_tick-IsConsistent :
      (w : Worker K O A) → IsConsistent w → IsConsistent (run_tick cores observers audios w)
  unfolding run_tick IsConsistent
  run_tick-IsConsistent w v = tick_core-keeps w.core w v

  loaded-keeps :
      (candidate : K) (output : C) (file_name : List ℕ) (result : CartridgeMetadata ⊎ CoreError)
      (w : Worker K O A)
      → IsConsistent (loaded cores observers audios candidate output file_name result w).0
  unfolding loaded finish_load IsConsistent Agrees
  loaded-keeps candidate output file_name (inl metadata) w = (refl, refl, refl, refl)
  loaded-keeps candidate output file_name (inr reason) w = failed w (from_core_error reason)

  pub load_rom-keeps :
      (bytes : Option (List ℕ)) (file_name : List ℕ) (w : Worker K O A)
      → IsConsistent (load_rom cores observers audios bytes file_name w).0
  unfolding load_rom
  load_rom-keeps none file_name w = failed w file_inaccessible
  load_rom-keeps (some bytes) file_name w =
      let prepared = audios.prepare_candidate w.audio in
      let read = cores.load_rom cores.create bytes in
      loaded-keeps read.0 prepared.1 file_name read.1 (record w { audio = prepared.0 })

  reset_done-keeps :
      (active : K) (result : Unit {0} ⊎ CoreError) (w : Worker K O A)
      → ModelAgrees w.model true
      → IsConsistent (reset_done cores observers audios active result w).0
  unfolding reset_done restart IsConsistent
  reset_done-keeps active (inr reason) w v = v
  reset_done-keeps active (inl unit) w v =
      enter-Agrees running w.model.snapshot w.model.core_loaded true (inr refl) v

  had_core :
      (active : K) (w : Worker K O A)
      → some active ≡ w.core
      → IsConsistent w
      → ModelAgrees w.model true
  unfolding IsConsistent
  had_core active w e v = subst (λ c. ModelAgrees w.model (is_some c)) (sym e) v

  restart_active-keeps :
      (core : Option K) (w : Worker K O A)
      → core ≡ w.core
      → IsConsistent w
      → IsConsistent (restart_active cores observers audios core w).0
  unfolding restart_active
  restart_active-keeps none w e v = v
  restart_active-keeps (some active) w e v =
      let reset = cores.reset (cores.inputs.clear_input_source active keyboard_input_source) in
      reset_done-keeps reset.0 reset.1 w (had_core active w e v)

  pub restart_core-keeps :
      (w : Worker K O A) → IsConsistent w → IsConsistent (restart_core cores observers audios w).0
  unfolding restart_core
  restart_core-keeps w v =
      if-holds (λ (r : Worker K O A × RuntimeResult RuntimeSnapshot). IsConsistent r.0)
        w.model.core_loaded (restart_active-keeps w.core w refl v) v
