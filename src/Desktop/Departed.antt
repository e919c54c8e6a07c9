-- ===== src/Desktop/Departed.antt =====
-- apps/desktop/src-tauri/src/emulator/runtime.rs: over any steps of the callers and of the worker, a
-- drain leaves no input of a controller that has left.
use mathlib.Core.Path.{subst}
use pockiva.Prelude.{
  ℕ, ◌<◌, ◌≤◌, ◌≡◌, refl, ◌⊎◌, inl, inr, leb, ◌==◌, Option, none, some, List, [], ◌∷◌, arith,
  Bool-cases, if-cases, if-holds, ==_iff,
}
use pockiva.Joypad.{JoypadState}
use pockiva.Network.{ControllerEvent, connected, message, disconnected, event_source}
use pockiva.Desktop.Lifecycle.{RuntimeResult, ok, err, remote_input_source}
use pockiva.Desktop.Controllers.{
  CurrentController, RemoteInputSnapshot, RemoteInputs, snapshot_of, message_state, InputOperations,
  keep_state, apply_current, apply_controller_event, drain_cancelled_remote_input, is_cancelled,
}
use pockiva.Desktop.Retained.{
  World, Move, submit, send, give_up, drain, receive, apply, drained, taken, applied, received_next,
  moved, run, fresh, Keeps, InHand, IsValid, snapshot_of-insert,
}
use pockiva.Desktop.Cancelled.{
  submitted_next-IsValid, sent-IsValid, given_up-IsValid, drained-IsValid,
}

module _ {K : Type 0} (inputs : InputOperations K) where
  drained-cleared :
      (w : World K)
      → (drained inputs w).generations.cancelled_through ≤ (drained inputs w).remote.cleared_through
  unfolding drained drain_cancelled_remote_input
  drained-cleared w =
      let c : ℕ = w.generations.cancelled_through in
      elim (Bool-cases (leb c w.remote.cleared_through)) [
        | inl e ↦ rw e (ground arith)
        | inr e ↦ rw e (
            if-holds (λ (r : RemoteInputs). c ≤ r.cleared_through)
              (is_cancelled inputs w.remote.owner c) (omega arith) (omega arith))
      ]

  drained_for :
      (w : World K) (event : ControllerEvent) (generation : ℕ)
      → generation ≤ w.generations.next_generation
      → let d = drained inputs w in
        InHand
          (some (event, generation))
          d.generations.cancelled_through
          d.remote.cleared_through
          d.generations.next_generation
  unfolding drained
  drained_for w event generation given = (given, inl (drained-cleared w))

  received-IsValid :
      (w : World K) (event : ControllerEvent) (generation : ℕ)
      → generation ≤ w.generations.next_generation
      → IsValid (drained inputs w)
      → IsValid (record (drained inputs w) { received = some (event, generation) })
  received-IsValid w event generation given v = record {
    cancelled_given = v.cancelled_given;
    cleared_cancelled = v.cleared_cancelled;
    newest = v.newest;
    sent_given = v.sent_given;
    given = v.given;
    in_hand = drained_for w event generation given;
    keeps = v.keeps;
  }

  taken-IsValid :
      (w : World K) (commands : List (ControllerEvent × ℕ))
      → IsValid (record w { commands = commands })
      → IsValid (taken inputs (record w { commands = commands }) commands)
  unfolding taken
  taken-IsValid w [] v = v
  taken-IsValid w ((event, generation) ∷ commands) v =
      let q : World K = record w { commands = commands } in
      let rest : IsValid q = record {
        cancelled_given = v.cancelled_given;
        cleared_cancelled = v.cleared_cancelled;
        newest = v.newest;
        sent_given = v.sent_given;
        given = v.given.1;
        in_hand = v.in_hand;
        keeps = v.keeps;
      } in
      received-IsValid q event generation v.given.0 (drained-IsValid inputs q rest)

  older : (c l g s : ℕ) → c < g → l < s → (c ≤ l) ⊎ (g ≤ c) → c < s
  older c l g s k h (inl le) = omega arith
  older c l g s k h (inr le) = absurd (omega arith)

  -- An event that is newer than all that was cancelled.
  new_owner :
      (o : Option CurrentController) (s : Option RemoteInputSnapshot) (id : List ℕ) (g c l n : ℕ)
      → g ≤ n
      → c < g
      → (c ≤ l) ⊎ (g ≤ c)
      → Keeps o s c l n
      → Keeps (some (record { connection_id = id; generation = g })) s c l n
  new_owner o none id g c l n h k d keeps = h
  new_owner none (some s) id g c l n h k d keeps = absurd keeps
  new_owner (some o) (some s) id g c l n h k d keeps =
      (h, keeps.1, inl (older c l g s.generation k keeps.1 d))

  keep_state-Keeps :
      (w : World K) (id : List ℕ) (generation : ℕ) (r : RuntimeResult JoypadState)
      → IsValid w
      → w.generations.cancelled_through < generation
      → generation ≤ w.generations.next_generation
      → let q = (keep_state inputs w.core w.remote id remote_input_source generation r).0.1 in
        (Keeps q.owner
          (snapshot_of q.snapshots remote_input_source)
          w.generations.cancelled_through
          q.cleared_through
          w.generations.next_generation)
        × (q.cleared_through ≡ w.remote.cleared_through)
  unfolding keep_state
  keep_state-Keeps w id generation (err code) v new given = (v.keeps, refl)
  keep_state-Keeps w id generation (ok state) v new given =
      let t : RemoteInputSnapshot = record { generation = generation; state = state } in
      (
        rw (snapshot_of-insert w.remote.snapshots remote_input_source t)
            (given, omega (arith, v.cleared_cancelled), inl new),
        refl,
      )

  -- What a current event leaves.
  Leaves : World K → RemoteInputs → Type 0
  Leaves w q =
      (Keeps q.owner (snapshot_of q.snapshots remote_input_source) w.generations.cancelled_through
        q.cleared_through w.generations.next_generation)
      × (q.cleared_through ≡ w.remote.cleared_through)

  apply_current-Leaves :
      (w : World K) (event : ControllerEvent) (generation : ℕ)
      → IsValid w
      → event_source event ≡ remote_input_source
      → w.generations.cancelled_through < generation
      → InHand
          (some (event, generation))
          w.generations.cancelled_through
          w.remote.cleared_through
          w.generations.next_generation
      → Leaves w (apply_current inputs w.core w.remote event generation).0.1
  unfolding apply_current Leaves event_source
  apply_current-Leaves w (connected id source) generation v e new hand =
      (new_owner w.remote.owner _ id generation _ _ _ hand.0 new hand.1 v.keeps, refl)
  apply_current-Leaves w (disconnected id source) generation v e new hand = (v.keeps, refl)
  apply_current-Leaves w (message id source m) generation v e new hand = rw e (
      keep_state-Keeps w id generation (message_state w.remote remote_input_source generation m) v
        new hand.0)

  -- The state after an event, with the inputs that it leaves.
  Leaves-IsValid :
      (w : World K) (core : Option K) (q : RemoteInputs)
      → IsValid w
      → Leaves w q
      → IsValid (record w { core = core; remote = q; received = none })
  unfolding Leaves
  Leaves-IsValid w core q v left = record {
    cancelled_given = v.cancelled_given;
    cleared_cancelled = rw left.1 v.cleared_cancelled;
    newest = v.newest;
    sent_given = v.sent_given;
    given = v.given;
    in_hand = tt;
    keeps = left.0;
  }

  applied-IsValid :
      (w : World K) (command : Option (ControllerEvent × ℕ))
      → IsValid w
      → InHand command w.generations.cancelled_through w.remote.cleared_through
          w.generations.next_generation
      → IsValid (applied inputs w command)
  unfolding applied apply_controller_event Leaves
  applied-IsValid w none v hand = v
  applied-IsValid w (some (event, generation)) v hand =
      let c : ℕ = w.generations.cancelled_through in
      let same : Leaves w w.remote = (v.keeps, refl) in
      Leaves-IsValid w _ _ v (
        if-cases (λ (r : (Option K × RemoteInputs) × RuntimeResult (Unit {0})). Leaves w r.0.1)
          (event_source event == remote_input_source)
          (λ e.
            if-cases (λ (r : (Option K × RemoteInputs) × RuntimeResult (Unit {0})). Leaves w r.0.1)
              (leb generation c) (λ old. same)
              (λ new.
                apply_current-Leaves w event generation v ((==_iff _ _).0 e) (ground arith) hand))
          (λ e. same))

  next-IsValid :
      (w : World K) (hand : Option (ControllerEvent × ℕ))
      → IsValid w
      → IsValid (received_next inputs w hand)
  unfolding received_next
  next-IsValid w none v = taken-IsValid w w.commands v
  next-IsValid w (some command) v = v

  moved-IsValid : (w : World K) (m : Move) → IsValid w → IsValid (moved inputs w m)
  unfolding moved
  moved-IsValid w (submit event) v = submitted_next-IsValid inputs w v event w.sending
  moved-IsValid w send v = sent-IsValid inputs w v w.sending v.sent_given
  moved-IsValid w give_up v = given_up-IsValid inputs w v
  moved-IsValid w drain v = drained-IsValid inputs w v
  moved-IsValid w receive v = next-IsValid w w.received v
  moved-IsValid w apply v = applied-IsValid w w.received v v.in_hand

  run-IsValid : (w : World K) (ms : List Move) → IsValid w → IsValid (run inputs w ms)
  unfolding run
  run-IsValid w [] v = v
  run-IsValid w (m ∷ ms) v = run-IsValid (moved inputs w m) ms (moved-IsValid w m v)

  fresh-IsValid : (core : Option K) → IsValid (fresh core)
  unfolding snapshot_of
  fresh-IsValid core = record {
    cancelled_given = omega arith;
    cleared_cancelled = omega arith;
    newest = tt;
    sent_given = tt;
    given = tt;
    in_hand = tt;
    keeps = tt;
  }

  Keeps-cleared :
      (o : Option CurrentController) (s : RemoteInputSnapshot) (c l n : ℕ)
      → Keeps o (some s) c l n
      → l < s.generation
  Keeps-cleared none s c l n k = absurd k
  Keeps-cleared (some o) s c l n k = k.1

  -- After a drain a state that is kept belongs to a controller that is not cancelled.
  pub run-kept :
      (core : Option K) (ms : List Move) (s : RemoteInputSnapshot)
      → snapshot_of
          (drained inputs (run inputs (fresh core) ms)).remote.snapshots
          remote_input_source
        ≡ some s
      → (drained inputs (run inputs (fresh core) ms)).generations.cancelled_through < s.generation
  run-kept core ms s kept =
      let before : World K = run inputs (fresh core) ms in
      let w : World K = drained inputs before in
      let v : IsValid w =
        drained-IsValid inputs before (run-IsValid (fresh core) ms (fresh-IsValid core)) in
      let later : w.remote.cleared_through < s.generation =
        Keeps-cleared w.remote.owner s w.generations.cancelled_through w.remote.cleared_through
          w.generations.next_generation
          (subst
            (λ k.
              Keeps w.remote.owner k w.generations.cancelled_through w.remote.cleared_through
                w.generations.next_generation)
            kept v.keeps) in
      let cleared : w.generations.cancelled_through ≤ w.remote.cleared_through =
        drained-cleared before in
      omega (arith, later, cleared)
