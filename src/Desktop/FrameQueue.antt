-- ===== src/Desktop/FrameQueue.antt =====
-- apps/desktop/src-tauri/src/video/queue.rs: one frame in flight and the latest one after it.
use pockiva.Prelude.{ℕ, ◌==◌, Option, none, some, if◌then◌else◌, Bool, false}
use pockiva.Contracts.{Frame}

pub record FrameQueue : Type 0 where
  pub in_flight_sequence : Option ℕ
  pub latest_pending : Option Frame

abbrev pub default_queue : FrameQueue
default_queue = record { in_flight_sequence = none; latest_pending = none }

-- The queue and the frame to send now.
unfoldable pub offer : FrameQueue → Frame → FrameQueue × Option Frame
offer q frame = elim q.in_flight_sequence [
  | none ↦ (record q { in_flight_sequence = some frame.sequence }, some frame)
  | some sequence ↦ (record q { latest_pending = some frame }, none)
]

-- `Result<Option<Frame>, AcknowledgeError>`: the error is `NotInFlight`.
pub data Acknowledgement : Type 0 where
  acknowledged : Option Frame → Acknowledgement
  not_in_flight : Acknowledgement

abbrev next_sequence : Option Frame → Option ℕ
next_sequence none = none
next_sequence (some frame) = some frame.sequence

-- `in_flight_sequence != Some(sequence)`
abbrev is_in_flight : Option ℕ → ℕ → Bool
is_in_flight none sequence = false
is_in_flight (some s) sequence = s == sequence

unfoldable pub acknowledge : FrameQueue → ℕ → FrameQueue × Acknowledgement
acknowledge q sequence =
    if is_in_flight q.in_flight_sequence sequence
    then (
      record { in_flight_sequence = next_sequence q.latest_pending; latest_pending = none },
      acknowledged q.latest_pending,
    )
    else (q, not_in_flight)

unfoldable pub clear : FrameQueue → FrameQueue
clear q = record { in_flight_sequence = none; latest_pending = none }
