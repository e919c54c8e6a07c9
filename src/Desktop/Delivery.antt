-- ===== src/Desktop/Delivery.antt =====
-- apps/desktop/src-tauri/src/video/queue.rs: what the window is sent, over any calls of the queue.
use pockiva.Prelude.{
  ℕ, suc, ◌+◌, ◌<◌, ◌≤◌, ◌==◌, Option, none, some, List, [], ◌∷◌, arith, length, Bool-cases, inl,
  inr,
}
use pockiva.Contracts.{Frame}
use pockiva.Desktop.FrameQueue.{
  FrameQueue, default_queue, offer, Acknowledgement, acknowledged, not_in_flight, acknowledge,
  clear,
}

pub data Call : Type 0 where
  offered : Frame → Call
  acknowledges : ℕ → Call
  cleared : Call

abbrev sent_now : Option Frame → List Frame → List Frame
sent_now none rest = rest
sent_now (some frame) rest = frame ∷ rest

abbrev sent_next : Acknowledgement → List Frame → List Frame
sent_next (acknowledged next) rest = sent_now next rest
sent_next not_in_flight rest = rest

-- The frames that the calls send, in their order.
unfoldable pub sent : List Call → FrameQueue → List Frame
sent [] q = []
sent (offered frame ∷ calls) q = let (q', now) = offer q frame in sent_now now (sent calls q')
sent (acknowledges sequence ∷ calls) q =
    let (q', next) = acknowledge q sequence in sent_next next (sent calls q')
sent (cleared ∷ calls) q = sent calls (clear q)

-- The frames that are offered have growing sequence numbers, all greater than a number.
unfoldable pub OffersFrom : ℕ → List Call → Type 0
OffersFrom n [] = Unit {0}
OffersFrom n (offered frame ∷ calls) = (n < frame.sequence) × OffersFrom frame.sequence calls
OffersFrom n (acknowledges sequence ∷ calls) = OffersFrom n calls
OffersFrom n (cleared ∷ calls) = OffersFrom n calls

unfoldable pub GrowsFrom : ℕ → List Frame → Type 0
GrowsFrom n [] = Unit {0}
GrowsFrom n (frame ∷ frames) = (n < frame.sequence) × GrowsFrom frame.sequence frames

-- A frame waits only behind one in flight, and was offered after all that were sent.
abbrev pub Between : ℕ → ℕ → Option ℕ → Option Frame → Type 0
Between low high in_flight none = low ≤ high
Between low high none (some frame) = ⊥
Between low high (some sequence) (some frame) = (low < frame.sequence) × (frame.sequence ≤ high)

abbrev queue : Option ℕ → Option Frame → FrameQueue
queue in_flight pending = record { in_flight_sequence = in_flight; latest_pending = pending }

Between-le :
    (low high : ℕ) (in_flight : Option ℕ) (pending : Option Frame)
    → Between low high in_flight pending
    → low ≤ high
Between-le low high in_flight none w = w
Between-le low high none (some frame) w = absurd w
Between-le low high (some sequence) (some frame) w = omega arith

sent-GrowsFrom :
    (calls : List Call) (in_flight : Option ℕ) (pending : Option Frame) (low high : ℕ)
    → Between low high in_flight pending
    → OffersFrom high calls
    → GrowsFrom low (sent calls (queue in_flight pending))
unfolding sent OffersFrom GrowsFrom offer acknowledge clear
sent-GrowsFrom [] in_flight pending low high w o = tt
sent-GrowsFrom (offered frame ∷ calls) none none low high w o = (
  omega arith,
  sent-GrowsFrom calls (some frame.sequence) none frame.sequence frame.sequence (omega arith) o.1,
)
sent-GrowsFrom (offered frame ∷ calls) none (some f) low high w o = absurd w
sent-GrowsFrom (offered frame ∷ calls) (some s) pending low high w o =
    let le = Between-le low high (some s) pending w in
    sent-GrowsFrom calls (some s) (some frame) low frame.sequence (omega arith, omega arith) o.1
sent-GrowsFrom (acknowledges sequence ∷ calls) none pending low high w o =
    sent-GrowsFrom calls none pending low high w o
sent-GrowsFrom (acknowledges sequence ∷ calls) (some s) none low high w o =
    elim (Bool-cases (s == sequence)) [
      | inl e ↦ rw e (sent-GrowsFrom calls none none low high w o)
      | inr e ↦ rw e (sent-GrowsFrom calls (some s) none low high w o)
    ]
sent-GrowsFrom (acknowledges sequence ∷ calls) (some s) (some f) low high w o =
    elim (Bool-cases (s == sequence)) [
      | inl e ↦ rw e (w.0, sent-GrowsFrom calls (some f.sequence) none f.sequence high w.1 o)
      | inr e ↦ rw e (sent-GrowsFrom calls (some s) (some f) low high w o)
    ]
sent-GrowsFrom (cleared ∷ calls) in_flight pending low high w o =
    sent-GrowsFrom calls none none low high (Between-le low high in_flight pending w) o

-- When frames are offered with growing sequence numbers, the window is sent frames with growing
-- sequence numbers, whatever it acknowledges and whenever the queue is cleared: no frame is sent twice
-- or after a later one.
pub sent_grows :
    (calls : List Call) (n : ℕ) → OffersFrom n calls → GrowsFrom n (sent calls default_queue)
sent_grows calls n o = sent-GrowsFrom calls none none n n (omega arith) o

-- How many acknowledgements and clears there are.
abbrev pub acknowledgements : List Call → ℕ
acknowledgements [] = 0
acknowledgements (acknowledges sequence ∷ calls) = suc (acknowledgements calls)
acknowledgements (offered frame ∷ calls) = acknowledgements calls
acknowledgements (cleared ∷ calls) = suc (acknowledgements calls)

room : Option ℕ → ℕ
room none = 1
room (some s) = 0

sent-le :
    (calls : List Call) (in_flight : Option ℕ) (pending : Option Frame)
    → length (sent calls (queue in_flight pending)) ≤ room in_flight + acknowledgements calls
unfolding sent offer acknowledge clear room
sent-le [] in_flight pending = omega arith
sent-le (offered frame ∷ calls) none pending =
    omega (arith, sent-le calls (some frame.sequence) pending)
sent-le (offered frame ∷ calls) (some s) pending = sent-le calls (some s) (some frame)
sent-le (acknowledges sequence ∷ calls) none pending = omega (arith, sent-le calls none pending)
sent-le (acknowledges sequence ∷ calls) (some s) none = elim (Bool-cases (s == sequence)) [
  | inl e ↦ rw e (omega (arith, sent-le calls none none))
  | inr e ↦ rw e (omega (arith, sent-le calls (some s) none))
]
sent-le (acknowledges sequence ∷ calls) (some s) (some f) = elim (Bool-cases (s == sequence)) [
  | inl e ↦ rw e (omega (arith, sent-le calls (some f.sequence) none))
  | inr e ↦ rw e (omega (arith, sent-le calls (some s) (some f)))
]
sent-le (cleared ∷ calls) in_flight pending = omega (arith, sent-le calls none none)

-- The window is never sent more than one frame ahead of its acknowledgements and of the clears.
pub sent_bounded :
    (calls : List Call) → length (sent calls default_queue) ≤ suc (acknowledgements calls)
unfolding room
sent_bounded calls = omega (arith, sent-le calls none none)
