-- ===== src/Network/Sequence.antt =====
-- What `SessionMachine::apply` of crates/gb-network/src/session.rs refuses, and the numbers of the
-- messages that it accepts one after the other.
use pockiva.Prelude.{
  ℕ, zero, suc, ◌+◌, ◌%◌, ◌≤◌, ◌≡◌, refl, sym, ap, ◌∙◌, true, Option, none, some, List, [], ◌∷◌,
  length, ◌⊎◌, inl, inr, arith, Bool-cases, Option-cases, ==_iff,
}
use pockiva.Network.{
  max_safe_sequence, ClientMessage, hello, button_down, button_up, state_sync, ping,
  malformed_message, SessionAction, SessionResult, accepted, refused, unreachable, is_authenticated,
  SessionMachine,
}
use pockiva.Network.Session.{message_sequence, expected, is_next, act, apply}

-- the machine after it has accepted a number
abbrev pub with_last : SessionMachine → ℕ → SessionMachine
with_last m sequence = record m { last_sequence = some sequence }

-- A message that the machine refuses, and one that it accepts.
abbrev Refuses : SessionMachine → ClientMessage → Type 0
Refuses m received = apply m received ≡ (m, refused malformed_message)

abbrev Accepts : SessionMachine → ClientMessage → Type 0
Accepts m received =
    (is_authenticated m.authentication ≡ true)
    × ((sequence : ℕ) × (message_sequence received ≡ some sequence)
        × (is_next m.last_sequence sequence ≡ true)
        × ((action : SessionAction) × (act m received ≡ accepted action)
            × (apply m received ≡ (with_last m sequence, accepted action))))

act-accepts :
    (m : SessionMachine) (received : ClientMessage) (sequence : ℕ)
    → message_sequence received ≡ some sequence
    → (action : SessionAction) × (act m received ≡ accepted action)
      × (act (with_last m sequence) received ≡ accepted action)
unfolding act message_sequence
act-accepts m (hello version token) sequence h = cc
act-accepts m (button_down button s) sequence h = (_, refl, refl)
act-accepts m (button_up button s) sequence h = (_, refl, refl)
act-accepts m (state_sync buttons s) sequence h = (_, refl, refl)
act-accepts m (ping s) sequence h = (_, refl, refl)

-- The branches of `apply`.
pub apply-branches :
    (m : SessionMachine) (received : ClientMessage) → Refuses m received ⊎ Accepts m received
unfolding apply
apply-branches m received = elim (Bool-cases (is_authenticated m.authentication)) [
  | inr locked ↦ inl (rw locked refl)
  | inl unlocked ↦ elim (Option-cases (message_sequence received)) [
    | inl no_number ↦ inl (rw (unlocked, no_number) refl)
    | inr (sequence, numbered) ↦ elim (Bool-cases (is_next m.last_sequence sequence)) [
      | inr other ↦ inl (rw (unlocked, numbered, other) refl)
      | inl next ↦
          let (action, now, after) = act-accepts m received sequence numbered in
          let answered : apply m received ≡ (with_last m sequence, accepted action) =
            rw (unlocked, numbered, next, after) refl in
          inr (unlocked, (sequence, numbered, next, (action, now, answered)))
    ]
  ]
]

-- the number that a result has taken, and the numbers taken from messages in their order
unfoldable pub taken : SessionResult → ClientMessage → Option ℕ
unfolding message_sequence
taken (accepted answer) received = message_sequence received
taken (refused reason) received = none
taken unreachable received = none

abbrev pub keep : Option ℕ → List ℕ → List ℕ
keep none rest = rest
keep (some sequence) rest = sequence ∷ rest

unfoldable pub accepted_sequences : SessionMachine → List ClientMessage → List ℕ
unfolding apply taken
accepted_sequences m [] = []
accepted_sequences m (received ∷ later) =
    let (m', result) = apply m received in
    keep (taken result received) (accepted_sequences m' later)

-- Every number is one that `Sequence::new` accepts.
unfoldable pub AllSafe : List ClientMessage → Type 0
unfolding message_sequence
AllSafe [] = Unit {0}
AllSafe (received ∷ later) =
    ((s : ℕ) → message_sequence received ≡ some s → s ≤ max_safe_sequence) × AllSafe later

-- The numbers from one on, each modulo the count of the safe ones.
unfoldable pub count_from : ℕ → ℕ → List ℕ
count_from first zero = []
count_from first (suc n) = first % (max_safe_sequence + 1) ∷ count_from (first + 1) n

pub expected-mod : (p : ℕ) → p ≤ max_safe_sequence → expected p ≡ (p + 1) % (max_safe_sequence + 1)
unfolding expected
expected-mod p h = ground arith

count_from-mod :
    (first other n : ℕ)
    → first % (max_safe_sequence + 1) ≡ other % (max_safe_sequence + 1)
    → count_from first n ≡ count_from other n
unfolding count_from
count_from-mod first other zero e = refl
count_from-mod first other (suc n) e =
    rw (e, count_from-mod (first + 1) (other + 1) n (omega arith)) refl

taken_refused :
    (m : SessionMachine) (received : ClientMessage) (later : List ClientMessage)
    → Refuses m received
    → accepted_sequences m (received ∷ later) ≡ accepted_sequences m later
unfolding accepted_sequences taken
taken_refused m received later e =
    ap (λ r. keep (taken r.1 received) (accepted_sequences r.0 later)) e

taken_accepted :
    (m : SessionMachine) (received : ClientMessage) (later : List ClientMessage) (sequence : ℕ)
    (answer : SessionAction)
    → message_sequence received ≡ some sequence
    → apply m received ≡ (with_last m sequence, accepted answer)
    → accepted_sequences m (received ∷ later)
      ≡ sequence ∷ accepted_sequences (with_last m sequence) later
unfolding accepted_sequences taken
taken_accepted m received later sequence answer e f =
    ap (λ r. keep (taken r.1 received) (accepted_sequences r.0 later)) f
    ∙ ap (λ o. keep o (accepted_sequences (with_last m sequence) later)) e

next_number :
    (last : Option ℕ) (previous sequence : ℕ)
    → last ≡ some previous
    → is_next last sequence ≡ true
    → sequence ≡ expected previous
unfolding is_next
next_number last previous sequence e h = (==_iff _ _).0 (sym (ap (λ o. is_next o sequence) e) ∙ h)

ap2_cons : {x y : ℕ} {xs ys : List ℕ} → x ≡ y → xs ≡ ys → x ∷ xs ≡ y ∷ ys
ap2_cons p q = rw (p, q) refl

-- After a number, what is accepted counts on from it.
accepted_sequences-after :
    (m : SessionMachine) (previous : ℕ) (messages : List ClientMessage)
    → m.last_sequence ≡ some previous
    → previous ≤ max_safe_sequence
    → AllSafe messages
    → accepted_sequences m messages
      ≡ count_from (previous + 1) (length (accepted_sequences m messages))
unfolding accepted_sequences AllSafe count_from is_next
accepted_sequences-after m previous [] last safe all = refl
accepted_sequences-after m previous (received ∷ later) last safe (fits, all) =
    elim (apply-branches m received) [
      | inl turned_down ↦
          rw (taken_refused m received later turned_down)
            (accepted_sequences-after m previous later last safe all)
      | inr (_, (sequence, numbered, next, (answer, _, answered))) ↦
          let counts : sequence ≡ (previous + 1) % (max_safe_sequence + 1) =
            next_number m.last_sequence previous sequence last next ∙ expected-mod previous safe in
          rw (taken_accepted m received later sequence answer numbered answered) (
            ap2_cons counts (
              accepted_sequences-after (with_last m sequence) sequence later refl
                (fits sequence numbered) all
              ∙ count_from-mod (sequence + 1) (previous + 1 + 1) _ (omega arith)))
    ]

-- Of any messages, those that a machine without a last number accepts are numbered one after the other
-- modulo 2 ^ 53: from some first number on, none is skipped, repeated or out of order. The numbers of
-- the messages are such as `Sequence::new` accepts.
pub accepted_sequences-contiguous :
    (m : SessionMachine) (messages : List ClientMessage)
    → m.last_sequence ≡ none
    → AllSafe messages
    → (first : ℕ) × (accepted_sequences m messages
        ≡ count_from first (length (accepted_sequences m messages)))
unfolding accepted_sequences AllSafe count_from
accepted_sequences-contiguous m [] fresh all = (0, refl)
accepted_sequences-contiguous m (received ∷ later) fresh (fits, all) =
    elim (apply-branches m received) [
      | inl turned_down ↦
          let (first, counts) = accepted_sequences-contiguous m later fresh all in
          (first, rw (taken_refused m received later turned_down) counts)
      | inr (_, (sequence, numbered, next, (answer, _, answered))) ↦
          let safe : sequence ≤ max_safe_sequence = fits sequence numbered in
          (
            sequence,
            rw (taken_accepted m received later sequence answer numbered answered) (
                ap2_cons (omega arith)
                  (accepted_sequences-after (with_last m sequence) sequence later refl safe all)),
          )
    ]
