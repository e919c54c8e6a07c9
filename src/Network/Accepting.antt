-- ===== src/Network/Accepting.antt =====
-- Which messages `SessionMachine::apply` of crates/gb-network/src/session.rs accepts, and how it
-- answers them.
use pockiva.Prelude.{
  ℕ, ◌+◌, ◌%◌, ◌≤◌, ◌≡◌, refl, sym, ap, ◌∙◌, true, false, Option, none, some, ◌⊎◌, inl, inr, arith,
  Bool-cases, Option-cases, ==_iff,
}
use pockiva.Network.{
  max_safe_sequence, ClientMessage, hello, button_down, button_up, state_sync, ping,
  malformed_message, pong, message, SessionAction, input, reply, accepted, refused,
  is_authenticated, SessionMachine,
}
use pockiva.Network.Session.{message_sequence, is_next, act, apply}
use pockiva.Network.Sequence.{with_last, expected-mod}

-- A number that may follow the last one: any after none, and else the next of 53 bits.
abbrev Follows : Option ℕ → ℕ → Type 0
Follows none n = Unit {0}
Follows (some p) n = n ≡ (p + 1) % (max_safe_sequence + 1)

abbrev IsNumbered : ClientMessage → ℕ → Type 0
IsNumbered (hello version token) n = ⊥
IsNumbered (button_down button sequence) n = sequence ≡ n
IsNumbered (button_up button sequence) n = sequence ≡ n
IsNumbered (state_sync buttons sequence) n = sequence ≡ n
IsNumbered (ping sequence) n = sequence ≡ n

-- A heartbeat is answered with its own number, and any other message is handed on as it came.
abbrev Answers : SessionMachine → ClientMessage → SessionAction → Type 0
Answers m (ping sequence) action = action ≡ reply (pong sequence)
Answers m received action = action ≡ input (message m.connection_id m.input_source received)

-- A message that the machine refuses, and one that it accepts.
abbrev pub IsRefused : SessionMachine → ClientMessage → Type 0
IsRefused m received =
    (apply m received ≡ (m, refused malformed_message))
    × ((is_authenticated m.authentication ≡ false)
        ⊎ ((n : ℕ) → IsNumbered received n → Follows m.last_sequence n → ⊥))

abbrev pub IsAccepted : SessionMachine → ClientMessage → Type 0
IsAccepted m received =
    (is_authenticated m.authentication ≡ true)
    × ((n : ℕ) × IsNumbered received n
        × Follows m.last_sequence n
        × ((action : SessionAction) × Answers m received action
            × (apply m received ≡ (with_last m n, accepted action))))

IsNumbered-sequence :
    (received : ClientMessage) (n : ℕ) → IsNumbered received n → message_sequence received ≡ some n
unfolding message_sequence
IsNumbered-sequence (hello version token) n h = absurd h
IsNumbered-sequence (button_down button s) n h = ap some h
IsNumbered-sequence (button_up button s) n h = ap some h
IsNumbered-sequence (state_sync buttons s) n h = ap some h
IsNumbered-sequence (ping s) n h = ap some h

sequence-IsNumbered :
    (received : ClientMessage) (n : ℕ) → message_sequence received ≡ some n → IsNumbered received n
unfolding message_sequence
sequence-IsNumbered (hello version token) n h = cc
sequence-IsNumbered (button_down button s) n h = cc
sequence-IsNumbered (button_up button s) n h = cc
sequence-IsNumbered (state_sync buttons s) n h = cc
sequence-IsNumbered (ping s) n h = cc

act-Answers :
    (m : SessionMachine) (received : ClientMessage) (n : ℕ)
    → message_sequence received ≡ some n
    → (action : SessionAction) × Answers m received action
      × (act (with_last m n) received ≡ accepted action)
unfolding act message_sequence
act-Answers m (hello version token) n h = cc
act-Answers m (button_down button s) n h = (_, refl, refl)
act-Answers m (button_up button s) n h = (_, refl, refl)
act-Answers m (state_sync buttons s) n h = (_, refl, refl)
act-Answers m (ping s) n h = (_, refl, refl)

-- A last number that `Sequence::new` accepts, where there is one.
abbrev pub IsSafe : Option ℕ → Type 0
IsSafe none = Unit {0}
IsSafe (some p) = p ≤ max_safe_sequence

is_next-Follows : (last : Option ℕ) (n : ℕ) → IsSafe last → is_next last n ≡ true → Follows last n
unfolding is_next
is_next-Follows none n safe h = tt
is_next-Follows (some p) n safe h = (==_iff _ _).0 h ∙ expected-mod p safe

Follows-is_next : (last : Option ℕ) (n : ℕ) → IsSafe last → Follows last n → is_next last n ≡ true
unfolding is_next
Follows-is_next none n safe h = refl
Follows-is_next (some p) n safe h = (==_iff _ _).1 (h ∙ sym (expected-mod p safe))

true-false : true ≡ false → ⊥
true-false e = ground arith

some-none : {n : ℕ} → some n ≡ none → ⊥
some-none e = cc

injective-some : {m n : ℕ} → some m ≡ some n → m ≡ n
injective-some e = cc

-- A message with no number, or one whose number may not come next.
not_numbered :
    (received : ClientMessage) (n : ℕ)
    → message_sequence received ≡ none
    → IsNumbered received n
    → ⊥
not_numbered received n h k = some-none (sym (IsNumbered-sequence received n k) ∙ h)

other_number :
    (received : ClientMessage) (last : Option ℕ) (sequence n : ℕ)
    → IsSafe last
    → message_sequence received ≡ some sequence
    → is_next last sequence ≡ false
    → IsNumbered received n
    → Follows last n
    → ⊥
other_number received last sequence n safe h other k follows =
    let same : sequence ≡ n = injective-some (sym h ∙ IsNumbered-sequence received n k) in
    true-false (sym (Follows-is_next last n safe follows) ∙ ap (is_next last) (sym same) ∙ other)

-- Where the last number is one that `Sequence::new` accepts: `apply` refuses a message as malformed
-- and leaves the machine, and then the session is not authenticated, or the message has no number that
-- is the next of 53 bits; or the session is authenticated, the number is the next one or the first,
-- it alone changes in the machine, a heartbeat is answered with its own number, and any other message
-- is handed on as it came, with the connection and its input source.
pub apply-cases :
    (m : SessionMachine) (received : ClientMessage)
    → IsSafe m.last_sequence
    → IsRefused m received ⊎ IsAccepted m received
unfolding apply
apply-cases m received safe = elim (Bool-cases (is_authenticated m.authentication)) [
  | inr locked ↦ inl (rw locked refl, inl locked)
  | inl unlocked ↦ elim (Option-cases (message_sequence received)) [
    | inl no_number ↦ inl (
      rw (unlocked, no_number) refl,
      inr (λ n numbered follows. not_numbered received n no_number numbered),
    )
    | inr (sequence, numbered) ↦ elim (Bool-cases (is_next m.last_sequence sequence)) [
      | inr other ↦ inl (
        rw (unlocked, numbered, other) refl,
        inr (λ n k follows.
            other_number received m.last_sequence sequence n safe numbered other k follows),
      )
      | inl next ↦
          let (action, answers, after) = act-Answers m received sequence numbered in
          let answered : apply m received ≡ (with_last m sequence, accepted action) =
            rw (unlocked, numbered, next, after) refl in
          inr (
            unlocked,
            (
              sequence,
              sequence-IsNumbered received sequence numbered,
              is_next-Follows m.last_sequence sequence safe next,
              (action, answers, answered),
            ),
          )
    ]
  ]
]
