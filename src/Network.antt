-- ===== src/Network.antt =====
-- crates/gb-network: the protocol of a remote controller. This file is message.rs and the types of
-- session.rs; a string is the list of its bytes, and an instant the nanoseconds since some origin.
pub mod Session
pub mod RateLimit
pub mod Sequence
pub mod Accepting
pub mod Frame
pub mod Socket
pub mod Turns
pub mod Sockets
pub mod Holders
pub mod Claims
mod Tests
use pockiva.Prelude.{
  ℕ, ◌≤◌, Bool, true, false, not, ◌&&◌, Option, none, some, List, [], ◌∷◌, ◌==◌, leb, if◌then◌else◌,
}

abbrev pub Text : Type 0
Text = List ℕ

unfoldable pub same_text : Text → Text → Bool
same_text [] [] = true
same_text [] (y ∷ ys) = false
same_text (x ∷ xs) [] = false
same_text (x ∷ xs) (y ∷ ys) = (x == y) && same_text xs ys

-- `MAX_SAFE_SEQUENCE`
abbrev pub max_safe_sequence : ℕ
max_safe_sequence = 9007199254740991

-- `Sequence::new`; a `Sequence` is a number that it accepts.
unfoldable pub new_sequence : ℕ → Option ℕ
new_sequence value = if leb value max_safe_sequence then some value else none

pub data ProtocolVersion : Type 0 where
  v1 : ProtocolVersion

pub data Button : Type 0 where
  up down left right a b start select : Button

pub data ClientMessage : Type 0 where
  hello : ProtocolVersion → Text → ClientMessage
  button_down button_up : Button → ℕ → ClientMessage
  state_sync : List Button → ℕ → ClientMessage
  ping : ℕ → ClientMessage

pub data RejectionReason : Type 0 where
  invalid_token unsupported_version controller_already_connected malformed_message : RejectionReason

pub data ServerMessage : Type 0 where
  welcome : ProtocolVersion → Text → ServerMessage
  rejected : RejectionReason → ServerMessage
  pong : ℕ → ServerMessage
  controller_disconnected : ServerMessage

-- `non_empty_identifier!` and `SessionToken`: `new` refuses the empty string.
unfoldable pub new_identifier : Text → Option Text
new_identifier [] = none
new_identifier (x ∷ xs) = some (x ∷ xs)

pub data ControllerEvent : Type 0 where
  connected : Text → ℕ → ControllerEvent
  message : Text → ℕ → ClientMessage → ControllerEvent
  disconnected : Text → ℕ → ControllerEvent

unfoldable pub event_source : ControllerEvent → ℕ
event_source (connected connection_id input_source) = input_source
event_source (message connection_id input_source m) = input_source
event_source (disconnected connection_id input_source) = input_source

pub data SessionAction : Type 0 where
  connect : ServerMessage → ControllerEvent → SessionAction
  input : ControllerEvent → SessionAction
  reply : ServerMessage → SessionAction
  no_action : SessionAction

-- `Result<SessionAction, SessionError>`, and the `unreachable!`.
pub data SessionResult : Type 0 where
  accepted : SessionAction → SessionResult
  refused : RejectionReason → SessionResult
  unreachable : SessionResult

pub data AuthenticationState : Type 0 where
  awaiting_hello authenticated : AuthenticationState

unfoldable pub is_authenticated : AuthenticationState → Bool
is_authenticated awaiting_hello = false
is_authenticated authenticated = true

pub record SessionMachine : Type 0 where
  pub token : Text
  pub connection_id : Text
  pub input_source : ℕ
  pub expires_at : ℕ
  pub authentication : AuthenticationState
  pub last_sequence : Option ℕ
  pub emitted_disconnect : Bool
