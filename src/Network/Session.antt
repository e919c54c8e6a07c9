-- ===== src/Network/Session.antt =====
-- crates/gb-network/src/session.rs: the calls of `SessionMachine`. A call gives the machine after it
-- with its result.
use pockiva.Prelude.{
  ℕ, ◌+◌, Bool, true, false, not, ◌||◌, Option, none, some, ◌==◌, leb, if◌then◌else◌,
}
use pockiva.Network.{
  Text, same_text, max_safe_sequence, ProtocolVersion, v1, ClientMessage, hello, button_down,
  button_up, state_sync, ping, invalid_token, malformed_message, welcome, pong, ControllerEvent,
  connected, message, disconnected, connect, input, reply, SessionResult, accepted, refused,
  unreachable, awaiting_hello, authenticated, is_authenticated, SessionMachine,
}

-- `SessionMachine::new`
unfoldable pub new : Text → Text → ℕ → ℕ → SessionMachine
new token connection_id input_source expires_at = record {
  token = token;
  connection_id = connection_id;
  input_source = input_source;
  expires_at = expires_at;
  authentication = awaiting_hello;
  last_sequence = none;
  emitted_disconnect = false;
}

-- There is one version, so `version != ProtocolVersion::V1` is false.
unfoldable pub is_v1 : ProtocolVersion → Bool
is_v1 v1 = true

unfoldable pub accept_hello : SessionMachine → ClientMessage → ℕ → SessionMachine × SessionResult
unfolding is_authenticated same_text is_v1
accept_hello m (hello version token) received_at =
    if is_authenticated m.authentication
    then (m, refused malformed_message)
    else if leb m.expires_at received_at || not (same_text token m.token)
    then (m, refused invalid_token)
    else if not (is_v1 version)
    then (m, refused pockiva.Network.unsupported_version)
    else (
      record m { authentication = authenticated },
      accepted (connect (welcome v1 m.connection_id) (connected m.connection_id m.input_source)),
    )
accept_hello m _ received_at = (m, refused malformed_message)

unfoldable pub message_sequence : ClientMessage → Option ℕ
message_sequence (hello version token) = none
message_sequence (button_down button sequence) = some sequence
message_sequence (button_up button sequence) = some sequence
message_sequence (state_sync buttons sequence) = some sequence
message_sequence (ping sequence) = some sequence

-- the number after another, which starts again at zero after the largest
unfoldable pub expected : ℕ → ℕ
expected previous = if previous == max_safe_sequence then 0 else previous + 1

-- whether a message with this number may come next
unfoldable pub is_next : Option ℕ → ℕ → Bool
unfolding expected
is_next none sequence = true
is_next (some previous) sequence = sequence == expected previous

-- the action that an accepted message leads to
unfoldable pub act : SessionMachine → ClientMessage → SessionResult
act m (hello version token) = unreachable
act m (ping sequence) = accepted (reply (pong sequence))
act m received = accepted (input (message m.connection_id m.input_source received))

unfoldable pub apply : SessionMachine → ClientMessage → SessionMachine × SessionResult
unfolding is_authenticated message_sequence is_next act
apply m received =
    if not (is_authenticated m.authentication)
    then (m, refused malformed_message)
    else elim (message_sequence received) [
      | none ↦ (m, refused malformed_message)
      | some sequence ↦
          if not (is_next m.last_sequence sequence)
          then (m, refused malformed_message)
          else (let m' = record m { last_sequence = some sequence } in (m', act m' received))
    ]

unfoldable pub disconnect : SessionMachine → SessionMachine × Option ControllerEvent
unfolding is_authenticated
disconnect m =
    if not (is_authenticated m.authentication) || m.emitted_disconnect then (m, none) else (
      record m { emitted_disconnect = true },
      some (disconnected m.connection_id m.input_source),
    )
