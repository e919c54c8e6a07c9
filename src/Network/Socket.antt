-- ===== src/Network/Socket.antt =====
-- One socket of crates/gb-network/src/server.rs: `handle_socket`, a turn of `run_message_loop` and
-- `cleanup_connection`. What the socket, the sink and the clock answer are arguments.
use pockiva.Prelude.{ℕ, Bool, not, List, [], ◌∷◌, if◌then◌else◌}
use pockiva.Network.{
  ClientMessage, RejectionReason, invalid_token, malformed_message, ServerMessage, rejected,
  controller_disconnected, ControllerEvent, SessionAction, connect, input, reply, no_action,
  accepted, refused, unreachable, SessionMachine,
}
use pockiva.Network.Session.{accept_hello, apply}
use pockiva.Network.RateLimit
use pockiva.Network.RateLimit.{InputRateLimiter, allow}
use pockiva.Network.Frame.{Frame, text, close, other, Json, parsed, unparsed, parse_client_frame}

-- `RATE_CAPACITY`
abbrev pub rate_capacity : ℕ
rate_capacity = 64

-- What is sent: a message, a close, or a close with a code.
pub data Sent : Type 0 where
  sent : ServerMessage → Sent
  closing : Sent
  closing_with : ℕ → Sent

-- `reject_and_close`, `close_internal_error`
abbrev pub reject_and_close : RejectionReason → List Sent
reject_and_close reason = sent (rejected reason) ∷ closing ∷ []

abbrev pub close_internal_error : List Sent
close_internal_error = closing_with 1011 ∷ []

-- `handle_socket` from the first frame to `accept_hello`
pub data Greeting : Type 0 where
  turned_away : RejectionReason → Greeting
  greeted : SessionMachine → SessionAction → Greeting
  greeting_panic : Greeting

unfoldable pub greet : {J : Type 0} → Json J → Bool → SessionMachine → Frame → ℕ → Greeting
unfolding parse_client_frame accept_hello
greet json token_valid machine frame received_at = elim (parse_client_frame json frame) [
  | unparsed reason ↦ turned_away reason
  | parsed message ↦
      if not token_valid
      then turned_away invalid_token
      else (let (machine', result) = accept_hello machine message received_at in
          elim result [
            | accepted action ↦ greeted machine' action
            | refused reason ↦ turned_away reason
            | unreachable ↦ greeting_panic
          ])
]

-- What the loop keeps.
pub record Serving : Type 0 where
  pub machine : SessionMachine
  pub limiter : InputRateLimiter
  pub last_valid_message_at : ℕ

pub data Ending : Type 0 where
  stays leaves panics : Ending

-- A part of `handle_socket`: what is kept, published and sent, and whether the loop goes on.
pub record Turn : Type 0 where
  pub kept : Serving
  pub published : List ControllerEvent
  pub sends : List Sent
  pub ending : Ending

abbrev pub leave : Serving → List ControllerEvent → List Sent → Turn
leave s published sends = record { kept = s; published = published; sends = sends; ending = leaves }

abbrev pub stay : Serving → List ControllerEvent → List Sent → Turn
stay s published sends = record { kept = s; published = published; sends = sends; ending = stays }

-- What the `select!` of a turn gives: the shutdown, no frame in time, or a frame at a moment.
pub data Arrival : Type 0 where
  shutdown_changed no_frame : Arrival
  received : Frame → ℕ → Arrival

-- The action of an accepted message, with whether the sink takes an event and whether a reply is sent.
unfoldable pub answer : Serving → SessionAction → Bool → Bool → Turn
answer s (input event) sink_accepts is_sent =
    if sink_accepts then stay s (event ∷ []) [] else leave s (event ∷ []) close_internal_error
answer s (reply message) sink_accepts is_sent =
    if is_sent then stay s [] (sent message ∷ []) else leave s [] (sent message ∷ [])
answer s no_action sink_accepts is_sent = leave s [] (reject_and_close malformed_message)
answer s (connect message event) sink_accepts is_sent =
    leave s [] (reject_and_close malformed_message)

-- A message that was parsed.
unfoldable pub handle_message : Serving → ClientMessage → ℕ → Bool → Bool → Turn
unfolding allow apply answer
handle_message s message received_at sink_accepts is_sent =
    let (passes, limiter') = allow s.limiter received_at in
    if not passes
    then leave (record s { limiter = limiter' }) [] (reject_and_close malformed_message)
    else (let (machine', result) = apply s.machine message in
        elim result [
          | accepted action ↦
              answer
                (record {
                  machine = machine';
                  limiter = limiter';
                  last_valid_message_at = received_at;
                })
                action sink_accepts is_sent
          | refused reason ↦
              leave (record s { machine = machine'; limiter = limiter' }) []
                (reject_and_close reason)
          | unreachable ↦ record { kept = s; published = []; sends = []; ending = panics }
        ])

unfoldable pub handle_frame : {J : Type 0} → Json J → Serving → Frame → ℕ → Bool → Bool → Turn
unfolding parse_client_frame handle_message
handle_frame json s frame received_at sink_accepts is_sent = elim (parse_client_frame json frame) [
  | unparsed reason ↦ leave s [] (reject_and_close reason)
  | parsed message ↦ handle_message s message received_at sink_accepts is_sent
]

-- A turn of `run_message_loop`.
unfoldable pub turn : {J : Type 0} → Json J → Serving → Arrival → Bool → Bool → Turn
unfolding handle_frame
turn json s shutdown_changed sink_accepts is_sent =
    leave s [] (sent controller_disconnected ∷ closing ∷ [])
turn json s no_frame sink_accepts is_sent = leave s [] []
turn json s (received close received_at) sink_accepts is_sent = leave s [] []
turn json s (received (text t) received_at) sink_accepts is_sent =
    handle_frame json s (text t) received_at sink_accepts is_sent
turn json s (received other received_at) sink_accepts is_sent =
    handle_frame json s other received_at sink_accepts is_sent

-- What a socket waits for, and what it holds.
pub data Stage : Type 0 where
  arriving : SessionMachine → Stage
  authenticating : SessionMachine → SessionAction → ℕ → Stage
  claiming : SessionMachine → SessionAction → ℕ → Stage
  serving : Serving → Stage
  leaving : SessionMachine → Stage
  releasing closed panicked : Stage

unfoldable pub next_stage : Turn → Stage
next_stage t = elim t.ending [
  | stays ↦ serving t.kept
  | leaves ↦ leaving t.kept.machine
  | panics ↦ panicked
]

-- `handle_socket` from the claim to the loop: the events published and the next stage. The limiter
-- starts at the moment `now`.
unfoldable pub admit :
    ℕ → SessionMachine → SessionAction → ℕ → ℕ → Bool → Bool → List ControllerEvent × Stage
unfolding RateLimit.new
admit rate_per_second machine (connect message event) hello_received_at now sink_accepts is_sent = (
  event ∷ [],
  if not sink_accepts
      then leaving machine
      else if not is_sent
      then leaving machine
      else serving (record {
        machine = machine;
        limiter = RateLimit.new rate_per_second rate_capacity now;
        last_valid_message_at = hello_received_at;
      }),
)
admit rate_per_second machine _ hello_received_at now sink_accepts is_sent = ([], releasing)
