-- ===== src/Network/Turns.antt =====
-- What a turn of the message loop and the parts of `handle_socket` around it do to the session's
-- machine and to the events that are published.
use pockiva.Prelude.{
  ℕ, ◌≡◌, refl, ap, sym, ◌≢◌, Bool, true, false, not, List, [], ◌∷◌, ◌⊎◌, inl, inr, if◌then◌else◌,
  if-holds, leb, ◌||◌,
}
use mathlib.Core.Path.{subst}
use pockiva.Network.{
  Text, ClientMessage, hello, button_down, button_up, state_sync, ping, v1, welcome, ServerMessage,
  ControllerEvent, connected, message, SessionAction, connect, input, reply, SessionResult,
  accepted, refused, unreachable, is_authenticated, SessionMachine, invalid_token, same_text,
}
use pockiva.Network.Session.{accept_hello, apply, act, is_v1}
use pockiva.Network.Sequence.{with_last, apply-branches}
use pockiva.Network.RateLimit.{InputRateLimiter, allow}
use pockiva.Network.Frame.{
  Frame, text, close, other, Json, Parsed, parsed, unparsed, parse_client_frame,
}
use pockiva.Network.Socket.{
  greet, greeted, turned_away, greeting_panic, Greeting, Serving, Turn, Arrival, shutdown_changed,
  no_frame, received, answer, handle_message, handle_frame, turn, leave, stays, leaves, panics,
  reject_and_close,
}

-- The machine of a session that is on: greeted and not ended.
abbrev pub IsOn : SessionMachine → Type 0
IsOn m = (is_authenticated m.authentication ≡ true) × (m.emitted_disconnect ≡ false)

-- The chosen that admits a session.
abbrev pub admission : SessionMachine → SessionAction
admission m = connect (welcome v1 m.connection_id) (connected m.connection_id m.input_source)

-- What a turn publishes: nothing, or a message of its connection.
abbrev pub IsQuiet : List ControllerEvent → Text → Type 0
IsQuiet events id =
    (events ≡ []) ⊎ ((source : ℕ) × ((m : ClientMessage) × (events ≡ message id source m ∷ [])))

-- The turn of a session that is on: it stays on, publishes such events and does not panic.
abbrev pub IsOrderly : Text → Turn → Type 0
IsOrderly id t =
    (t.kept.machine.connection_id ≡ id)
    × IsOn t.kept.machine
    × IsQuiet t.published id
    × (t.ending ≢ panics)

-- An chosen that the loop may meet.
abbrev pub IsAnswer : SessionMachine → SessionAction → Type 0
IsAnswer m chosen =
    ((r : ServerMessage) × (chosen ≡ reply r))
    ⊎ ((c : ClientMessage) × (chosen ≡ input (message m.connection_id m.input_source c)))

action_in : SessionAction → SessionResult → SessionAction
action_in default (accepted chosen) = chosen
action_in default (refused reason) = default
action_in default unreachable = default

accepted_inj : (a b : SessionAction) → accepted a ≡ accepted b → b ≡ a
unfolding action_in
accepted_inj a b h = sym (ap (action_in a) h)

act-IsAnswer :
    (m : SessionMachine) (c : ClientMessage) (chosen : SessionAction)
    → act m c ≡ accepted chosen
    → IsAnswer m chosen
unfolding act
act-IsAnswer m (hello version token) chosen h = cc
act-IsAnswer m (button_down button s) chosen h = inr (_, accepted_inj _ _ h)
act-IsAnswer m (button_up button s) chosen h = inr (_, accepted_inj _ _ h)
act-IsAnswer m (state_sync buttons s) chosen h = inr (_, accepted_inj _ _ h)
act-IsAnswer m (ping s) chosen h = inl (_, accepted_inj _ _ h)

ending_ne : stays ≢ panics
ending_ne h = cc

leaves_ne : leaves ≢ panics
leaves_ne h = cc

answer-IsOrderly :
    (s : Serving) (chosen : SessionAction) (sink_accepts is_sent : Bool)
    → IsOn s.machine
    → IsAnswer s.machine chosen
    → IsOrderly s.machine.connection_id (answer s chosen sink_accepts is_sent)
unfolding answer
answer-IsOrderly s chosen sink_accepts is_sent on (inl (r, e)) = rw e (
    if-holds (IsOrderly s.machine.connection_id) is_sent (refl, on, inl refl, ending_ne)
      (refl, on, inl refl, leaves_ne))
answer-IsOrderly s chosen sink_accepts is_sent on (inr (c, e)) = rw e (
    if-holds (IsOrderly s.machine.connection_id) sink_accepts
      (refl, on, inr (_, (c, refl)), ending_ne) (refl, on, inr (_, (c, refl)), leaves_ne))

-- What `handle_message` makes of the result of `apply`.
abbrev settle : Serving → InputRateLimiter → ℕ → Bool → Bool → SessionMachine × SessionResult → Turn
settle s limiter' received_at sink_accepts is_sent r = elim r.1 [
  | accepted chosen ↦
      answer (record { machine = r.0; limiter = limiter'; last_valid_message_at = received_at })
        chosen sink_accepts is_sent
  | refused reason ↦
      leave (record s { machine = r.0; limiter = limiter' }) [] (reject_and_close reason)
  | unreachable ↦ record { kept = s; published = []; sends = []; ending = panics }
]

settle-IsOrderly :
    (s : Serving) (limiter' : InputRateLimiter) (c : ClientMessage) (received_at : ℕ)
    (sink_accepts is_sent : Bool)
    → IsOn s.machine
    → IsOrderly s.machine.connection_id
        (settle s limiter' received_at sink_accepts is_sent (apply s.machine c))
settle-IsOrderly s limiter' c received_at sink_accepts is_sent on =
    elim (apply-branches s.machine c) [
      | inl turned_down ↦
          subst
            (λ r.
              IsOrderly s.machine.connection_id
                (settle s limiter' received_at sink_accepts is_sent r))
            (sym turned_down) (refl, on, inl refl, leaves_ne)
      | inr (_, (sequence, numbered, next, (chosen, acts, answered))) ↦
          subst
            (λ r.
              IsOrderly s.machine.connection_id
                (settle s limiter' received_at sink_accepts is_sent r))
            (sym answered)
            (answer-IsOrderly
              (record {
                machine = with_last s.machine sequence;
                limiter = limiter';
                last_valid_message_at = received_at;
              })
              chosen sink_accepts is_sent on (act-IsAnswer s.machine c chosen acts))
    ]

handle_message-IsOrderly :
    (s : Serving) (c : ClientMessage) (received_at : ℕ) (sink_accepts is_sent : Bool)
    → IsOn s.machine
    → IsOrderly s.machine.connection_id (handle_message s c received_at sink_accepts is_sent)
unfolding handle_message
handle_message-IsOrderly s c received_at sink_accepts is_sent on =
    if-holds (IsOrderly s.machine.connection_id) (not (allow s.limiter received_at).0)
      (refl, on, inl refl, leaves_ne)
      (settle-IsOrderly s (allow s.limiter received_at).1 c received_at sink_accepts is_sent on)

handle_frame-IsOrderly :
    {J : Type 0} (json : Json J) (s : Serving) (frame : Frame) (received_at : ℕ)
    (sink_accepts is_sent : Bool)
    → IsOn s.machine
    → IsOrderly s.machine.connection_id (handle_frame json s frame received_at sink_accepts is_sent)
unfolding handle_frame
handle_frame-IsOrderly json s frame received_at sink_accepts is_sent on =
    by_parse (parse_client_frame json frame)
  where
    by_parse :
        (p : Parsed)
        → IsOrderly s.machine.connection_id (elim p [
          | unparsed reason ↦ leave s [] (reject_and_close reason)
          | parsed c ↦ handle_message s c received_at sink_accepts is_sent
        ])
    by_parse (unparsed reason) = (refl, on, inl refl, leaves_ne)
    by_parse (parsed c) = handle_message-IsOrderly s c received_at sink_accepts is_sent on

-- A turn of the loop of a session that is on leaves it on, publishes nothing or a message of that
-- connection, and does not reach the `unreachable!` of `apply`.
pub turn-IsOrderly :
    {J : Type 0} (json : Json J) (s : Serving) (arrival : Arrival) (sink_accepts is_sent : Bool)
    → IsOn s.machine
    → IsOrderly s.machine.connection_id (turn json s arrival sink_accepts is_sent)
unfolding turn
turn-IsOrderly json s shutdown_changed sink_accepts is_sent on = (refl, on, inl refl, leaves_ne)
turn-IsOrderly json s no_frame sink_accepts is_sent on = (refl, on, inl refl, leaves_ne)
turn-IsOrderly json s (received close received_at) sink_accepts is_sent on =
    (refl, on, inl refl, leaves_ne)
turn-IsOrderly json s (received (text t) received_at) sink_accepts is_sent on =
    handle_frame-IsOrderly json s (text t) received_at sink_accepts is_sent on
turn-IsOrderly json s (received other received_at) sink_accepts is_sent on =
    handle_frame-IsOrderly json s other received_at sink_accepts is_sent on

-- What a greeting gives: a session that is on, with its admission, or no panic.
abbrev pub IsGreeting : Greeting → Type 0
IsGreeting (turned_away reason) = Unit {0}
IsGreeting (greeted m chosen) = IsOn m × (chosen ≡ admission m)
IsGreeting greeting_panic = ⊥

abbrev conclude : SessionMachine × SessionResult → Greeting
conclude r = elim r.1 [
  | accepted chosen ↦ greeted r.0 chosen
  | refused reason ↦ turned_away reason
  | unreachable ↦ greeting_panic
]

accept_hello-IsGreeting :
    (m : SessionMachine) (c : ClientMessage) (received_at : ℕ)
    → m.emitted_disconnect ≡ false
    → IsGreeting (conclude (accept_hello m c received_at))
unfolding accept_hello is_authenticated
accept_hello-IsGreeting m (hello version token) received_at fresh =
    if-holds (λ r. IsGreeting (conclude r)) (is_authenticated m.authentication) tt
      (if-holds (λ r. IsGreeting (conclude r))
        (leb m.expires_at received_at || not (same_text token m.token)) tt
        (if-holds (λ r. IsGreeting (conclude r)) (not (is_v1 version)) tt ((refl, fresh), refl)))
accept_hello-IsGreeting m (button_down button s) received_at fresh = tt
accept_hello-IsGreeting m (button_up button s) received_at fresh = tt
accept_hello-IsGreeting m (state_sync buttons s) received_at fresh = tt
accept_hello-IsGreeting m (ping s) received_at fresh = tt

pub greet-IsGreeting :
    {J : Type 0} (json : Json J) (token_valid : Bool) (m : SessionMachine) (frame : Frame)
    (received_at : ℕ)
    → m.emitted_disconnect ≡ false
    → IsGreeting (greet json token_valid m frame received_at)
unfolding greet
greet-IsGreeting json token_valid m frame received_at fresh =
    by_parse (parse_client_frame json frame)
  where
    by_parse :
        (p : Parsed)
        → IsGreeting (elim p [
          | unparsed reason ↦ turned_away reason
          | parsed c ↦
              if not token_valid
              then turned_away invalid_token
              else conclude (accept_hello m c received_at)
        ])
    by_parse (unparsed reason) = tt
    by_parse (parsed c) =
        if-holds IsGreeting (not token_valid) tt (accept_hello-IsGreeting m c received_at fresh)
