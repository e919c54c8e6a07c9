-- ===== src/Network/Sockets.antt =====
-- The sockets of crates/gb-network/src/server.rs together: each goes through `handle_socket` in its
-- own task, and they share `controller_claimed`, `token_valid` and the sink. A step is what one task
-- does to the shared state at once, so that a list of steps is one of the tasks' interleavings.
use pockiva.Prelude.{ℕ, Bool, true, false, Option, none, some, List, [], ◌∷◌, ◌++◌, ◌≡◌}
use pockiva.Network.{Text, ControllerEvent, SessionAction, SessionMachine}
use pockiva.Network.Session
use pockiva.Network.Session.{disconnect}
use pockiva.Network.Frame.{Frame, Json}
use pockiva.Network.Socket.{
  greet, greeted, Serving, Arrival, turn, Stage, arriving, authenticating, claiming, serving,
  leaving, releasing, closed, next_stage, admit,
}

-- What the tasks share; the calls of the sink, the last one first.
pub record Shared : Type 0 where
  pub controller_claimed : Bool
  pub token_valid : Bool
  pub published : List ControllerEvent

abbrev pub publish : Shared → List ControllerEvent → Shared
publish sh events = record sh { published = events ++ sh.published }

abbrev pub to_list : Option ControllerEvent → List ControllerEvent
to_list none = []
to_list (some event) = event ∷ []

module _ {J : Type 0} (json : Json J) (rate_per_second : ℕ) where
  -- What a task does: the shared state and its stage, before and after.
  pub data Move : Shared → Stage → Shared → Stage → Type 0 where
    -- no first frame, or one that is turned away
    turns_away : (sh : Shared) (m : SessionMachine) → Move sh (arriving m) sh closed
    -- `accept_hello`
    greets :
        (sh : Shared) (m m' : SessionMachine) (chosen : SessionAction) (frame : Frame)
        (received_at : ℕ)
        → greet json sh.token_valid m frame received_at ≡ greeted m' chosen
        → Move sh (arriving m) sh (authenticating m' chosen received_at)
    -- `compare_exchange`, and its failure
    claims :
        (sh : Shared) (m : SessionMachine) (chosen : SessionAction) (received_at : ℕ)
        → sh.controller_claimed ≡ false
        → Move sh
            (authenticating m chosen received_at)
            (record sh { controller_claimed = true })
            (claiming m chosen received_at)
    finds_claimed :
        (sh : Shared) (m : SessionMachine) (chosen : SessionAction) (received_at : ℕ)
        → sh.controller_claimed ≡ true
        → Move sh (authenticating m chosen received_at) sh closed
    admits :
        (sh : Shared) (m : SessionMachine) (chosen : SessionAction) (received_at now : ℕ)
        (sink_accepts is_sent : Bool)
        → Move sh
            (claiming m chosen received_at)
            (publish sh (admit rate_per_second m chosen received_at now sink_accepts is_sent).0)
            (admit rate_per_second m chosen received_at now sink_accepts is_sent).1
    -- a turn of `run_message_loop`
    serves :
        (sh : Shared) (s : Serving) (arrival : Arrival) (sink_accepts is_sent : Bool)
        → Move sh
            (serving s)
            (publish sh (turn json s arrival sink_accepts is_sent).published)
            (next_stage (turn json s arrival sink_accepts is_sent))
    -- `cleanup_connection`
    cleans_up :
        (sh : Shared) (m : SessionMachine)
        → Move sh (leaving m) (publish sh (to_list (disconnect m).1)) releasing
    releases : (sh : Shared) → Move sh releasing (record sh { controller_claimed = false }) closed

  pub record Server : Type 0 where
    pub shared : Shared
    pub sockets : List Stage

  abbrev pub server : Shared → List Stage → Server
  server sh sockets = record { shared = sh; sockets = sockets }

  -- A step: a socket arrives, the server stops, or a task moves.
  pub data Step : Server → Server → Type 0 where
    opens :
        (sh : Shared) (sockets : List Stage) (token id : Text) (source expires_at : ℕ)
        → Step
            (server sh sockets)
            (server sh (arriving (Session.new token id source expires_at) ∷ sockets))
    stops :
        (sh : Shared) (sockets : List Stage)
        → Step (server sh sockets) (server (record sh { token_valid = false }) sockets)
    moves :
        (sh sh' : Shared) (stage stage' : Stage) (before after : List Stage)
        → Move sh stage sh' stage'
        → Step (server sh (before ++ stage ∷ after)) (server sh' (before ++ stage' ∷ after))

  pub data Reachable : Server → Type 0 where
    started :
        Reachable
          (server (record { controller_claimed = false; token_valid = true; published = [] }) [])
    steps : {v w : Server} → Reachable v → Step v w → Reachable w
