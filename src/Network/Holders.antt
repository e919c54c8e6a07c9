-- ===== src/Network/Holders.antt =====
-- The claim and the sessions of a list of the stages of crates/gb-network/src/server.rs.
use pockiva.Prelude.{ℕ, ◌+◌, ◌≤◌, Bool, true, false, List, [], ◌∷◌, ◌++◌, ◌≡◌, refl, ap, arith}
use pockiva.Network.{Text, ControllerEvent, connected, message, disconnected, ClientMessage}
use pockiva.Network.Socket.{
  Stage, arriving, authenticating, claiming, serving, leaving, releasing, closed, panicked,
}
use pockiva.Network.Turns.{IsOn, admission}

-- What the sink sees, the last event first, and the connections that are on after it: a session begins
-- when none is on, and its messages and its end are of its own connection.
pub data Sessions : List ControllerEvent → List Text → Type 0 where
  nothing : Sessions [] []
  begins :
      (events : List ControllerEvent) (id : Text) (source : ℕ)
      → Sessions events []
      → Sessions (connected id source ∷ events) (id ∷ [])
  goes_on :
      (events : List ControllerEvent) (id : Text) (source : ℕ) (c : ClientMessage)
      → Sessions events (id ∷ [])
      → Sessions (message id source c ∷ events) (id ∷ [])
  ends :
      (events : List ControllerEvent) (id : Text) (source : ℕ)
      → Sessions events (id ∷ [])
      → Sessions (disconnected id source ∷ events) []

-- How many hold the claim, and the connections whose session is on.
unfoldable pub holds : Stage → ℕ
holds (arriving m) = 0
holds (authenticating m chosen received_at) = 0
holds (claiming m chosen received_at) = 1
holds (serving s) = 1
holds (leaving m) = 1
holds releasing = 1
holds closed = 0
holds panicked = 1

unfoldable pub session_of : Stage → List Text
session_of (serving s) = s.machine.connection_id ∷ []
session_of (leaving m) = m.connection_id ∷ []
session_of _ = []

unfoldable pub holders : List Stage → ℕ
unfolding holds
holders [] = 0
holders (stage ∷ rest) = holds stage + holders rest

unfoldable pub sessions_of : List Stage → List Text
unfolding session_of
sessions_of [] = []
sessions_of (stage ∷ rest) = session_of stage ++ sessions_of rest

abbrev pub flag : Bool → ℕ
flag true = 1
flag false = 0

-- A stage as `handle_socket` reaches it; the panic is not reached.
abbrev pub IsFit : Stage → Type 0
IsFit (arriving m) = m.emitted_disconnect ≡ false
IsFit (authenticating m chosen received_at) = IsOn m × (chosen ≡ admission m)
IsFit (claiming m chosen received_at) = IsOn m × (chosen ≡ admission m)
IsFit (serving s) = IsOn s.machine
IsFit (leaving m) = IsOn m
IsFit releasing = Unit {0}
IsFit closed = Unit {0}
IsFit panicked = ⊥

abbrev pub AllFit : List Stage → Type 0
AllFit [] = Unit {0}
AllFit (stage ∷ rest) = IsFit stage × AllFit rest

pub set_flag : (claimed : Bool) → 1 ≤ flag claimed → flag claimed ≡ 1
set_flag true h = refl
set_flag false h = absurd (omega arith)

pub flag_le : (claimed : Bool) → flag claimed ≤ 1
flag_le true = omega arith
flag_le false = omega arith

-- A list of stages about one of them.
pub holders-mid :
    (before after : List Stage) (stage : Stage)
    → holders (before ++ stage ∷ after) ≡ holds stage + (holders before + holders after)
unfolding holders
holders-mid [] after stage = omega arith
holders-mid (other ∷ before) after stage = omega (arith, holders-mid before after stage)

session_of-none : (stage : Stage) → holds stage ≡ 0 → session_of stage ≡ []
unfolding holds session_of
session_of-none (arriving m) h = refl
session_of-none (authenticating m chosen received_at) h = refl
session_of-none (claiming m chosen received_at) h = refl
session_of-none (serving s) h = absurd (omega arith)
session_of-none (leaving m) h = absurd (omega arith)
session_of-none releasing h = refl
session_of-none closed h = refl
session_of-none panicked h = refl

sessions_of-none : (stages : List Stage) → holders stages ≡ 0 → sessions_of stages ≡ []
unfolding holders sessions_of
sessions_of-none [] h = refl
sessions_of-none (stage ∷ rest) h =
    rw (session_of-none stage (omega arith), sessions_of-none rest (omega arith)) refl

append_nil : (ids : List Text) → ids ++ [] ≡ ids
append_nil [] = refl
append_nil (id ∷ ids) = ap (λ r. id ∷ r) (append_nil ids)

pub sessions_of-alone :
    (before after : List Stage) (stage : Stage)
    → holders before + holders after ≡ 0
    → sessions_of (before ++ stage ∷ after) ≡ session_of stage
unfolding sessions_of holders
sessions_of-alone [] after stage h =
    rw (sessions_of-none after (omega arith)) (append_nil (session_of stage))
sessions_of-alone (other ∷ before) after stage h =
    rw (session_of-none other (omega arith)) (sessions_of-alone before after stage (omega arith))

pub sessions_of-same :
    (before after : List Stage) (stage stage' : Stage)
    → session_of stage' ≡ session_of stage
    → sessions_of (before ++ stage' ∷ after) ≡ sessions_of (before ++ stage ∷ after)
unfolding sessions_of
sessions_of-same [] after stage stage' e = rw e refl
sessions_of-same (other ∷ before) after stage stage' e =
    rw (sessions_of-same before after stage stage' e) refl

pub AllFit-mid :
    (before after : List Stage) (stage : Stage) → AllFit (before ++ stage ∷ after) → IsFit stage
AllFit-mid [] after stage h = h.0
AllFit-mid (other ∷ before) after stage h = AllFit-mid before after stage h.1

pub AllFit-replace :
    (before after : List Stage) (stage stage' : Stage)
    → AllFit (before ++ stage ∷ after)
    → IsFit stage'
    → AllFit (before ++ stage' ∷ after)
AllFit-replace [] after stage stage' h fit = (fit, h.1)
AllFit-replace (other ∷ before) after stage stage' h fit =
    (h.0, AllFit-replace before after stage stage' h.1 fit)
