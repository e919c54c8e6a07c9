-- ===== src/Network/Tests.antt =====
-- A server to which one controller connects and sends messages, and a limiter of two tokens.
use pockiva.Prelude.{
  ℕ, ◌+◌, ◌*◌, ◌≤◌, ◌≡◌, refl, true, false, none, some, List, [], ◌∷◌, length, arith, ◌⊎◌, ◌-◌,
}
use pockiva.Network.{
  Text, max_safe_sequence, v1, a, ClientMessage, hello, button_down, button_up, ping,
  SessionMachine, welcome, connected, connect, same_text, is_authenticated,
}
use pockiva.Network.Session
use pockiva.Network.Session.{accept_hello}
use pockiva.Network.Sequence.{
  AllSafe, accepted_sequences, count_from, accepted_sequences-contiguous,
}
use pockiva.Network.Accepting.{IsRefused, IsAccepted, apply-cases}
use pockiva.Network.RateLimit
use pockiva.Network.RateLimit.{AllAtMost, IsSpaced, token_scale, allowed, allowed-new, allowed-all}
use pockiva.Network.Frame.{text, Json, parse_client_frame}
use pockiva.Network.Socket.{panicked, greet, greeted, closed, claiming}
use pockiva.Network.Sockets.{
  Shared, Server, server, Reachable, started, steps, opens, moves, greets, claims,
}
use pockiva.Network.Holders.{Sessions, holders, sessions_of, flag}
use pockiva.Network.Claims.{reachable-claim, reachable-Sessions, reachable-no_panic}

abbrev visitor : SessionMachine
visitor = Session.new (7 ∷ []) (1 ∷ []) 2 1000

abbrev guest : SessionMachine
guest = (accept_hello visitor (hello v1 (7 ∷ [])) 10).0

-- The message after the largest number is number zero; one that skips a number is refused.
wrapping :
    accepted_sequences guest
      (ping max_safe_sequence ∷ button_down a 0 ∷ button_up a 5 ∷ button_up a 1 ∷ [])
    ≡ max_safe_sequence ∷ 0 ∷ 1 ∷ []
unfolding accepted_sequences pockiva.Network.Sequence.taken Session.apply Session.act
    Session.is_next Session.expected Session.message_sequence accept_hello Session.new Session.is_v1
    pockiva.Network.same_text pockiva.Network.is_authenticated
wrapping = refl

guest-fresh : guest.last_sequence ≡ none
unfolding accept_hello Session.new Session.is_v1 same_text is_authenticated
guest-fresh = refl

abbrev pings : List ClientMessage
pings = ping 3 ∷ button_down a 4 ∷ []

pings-AllSafe : AllSafe pings
unfolding AllSafe Session.message_sequence
pings-AllSafe = (λ s e. grind arith, (λ s e. grind arith, tt))

accepted_sequences-contiguous_example :
    (first : ℕ) × (accepted_sequences guest pings
      ≡ count_from first (length (accepted_sequences guest pings)))
accepted_sequences-contiguous_example =
    accepted_sequences-contiguous guest pings guest-fresh pings-AllSafe

abbrev counting : SessionMachine
counting = record guest { last_sequence = some 3 }

apply-cases_example : IsRefused counting (ping 4) ⊎ IsAccepted counting (ping 4)
apply-cases_example = apply-cases counting (ping 4) (omega arith)

-- Three messages in a nanosecond: two tokens, refilled at one a second.
allowed-new_example :
    allowed (RateLimit.new 1 2 5) (5 ∷ 6 ∷ 6 ∷ []) * token_scale ≤ 2 * token_scale + (6 - 5) * 1
unfolding AllAtMost
allowed-new_example =
    allowed-new 1 2 5 6 (5 ∷ 6 ∷ 6 ∷ []) (omega arith)
      (omega arith, (omega arith, (omega arith, tt)))

abbrev half_seconds : List ℕ
half_seconds = 500000000 ∷ 1000000000 ∷ []

allowed-all_example : allowed (RateLimit.new 2 1 0) half_seconds ≡ length half_seconds
unfolding IsSpaced RateLimit.new
allowed-all_example =
    allowed-all (RateLimit.new 2 1 0) half_seconds (omega arith)
      (omega arith, omega arith, (omega arith, omega arith, tt))

abbrev hellos : Json ℕ
hellos = record {
  message_of = λ t. some (hello v1 t);
  value_of = λ t. none;
  str_field = λ value key. none;
}

abbrev idle : Shared
idle = record { controller_claimed = false; token_valid = true; published = [] }

abbrev claimed_by_guest : Server hellos 240
claimed_by_guest =
    server hellos 240 (record idle { controller_claimed = true })
      (claiming guest (connect (welcome v1 (1 ∷ [])) (connected (1 ∷ []) 2)) 10 ∷ [])

guest-greeted :
    greet hellos true visitor (text (7 ∷ [])) 10
    ≡ greeted guest (connect (welcome v1 (1 ∷ [])) (connected (1 ∷ []) 2))
unfolding greet Session.is_v1 same_text is_authenticated accept_hello parse_client_frame Session.new
guest-greeted = refl

guest-Reachable : Reachable hellos 240 claimed_by_guest
guest-Reachable =
    steps
      (steps (steps started (opens idle [] (7 ∷ []) (1 ∷ []) 2 1000))
        (moves idle idle _ _ [] [] (greets idle visitor guest _ (text (7 ∷ [])) 10 guest-greeted)))
      (moves idle _ _ _ [] [] (claims idle guest _ 10 refl))

reachable-claim_example :
    (holders claimed_by_guest.sockets ≡ flag claimed_by_guest.shared.controller_claimed)
    × (holders claimed_by_guest.sockets ≤ 1)
reachable-claim_example = reachable-claim hellos 240 claimed_by_guest guest-Reachable

reachable-Sessions_example :
    Sessions claimed_by_guest.shared.published (sessions_of claimed_by_guest.sockets)
reachable-Sessions_example = reachable-Sessions hellos 240 claimed_by_guest guest-Reachable

reachable-no_panic_example :
    Reachable hellos 240 (server hellos 240 idle (closed ∷ panicked ∷ [])) → ⊥
reachable-no_panic_example = reachable-no_panic hellos 240 idle (closed ∷ []) []
