-- ===== src/Network/Claims.antt =====
-- At most one socket of crates/gb-network/src/server.rs holds the claim, and the sink sees one session
-- after the other, in every interleaving of the tasks.
use mathlib.Core.Path.{subst, subst⁻¹}
use pockiva.Prelude.{
  ℕ, ◌+◌, ◌≤◌, Bool, some, List, [], ◌∷◌, ◌++◌, ◌≡◌, refl, ◌⊎◌, inl, inr, arith, not, if-holds,
}
use pockiva.Network.{Text, ControllerEvent, connected, disconnected, SessionMachine}
use pockiva.Network.Session
use pockiva.Network.Session.{disconnect}
use pockiva.Network.Frame.{Json}
use pockiva.Network.Socket.{
  Serving, turn, Turn, Ending, stays, leaves, panics, Stage, claiming, serving, leaving, panicked,
  next_stage, admit,
}
use pockiva.Network.Turns.{
  IsOn, admission, IsQuiet, IsOrderly, turn-IsOrderly, IsGreeting, greet-IsGreeting,
}
use pockiva.Network.Sockets.{
  Shared, publish, Move, turns_away, greets, claims, finds_claimed, admits, serves, cleans_up,
  releases, Server, Step, opens, stops, moves, Reachable, started, steps,
}
use pockiva.Network.Holders.{
  Sessions, nothing, begins, goes_on, ends, holds, session_of, holders, sessions_of, flag, set_flag,
  flag_le, IsFit, AllFit, holders-mid, sessions_of-alone, sessions_of-same, AllFit-mid,
  AllFit-replace,
}

-- What a move keeps: the claims that are counted and set, and the sessions of the sink.
abbrev Keeps : Shared → Stage → Shared → Stage → Type 0
Keeps sh stage sh' stage' =
    IsFit stage'
    × (holds stage' + flag sh.controller_claimed ≡ holds stage + flag sh'.controller_claimed)
    × (((sh'.published ≡ sh.published) × (session_of stage' ≡ session_of stage))
        ⊎ ((holds stage ≡ 1)
            × (Sessions sh.published (session_of stage)
                → Sessions sh'.published (session_of stage'))))

module _ {J : Type 0} (json : Json J) (rate_per_second : ℕ) where
  disconnect-on :
      (m : SessionMachine)
      → IsOn m
      → (disconnect m).1 ≡ some (disconnected m.connection_id m.input_source)
  unfolding disconnect
  disconnect-on m (on, fresh) = rw (on, fresh) refl

  quiet-Sessions :
      (sh : Shared) (events : List ControllerEvent) (id : Text)
      → IsQuiet events id
      → Sessions sh.published (id ∷ [])
      → Sessions (publish sh events).published (id ∷ [])
  quiet-Sessions sh events id (inl none_sent) h = rw none_sent h
  quiet-Sessions sh events id (inr (source, (c, one))) h = rw one (goes_on _ id source c h)

  turn-Keeps :
      (sh : Shared) (s : Serving) (t : Turn)
      → IsOrderly s.machine.connection_id t
      → Keeps sh (serving s) (publish sh t.published) (next_stage t)
  unfolding holds session_of next_stage
  turn-Keeps sh s t (same, on, quiet, ending) = by_ending t.ending refl
    where
      by_ending :
          (e : Ending)
          → t.ending ≡ e
          → Keeps sh (serving s) (publish sh t.published) (elim e [
            | stays ↦ serving t.kept
            | leaves ↦ leaving t.kept.machine
            | panics ↦ panicked
          ])
      by_ending stays e =
          (on, refl, inr (refl, λ h. rw same (quiet-Sessions sh t.published _ quiet h)))
      by_ending leaves e =
          (on, refl, inr (refl, λ h. rw same (quiet-Sessions sh t.published _ quiet h)))
      by_ending panics e = absurd (ending e)

  admit-Keeps :
      (sh : Shared) (m : SessionMachine) (received_at now : ℕ) (sink_accepts is_sent : Bool)
      → IsOn m
      → let r = admit rate_per_second m (admission m) received_at now sink_accepts is_sent in
        Keeps sh (claiming m (admission m) received_at) (publish sh r.0) r.1
  unfolding admit holds session_of
  admit-Keeps sh m received_at now sink_accepts is_sent on =
      if-holds (Keeps sh (claiming m (admission m) received_at) sh') (not sink_accepts)
        (on, refl, inr (refl, λ h. begins _ _ _ h))
        (if-holds (Keeps sh (claiming m (admission m) received_at) sh') (not is_sent)
          (on, refl, inr (refl, λ h. begins _ _ _ h)) (on, refl, inr (refl, λ h. begins _ _ _ h)))
    where
      sh' : Shared
      sh' = publish sh (connected m.connection_id m.input_source ∷ [])

  Move-Keeps :
      (sh sh' : Shared) (stage stage' : Stage)
      → Move json rate_per_second sh stage sh' stage'
      → IsFit stage
      → holds stage ≤ flag sh.controller_claimed
      → Keeps sh stage sh' stage'
  unfolding holds session_of
  Move-Keeps sh _ _ _ (turns_away _ m) fit held = (tt, refl, inl (refl, refl))
  Move-Keeps sh _ _ _ (greets _ m m' chosen frame received_at e) fit held = (
    subst IsGreeting e (greet-IsGreeting json sh.token_valid m frame received_at fit),
    refl,
    inl (refl, refl),
  )
  Move-Keeps sh _ _ _ (claims _ m chosen received_at free) fit held =
      (fit, rw free refl, inl (refl, refl))
  Move-Keeps sh _ _ _ (finds_claimed _ m chosen received_at taken) fit held =
      (tt, refl, inl (refl, refl))
  Move-Keeps sh _ _ _ (admits _ m chosen received_at now sink_accepts is_sent) fit held =
      subst⁻¹
        (λ c.
          let r = admit rate_per_second m c received_at now sink_accepts is_sent in
          Keeps sh (claiming m c received_at) (publish sh r.0) r.1)
        fit.1 (admit-Keeps sh m received_at now sink_accepts is_sent fit.0)
  Move-Keeps sh _ _ _ (serves _ s arrival sink_accepts is_sent) fit held =
      turn-Keeps sh s (turn json s arrival sink_accepts is_sent)
        (turn-IsOrderly json s arrival sink_accepts is_sent fit)
  Move-Keeps sh _ _ _ (cleans_up _ m) fit held =
      (tt, refl, inr (refl, λ h. rw (disconnect-on m fit) (ends _ _ _ h)))
  Move-Keeps sh _ _ _ (releases _) fit held =
      (tt, omega (arith, set_flag sh.controller_claimed held), inl (refl, refl))

  -- The claim is set as often as it is held, each stage is fit, and the sink sees sessions.
  abbrev pub IsSound : Server json rate_per_second → Type 0
  IsSound v =
      (holders v.sockets ≡ flag v.shared.controller_claimed)
      × AllFit v.sockets
      × Sessions v.shared.published (sessions_of v.sockets)

  move-IsSound :
      (sh sh' : Shared) (stage stage' : Stage) (before after : List Stage)
      → holds stage ≤ flag sh.controller_claimed
      → Keeps sh stage sh' stage'
      → IsSound (record { shared = sh; sockets = before ++ stage ∷ after })
      → IsSound (record { shared = sh'; sockets = before ++ stage' ∷ after })
  move-IsSound sh sh' stage stage' before after held (fit', count, seen) (claim, fits, log) = (
    omega (arith, holders-mid before after stage, holders-mid before after stage'),
    AllFit-replace before after stage stage' fits fit',
    by_case seen,
  )
    where
      by_case :
          ((sh'.published ≡ sh.published) × (session_of stage' ≡ session_of stage))
            ⊎ ((holds stage ≡ 1)
                × (Sessions sh.published (session_of stage)
                    → Sessions sh'.published (session_of stage')))
          → Sessions sh'.published (sessions_of (before ++ stage' ∷ after))
      by_case (inl (same, e)) = rw (same, sessions_of-same before after stage stage' e) log
      by_case (inr (one, go)) =
          let alone : holders before + holders after ≡ 0 =
            omega (arith, holders-mid before after stage, flag_le sh.controller_claimed) in
          rw (sessions_of-alone before after stage' alone)
            (go (subst (Sessions sh.published) (sessions_of-alone before after stage alone) log))

  Step-IsSound :
      (v w : Server json rate_per_second) → Step json rate_per_second v w → IsSound v → IsSound w
  unfolding holders sessions_of holds session_of Session.new
  Step-IsSound _ _ (opens sh sockets token id source expires_at) (claim, fits, log) =
      (omega arith, (refl, fits), log)
  Step-IsSound _ _ (stops sh sockets) sound = sound
  Step-IsSound _ _ (moves sh sh' stage stage' before after move) sound =
      let held : holds stage ≤ flag sh.controller_claimed =
        omega (arith, holders-mid before after stage, sound.0) in
      move-IsSound sh sh' stage stage' before after held
        (Move-Keeps sh sh' stage stage' move (AllFit-mid before after stage sound.1) held) sound

  reachable-IsSound :
      (v : Server json rate_per_second) → Reachable json rate_per_second v → IsSound v
  unfolding holders sessions_of
  reachable-IsSound _ started = (refl, tt, nothing)
  reachable-IsSound w (steps {v} r step) = Step-IsSound v w step (reachable-IsSound v r)

  -- In every interleaving of the tasks, the sockets that hold the claim are one where
  -- `controller_claimed` is set and none where it is not: so they are never two.
  pub reachable-claim :
      (v : Server json rate_per_second)
      → Reachable json rate_per_second v
      → (holders v.sockets ≡ flag v.shared.controller_claimed) × (holders v.sockets ≤ 1)
  reachable-claim v r =
      let sound = reachable-IsSound v r in
      (sound.0, rw sound.0 (flag_le v.shared.controller_claimed))

  -- In every interleaving of the tasks, the events that the sink is given are one session after the
  -- other: a connection's begin, its messages and its end, none of another connection in between; and
  -- the session that is not at its end is that of the socket that serves or leaves, if there is one.
  pub reachable-Sessions :
      (v : Server json rate_per_second)
      → Reachable json rate_per_second v
      → Sessions v.shared.published (sessions_of v.sockets)
  reachable-Sessions v r = (reachable-IsSound v r).2

  -- In no interleaving of the tasks does one of them reach the `unreachable!` of `apply`.
  pub reachable-no_panic :
      (sh : Shared) (before after : List Stage)
      → ¬ Reachable json rate_per_second
          (record { shared = sh; sockets = before ++ panicked ∷ after })
  reachable-no_panic sh before after r = AllFit-mid before after panicked (reachable-IsSound _ r).1
