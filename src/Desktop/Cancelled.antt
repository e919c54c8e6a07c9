-- ===== src/Desktop/Cancelled.antt =====
-- apps/desktop/src-tauri/src/emulator/runtime.rs: a controller that has left keeps no input.
use mathlib.Core.Path.{subst}
use pockiva.Prelude.{
  ℕ, ◌+◌, ◌^◌, ◌≤◌, ◌≡◌, refl, inl, inr, max, leb, ltb, ◌==◌, false, Option, none, some, List, [],
  ◌∷◌, ◌++◌, arith, Bool-cases, Option-cases, if-holds,
}
use pockiva.Network.{ClientMessage, ControllerEvent, connected, message, disconnected, event_source}
use pockiva.Desktop.Lifecycle.{remote_input_source}
use pockiva.Desktop.Controllers.{
  CurrentController, ControllerGenerations, current_generation, prepare, RemoteInputSnapshot,
  snapshot_of, cancel_current, InputOperations, drain_cancelled_remote_input, is_cancelled,
}
use pockiva.Desktop.Retained.{
  World, keep_prepared, submitted, submitted_next, sent, given_up, IsGiven, drained, Keeps,
  IsNewest, AllGiven, InHand, IsValid, snapshot_of-remove,
}

-- More generations are given out.
pub Keeps-given :
    (o : Option CurrentController) (s : Option RemoteInputSnapshot) (c l n m : ℕ)
    → n ≤ m
    → Keeps o s c l n
    → Keeps o s c l m
Keeps-given none none c l n m h k = tt
Keeps-given none (some s) c l n m h k = k
Keeps-given (some o) none c l n m h k = omega arith
Keeps-given (some o) (some s) c l n m h k = (omega arith, k.1, k.2)

-- All that were given out are cancelled.
Keeps-cancelled :
    (o : Option CurrentController) (s : Option RemoteInputSnapshot) (c l n : ℕ)
    → Keeps o s c l n
    → Keeps o s n l n
Keeps-cancelled none none c l n k = tt
Keeps-cancelled none (some s) c l n k = k
Keeps-cancelled (some o) none c l n k = k
Keeps-cancelled (some o) (some s) c l n k = (k.0, k.1, inr k.0)

AllGiven-given : (q : List (ControllerEvent × ℕ)) (n m : ℕ) → n ≤ m → AllGiven q n → AllGiven q m
AllGiven-given [] n m h k = tt
AllGiven-given ((e, g) ∷ q) n m h k = (omega arith, AllGiven-given q n m h k.1)

AllGiven-append :
    (q : List (ControllerEvent × ℕ)) (e : ControllerEvent) (g n : ℕ)
    → g ≤ n
    → AllGiven q n
    → AllGiven (q ++ (e, g) ∷ []) n
AllGiven-append [] e g n h k = (h, tt)
AllGiven-append ((e', g') ∷ q) e g n h k = (k.0, AllGiven-append q e g n h k.1)

InHand-given :
    (r : Option (ControllerEvent × ℕ)) (c l n m : ℕ) → n ≤ m → InHand r c l n → InHand r c l m
InHand-given none c l n m h k = tt
InHand-given (some (e, g)) c l n m h k = (omega arith, k.1)

InHand-cancelled : (r : Option (ControllerEvent × ℕ)) (c l n : ℕ) → InHand r c l n → InHand r n l n
InHand-cancelled none c l n k = tt
InHand-cancelled (some (e, g)) c l n k = (k.0, inr k.0)

newest_generation :
    (g : ControllerGenerations) (id : List ℕ) (n generation : ℕ) (c : Option CurrentController)
    → IsNewest c n
    → current_generation (record g { current = c }) id ≡ some generation
    → generation ≡ n
unfolding current_generation
newest_generation g id n generation none newest e = cc
newest_generation g id n generation (some c) newest e = ground arith

module _ {K : Type 0} (inputs : InputOperations K) (w : World K) (v : IsValid w) where
  connected-IsValid :
      (id : List ℕ) (source : ℕ)
      → let (g, r) = prepare w.generations (connected id source) in
        IsValid (keep_prepared inputs w (connected id source) g r)
  unfolding prepare keep_prepared
  connected-IsValid id source =
      let n : ℕ = w.generations.next_generation in
      elim (Bool-cases (ltb (n + 1) (2 ^ 64))) [
        | inl room ↦ rw room (record {
          cancelled_given = omega (arith, v.cancelled_given);
          cleared_cancelled = v.cleared_cancelled;
          newest = refl;
          sent_given = omega arith;
          given = AllGiven-given w.commands n (n + 1) (omega arith) v.given;
          in_hand = InHand-given w.received _ _ n (n + 1) (omega arith) v.in_hand;
          keeps = Keeps-given w.remote.owner _ _ _ n (n + 1) (omega arith) v.keeps;
        })
        | inr full ↦ rw full v
      ]

  message-IsValid :
      (id : List ℕ) (source : ℕ) (m : ClientMessage)
      → let (g, r) = prepare w.generations (message id source m) in
        IsValid (keep_prepared inputs w (message id source m) g r)
  unfolding prepare keep_prepared
  message-IsValid id source m =
      let n : ℕ = w.generations.next_generation in
      elim (Option-cases (current_generation w.generations id)) [
        | inl e ↦ rw e v
        | inr (generation, e) ↦ rw e (record {
          cancelled_given = v.cancelled_given;
          cleared_cancelled = v.cleared_cancelled;
          newest = v.newest;
          sent_given =
              let newest =
                newest_generation w.generations id n generation w.generations.current v.newest e in
              omega arith;
          given = v.given;
          in_hand = v.in_hand;
          keeps = v.keeps;
        })
      ]

  cancelled-IsValid :
      (event : ControllerEvent) (found : Option ℕ)
      → ((generation : ℕ) → found ≡ some generation → generation ≡ w.generations.next_generation)
      → let (g, r) = cancel_current w.generations found in
        IsValid (keep_prepared inputs w event g r)
  unfolding cancel_current keep_prepared
  cancelled-IsValid event none newest = v
  cancelled-IsValid event (some generation) newest =
      let n : ℕ = w.generations.next_generation in
      let c : ℕ = w.generations.cancelled_through in
      let l : ℕ = w.remote.cleared_through in
      let all : n ≡ max c generation = omega (arith, v.cancelled_given, newest generation refl) in
      record {
        cancelled_given = omega (arith, v.cancelled_given);
        cleared_cancelled = omega (arith, v.cancelled_given, v.cleared_cancelled);
        newest = tt;
        sent_given = omega (arith, newest generation refl);
        given = v.given;
        in_hand =
            subst (λ k. InHand w.received k l n) all (InHand-cancelled w.received c l n v.in_hand);
        keeps =
            subst
              (λ k. Keeps w.remote.owner (snapshot_of w.remote.snapshots remote_input_source) k l n)
              all (Keeps-cancelled w.remote.owner _ c l n v.keeps);
      }

  disconnected-IsValid :
      (id : List ℕ) (source : ℕ)
      → let (g, r) = prepare w.generations (disconnected id source) in
        IsValid (keep_prepared inputs w (disconnected id source) g r)
  unfolding prepare
  disconnected-IsValid id source =
      cancelled-IsValid (disconnected id source) (current_generation w.generations id)
        (λ generation e.
          newest_generation w.generations id w.generations.next_generation generation
            w.generations.current v.newest e)

  prepared-IsValid :
      (event : ControllerEvent)
      → let (g, r) = prepare w.generations event in IsValid (keep_prepared inputs w event g r)
  prepared-IsValid (connected id source) = connected-IsValid id source
  prepared-IsValid (message id source m) = message-IsValid id source m
  prepared-IsValid (disconnected id source) = disconnected-IsValid id source

  submitted-IsValid : (event : ControllerEvent) → IsValid (submitted inputs w event)
  unfolding submitted
  submitted-IsValid event =
      if-holds IsValid (event_source event == remote_input_source) (prepared-IsValid event) v

  pub submitted_next-IsValid :
      (event : ControllerEvent) (sending : Option (ControllerEvent × ℕ))
      → IsValid (submitted_next inputs w event sending)
  unfolding submitted_next
  submitted_next-IsValid event none = submitted-IsValid event
  submitted_next-IsValid event (some command) = v

  pub sent-IsValid :
      (sending : Option (ControllerEvent × ℕ))
      → IsGiven sending w.generations.next_generation
      → IsValid (sent inputs w sending)
  unfolding sent
  sent-IsValid none h = v
  sent-IsValid (some (event, generation)) h = record {
    cancelled_given = v.cancelled_given;
    cleared_cancelled = v.cleared_cancelled;
    newest = v.newest;
    sent_given = tt;
    given = AllGiven-append w.commands event generation _ h v.given;
    in_hand = v.in_hand;
    keeps = v.keeps;
  }

  pub given_up-IsValid : IsValid (given_up inputs w)
  unfolding given_up
  given_up-IsValid = record {
    cancelled_given = v.cancelled_given;
    cleared_cancelled = v.cleared_cancelled;
    newest = v.newest;
    sent_given = tt;
    given = v.given;
    in_hand = v.in_hand;
    keeps = v.keeps;
  }

  -- A drain that has something to clear.
  cleared-Keeps :
      (o : Option CurrentController) (s : Option RemoteInputSnapshot) (c l n : ℕ)
      → is_cancelled inputs o c ≡ false
      → Keeps o s c l n
      → Keeps o s c c n
  cleared-Keeps none none c l n e k = tt
  cleared-Keeps none (some s) c l n e k = k
  cleared-Keeps (some o) none c l n e k = k
  cleared-Keeps (some o) (some s) c l n e k = (k.0, ground arith, ground arith)

  InHand-cleared : (r : Option (ControllerEvent × ℕ)) (c l n : ℕ) → InHand r c l n → InHand r c c n
  InHand-cleared none c l n k = tt
  InHand-cleared (some (e, g)) c l n k = (k.0, inl (omega arith))

  pub drained-IsValid : IsValid (drained inputs w)
  unfolding drained drain_cancelled_remote_input
  drained-IsValid =
      let c : ℕ = w.generations.cancelled_through in
      let n : ℕ = w.generations.next_generation in
      let l : ℕ = w.remote.cleared_through in
      elim (Bool-cases (leb c l)) [
        | inl e ↦ rw e v
        | inr e ↦ rw e (elim (Bool-cases (is_cancelled inputs w.remote.owner c)) [
          | inl gone ↦ rw gone (record {
            cancelled_given = v.cancelled_given;
            cleared_cancelled = omega arith;
            newest = v.newest;
            sent_given = v.sent_given;
            given = v.given;
            in_hand = InHand-cleared w.received c l n v.in_hand;
            keeps = rw (snapshot_of-remove w.remote.snapshots remote_input_source) tt;
          })
          | inr stays ↦ rw stays (record {
            cancelled_given = v.cancelled_given;
            cleared_cancelled = omega arith;
            newest = v.newest;
            sent_given = v.sent_given;
            given = v.given;
            in_hand = InHand-cleared w.received c l n v.in_hand;
            keeps = cleared-Keeps w.remote.owner _ c l n stays v.keeps;
          })
        ])
      ]
