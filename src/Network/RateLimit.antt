-- ===== src/Network/RateLimit.antt =====
-- crates/gb-network/src/rate_limit.rs: the token bucket, and the bounds on what it allows.
use pockiva.Prelude.{
  ℕ, suc, length, ◌+◌, ◌-◌, ◌*◌, ◌^◌, ◌≤◌, min, ◌≡◌, refl, ap, ◌∙◌, Bool, true, false, List, [],
  ◌∷◌, ltb, leb, if◌then◌else◌, arith, Bool-cases, inl, inr,
}

-- `TOKEN_SCALE`
abbrev pub token_scale : ℕ
token_scale = 1000000000

abbrev pub max_u128 : ℕ
max_u128 = 2 ^ 128 - 1

abbrev pub saturating_add : ℕ → ℕ → ℕ
saturating_add x y = min (x + y) max_u128

abbrev pub saturating_mul : ℕ → ℕ → ℕ
saturating_mul x y = min (x * y) max_u128

pub record InputRateLimiter : Type 0 where
  pub refill_per_second : ℕ
  pub capacity : ℕ
  pub available : ℕ
  pub last_refill : ℕ

unfoldable pub new : ℕ → ℕ → ℕ → InputRateLimiter
new refill_per_second capacity start =
    let capacity = saturating_mul capacity token_scale in
    record {
      refill_per_second = refill_per_second;
      capacity = capacity;
      available = capacity;
      last_refill = start;
    }

-- the part of `allow` before its test: nothing when the clock went back
unfoldable pub refill : ℕ → InputRateLimiter → InputRateLimiter
refill now l =
    if leb l.last_refill now
    then record l {
      available =
          min
            (saturating_add l.available (saturating_mul (now - l.last_refill) l.refill_per_second))
            l.capacity;
      last_refill = now;
    }
    else l

unfoldable pub allow : InputRateLimiter → ℕ → Bool × InputRateLimiter
unfolding refill
allow l now =
    let l' = refill now l in
    if ltb l'.available token_scale
    then (false, l')
    else (true, record l' { available = l'.available - token_scale })

-- how many messages it allows of those that come at the moments
unfoldable pub allowed : InputRateLimiter → List ℕ → ℕ
unfolding allow
allowed l [] = 0
allowed l (now ∷ later) =
    let (passes, l') = allow l now in
    let rest = allowed l' later in if passes then suc rest else rest

-- Every moment comes by the last one.
unfoldable pub AllAtMost : ℕ → List ℕ → Type 0
AllAtMost finish [] = Unit {0}
AllAtMost finish (now ∷ later) = (now ≤ finish) × AllAtMost finish later

-- Each moment comes late enough after the one before for a token to be refilled.
unfoldable pub IsSpaced : ℕ → ℕ → List ℕ → Type 0
IsSpaced rate last [] = Unit {0}
IsSpaced rate last (now ∷ later) =
    (last ≤ now) × (token_scale ≤ (now - last) * rate) × IsSpaced rate now later

split_span :
    (last now finish rate : ℕ)
    → last ≤ now
    → now ≤ finish
    → (finish - last) * rate ≡ (now - last) * rate + (finish - now) * rate
split_span last now finish rate h k =
    let whole : finish - last ≡ (now - last) + (finish - now) = omega arith in
    ap (λ x. x * rate) whole ∙ omega arith

capped_le : (a p x y c : ℕ) → min (min (a + min p x) y) c ≤ a + p
capped_le a p x y c = omega arith

-- A refill adds at most what the clocks since the last one bring.
refill-available :
    (now finish : ℕ) (l : InputRateLimiter)
    → l.last_refill ≤ finish
    → now ≤ finish
    → ((refill now l).last_refill ≤ finish)
      × ((refill now l).available
            + (finish - (refill now l).last_refill) * (refill now l).refill_per_second
          ≤ l.available + (finish - l.last_refill) * l.refill_per_second)
unfolding refill
refill-available now finish l h k = elim (Bool-cases (leb l.last_refill now)) [
  | inl later ↦
      let forth : l.last_refill ≤ now = ground arith in
      let bound =
        capped_le l.available ((now - l.last_refill) * l.refill_per_second) max_u128 max_u128
          l.capacity in
      rw later
        (k, omega (arith, split_span l.last_refill now finish l.refill_per_second forth k, bound))
  | inr earlier ↦ rw earlier (h, omega arith)
]

-- The tokens that the allowed messages take are there at first, or refilled by the last moment.
allowed-bound :
    (l : InputRateLimiter) (nows : List ℕ) (finish : ℕ)
    → l.last_refill ≤ finish
    → AllAtMost finish nows
    → allowed l nows * token_scale ≤ l.available + (finish - l.last_refill) * l.refill_per_second
unfolding allowed allow AllAtMost
allowed-bound l [] finish h k = omega arith
allowed-bound l (now ∷ later) finish h k =
    let l' : InputRateLimiter = refill now l in
    let (last, spent) = refill-available now finish l h k.0 in
    let taken : InputRateLimiter = record l' { available = l'.available - token_scale } in
    elim (Bool-cases (ltb l'.available token_scale)) [
      | inl empty ↦ rw empty (omega (arith, allowed-bound l' later finish last k.1, spent))
      | inr some_left ↦
          let enough : token_scale ≤ l'.available = ground arith in
          rw some_left (omega (arith, allowed-bound taken later finish last k.1, spent, enough))
    ]

-- A limiter started with a capacity allows, of any messages that come by a moment, at most the
-- capacity and what is refilled from the start to that moment, whatever the order of their moments.
pub allowed-new :
    (refill_per_second capacity start finish : ℕ) (nows : List ℕ)
    → start ≤ finish
    → AllAtMost finish nows
    → allowed (new refill_per_second capacity start) nows * token_scale
      ≤ capacity * token_scale + (finish - start) * refill_per_second
unfolding new
allowed-new refill_per_second capacity start finish nows h k =
    omega (arith, allowed-bound (new refill_per_second capacity start) nows finish h k)

refilled-enough :
    (a p x c : ℕ)
    → token_scale ≤ p
    → token_scale ≤ x
    → token_scale ≤ c
    → token_scale ≤ min (min (a + min p x) x) c
refilled-enough a p x c = omega arith

refill-IsEnough :
    (l : InputRateLimiter) (now : ℕ)
    → token_scale ≤ l.capacity
    → l.last_refill ≤ now
    → token_scale ≤ (now - l.last_refill) * l.refill_per_second
    → (token_scale ≤ (refill now l).available)
      × ((refill now l).capacity ≡ l.capacity)
      × ((refill now l).refill_per_second ≡ l.refill_per_second)
      × ((refill now l).last_refill ≡ now)
unfolding refill
refill-IsEnough l now room forth gap =
    let later : leb l.last_refill now ≡ true = ground arith in
    rw later (
      refilled-enough l.available ((now - l.last_refill) * l.refill_per_second) max_u128 l.capacity
          gap (omega arith) room,
      refl,
      refl,
      refl,
    )

-- A limiter that holds one token or more allows every message, when each comes so long after the one
-- before, the first after the last refill, that a token is refilled in between.
pub allowed-all :
    (l : InputRateLimiter) (nows : List ℕ)
    → token_scale ≤ l.capacity
    → IsSpaced l.refill_per_second l.last_refill nows
    → allowed l nows ≡ length nows
unfolding allowed allow IsSpaced
allowed-all l [] room spaced = refl
allowed-all l (now ∷ later) room (forth, gap, spaced) =
    let l' : InputRateLimiter = refill now l in
    let (enough, capacity, rate, last) = refill-IsEnough l now room forth gap in
    let passes : ltb l'.available token_scale ≡ false = ground arith in
    let taken : InputRateLimiter = record l' { available = l'.available - token_scale } in
    rw passes (ap suc (allowed-all taken later (rw capacity room) (rw (rate, last) spaced)))
