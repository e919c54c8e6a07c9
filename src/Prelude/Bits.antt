-- ===== src/Prelude/Bits.antt =====
-- Laws of `&`, `|` and `^` on native numbers at variables, from one equation for the lowest digit.
use Prim.Native.Nat.{ℕ, zero, suc, ◌+◌, ◌-◌, ◌*◌, ◌/◌, ◌%◌, ◌^◌, ◌≤◌, ◌<◌, min, max}
use Prim.Native.Nat.{bit_and, bit_or, digits, bitwise, bit_and-bitwise, bit_or-bitwise}
use mathlib.Core.Path.{◌≡◌, refl, ap, sym, ◌∙◌}
use mathlib.Core.Bool.{Bool, true, ◌&&◌}
use native.Mathlib.Nat.{le_refl, pow-suc, one-le-pow, div-div-eq-div-mul}
use native.Mathlib.Omega.{arith}

-- The digits of a number that are looked at beyond its last one change nothing.
module _ (rest : ℕ → ℕ) (op : ℕ → ℕ → ℕ) where
  more_digits : (n x y : ℕ) → x ≤ n → digits rest op (suc n) x y ≡ digits rest op n x y
  more_digits zero zero y h = refl
  more_digits zero (suc x) y h = absurd (omega arith)
  more_digits (suc n) zero y h = refl
  more_digits (suc n) (suc x) y h = rw (more_digits n (suc x / 2) (y / 2) (omega arith)) refl

  enough_digits : (extra n x y : ℕ) → n ≡ x + extra → digits rest op n x y ≡ bitwise rest op x y
  enough_digits zero n x y e = ap (λ t. digits rest op t x y) (omega (arith, e))
  enough_digits (suc extra) zero x y e = absurd (omega arith)
  enough_digits (suc extra) (suc n) x y e =
      more_digits n x y (omega arith) ∙ enough_digits extra n x y (omega arith)

  first_digit :
      (x y : ℕ)
      → bitwise rest op (suc x) y ≡ bitwise rest op (suc x / 2) (y / 2) * 2 + op (suc x % 2) (y % 2)
  first_digit x y =
      let half : ℕ = suc x / 2 in
      ap (λ t. t * 2 + op (suc x % 2) (y % 2))
        (enough_digits (x - half) x half (y / 2) (omega arith))

pub bit_or_step : (x y : ℕ) → bit_or x y ≡ bit_or (x / 2) (y / 2) * 2 + max (x % 2) (y % 2)
bit_or_step zero y = rw (bit_or-bitwise 0 y, bit_or-bitwise 0 (y / 2)) (omega arith)
bit_or_step (suc x) y =
    bit_or-bitwise (suc x) y
    ∙ first_digit (λ t. t) max x y
    ∙ ap (λ t. t * 2 + max (suc x % 2) (y % 2)) (sym (bit_or-bitwise (suc x / 2) (y / 2)))

pub bit_and_step : (x y : ℕ) → bit_and x y ≡ bit_and (x / 2) (y / 2) * 2 + min (x % 2) (y % 2)
bit_and_step zero y = rw (bit_and-bitwise 0 y, bit_and-bitwise 0 (y / 2)) (omega arith)
bit_and_step (suc x) y =
    bit_and-bitwise (suc x) y
    ∙ first_digit (λ t. 0) min x y
    ∙ ap (λ t. t * 2 + min (suc x % 2) (y % 2)) (sym (bit_and-bitwise (suc x / 2) (y / 2)))

-- The `k`-th bit of `a`.
abbrev pub bit_at : ℕ → ℕ → ℕ
bit_at k a = a / 2 ^ k % 2

div-pow-suc : (k a : ℕ) → a / 2 ^ suc k ≡ a / 2 / 2 ^ k
div-pow-suc k a =
    sym (div-div-eq-div-mul a 2 (2 ^ k) ∙ ap (λ t. a / t) (omega (arith, pow-suc 2 k)))

half_and : (a b : ℕ) → bit_and a b / 2 ≡ bit_and (a / 2) (b / 2)
half_and a b = omega (arith, bit_and_step a b)

half_or : (a b : ℕ) → bit_or a b / 2 ≡ bit_or (a / 2) (b / 2)
half_or a b = omega (arith, bit_or_step a b)

-- `&` and `|` are the smaller and the greater of the two bits, at every place.
pub bit_at-bit_and : (k a b : ℕ) → bit_at k (bit_and a b) ≡ min (bit_at k a) (bit_at k b)
bit_at-bit_and zero a b = omega (arith, bit_and_step a b)
bit_at-bit_and (suc k) a b =
    rw (div-pow-suc k (bit_and a b), div-pow-suc k a, div-pow-suc k b, half_and a b)
      (bit_at-bit_and k (a / 2) (b / 2))

pub bit_at-bit_or : (k a b : ℕ) → bit_at k (bit_or a b) ≡ max (bit_at k a) (bit_at k b)
bit_at-bit_or zero a b = omega (arith, bit_or_step a b)
bit_at-bit_or (suc k) a b =
    rw (div-pow-suc k (bit_or a b), div-pow-suc k a, div-pow-suc k b, half_or a b)
      (bit_at-bit_or k (a / 2) (b / 2))

-- Each of these goes from the halves up; the first argument bounds the digits.
and_le_fuel : (n a b : ℕ) → a ≤ n → (bit_and a b ≤ a) × (bit_and a b ≤ b)
and_le_fuel zero zero b h = omega (arith, bit_and-bitwise 0 b)
and_le_fuel zero (suc a) b h = absurd (omega arith)
and_le_fuel (suc n) zero b h = omega (arith, bit_and-bitwise 0 b)
and_le_fuel (suc n) (suc a) b h =
    omega (arith, bit_and_step (suc a) b, and_le_fuel n (suc a / 2) (b / 2) (omega arith))

pub bit_and-le : (a b : ℕ) → (bit_and a b ≤ a) × (bit_and a b ≤ b)
bit_and-le a b = and_le_fuel a a b (le_refl a)

pub bit_or-lt : (k a b : ℕ) → a < 2 ^ k → b < 2 ^ k → bit_or a b < 2 ^ k
bit_or-lt zero zero zero p q = omega arith
bit_or-lt zero zero (suc b) p q = absurd (omega arith)
bit_or-lt zero (suc a) b p q = absurd (omega arith)
bit_or-lt (suc k) a b p q = omega (
  arith,
  pow-suc 2 k,
  bit_or_step a b,
  bit_or-lt k (a / 2) (b / 2) (omega (arith, pow-suc 2 k)) (omega (arith, pow-suc 2 k)),
)

half-pow : (k : ℕ) → 2 ^ suc k / 2 ≡ 2 ^ k
half-pow k = omega (arith, pow-suc 2 k)

-- Testing one bit: `x & (1 << k) != 0`.
pub bit_and-pow : (k a : ℕ) → bit_and a (2 ^ k) ≡ bit_at k a * 2 ^ k
bit_and-pow zero a = omega (arith, bit_and_step a 1, bit_and-le (a / 2) 0)
bit_and-pow (suc k) a = omega (
  arith,
  bit_and_step a (2 ^ suc k),
  ap (bit_and (a / 2)) (half-pow k),
  pow-suc 2 k,
  bit_and-pow k (a / 2),
  ap (λ (t : ℕ). t % 2 * 2 ^ suc k) (div-pow-suc k a),
  ap (λ (t : ℕ). bit_at k (a / 2) * t) (pow-suc 2 k),
)

half-mask : (k : ℕ) → (2 ^ suc k - 1) / 2 ≡ 2 ^ k - 1
half-mask k = omega (arith, pow-suc 2 k)

mod-pow-suc : (k a : ℕ) → a % 2 ^ suc k ≡ a / 2 % 2 ^ k * 2 + a % 2
mod-pow-suc k a = rw (pow-suc 2 k) (grind arith)

-- A mask of `k` ones is the remainder by `2 ^ k`.
pub bit_and_mask : (k a : ℕ) → bit_and a (2 ^ k - 1) ≡ a % 2 ^ k
bit_and_mask zero a = omega (arith, bit_and-le a 0)
bit_and_mask (suc k) a = omega (
  arith,
  bit_and_step a (2 ^ suc k - 1),
  ap (bit_and (a / 2)) (half-mask k),
  pow-suc 2 k,
  one-le-pow k 2,
  bit_and_mask k (a / 2),
  mod-pow-suc k a,
)

-- A test that a table of its values passes: it is run on every number below a bound.
unfoldable pub all_below : ℕ → (ℕ → Bool) → Bool
all_below zero test = true
all_below (suc bound) test = test bound && all_below bound test

pub all_below_sound :
    (bound : ℕ) (test : ℕ → Bool) (value : ℕ)
    → all_below bound test ≡ true
    → value < bound
    → test value ≡ true
unfolding all_below
all_below_sound zero test value passed below = absurd (omega arith)
all_below_sound (suc bound) test value passed below =
    ground (arith, all_below_sound bound test value)
