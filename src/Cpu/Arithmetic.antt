-- ===== src/Cpu/Arithmetic.antt =====
-- What the 8-bit arithmetic computes: results, flags, and decimal adjustment.
use pockiva.Prelude.{
  ℕ, ◌+◌, ◌-◌, ◌*◌, ◌/◌, ◌%◌, ◌<◌, bit_and, ◌≡◌, refl, Bool, true, false, ◌&&◌, arith, ltb, ◌==◌,
  from_bool, same,
}
use pockiva.Prelude.Bits.{bit_and_mask, all_below, all_below_sound}
use pockiva.Cpu.Registers.{
  Flags, flag_z, flag_n, flag_h, flag_c, contains, add8, sub8, inc8, dec8, daa,
}

-- The flags of four tests.
unfoldable pub flags_of : Bool → Bool → Bool → Bool → Flags
flags_of z n h c =
    from_bool z * flag_z + from_bool n * flag_n + from_bool h * flag_h + from_bool c * flag_c

low_nibble : (x : ℕ) → bit_and x 0x0f ≡ x % 16
low_nibble x = bit_and_mask 4 x

-- Addition with a carry wraps at 256; Z tells a zero result, H and C tell that the sum of the low
-- digits and the whole sum do not fit, and N is clear.
pub add8_lem :
    (x y : ℕ) (carry : Bool)
    → x < 256
    → y < 256
    → let sum = x + y + from_bool carry in
      add8 x y carry ≡ (
        sum % 256,
        flags_of (sum % 256 == 0) false (ltb 15 (x % 16 + y % 16 + from_bool carry)) (ltb 255 sum),
      )
unfolding add8 flags_of
add8_lem x y carry hx hy = ground (arith, low_nibble x, low_nibble y)

-- Subtraction with a borrow wraps at 256; Z tells a zero result, H and C tell that a borrow is needed
-- by the low digit and by the whole, and N is set.
pub sub8_lem :
    (x y : ℕ) (carry : Bool)
    → x < 256
    → y < 256
    → let due = y + from_bool carry in
      sub8 x y carry ≡ (
        (x + 256 - due) % 256,
        flags_of
            ((x + 256 - due) % 256 == 0)
            true
            (ltb (x % 16) (y % 16 + from_bool carry))
            (ltb x due),
      )
unfolding sub8 flags_of
sub8_lem x y carry hx hy = ground (arith, low_nibble x, low_nibble y)

-- Incrementing and decrementing wrap, keep the carry flag they are given, and set the others.
pub inc8-dec8 :
    (x : ℕ) (carry : Bool)
    → x < 256
    → (inc8 x carry ≡ ((x + 1) % 256, flags_of ((x + 1) % 256 == 0) false (x % 16 == 15) carry))
      × (dec8 x carry ≡ ((x + 255) % 256, flags_of ((x + 255) % 256 == 0) true (x % 16 == 0) carry))
      × ((dec8 (inc8 x carry).0 carry).0 ≡ x)
unfolding inc8 dec8 flags_of
inc8-dec8 x carry h = ground (arith, low_nibble x)

both : (a b : ℕ) (x y : Bool) → ((a == b) && same x y) ≡ true → (a ≡ b) × (x ≡ y)
both a b x y h = ground arith

-- The two decimal digits of a number below 100, one in each half of a byte.
unfoldable pub bcd : ℕ → ℕ
bcd n = n / 10 * 16 + n % 10

adjusted_sum : Bool → ℕ → ℕ → Bool
adjusted_sum carry m n =
    let (sum, flags) = add8 (bcd m) (bcd n) carry in
    let (result, flags') = daa sum flags in
    let total = m + n + from_bool carry in
    (result == bcd (total % 100)) && same (contains flags' flag_c) (ltb 99 total)

adjusted_difference : Bool → ℕ → ℕ → Bool
adjusted_difference carry m n =
    let (difference, flags) = sub8 (bcd m) (bcd n) carry in
    let (result, flags') = daa difference flags in
    let due = n + from_bool carry in
    (result == bcd ((m + 100 - due) % 100)) && same (contains flags' flag_c) (ltb m due)

every_pair : (ℕ → ℕ → Bool) → Bool
every_pair p = all_below 100 (λ m. all_below 100 (p m))

every_pair_sound :
    (p : ℕ → ℕ → Bool) (m n : ℕ) → every_pair p ≡ true → m < 100 → n < 100 → p m n ≡ true
unfolding every_pair
every_pair_sound p m n h hm hn =
    all_below_sound 100 (p m) n (all_below_sound 100 (λ m. all_below 100 (p m)) m h hm) hn

sums_without_carry : every_pair (adjusted_sum false) ≡ true
unfolding every_pair all_below adjusted_sum add8 daa bcd contains
sums_without_carry = refl

sums_with_carry : every_pair (adjusted_sum true) ≡ true
unfolding every_pair all_below adjusted_sum add8 daa bcd contains
sums_with_carry = refl

differences_without_borrow : every_pair (adjusted_difference false) ≡ true
unfolding every_pair all_below adjusted_difference sub8 daa bcd contains
differences_without_borrow = refl

differences_with_borrow : every_pair (adjusted_difference true) ≡ true
unfolding every_pair all_below adjusted_difference sub8 daa bcd contains
differences_with_borrow = refl

sum_holds : (carry : Bool) (m n : ℕ) → m < 100 → n < 100 → adjusted_sum carry m n ≡ true
sum_holds false m n hm hn = every_pair_sound (adjusted_sum false) m n sums_without_carry hm hn
sum_holds true m n hm hn = every_pair_sound (adjusted_sum true) m n sums_with_carry hm hn

difference_holds :
    (carry : Bool) (m n : ℕ) → m < 100 → n < 100 → adjusted_difference carry m n ≡ true
difference_holds false m n hm hn =
    every_pair_sound (adjusted_difference false) m n differences_without_borrow hm hn
difference_holds true m n hm hn =
    every_pair_sound (adjusted_difference true) m n differences_with_borrow hm hn

-- After an addition of two decimal bytes `daa` gives the decimal byte of the sum modulo 100, and the
-- carry flag tells that the sum passes 99.
pub daa-add8 :
    (m n : ℕ) (carry : Bool)
    → m < 100
    → n < 100
    → let (sum, flags) = add8 (bcd m) (bcd n) carry in
      let (result, flags') = daa sum flags in
      (result ≡ bcd ((m + n + from_bool carry) % 100))
      × (contains flags' flag_c ≡ ltb 99 (m + n + from_bool carry))
unfolding adjusted_sum
daa-add8 m n carry hm hn = both _ _ _ _ (sum_holds carry m n hm hn)

-- After a subtraction of two decimal bytes `daa` gives the decimal byte of the difference modulo 100,
-- and the carry flag tells that a borrow was needed.
pub daa-sub8 :
    (m n : ℕ) (carry : Bool)
    → m < 100
    → n < 100
    → let (difference, flags) = sub8 (bcd m) (bcd n) carry in
      let (result, flags') = daa difference flags in
      (result ≡ bcd ((m + 100 - (n + from_bool carry)) % 100))
      × (contains flags' flag_c ≡ ltb m (n + from_bool carry))
unfolding adjusted_difference
daa-sub8 m n carry hm hn = both _ _ _ _ (difference_holds carry m n hm hn)
