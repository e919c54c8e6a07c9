-- ===== src/Prelude/Words.antt =====
-- Machine words as native numbers: arithmetic wraps by `%`, and `-` on ℕ is cut off at 0.
use Prim.Native.Nat.{ℕ, ◌+◌, ◌-◌, ◌*◌, ◌/◌, ◌%◌}
use pockiva.Prelude.Tests.{ltb, if◌then◌else◌}

-- `wrapping_add` and `wrapping_sub` of `u8` and of `u16`
abbrev pub add8_wrap : ℕ → ℕ → ℕ
add8_wrap a b = (a + b) % 256

abbrev pub sub8_wrap : ℕ → ℕ → ℕ
sub8_wrap a b = (a + 256 - b) % 256

abbrev pub add16_wrap : ℕ → ℕ → ℕ
add16_wrap a b = (a + b) % 65536

abbrev pub sub16_wrap : ℕ → ℕ → ℕ
sub16_wrap a b = (a + 65536 - b) % 65536

-- `!x` of `u8`
abbrev pub not8 : ℕ → ℕ
not8 x = 255 - x

-- `u16::from_be_bytes([high, low])`
abbrev pub from_bytes16 : ℕ → ℕ → ℕ
from_bytes16 high low = high * 256 + low

-- the bytes of `u16::to_be_bytes`
abbrev pub high_byte : ℕ → ℕ
high_byte x = x / 256 % 256

abbrev pub low_byte : ℕ → ℕ
low_byte x = x % 256

-- `w.wrapping_add_signed(i16::from(i8::from_ne_bytes([b])))`: a byte from 128 on is negative.
abbrev pub add_signed : ℕ → ℕ → ℕ
add_signed w b = if ltb b 128 then add16_wrap w b else sub16_wrap w (256 - b)
