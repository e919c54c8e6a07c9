-- ===== src/Cartridge/Banks.antt =====
-- Bank selection of the mappers: the registers that select, and the reads of an image.
use pockiva.Prelude.{
  ℕ, suc, ◌+◌, ◌*◌, ◌/◌, ◌%◌, ◌^◌, ◌≤◌, ◌<◌, bit_or, ◌≡◌, refl, ap, ◌∙◌, ◌≢◌, true, some, List,
  arith, ltb, leb, ◌==◌, if◌then◌else◌, ==_iff, length, get_elem?, get_elem?-eq-get_or,
}
use native.Mathlib.Nat.{mod-eq_of_lt}
use pockiva.Prelude.Bits.{bit_and_mask, bit_and-pow, all_below, all_below_sound}
use pockiva.Cartridge.Mapper.{rom_offset, rom_byte}
use pockiva.Cartridge.Mbc1
use pockiva.Cartridge.Mbc1.{Mbc1, trailing_zeros, corrected_bank, raw_bank, fixed_bank}
use pockiva.Cartridge.Mbc3
use pockiva.Cartridge.Mbc3.{Mbc3}
use pockiva.Cartridge.Mbc5
use pockiva.Cartridge.Mbc5.{Mbc5}

-- An image of whole banks, at least one.
pub record IsImage (rom : List ℕ) (banks : ℕ) : Type 0 where
  pub whole : length rom ≡ banks * 0x4000
  pub some_bank : 0 < banks

rom_offset-lt :
    (rom : List ℕ) (banks bank address : ℕ)
    → IsImage rom banks
    → bank < banks
    → rom_offset bank address < length rom
unfolding rom_offset
rom_offset-lt rom banks bank address i h = omega (arith, i, bit_and_mask 14 address)

rom_byte-get :
    (rom : List ℕ) (banks bank address : ℕ)
    → IsImage rom banks
    → bank < banks
    → get_elem? rom (rom_offset bank address) ≡ some (rom_byte rom bank address)
unfolding rom_byte
rom_byte-get rom banks bank address i h =
    get_elem?-eq-get_or rom (rom_offset bank address) 0xff
      (rom_offset-lt rom banks bank address i h)

-- MBC1 reads its image in the fixed bank below 0x4000 and in the switched one above, inside the image
-- whatever the registers hold: the value for a read out of range is never given.
pub mbc1-read_rom :
    (m : Mbc1) (address : ℕ)
    → IsImage m.rom m.rom_banks
    → get_elem? m.rom
        (rom_offset (if ltb address 0x4000 then fixed_bank m else Mbc1.switch_bank m) address)
      ≡ some (Mbc1.read_rom m address)
unfolding Mbc1.read_rom Mbc1.switch_bank fixed_bank
mbc1-read_rom m address i = rom_byte-get m.rom m.rom_banks _ address i (ground (arith, i))

-- MBC3 reads its image in bank 0 below 0x4000 and in the switched one above, inside the image whatever
-- the registers hold.
pub mbc3-read_rom :
    (m : Mbc3) (address : ℕ)
    → IsImage m.rom m.rom_banks
    → get_elem? m.rom (rom_offset (if ltb address 0x4000 then 0 else Mbc3.switch_bank m) address)
      ≡ some (Mbc3.read_rom m address)
unfolding Mbc3.read_rom Mbc3.switch_bank
mbc3-read_rom m address i = rom_byte-get m.rom m.rom_banks _ address i (ground (arith, i))

-- MBC5 reads its image in bank 0 below 0x4000 and in the switched one above, inside the image whatever
-- the registers hold.
pub mbc5-read_rom :
    (m : Mbc5) (address : ℕ)
    → IsImage m.rom m.rom_banks
    → get_elem? m.rom (rom_offset (if ltb address 0x4000 then 0 else Mbc5.switch_bank m) address)
      ≡ some (Mbc5.read_rom m address)
unfolding Mbc5.read_rom Mbc5.switch_bank
mbc5-read_rom m address i = rom_byte-get m.rom m.rom_banks _ address i (ground (arith, i))

five_zeros :
    (bits x : ℕ) → leb 5 (trailing_zeros (suc (suc (suc (suc (suc bits))))) x) ≡ (x % 32 == 0)
unfolding trailing_zeros
five_zeros bits x = ground arith

-- The correction adds one exactly to the banks whose low five bits are clear, so that those are never
-- selected.
pub corrected_bank_lem :
    (raw : ℕ)
    → (corrected_bank raw ≡ (if raw % 32 == 0 then raw + 1 else raw))
      × (corrected_bank raw % 32 ≢ 0)
unfolding corrected_bank
corrected_bank_lem raw = ground (arith, five_zeros 59 raw)

-- The ranges of the bank registers.
pub record Mbc1IsValid (m : Mbc1) : Type 0 where
  pub low_lt : m.rom_bank_low < 32
  pub high_lt : m.bank_high < 4

-- Writes keep the ranges.
pub write_rom-Mbc1IsValid :
    (m : Mbc1) (address value : ℕ) → Mbc1IsValid m → Mbc1IsValid (Mbc1.write_rom m address value)
unfolding Mbc1.write_rom
write_rom-Mbc1IsValid m address value v = ground (arith, bit_and_mask 5 value, bit_and_mask 2 value)

-- The high register stands above the low one.
raw_table : all_below 4 (λ h. all_below 32 (λ l. bit_or (h * 2 ^ 5) l == h * 32 + l)) ≡ true
unfolding all_below
raw_table = refl

pub raw_bank_lem : (m : Mbc1) → Mbc1IsValid m → raw_bank m ≡ m.bank_high * 32 + m.rom_bank_low
unfolding raw_bank
raw_bank_lem m v = (==_iff _ _).0 (
    all_below_sound 32 (λ l. bit_or (m.bank_high * 2 ^ 5) l == m.bank_high * 32 + l) m.rom_bank_low
      (all_below_sound 4 (λ h. all_below 32 (λ l. bit_or (h * 2 ^ 5) l == h * 32 + l)) m.bank_high
        raw_table v.high_lt)
      v.low_lt)

-- Where the image has all the banks that the registers can name, MBC1 switches in the bank of the two
-- registers, and the next one where the low register is 0.
pub mbc1-switch_bank :
    (m : Mbc1)
    → Mbc1IsValid m
    → 128 ≤ m.rom_banks
    → Mbc1.switch_bank m ≡ m.bank_high * 32 + (if m.rom_bank_low == 0 then 1 else m.rom_bank_low)
unfolding Mbc1.switch_bank
mbc1-switch_bank m v h =
    let chosen : corrected_bank (raw_bank m)
        ≡ m.bank_high * 32 + (if m.rom_bank_low == 0 then 1 else m.rom_bank_low) =
      rw (raw_bank_lem m v)
        (ground (arith, v, corrected_bank_lem (m.bank_high * 32 + m.rom_bank_low))) in
    mod-eq_of_lt (ground (arith, v, chosen)) ∙ chosen

-- MBC3 selects the seven low bits of a written bank number, or bank 1 for bank 0: never bank 0.
pub mbc3-write_rom :
    (m : Mbc3) (address value now : ℕ)
    → 0x2000 ≤ address
    → address ≤ 0x3fff
    → let bank = (Mbc3.write_rom m address value now).rom_bank in
      (bank ≡ (if value % 128 == 0 then 1 else value % 128)) × (0 < bank) × (bank < 128)
unfolding Mbc3.write_rom
mbc3-write_rom m address value now lo hi = ground (arith, bit_and_mask 7 value)

low_table : all_below 2 (λ h. all_below 256 (λ l. bit_or (h * 256) l == h * 256 + l)) ≡ true
unfolding all_below
low_table = refl

high_table : all_below 2 (λ h. all_below 256 (λ l. bit_or l (h * 256) == h * 256 + l)) ≡ true
unfolding all_below
high_table = refl

join_low : (h l : ℕ) → h < 2 → l < 256 → bit_or (h * 256) l ≡ h * 256 + l
join_low h l p q = (==_iff _ _).0 (
    all_below_sound 256 (λ l. bit_or (h * 256) l == h * 256 + l) l
      (all_below_sound 2 (λ h. all_below 256 (λ l. bit_or (h * 256) l == h * 256 + l)) h low_table
        p)
      q)

join_high : (h l : ℕ) → h < 2 → l < 256 → bit_or l (h * 256) ≡ h * 256 + l
join_high h l p q = (==_iff _ _).0 (
    all_below_sound 256 (λ l. bit_or l (h * 256) == h * 256 + l) l
      (all_below_sound 2 (λ h. all_below 256 (λ l. bit_or l (h * 256) == h * 256 + l)) h high_table
        p)
      q)

write_low :
    (n : Mbc5) (address low : ℕ)
    → 0x2000 ≤ address
    → address ≤ 0x2fff
    → low < 256
    → (Mbc5.write_rom n address low).rom_bank ≡ n.rom_bank / 256 % 2 * 256 + low
unfolding Mbc5.write_rom
write_low n address low p q h =
    ground (arith, bit_and-pow 8 n.rom_bank, join_low (n.rom_bank / 256 % 2) low)

write_high :
    (n : Mbc5) (address high : ℕ)
    → 0x3000 ≤ address
    → address ≤ 0x3fff
    → (Mbc5.write_rom n address high).rom_bank ≡ high % 2 * 256 + n.rom_bank % 256
unfolding Mbc5.write_rom
write_high n address high p q =
    ground (
      arith,
      bit_and_mask 8 n.rom_bank,
      bit_and_mask 1 high,
      join_high (high % 2) (n.rom_bank % 256),
    )

-- MBC5 keeps a bank number of nine bits: a write to 0x2000..=0x2fff replaces the low eight and one to
-- 0x3000..=0x3fff the ninth, each leaving the others; the two writes, in either order, name the bank.
pub mbc5-write_rom :
    (m : Mbc5) (a1 a2 low high : ℕ)
    → 0x2000 ≤ a1
    → a1 ≤ 0x2fff
    → 0x3000 ≤ a2
    → a2 ≤ 0x3fff
    → low < 256
    → ((Mbc5.write_rom (Mbc5.write_rom m a1 low) a2 high).rom_bank ≡ high % 2 * 256 + low)
      × ((Mbc5.write_rom (Mbc5.write_rom m a2 high) a1 low).rom_bank ≡ high % 2 * 256 + low)
      × ((Mbc5.write_rom m a1 low).rom_bank ≡ m.rom_bank / 256 % 2 * 256 + low)
      × ((Mbc5.write_rom m a2 high).rom_bank ≡ high % 2 * 256 + m.rom_bank % 256)
mbc5-write_rom m a1 a2 low high p1 q1 p2 q2 h = (
  high_write (Mbc5.write_rom m a1 low) ∙ ap (λ b. high % 2 * 256 + b) (low_part _ (low_write m)),
  low_write (Mbc5.write_rom m a2 high) ∙ ap (λ b. b * 256 + low) (high_part _ (high_write m)),
  low_write m,
  high_write m,
)
  where
    low_write : (n : Mbc5) → (Mbc5.write_rom n a1 low).rom_bank ≡ n.rom_bank / 256 % 2 * 256 + low
    low_write n = write_low n a1 low p1 q1 h

    high_write :
        (n : Mbc5) → (Mbc5.write_rom n a2 high).rom_bank ≡ high % 2 * 256 + n.rom_bank % 256
    high_write n = write_high n a2 high p2 q2

    low_part : (b : ℕ) → b ≡ m.rom_bank / 256 % 2 * 256 + low → b % 256 ≡ low
    low_part b e = omega arith

    high_part : (b : ℕ) → b ≡ high % 2 * 256 + m.rom_bank % 256 → b / 256 % 2 ≡ high % 2
    high_part b e = omega arith
