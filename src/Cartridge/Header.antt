-- ===== src/Cartridge/Header.antt =====
-- crates/gb-core/src/cartridge/header.rs. The digest of an image and the text that is made of a
-- title's bytes are parameters; a text is the list of its bytes.
use pockiva.Prelude.{
  ℕ, zero, suc, ◌+◌, ◌*◌, ◌/◌, ◌%◌, ◌^◌, Bool, true, false, ◌&&◌, ◌||◌, List, [], ◌∷◌, ◌==◌, ltb,
  leb, if◌then◌else◌, length, get_or, get_elem?, none, some, ◌-◌, sub8_wrap,
}
use pockiva.Contracts.{
  Result, ok, err, panic, invalid_rom, unsupported_cgb_only_cartridge, unsupported_mapper,
  short_image, image_length, header_checksum, ram_without_type, rom_size_code, ram_size_code,
  capacity, ◌>>=◌, ◌>>◌,
}

pub data MapperKind : Type 0 where
  rom_only mbc1 mbc3 mbc5 : MapperKind

pub data CompatibilityMode : Type 0 where
  dmg dmg_compatible : CompatibilityMode

pub record CartridgeMetadata : Type 0 where
  pub title : List ℕ
  pub rom_identity : List ℕ
  pub mapper : MapperKind
  pub compatibility : CompatibilityMode
  pub ram_size_bytes : ℕ
  pub has_battery : Bool

pub record Features : Type 0 where
  pub mapper : MapperKind
  pub has_ram : Bool
  pub has_battery : Bool
  pub has_timer : Bool
  pub has_rumble : Bool

pub record Header : Type 0 where
  pub metadata : CartridgeMetadata
  pub features : Features
  pub rom_banks : ℕ
  pub ram_bytes : ℕ

abbrev with_features : MapperKind → Bool → Bool → Bool → Bool → Result Features
with_features mapper has_ram has_battery has_timer has_rumble = ok (record {
  mapper = mapper;
  has_ram = has_ram;
  has_battery = has_battery;
  has_timer = has_timer;
  has_rumble = has_rumble;
})

unfoldable pub features : ℕ → Result Features
features t =
    if t == 0x00
    then with_features rom_only false false false false
    else if t == 0x08
    then with_features rom_only true false false false
    else if t == 0x09
    then with_features rom_only true true false false
    else if t == 0x01
    then with_features mbc1 false false false false
    else if t == 0x02
    then with_features mbc1 true false false false
    else if t == 0x03
    then with_features mbc1 true true false false
    else if t == 0x0f
    then with_features mbc3 false true true false
    else if t == 0x10
    then with_features mbc3 true true true false
    else if t == 0x11
    then with_features mbc3 false false false false
    else if t == 0x12
    then with_features mbc3 true false false false
    else if t == 0x13
    then with_features mbc3 true true false false
    else if t == 0x19
    then with_features mbc5 false false false false
    else if t == 0x1a
    then with_features mbc5 true false false false
    else if t == 0x1b
    then with_features mbc5 true true false false
    else if t == 0x1c
    then with_features mbc5 false false false true
    else if t == 0x1d
    then with_features mbc5 true false false true
    else if t == 0x1e
    then with_features mbc5 true true false true
    else err (unsupported_mapper t)

unfoldable pub rom_banks : ℕ → Result ℕ
rom_banks code =
    if leb code 0x08
    then ok (2 * 2 ^ code)
    else if code == 0x52
    then ok 72
    else if code == 0x53
    then ok 80
    else if code == 0x54
    then ok 96
    else err (invalid_rom rom_size_code)

unfoldable pub ram_bytes : ℕ → Result ℕ
ram_bytes code =
    if code == 0x00
    then ok 0
    else if code == 0x01
    then ok 0x0800
    else if code == 0x02
    then ok 0x2000
    else if code == 0x03
    then ok 0x8000
    else if code == 0x04
    then ok 0x20000
    else if code == 0x05
    then ok 0x10000
    else err (invalid_rom ram_size_code)

-- `valid`, with the banks of external RAM rounded up
unfoldable pub is_within : Features → ℕ → ℕ → Bool
is_within features rom_banks ram_bytes =
    let external_ram_banks = (ram_bytes + 0x1fff) / 0x2000 in
    elim features.mapper [
      | rom_only ↦ leb rom_banks 2 && leb ram_bytes 0x2000
      | mbc1 ↦ leb rom_banks 128 && leb external_ram_banks 4
      | mbc3 ↦ leb rom_banks 128 && leb external_ram_banks 4
      | mbc5 ↦
          if features.has_rumble
          then leb rom_banks 512 && leb external_ram_banks 8
          else leb rom_banks 512 && leb external_ram_banks 16
    ]

unfoldable pub validate_capacity : Features → ℕ → ℕ → Result (Unit {0})
unfolding is_within
validate_capacity features rom_banks ram_bytes =
    if is_within features rom_banks ram_bytes then ok tt else err (invalid_rom capacity)

-- a number of bytes from an offset, which the image has
unfoldable pub bytes_from : List ℕ → ℕ → ℕ → List ℕ
bytes_from rom offset zero = []
bytes_from rom offset (suc n) = get_or rom offset 0 ∷ bytes_from rom (offset + 1) n

-- the checksum's `fold`
unfoldable pub checksum_from : ℕ → List ℕ → ℕ
checksum_from sum [] = sum
checksum_from sum (byte ∷ bytes) = checksum_from (sub8_wrap (sub8_wrap sum byte) 1) bytes

unfoldable pub header_checksum_of : List ℕ → ℕ
unfolding bytes_from checksum_from
header_checksum_of rom = checksum_from 0 (bytes_from rom 0x0134 25)

-- the bytes before the first zero
unfoldable pub before_zero : List ℕ → List ℕ
before_zero [] = []
before_zero (byte ∷ bytes) = let rest = before_zero bytes in if byte == 0 then [] else byte ∷ rest

-- `{byte:02x}` for each byte
unfoldable pub hex_digit : ℕ → ℕ
hex_digit n = if ltb n 10 then 48 + n else 87 + n

unfoldable pub hex : List ℕ → List ℕ
unfolding hex_digit
hex [] = []
hex (byte ∷ bytes) = hex_digit (byte / 16) ∷ hex_digit (byte % 16) ∷ hex bytes

-- the error of a check that fails
abbrev pub require : Bool → pockiva.Contracts.Reason → Result (Unit {0})
require holds reason = if holds then ok tt else err (invalid_rom reason)

unfoldable pub compatibility_of : ℕ → Result CompatibilityMode
compatibility_of flag =
    if flag == 0xc0
    then err unsupported_cgb_only_cartridge
    else if flag == 0x80
    then ok dmg_compatible
    else ok dmg

-- `rom[index]`, and `&rom[first..end]`: they panic out of range.
unfoldable pub byte_at : List ℕ → ℕ → Result ℕ
byte_at rom index = elim (get_elem? rom index) [ none ↦ panic | some byte ↦ ok byte ]

unfoldable pub slice : List ℕ → ℕ → ℕ → Result (List ℕ)
unfolding bytes_from
slice rom first end =
    if leb end (length rom) && leb first end then ok (bytes_from rom first (end - first)) else panic

unfoldable pub title_end : ℕ → ℕ
title_end flag = if flag == 0x80 || flag == 0xc0 then 0x0143 else 0x0144

module _ (digest : List ℕ → List ℕ) (text_of : List ℕ → List ℕ) where
  unfoldable pub header_of : List ℕ → CompatibilityMode → Features → ℕ → ℕ → List ℕ → Header
  unfolding before_zero hex
  header_of rom compatibility found banks ram title_bytes = record {
    metadata = record {
      title = text_of (before_zero title_bytes);
      rom_identity = hex (digest rom);
      mapper = found.mapper;
      compatibility = compatibility;
      ram_size_bytes = ram;
      has_battery = found.has_battery;
    };
    features = found;
    rom_banks = banks;
    ram_bytes = ram;
  }

  -- The checks from the checksum on.
  unfoldable pub finish_parse : List ℕ → CompatibilityMode → Features → ℕ → ℕ → Result Header
  unfolding slice checksum_from byte_at validate_capacity title_end header_of
  finish_parse rom compatibility found banks ram = slice rom 0x0134 0x014d >>= λ bytes.
      byte_at rom 0x014d >>= λ stored.
      require (checksum_from 0 bytes == stored) header_checksum
      >> (require (ram == 0 || found.has_ram) ram_without_type
          >> (validate_capacity found banks ram
              >> (byte_at rom 0x0143 >>= λ flag.
                  slice rom 0x0134 (title_end flag) >>= λ title_bytes.
                  ok (header_of rom compatibility found banks ram title_bytes))))

  unfoldable pub parse : List ℕ → Result Header
  unfolding byte_at features rom_banks ram_bytes compatibility_of finish_parse
  parse rom =
      require (leb 0x150 (length rom)) short_image
      >> (byte_at rom 0x0143 >>= λ flag. compatibility_of flag >>= λ compatibility.
          byte_at rom 0x0147 >>= λ type_byte. features type_byte >>= λ found.
          byte_at rom 0x0148 >>= λ rom_code. rom_banks rom_code >>= λ banks.
          byte_at rom 0x0149 >>= λ ram_code. ram_bytes ram_code >>= λ ram.
          require (length rom == banks * 0x4000) image_length
          >> finish_parse rom compatibility found banks ram)
