-- ===== src/Cartridge/LoadTests.antt =====
-- An image of two banks with a header that is accepted.
use pockiva.Prelude.{ℕ, ◌≡◌, refl, List, replicate, set}
use pockiva.Contracts.{Result, ok}
use pockiva.Cartridge.Header.{Header, parse}
use pockiva.Cartridge.Yields.{Yields}

-- Zeros, with the checksum of a header of zeros.
abbrev two_banks : List ℕ
two_banks = set (replicate 0x8000 0) 0x014d 231

abbrev same_bytes : List ℕ → List ℕ
same_bytes bytes = bytes

abbrev banks_of : Result Header → ℕ
banks_of (ok header) = header.rom_banks
banks_of _ = 0

two_banks-accepted : banks_of (parse same_bytes same_bytes two_banks) ≡ 2
unfolding parse pockiva.Cartridge.Header.compatibility_of pockiva.Cartridge.Header.features
    pockiva.Cartridge.Header.rom_banks pockiva.Cartridge.Header.ram_bytes
    pockiva.Cartridge.Header.byte_at pockiva.Cartridge.Header.slice
    pockiva.Cartridge.Header.title_end pockiva.Cartridge.Header.finish_parse
    pockiva.Cartridge.Header.header_of pockiva.Cartridge.Header.bytes_from
    pockiva.Cartridge.Header.checksum_from pockiva.Cartridge.Header.validate_capacity
    pockiva.Cartridge.Header.is_within
two_banks-accepted = refl
