-- ===== src/Cartridge/Parsed.antt =====
-- What an image that `header::parse` accepts is: crates/gb-core/src/cartridge/header.rs.
use pockiva.Prelude.{ℕ, ◌*◌, ◌≤◌, ◌≡◌, ◌⊎◌, true, List, length, get_or}
use pockiva.Cartridge.Header.{Header, rom_banks, ram_bytes, features, is_within, header_checksum_of}
use pockiva.Cartridge.Yields.{Yields}

-- The header that is accepted for an image.
pub record IsAccepted (rom : List ℕ) (header : Header) : Type 0 where
  pub whole : length rom ≡ header.rom_banks * 0x4000
  pub two_banks : 2 ≤ header.rom_banks
  pub checksum : header_checksum_of rom ≡ get_or rom 0x014d 0
  pub ram_known : (header.ram_bytes ≡ 0) ⊎ (header.features.has_ram ≡ true)
  pub fits : is_within header.features header.rom_banks header.ram_bytes ≡ true
  pub same_mapper : header.metadata.mapper ≡ header.features.mapper
  pub same_ram : header.metadata.ram_size_bytes ≡ header.ram_bytes
