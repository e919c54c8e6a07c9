-- ===== src/Cartridge/Loaded.antt =====
-- What a cartridge that `Cartridge::load` gives reads of its image: crates/gb-core/src/cartridge/mod.rs.
use pockiva.Prelude.{ℕ, ◌≡◌, some, List, get_elem?}
use pockiva.Cartridge.Mbc1
use pockiva.Cartridge.Mbc1.{Mbc1}
use pockiva.Cartridge.Mbc3
use pockiva.Cartridge.Mbc5
use pockiva.Cartridge.RomOnly
use pockiva.Cartridge.RomOnly.{RomOnly}
use pockiva.Cartridge.Header.{Header}
use pockiva.Cartridge.Load.{AnyMapper, read_rom}
use pockiva.Cartridge.Yields.{Yields}

-- A read gives the byte of the image at the address itself.
abbrev pub ReadsImage : List ℕ → AnyMapper → ℕ → Type 0
ReadsImage rom m address = get_elem? rom address ≡ some (read_rom m address)
