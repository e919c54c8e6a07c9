-- ===== src/Cartridge.antt =====
-- crates/gb-core/src/cartridge: the memory bank controllers.
pub mod Mapper
pub mod RomOnly
pub mod Mbc1
pub mod Rtc
pub mod Mbc3
pub mod Mbc5
pub mod Banks
pub mod Ram
pub mod Clock
pub mod Setting
pub mod Header
pub mod Load
pub mod Yields
pub mod Made
pub mod Parsed
pub mod Loaded
mod Tests
mod LoadTests
