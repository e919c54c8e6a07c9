-- ===== src/Bus.antt =====
-- crates/gb-core/src/bus: the memory map, the order of a machine cycle and the gate that an OAM
-- transfer closes. The cartridge's mapper and the picture and audio units are trait objects in the
-- source, and records of their operations here.
pub mod Dma
pub mod Serial
pub mod Devices
pub mod Map
pub mod Cycle
pub mod Fields
pub mod Valid
pub mod Clocked
pub mod Memory
pub mod Oam
pub mod Latch
mod Tests
