-- ===== src/Ppu.antt =====
-- crates/gb-core/src/ppu: the picture processing unit of the original Game Boy.
pub mod Registers
pub mod State
pub mod Sprite
pub mod Render
pub mod Timing
pub mod Unit
pub mod Frames
pub mod Drawing
pub mod Modes
pub mod Timed
pub mod Selection
pub mod Access
pub mod Locked
pub mod Pixels
pub mod Tiles
pub mod Oam
mod Tests
