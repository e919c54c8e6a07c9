-- ===== src/Desktop.antt =====
-- apps/desktop/src-tauri/src: the desktop application around the core.
pub mod FrameQueue
pub mod Delivery
pub mod Pacing
pub mod AudioQueue
pub mod Flushed
pub mod Packet
pub mod Lifecycle
pub mod Controllers
pub mod Retained
pub mod Cancelled
pub mod Departed
pub mod Released
pub mod Worker
pub mod Commands
pub mod Phases
pub mod Answers
mod Tests
mod AudioTests
