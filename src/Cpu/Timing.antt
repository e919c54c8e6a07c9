-- ===== src/Cpu/Timing.antt =====
-- The clocks of the processor: those of its accesses, of the padding and of the prediction.
pub mod Access
pub mod Blocks
pub mod Branches
pub mod Padding
pub mod Dispatch
pub mod Overrun
pub mod Predict
