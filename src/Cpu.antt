-- ===== src/Cpu.antt =====
-- crates/gb-core/src/cpu: the SM83 processor.
pub mod Registers
pub mod Arithmetic
pub mod Decode
pub mod State
pub mod Alu
pub mod Execute
pub mod Step
pub mod Timing
mod Tests
