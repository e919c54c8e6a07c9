-- ===== src/Audio.antt =====
-- crates/gb-core/src/apu: the channels of the audio unit, with their counters.
pub mod Length
pub mod Envelope
pub mod Sweep
pub mod Pulse
pub mod Noise
pub mod Wave
pub mod Pcm
pub mod Unit
pub mod Device
pub mod Counting
pub mod Range
pub mod Channel
mod Tests
