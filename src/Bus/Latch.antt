-- ===== src/Bus/Latch.antt =====
-- A mapper and units that keep one byte each, for the tests of the bus and of the machine on it.
use pockiva.Prelude.{ℕ, ◌%◌, false, none, arith}
use pockiva.Interrupts.{no_interrupt}
use pockiva.Bus.Devices.{Mapper, VideoDevice, AudioDevice, DeviceLaws, MachineBus}
use pockiva.Bus.Cycle.{new}

-- Each of the three keeps the last value written to it.
abbrev pub latch_mapper : Mapper ℕ
latch_mapper = record {
  read_rom = λ m address. address % 256;
  write_rom = λ m address value now. value;
  read_ram = λ m address now. m % 256;
  write_ram = λ m address value now. value;
  reset = λ m now. 0;
  battery_state = λ m now. none;
}

abbrev pub latch_video : VideoDevice ℕ
latch_video = record {
  read = λ v address. v % 256;
  write = λ v address value. (value, no_interrupt);
  dma_write_oam = λ v index value. value;
  tick = λ v t_cycles. (v, no_interrupt);
  frame_ready = λ v. false;
  take_frame = λ v. (none, v);
  post_boot_dmg = 0;
}

abbrev pub latch_audio : AudioDevice ℕ
latch_audio = record {
  read = λ a address. a % 256;
  write = λ a address value. value;
  tick = λ a t_cycles. (a, no_interrupt);
  stereo_frames_available = λ a. 0;
  new = 0;
}

pub latch-DeviceLaws : DeviceLaws latch_mapper latch_video latch_audio
latch-DeviceLaws = record {
  rom_u8 = λ m address. omega arith;
  ram_u8 = λ m address now. omega arith;
  video_u8 = λ v address. omega arith;
  audio_u8 = λ a address. omega arith;
}

abbrev pub fresh : MachineBus ℕ ℕ ℕ
fresh = new latch_mapper latch_video latch_audio 0 100
