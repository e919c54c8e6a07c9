-- ===== src/Bus/Devices.antt =====
-- The traits `VideoDevice` and `AudioDevice` of crates/gb-core/src/bus/devices.rs, `Mapper` of
-- cartridge/mapper.rs with the dispatch of cartridge/mod.rs, and what the bus keeps.
use pockiva.Prelude.{ℕ, ◌<◌, Bool, Option, List, within, if◌then◌else◌}
use pockiva.Interrupts.{InterruptMask, InterruptRegisters}
use pockiva.Joypad.{JoypadRegister}
use pockiva.Contracts.{Frame}
use pockiva.Timer.{Timer}
use pockiva.Bus.Dma.{OamDma}
use pockiva.Bus.Serial.{SerialPort}
use pockiva.Cartridge.Mapper.{BatteryState}

-- The trait `Mapper`, at the moment of the call where that matters.
pub record Mapper (M : Type 0) : Type 0 where
  pub read_rom : M → ℕ → ℕ
  pub write_rom : M → ℕ → ℕ → ℕ → M
  pub read_ram : M → ℕ → ℕ → ℕ
  pub write_ram : M → ℕ → ℕ → ℕ → M
  pub reset : M → ℕ → M
  pub battery_state : M → ℕ → Option BatteryState

-- The trait `VideoDevice`; `TickEffects` is its one field.
pub record VideoDevice (V : Type 0) : Type 0 where
  pub read : V → ℕ → ℕ
  pub write : V → ℕ → ℕ → V × InterruptMask
  pub dma_write_oam : V → ℕ → ℕ → V
  pub tick : V → ℕ → V × InterruptMask
  pub frame_ready : V → Bool
  pub take_frame : V → Option Frame × V
  pub post_boot_dmg : V

-- The trait `AudioDevice`, without `drain_audio`, which hands the samples, floating-point numbers, on
-- to the caller of the machine.
pub record AudioDevice (A : Type 0) : Type 0 where
  pub read : A → ℕ → ℕ
  pub write : A → ℕ → ℕ → A
  pub tick : A → ℕ → A × InterruptMask
  pub stereo_frames_available : A → ℕ
  pub new : A

-- What the types of the traits say: they read bytes.
pub record DeviceLaws {M V A : Type 0} (mapper : Mapper M) (video : VideoDevice V)
    (audio : AudioDevice A) : Type 0 where
  pub rom_u8 : (m : M) (address : ℕ) → mapper.read_rom m address < 256
  pub ram_u8 : (m : M) (address now : ℕ) → mapper.read_ram m address now < 256
  pub video_u8 : (v : V) (address : ℕ) → video.read v address < 256
  pub audio_u8 : (a : A) (address : ℕ) → audio.read a address < 256

-- `Cartridge::read` and `Cartridge::write`
module _ {M : Type 0} (mapper : Mapper M) where
  unfoldable pub read_cartridge : M → ℕ → ℕ → ℕ
  read_cartridge m address now =
      if within 0x0000 0x7fff address
      then mapper.read_rom m address
      else if within 0xa000 0xbfff address
      then mapper.read_ram m address now
      else 0xff

  unfoldable pub write_cartridge : M → ℕ → ℕ → ℕ → M
  write_cartridge m address value now =
      if within 0x0000 0x7fff address
      then mapper.write_rom m address value now
      else if within 0xa000 0xbfff address
      then mapper.write_ram m address value now
      else m

pub record MachineBus (M V A : Type 0) : Type 0 where
  pub cartridge : M
  pub wram : List ℕ
  pub hram : List ℕ
  pub joypad : JoypadRegister
  pub timer : Timer
  pub interrupts : InterruptRegisters
  pub dma : OamDma
  pub video : V
  pub audio : A
  pub serial : SerialPort
  pub now_unix_seconds : ℕ
  pub elapsed_t_cycles : ℕ
