-- ===== src/Bus/Fields.antt =====
-- The range of what `MachineBus` of crates/gb-core/src/bus/mod.rs keeps, field by field, and what it
-- reads.
use pockiva.Prelude.{
  ℕ, zero, suc, ◌-◌, ◌<◌, bit_or, List, [], ◌∷◌, arith, ◌==◌, within, get_or, set, replicate,
  if-holds,
}
use pockiva.Prelude.Bits.{bit_and-le, bit_or-lt}
use pockiva.Interrupts.{InterruptRegisters, read_if, read_ie}
use pockiva.Joypad.{JoypadRegister}
use pockiva.Joypad.Register
use pockiva.Timer.{Timer}
use pockiva.Timer.Valid
use pockiva.Bus.Dma.{OamDma}
use pockiva.Bus.Serial
use pockiva.Bus.Serial.{SerialPort}
use pockiva.Bus.Devices.{Mapper, VideoDevice, AudioDevice, DeviceLaws, MachineBus, read_cartridge}
use pockiva.Bus.Map.{in_cartridge, in_video, read_unclocked}

pub AllBytes : List ℕ → Type 0
AllBytes [] = Unit {0}
AllBytes (x ∷ xs) = (x < 256) × AllBytes xs

pub AllBytes-set : (xs : List ℕ) (i v : ℕ) → v < 256 → AllBytes xs → AllBytes (set xs i v)
unfolding AllBytes
AllBytes-set [] i v h all = tt
AllBytes-set (x ∷ xs) zero v h all = (h, all.1)
AllBytes-set (x ∷ xs) (suc i) v h all = (all.0, AllBytes-set xs i v h all.1)

pub AllBytes-get_or : (xs : List ℕ) (i : ℕ) → AllBytes xs → get_or xs i 0 < 256
unfolding AllBytes
AllBytes-get_or [] i all = omega arith
AllBytes-get_or (x ∷ xs) zero all = all.0
AllBytes-get_or (x ∷ xs) (suc i) all = AllBytes-get_or xs i all.1

pub AllBytes-replicate : (n : ℕ) → AllBytes (replicate n 0)
unfolding AllBytes
AllBytes-replicate zero = tt
AllBytes-replicate (suc n) = (omega arith, AllBytes-replicate n)

pub record SerialIsValid (p : SerialPort) : Type 0 where
  pub data_u8 : p.data_byte < 256
  pub control_u8 : p.control < 256

pub serial_read-lt : (p : SerialPort) (address : ℕ) → SerialIsValid p → Serial.read p address < 256
unfolding Serial.read
serial_read-lt p address v = ground (arith, bit_or-lt 8 p.control 0x7e)

pub serial_write-IsValid :
    (p : SerialPort) (address value : ℕ)
    → value < 256
    → SerialIsValid p
    → SerialIsValid (Serial.write p address value).0
unfolding Serial.write
serial_write-IsValid p address value h v = ground (arith, bit_and-le value 0x7f)

-- The memory, the joypad register, the timer, the serial port, and the enabled and requested
-- interrupts.
unfoldable pub IsValid : {M V A : Type 0} → MachineBus M V A → Type 0
IsValid b =
    AllBytes b.wram
    × AllBytes b.hram
    × Register.IsValid b.joypad
    × Valid.IsValid b.timer
    × SerialIsValid b.serial
    × (b.interrupts.enable < 32)
    × (b.interrupts.flags < 32)

abbrev pub IsByte : ℕ → Type 0
IsByte x = x < 256

pub ff-IsByte : IsByte 0xff
ff-IsByte = omega arith

pub mask-IsByte : {x : ℕ} → x < 32 → IsByte x
mask-IsByte h = omega arith

pub read_if-IsByte : (flags : ℕ) → flags < 32 → IsByte (bit_or 0xe0 flags)
read_if-IsByte flags h = bit_or-lt 8 0xe0 flags (omega arith) (mask-IsByte h)

module _ {M V A : Type 0} (mapper : Mapper M) (video : VideoDevice V) (audio : AudioDevice A) where
  pub read_cartridge-lt :
      (m : M) (address now : ℕ)
      → DeviceLaws mapper video audio
      → read_cartridge mapper m address now < 256
  unfolding read_cartridge
  read_cartridge-lt m address now laws =
      if-holds IsByte (within 0x0000 0x7fff address) (laws.rom_u8 m address)
        (if-holds IsByte (within 0xa000 0xbfff address) (laws.ram_u8 m address now) ff-IsByte)

  -- Every address reads as a byte.
  pub read_unclocked-lt :
      (b : MachineBus M V A) (address : ℕ)
      → DeviceLaws mapper video audio
      → IsValid b
      → read_unclocked mapper video audio b address < 256
  unfolding read_unclocked read_if read_ie IsValid
  read_unclocked-lt b address laws (wram, hram, keys, clock, port, enabled, flags) =
      if-holds IsByte (in_cartridge address)
        (read_cartridge-lt b.cartridge address b.now_unix_seconds laws)
        (if-holds IsByte (in_video address) (laws.video_u8 b.video address) (
          if-holds IsByte (within 0xc000 0xdfff address)
            (AllBytes-get_or b.wram (address - 0xc000) wram)
            (if-holds IsByte (within 0xe000 0xfdff address)
              (AllBytes-get_or b.wram (address - 0xe000) wram)
              (if-holds IsByte (address == 0xff00) (Register.read-lt b.joypad keys) (
                if-holds IsByte (within 0xff01 0xff02 address)
                  (serial_read-lt b.serial address port)
                  (if-holds IsByte (within 0xff04 0xff07 address)
                    (Valid.read-lt b.timer address clock)
                    (if-holds IsByte (address == 0xff0f) (read_if-IsByte b.interrupts.flags flags) (
                      if-holds IsByte (within 0xff10 0xff3f address) (laws.audio_u8 b.audio address)
                        (if-holds IsByte (within 0xff80 0xfffe address)
                          (AllBytes-get_or b.hram (address - 0xff80) hram)
                          (if-holds IsByte (address == 0xffff) (mask-IsByte enabled)
                            ff-IsByte))))))))))

module _ {M V A : Type 0} where
  pub wram-IsValid :
      (b : MachineBus M V A) (w : List ℕ) → AllBytes w → IsValid b → IsValid (record b { wram = w })
  unfolding IsValid
  wram-IsValid b w h v = (h, v.1, v.2, v.3, v.4, v.5, v.6)

  pub hram-IsValid :
      (b : MachineBus M V A) (w : List ℕ) → AllBytes w → IsValid b → IsValid (record b { hram = w })
  unfolding IsValid
  hram-IsValid b w h v = (v.0, h, v.2, v.3, v.4, v.5, v.6)

  pub joypad-IsValid :
      (b : MachineBus M V A) (r : JoypadRegister)
      → Register.IsValid r
      → IsValid b
      → IsValid (record b { joypad = r })
  unfolding IsValid
  joypad-IsValid b r h v = (v.0, v.1, h, v.3, v.4, v.5, v.6)

  pub timer-IsValid :
      (b : MachineBus M V A) (t : Timer) (a : A) (elapsed : ℕ)
      → Valid.IsValid t
      → IsValid b
      → IsValid (record b { timer = t; audio = a; elapsed_t_cycles = elapsed })
  unfolding IsValid
  timer-IsValid b t a elapsed h v = (v.0, v.1, v.2, h, v.4, v.5, v.6)

  pub serial-IsValid :
      (b : MachineBus M V A) (p : SerialPort)
      → SerialIsValid p
      → IsValid b
      → IsValid (record b { serial = p })
  unfolding IsValid
  serial-IsValid b p h v = (v.0, v.1, v.2, v.3, h, v.5, v.6)

  pub interrupts-IsValid :
      (b : MachineBus M V A) (r : InterruptRegisters)
      → r.enable < 32
      → r.flags < 32
      → IsValid b
      → IsValid (record b { interrupts = r })
  unfolding IsValid
  interrupts-IsValid b r h k v = (v.0, v.1, v.2, v.3, v.4, h, k)

  -- The cartridge, the units and the transfer have no part in it.
  pub others-IsValid :
      (b : MachineBus M V A) (m : M) (d : OamDma) (v' : V) (a : A)
      → IsValid b
      → IsValid (record b { cartridge = m; dma = d; video = v'; audio = a })
  unfolding IsValid
  others-IsValid b m d v' a v = v

  pub opened :
      (b : MachineBus M V A)
      → IsValid b
      → AllBytes b.wram
        × AllBytes b.hram
        × Register.IsValid b.joypad
        × Valid.IsValid b.timer
        × SerialIsValid b.serial
        × (b.interrupts.enable < 32)
        × (b.interrupts.flags < 32)
  unfolding IsValid
  opened b v = v

  pub enable_lt : (b : MachineBus M V A) → IsValid b → b.interrupts.enable < 32
  enable_lt b v = (opened b v).5
