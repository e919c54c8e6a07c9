-- ===== src/Bus/Map.antt =====
-- `read_unclocked` and `write_unclocked` of crates/gb-core/src/bus/mod.rs: the memory map.
use pockiva.Prelude.{ℕ, ◌-◌, Bool, ◌||◌, ◌==◌, within, if◌then◌else◌, get_or, set}
use pockiva.Interrupts.{InterruptMask, no_interrupt, read_if, read_ie, write_if, write_ie, request}
use pockiva.Joypad
use pockiva.Timer
use pockiva.Bus.Dma.{start}
use pockiva.Bus.Serial
use pockiva.Bus.Devices.{
  Mapper, VideoDevice, AudioDevice, MachineBus, read_cartridge, write_cartridge,
}

-- the addresses that the cartridge and the picture unit answer
abbrev pub in_cartridge : ℕ → Bool
in_cartridge address = within 0x0000 0x7fff address || within 0xa000 0xbfff address

abbrev pub in_video : ℕ → Bool
in_video address =
    within 0x8000 0x9fff address || (within 0xfe00 0xfe9f address || within 0xff40 0xff4b address)

module _ {M V A : Type 0} (mapper : Mapper M) (video : VideoDevice V) (audio : AudioDevice A) where
  -- The arrays have the length of their range, so the value of `get_or` out of range is not used.
  unfoldable pub read_unclocked : MachineBus M V A → ℕ → ℕ
  read_unclocked b address =
      if in_cartridge address
      then read_cartridge mapper b.cartridge address b.now_unix_seconds
      else if in_video address
      then video.read b.video address
      else if within 0xc000 0xdfff address
      then get_or b.wram (address - 0xc000) 0
      else if within 0xe000 0xfdff address
      then get_or b.wram (address - 0xe000) 0
      else if address == 0xff00
      then Joypad.read b.joypad
      else if within 0xff01 0xff02 address
      then Serial.read b.serial address
      else if within 0xff04 0xff07 address
      then Timer.read b.timer address
      else if address == 0xff0f
      then read_if b.interrupts
      else if within 0xff10 0xff3f address
      then audio.read b.audio address
      else if within 0xff80 0xfffe address
      then get_or b.hram (address - 0xff80) 0
      else if address == 0xffff
      then read_ie b.interrupts
      else 0xff

  -- What a write changes, and the interrupts that it requests.
  unfoldable pub route_write : MachineBus M V A → ℕ → ℕ → MachineBus M V A × InterruptMask
  route_write b address value =
      if in_cartridge address
      then (
        record b {
          cartridge = write_cartridge mapper b.cartridge address value b.now_unix_seconds;
        },
        no_interrupt,
      )
      else if in_video address
      then (let (video', requested) = video.write b.video address value in
          (
            record b {
              video = video';
              dma = if address == 0xff46 then start b.dma value else b.dma;
            },
            requested,
          ))
      else if within 0xc000 0xdfff address
      then (record b { wram = set b.wram (address - 0xc000) value }, no_interrupt)
      else if within 0xe000 0xfdff address
      then (record b { wram = set b.wram (address - 0xe000) value }, no_interrupt)
      else if address == 0xff00
      then (let (joypad', requested) = Joypad.write b.joypad value in
          (record b { joypad = joypad' }, requested))
      else if within 0xff01 0xff02 address
      then (let (serial', requested) = Serial.write b.serial address value in
          (record b { serial = serial' }, requested))
      else if address == 0xff04
      then (let (timer', requested) = Timer.write b.timer address value in
          (record b { timer = timer'; audio = audio.write b.audio address 0 }, requested))
      else if within 0xff05 0xff07 address
      then (let (timer', requested) = Timer.write b.timer address value in
          (record b { timer = timer' }, requested))
      else if address == 0xff0f
      then (record b { interrupts = write_if b.interrupts value }, no_interrupt)
      else if within 0xff10 0xff3f address
      then (record b { audio = audio.write b.audio address value }, no_interrupt)
      else if within 0xff80 0xfffe address
      then (record b { hram = set b.hram (address - 0xff80) value }, no_interrupt)
      else if address == 0xffff
      then (record b { interrupts = write_ie b.interrupts value }, no_interrupt)
      else (b, no_interrupt)

  unfoldable pub request_on : MachineBus M V A → InterruptMask → MachineBus M V A
  unfolding request
  request_on b requested = record b { interrupts = request b.interrupts requested }

  unfoldable pub write_unclocked : MachineBus M V A → ℕ → ℕ → MachineBus M V A
  unfolding request_on
  write_unclocked b address value =
      let (b', requested) = route_write b address value in request_on b' requested
