-- ===== src/Bus/Valid.antt =====
-- The ranges of what the bus keeps: its memory, its devices' registers and the interrupts.
use pockiva.Prelude.{
  ℕ, ◌+◌, ◌-◌, ◌<◌, bit_or, not, ◌&&◌, Option, none, some, arith, ◌==◌, within, set, if-holds,
}
use pockiva.Interrupts.{
  Interrupt, InterruptMask, union, without, request, acknowledge, write_if, write_ie,
}
use pockiva.Interrupts.Laws.{from_bits-lt}
use pockiva.Joypad
use pockiva.Joypad.{JoypadState, JoypadRegister}
use pockiva.Joypad.Register
use pockiva.Timer
use pockiva.Timer.{Timer}
use pockiva.Timer.Valid
use pockiva.Bus.Dma.{advance, next_address}
use pockiva.Bus.Serial
use pockiva.Bus.Serial.{SerialPort}
use pockiva.Bus.Devices.{Mapper, VideoDevice, AudioDevice, DeviceLaws, MachineBus}
use pockiva.Bus.Map.{
  in_cartridge, in_video, read_unclocked, route_write, request_on, write_unclocked,
}
use pockiva.Bus.Cycle.{
  in_hram, is_allowed, is_early, transfer, tick_m_cycle, peek8, write8, acknowledge_interrupt,
  reset_divider, set_unix_seconds, set_joypad_state, new, reset,
}
use pockiva.Bus.Fields.{
  AllBytes-set, AllBytes-replicate, serial_write-IsValid, IsValid, IsByte, ff-IsByte,
  read_unclocked-lt, wram-IsValid, hram-IsValid, joypad-IsValid, timer-IsValid, serial-IsValid,
  interrupts-IsValid, others-IsValid, opened, enable_lt,
}

module _ {M V A : Type 0} (mapper : Mapper M) (video : VideoDevice V) (audio : AudioDevice A) where
  request_on-IsValid :
      (b : MachineBus M V A) (mask : InterruptMask)
      → IsValid b
      → IsValid (request_on mapper video audio b mask)
  unfolding request_on request union
  request_on-IsValid b mask v =
      interrupts-IsValid b (request b.interrupts mask) (enable_lt b v)
        (from_bits-lt (bit_or b.interrupts.flags mask)) v

  abbrev LeavesValid : MachineBus M V A × InterruptMask → Type 0
  LeavesValid r = IsValid r.0

  route_write-IsValid :
      (b : MachineBus M V A) (address value : ℕ)
      → value < 256
      → IsValid b
      → LeavesValid (route_write mapper video audio b address value)
  unfolding route_write write_if write_ie
  route_write-IsValid b address value h v =
      let parts = opened b v in
      let wram' : (i : ℕ) → IsValid (record b { wram = set b.wram i value }) =
        λ i. wram-IsValid b (set b.wram i value) (AllBytes-set b.wram i value h parts.0) v in
      let clock' : (a : A)
          → IsValid (record b { timer = (Timer.write b.timer address value).0; audio = a }) =
        λ a.
          timer-IsValid b (Timer.write b.timer address value).0 a b.elapsed_t_cycles
            (Valid.write-IsValid b.timer address value h parts.3) v in
      if-holds LeavesValid (in_cartridge address) (others-IsValid b _ b.dma b.video b.audio v) (
        if-holds LeavesValid (in_video address) (others-IsValid b b.cartridge _ _ b.audio v) (
          if-holds LeavesValid (within 0xc000 0xdfff address) (wram' (address - 0xc000)) (
            if-holds LeavesValid (within 0xe000 0xfdff address) (wram' (address - 0xe000)) (
              if-holds LeavesValid (address == 0xff00)
                (joypad-IsValid b (Joypad.write b.joypad value).0
                  (Register.write-IsValid b.joypad value h parts.2) v)
                (if-holds LeavesValid (within 0xff01 0xff02 address)
                  (serial-IsValid b (Serial.write b.serial address value).0
                    (serial_write-IsValid b.serial address value h parts.4) v)
                  (if-holds LeavesValid (address == 0xff04) (clock' (audio.write b.audio address 0))
                    (if-holds LeavesValid (within 0xff05 0xff07 address) (clock' b.audio) (
                      if-holds LeavesValid (address == 0xff0f)
                        (interrupts-IsValid b (write_if b.interrupts value) (enable_lt b v)
                          (from_bits-lt value) v)
                        (if-holds LeavesValid (within 0xff10 0xff3f address)
                          (others-IsValid b b.cartridge b.dma b.video _ v)
                          (if-holds LeavesValid (within 0xff80 0xfffe address)
                            (hram-IsValid b _
                              (AllBytes-set b.hram (address - 0xff80) value h parts.1) v)
                            (if-holds LeavesValid (address == 0xffff)
                              (interrupts-IsValid b (write_ie b.interrupts value)
                                (from_bits-lt value) parts.6 v)
                              v)))))))))))

  -- A write of a byte keeps the ranges.
  pub write_unclocked-IsValid :
      (b : MachineBus M V A) (address value : ℕ)
      → value < 256
      → IsValid b
      → IsValid (write_unclocked mapper video audio b address value)
  unfolding write_unclocked
  write_unclocked-IsValid b address value h v =
      request_on-IsValid (route_write mapper video audio b address value).0 _
        (route_write-IsValid b address value h v)

  transfer-IsValid : (b : MachineBus M V A) → IsValid b → IsValid (transfer mapper video audio b)
  unfolding transfer
  transfer-IsValid b v = by_place (next_address b.dma)
    where
      by_place :
          (place : Option (ℕ × ℕ))
          → IsValid (elim place [
            | none ↦ b
            | some (source, index) ↦
                let value = read_unclocked mapper video audio b source in
                record b { video = video.dma_write_oam b.video index value; dma = advance b.dma }
          ])
      by_place none = v
      by_place (some (source, index)) = others-IsValid b b.cartridge _ _ b.audio v

  -- A cycle keeps the ranges.
  pub tick_m_cycle-IsValid :
      (b : MachineBus M V A) → IsValid b → IsValid (tick_m_cycle mapper video audio b)
  unfolding tick_m_cycle
  tick_m_cycle-IsValid b v =
      let timer' = (Timer.tick 4 b.timer).0 in
      let b1 : MachineBus M V A = record b {
        elapsed_t_cycles = b.elapsed_t_cycles + 4;
        timer = timer';
      } in
      let v2 : IsValid (transfer mapper video audio b1) = transfer-IsValid b1 (
        timer-IsValid b timer' b.audio (b.elapsed_t_cycles + 4)
          (Valid.tick-IsValid 4 b.timer (opened b v).3) v) in
      request_on-IsValid _ _ (others-IsValid (transfer mapper video audio b1) _ _ _ _ v2)

  pub write8-IsValid :
      (b : MachineBus M V A) (address value : ℕ)
      → value < 256
      → IsValid b
      → IsValid (write8 mapper video audio b address value)
  unfolding write8
  write8-IsValid b address value h v =
      if-holds IsValid
        (is_allowed mapper video audio b address && is_early mapper video audio address)
        (tick_m_cycle-IsValid (write_unclocked mapper video audio b address value)
          (write_unclocked-IsValid b address value h v))
        (if-holds IsValid (is_allowed mapper video audio b address)
          (write_unclocked-IsValid (tick_m_cycle mapper video audio b) address value h
            (tick_m_cycle-IsValid b v))
          (tick_m_cycle-IsValid b v))

  pub peek8-lt :
      (b : MachineBus M V A) (address : ℕ)
      → DeviceLaws mapper video audio
      → IsValid b
      → peek8 mapper video audio b address < 256
  unfolding peek8
  peek8-lt b address laws v =
      if-holds IsByte (b.dma.active && not (in_hram address)) ff-IsByte
        (read_unclocked-lt mapper video audio b address laws v)

  pub acknowledge_interrupt-IsValid :
      (b : MachineBus M V A) (i : Interrupt)
      → IsValid b
      → IsValid (acknowledge_interrupt mapper video audio b i)
  unfolding acknowledge_interrupt acknowledge without
  acknowledge_interrupt-IsValid b i v =
      interrupts-IsValid b (acknowledge b.interrupts i) (enable_lt b v) (from_bits-lt _) v

  pub reset_divider-IsValid :
      (b : MachineBus M V A) → IsValid b → IsValid (reset_divider mapper video audio b)
  unfolding reset_divider
  reset_divider-IsValid b v = request_on-IsValid _ _ (
      timer-IsValid b (Timer.write b.timer 0xff04 0).0 (audio.write b.audio 0xff04 0)
        b.elapsed_t_cycles (Valid.write-IsValid b.timer 0xff04 0 (omega arith) (opened b v).3) v)

  pub set_joypad_state-IsValid :
      (b : MachineBus M V A) (state : JoypadState)
      → state < 256
      → IsValid b
      → IsValid (set_joypad_state mapper video audio b state)
  unfolding set_joypad_state
  set_joypad_state-IsValid b state h v = request_on-IsValid _ _ (
      joypad-IsValid b (Joypad.set_state b.joypad state).0
        (Register.set_state-IsValid b.joypad state h (opened b v).2) v)

  pub set_unix_seconds-IsValid :
      (b : MachineBus M V A) (now : ℕ)
      → IsValid b
      → IsValid (set_unix_seconds mapper video audio b now)
  unfolding set_unix_seconds IsValid
  set_unix_seconds-IsValid b now v = v

  -- A new bus is in range.
  pub new-IsValid : (cartridge : M) (now : ℕ) → IsValid (new mapper video audio cartridge now)
  unfolding new IsValid
  new-IsValid cartridge now = (
    AllBytes-replicate 0x2000,
    AllBytes-replicate 0x7f,
    Register.default_register-IsValid,
    Valid.default_timer-IsValid,
    omega arith,
    omega arith,
    omega arith,
  )

  pub reset-IsValid :
      (b : MachineBus M V A) (now : ℕ) (state : JoypadState)
      → state < 256
      → IsValid (reset mapper video audio b now state)
  unfolding reset
  reset-IsValid b now state h =
      set_joypad_state-IsValid (new mapper video audio (mapper.reset b.cartridge now) now) state h
        (new-IsValid (mapper.reset b.cartridge now) now)
