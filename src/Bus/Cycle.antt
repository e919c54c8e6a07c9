-- ===== src/Bus/Cycle.antt =====
-- `tick_m_cycle` and the implementation of `CpuBus` in crates/gb-core/src/bus/mod.rs.
use pockiva.Prelude.{
  ℕ, ◌+◌, Bool, not, ◌&&◌, ◌||◌, none, some, ◌==◌, within, if◌then◌else◌, replicate,
}
use pockiva.Interrupts.{Interrupt, InterruptMask, union, pending, acknowledge, default_registers}
use pockiva.Joypad.{JoypadState, set_state, default_register}
use pockiva.Timer
use pockiva.Timer.{default_timer}
use pockiva.Bus.Dma.{next_address, advance, default_dma}
use pockiva.Bus.Serial.{default_port}
use pockiva.Bus.Devices.{Mapper, VideoDevice, AudioDevice, MachineBus}
use pockiva.Bus.Map.{read_unclocked, request_on, write_unclocked}

-- high RAM, which the processor reaches during a transfer
abbrev pub in_hram : ℕ → Bool
in_hram address = within 0xff80 0xfffe address

module _ {M V A : Type 0} (mapper : Mapper M) (video : VideoDevice V) (audio : AudioDevice A) where
  -- The byte that a running transfer copies in a cycle.
  unfoldable pub transfer : MachineBus M V A → MachineBus M V A
  unfolding next_address advance
  transfer b = elim (next_address b.dma) [
    | none ↦ b
    | some (source, index) ↦
        let value = read_unclocked mapper video audio b source in
        record b { video = video.dma_write_oam b.video index value; dma = advance b.dma }
  ]

  unfoldable pub tick_m_cycle : MachineBus M V A → MachineBus M V A
  unfolding request_on
  tick_m_cycle b =
      let (timer', timer_requests) = Timer.tick 4 b.timer in
      let b1 = transfer (record b { elapsed_t_cycles = b.elapsed_t_cycles + 4; timer = timer' }) in
      let (video', video_requests) = video.tick b1.video 4 in
      let (audio', audio_requests) = audio.tick b1.audio 4 in
      request_on mapper video audio (record b1 { video = video'; audio = audio' })
        (union (union timer_requests video_requests) audio_requests)

  unfoldable pub peek8 : MachineBus M V A → ℕ → ℕ
  peek8 b address =
      if b.dma.active && not (in_hram address)
      then 0xff
      else read_unclocked mapper video audio b address

  unfoldable pub read8 : MachineBus M V A → ℕ → ℕ × MachineBus M V A
  unfolding peek8
  read8 b address = (
    if b.dma.active && not (in_hram address)
        then 0xff
        else read_unclocked mapper video audio b address,
    tick_m_cycle b,
  )

  -- `allowed`, and a write that comes before the cycle
  abbrev pub is_allowed : MachineBus M V A → ℕ → Bool
  is_allowed b address = not b.dma.active || (in_hram address || address == 0xff46)

  abbrev pub is_early : ℕ → Bool
  is_early address =
      within 0xff04 0xff07 address || (within 0x8000 0x9fff address || within 0xfe00 0xfe9f address)

  unfoldable pub write8 : MachineBus M V A → ℕ → ℕ → MachineBus M V A
  write8 b address value =
      let allowed = is_allowed b address in
      if allowed && is_early address
      then tick_m_cycle (write_unclocked mapper video audio b address value)
      else if allowed
      then write_unclocked mapper video audio (tick_m_cycle b) address value
      else tick_m_cycle b

  unfoldable pub pending_interrupts : MachineBus M V A → InterruptMask
  unfolding pending
  pending_interrupts b = pending b.interrupts

  unfoldable pub acknowledge_interrupt : MachineBus M V A → Interrupt → MachineBus M V A
  unfolding acknowledge
  acknowledge_interrupt b i = record b { interrupts = acknowledge b.interrupts i }

  unfoldable pub reset_divider : MachineBus M V A → MachineBus M V A
  unfolding request_on
  reset_divider b =
      let (timer', requested) = Timer.write b.timer 0xff04 0 in
      request_on mapper video audio
        (record b { timer = timer'; audio = audio.write b.audio 0xff04 0 }) requested

  unfoldable pub set_unix_seconds : MachineBus M V A → ℕ → MachineBus M V A
  set_unix_seconds b now = record b { now_unix_seconds = now }

  unfoldable pub set_joypad_state : MachineBus M V A → JoypadState → MachineBus M V A
  unfolding request_on
  set_joypad_state b state =
      let (joypad', requested) = set_state b.joypad state in
      request_on mapper video audio (record b { joypad = joypad' }) requested

  -- `MachineBus::new`
  unfoldable pub new : M → ℕ → MachineBus M V A
  new cartridge now = record {
    cartridge = cartridge;
    wram = replicate 0x2000 0;
    hram = replicate 0x7f 0;
    joypad = default_register;
    timer = default_timer;
    interrupts = default_registers;
    dma = default_dma;
    video = video.post_boot_dmg;
    audio = audio.new;
    serial = default_port;
    now_unix_seconds = now;
    elapsed_t_cycles = 0;
  }

  unfoldable pub reset : MachineBus M V A → ℕ → JoypadState → MachineBus M V A
  unfolding set_joypad_state new
  reset b now state = set_joypad_state (new (mapper.reset b.cartridge now) now) state
