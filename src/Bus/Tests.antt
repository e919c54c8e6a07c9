-- ===== src/Bus/Tests.antt =====
-- A byte sent by an empty port, and buses over small units and over the picture unit.
use pockiva.Prelude.{
  ℕ, ◌≡◌, ◌+◌, ◌*◌, ltb, min, get_or, refl, false, ◌∷◌, [], if◌then◌else◌, ◌==◌, length, arith,
}
use pockiva.Cpu.Timing.Access.{ClockLaws}
use pockiva.Bus.Dma.{start}
use pockiva.Bus.Devices.{MachineBus}
use pockiva.Bus.Oam.{m_cycles, m_cycles-start}
use pockiva.Ppu.State.{Ppu}
use pockiva.Ppu.Unit.{video_device}
use pockiva.Ppu.Oam.{ppu_oam_laws}
use pockiva.Bus.Latch.{latch_mapper, latch_video, latch_audio, latch-DeviceLaws, fresh}
use pockiva.Bus.Cycle.{new, peek8, write8}
use pockiva.Bus.Clocked.{machine_bus, machine_bus-ClockLaws}
use pockiva.Bus.Memory.{work_cell, peek8-write8}

machine_bus-ClockLaws_example : ClockLaws (machine_bus latch_mapper latch_video latch_audio)
machine_bus-ClockLaws_example =
    machine_bus-ClockLaws latch_mapper latch_video latch_audio latch-DeviceLaws

fresh-idle : fresh.dma.active ≡ false
unfolding new
fresh-idle = refl

fresh-length : length fresh.wram ≡ 0x2000
unfolding new
fresh-length = refl

-- What is written to the echo at 0xe010 is read in work RAM at 0xc010.
peek8-write8_example :
    peek8 latch_mapper latch_video latch_audio
      (write8 latch_mapper latch_video latch_audio fresh 0xe010 0x5a)
      0xc010
    ≡ (if work_cell 0xe010 == work_cell 0xc010
        then 0x5a
        else peek8 latch_mapper latch_video latch_audio fresh 0xc010)
peek8-write8_example =
    peek8-write8 latch_mapper latch_video latch_audio fresh 0xe010 0xc010 0x5a fresh-idle
      fresh-length (omega arith, omega arith) (omega arith, omega arith)

-- A bus whose picture unit is the console's own, with two bytes in work RAM.
abbrev with_ppu : MachineBus ℕ Ppu ℕ
with_ppu = record (new latch_mapper video_device latch_audio 0 100) { wram = 7 ∷ 8 ∷ [] }

m_cycles-start_example :
    (m_cycles latch_mapper video_device latch_audio 2
        (record with_ppu { dma = start with_ppu.dma 0xc0 })).video.oam
      1
    ≡ (if ltb 1 (min 2 160)
        then get_or with_ppu.wram (work_cell (0xc0 * 256 + 1)) 0
        else with_ppu.video.oam 1)
unfolding ppu_oam_laws
m_cycles-start_example =
    m_cycles-start latch_mapper video_device latch_audio ppu_oam_laws 2 with_ppu 0xc0 1
      (omega arith) (omega arith)
