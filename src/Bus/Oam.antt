-- ===== src/Bus/Oam.antt =====
-- What an OAM transfer copies: `MachineBus::tick_m_cycle` of crates/gb-core/src/bus/mod.rs over the
-- cycles after a start.
use pockiva.Prelude.{
  ℕ, zero, suc, ◌+◌, ◌-◌, ◌*◌, ◌<◌, ◌≤◌, ◌≡◌, refl, sym, ap, ◌∙◌, Bool, true, false, ◌&&◌, arith,
  ◌==◌, ltb, leb, min, if◌then◌else◌, get_or, bit_or, ◌^◌, Bool-cases, inl, inr, ==_iff, List,
}
use pockiva.Timer
use pockiva.Bus.Dma.{OamDma, start, next_address, running_at, joined, advance-running}
use pockiva.Bus.Devices.{Mapper, VideoDevice, AudioDevice, MachineBus}
use pockiva.Bus.Map.{read_unclocked, request_on}
use pockiva.Bus.Cycle.{transfer, tick_m_cycle}
use pockiva.Bus.Memory.{work_cell, read-work}

-- The sprites' memory of a picture unit: a transfer writes one byte of it, and a tick none.
pub record OamLaws {V : Type 0} (video : VideoDevice V) : Type 0 where
  pub oam : V → ℕ → ℕ
  pub oam-dma_write_oam :
      (v : V) (index value place : ℕ)
      → index < 160
      → oam (video.dma_write_oam v index value) place
        ≡ (if place == index then value else oam v place)
  pub oam-tick : (v : V) (t_cycles place : ℕ) → oam (video.tick v t_cycles).0 place ≡ oam v place

module _ {M V A : Type 0} (mapper : Mapper M) (video : VideoDevice V) (audio : AudioDevice A) where
  unfoldable pub m_cycles : ℕ → MachineBus M V A → MachineBus M V A
  unfolding tick_m_cycle
  m_cycles zero b = b
  m_cycles (suc n) b = m_cycles n (tick_m_cycle mapper video audio b)

  module _ (laws : OamLaws video) where
    -- The byte of a page of work RAM.
    abbrev page_byte : MachineBus M V A → ℕ → ℕ → ℕ
    page_byte b page i = get_or b.wram (work_cell (page * 256 + i)) 0

    abbrev at : MachineBus M V A → OamDma → MachineBus M V A
    at b dma = record b { dma = dma }

    tick-oam :
        (b : MachineBus M V A) (page i place : ℕ)
        → 0xc0 ≤ page
        → page ≤ 0xfd
        → i < 160
        → laws.oam (tick_m_cycle mapper video audio (at b (running_at page i))).video place
          ≡ (if place == i then page_byte b page i else laws.oam b.video place)
    unfolding tick_m_cycle transfer request_on next_address
    tick-oam b page i place low high h =
        let t : MachineBus M V A = record (at b (running_at page i)) {
          timer = (Timer.tick 4 b.timer).0;
          elapsed_t_cycles = b.elapsed_t_cycles + 4;
        } in
        laws.oam-tick _ 4 place
        ∙ laws.oam-dma_write_oam b.video i
            (read_unclocked mapper video audio t (bit_or (page * 2 ^ 8) i)) place h
        ∙ ap (λ (x : ℕ). if place == i then x else laws.oam b.video place)
            (ap (λ (a : ℕ). read_unclocked mapper video audio t a) (joined page i (omega arith) h)
              ∙ read-work mapper video audio t (page * 256 + i) (omega arith, omega arith))

    abbrev idle_at : ℕ → ℕ → OamDma
    idle_at page i = record { source_high = page; index = i; active = false }

    idle-oam :
        (n : ℕ) (b : MachineBus M V A) (page i place : ℕ)
        → laws.oam (m_cycles n (at b (idle_at page i))).video place ≡ laws.oam b.video place
    unfolding m_cycles tick_m_cycle transfer request_on next_address
    idle-oam zero b page i place = refl
    idle-oam (suc n) b page i place =
        idle-oam n (tick_m_cycle mapper video audio (at b (idle_at page i))) page i place
        ∙ laws.oam-tick b.video 4 place

    tick-dma :
        (b : MachineBus M V A) (page i : ℕ)
        → i < 160
        → (tick_m_cycle mapper video audio (at b (running_at page i))).dma ≡ record {
          source_high = page;
          index = i + 1;
          active = if i + 1 == 160 then false else true;
        }
    unfolding tick_m_cycle transfer request_on next_address
    tick-dma b page i h = advance-running page i h

    tick-wram :
        (b : MachineBus M V A) (page i : ℕ)
        → (tick_m_cycle mapper video audio (at b (running_at page i))).wram ≡ b.wram
    unfolding tick_m_cycle transfer request_on next_address
    tick-wram b page i = refl

    -- The places from one on that a number of cycles copies.
    abbrev is_copied : ℕ → ℕ → ℕ → Bool
    is_copied n i place = leb i place && ltb place (i + min n (160 - i))

    join :
        (n i place x old : ℕ)
        → i < 160
        → (if is_copied n (i + 1) place then x else if place == i then x else old)
          ≡ (if is_copied (suc n) i place then x else old)
    join n i place x old h = ground arith

    none_copied : (n i place x old : ℕ) → 160 ≤ i → old ≡ (if is_copied n i place then x else old)
    none_copied n i place x old h = ground arith

    same_place :
        (f : ℕ → ℕ) (i place old : ℕ)
        → (if place == i then f i else old) ≡ (if place == i then f place else old)
    same_place f i place old = elim (Bool-cases (place == i)) [
      | inl e ↦ rw e (ap f (sym ((==_iff _ _).0 e)))
      | inr e ↦ rw e refl
    ]

    running-oam :
        (n : ℕ) (b : MachineBus M V A) (page i place : ℕ)
        → 0xc0 ≤ page
        → page ≤ 0xfd
        → i < 160
        → laws.oam (m_cycles n (at b (running_at page i))).video place
          ≡ (if is_copied n i place then page_byte b page place else laws.oam b.video place)
    unfolding m_cycles
    running-oam zero b page i place low high h = ground arith
    running-oam (suc n) b page i place low high h =
        let c : MachineBus M V A = tick_m_cycle mapper video audio (at b (running_at page i)) in
        ap (λ (d : OamDma). laws.oam (m_cycles n (at c d)).video place) (tick-dma b page i h)
        ∙ after_tick (i + 1 == 160) refl c
            (λ below. running-oam n c page (i + 1) place low high below)
        ∙ ap
            (λ (w : List ℕ).
              if is_copied n (i + 1) place
              then get_or w (work_cell (page * 256 + place)) 0
              else laws.oam c.video place)
            (tick-wram b page i)
        ∙ ap (λ (o : ℕ). if is_copied n (i + 1) place then page_byte b page place else o)
            (tick-oam b page i place low high h
              ∙ same_place (page_byte b page) i place (laws.oam b.video place))
        ∙ join n i place (page_byte b page place) (laws.oam b.video place) h
      where
        after_tick :
            (last : Bool)
            → (i + 1 == 160) ≡ last
            → (c : MachineBus M V A)
            → (i + 1 < 160
                → laws.oam (m_cycles n (at c (running_at page (i + 1)))).video place ≡ (
                    if is_copied n (i + 1) place
                    then page_byte c page place
                    else laws.oam c.video place))
            → laws.oam
                (m_cycles n (
                  at c (record {
                    source_high = page;
                    index = i + 1;
                    active = if last then false else true;
                  }))).video
                place
              ≡ (if is_copied n (i + 1) place
                  then page_byte c page place
                  else laws.oam c.video place)
        after_tick true e c next =
            idle-oam n c page (i + 1) place
            ∙ none_copied n (i + 1) place (page_byte c page place) (laws.oam c.video place)
                (ground arith)
        after_tick false e c next = next (ground arith)

    -- Over a picture unit of which a transfer writes one byte and a tick none: an OAM transfer that is
    -- started from a page of work RAM or its echo copies one byte with each machine cycle. After any
    -- number of cycles each of the 160 places before that number holds the byte of the page at its
    -- place, and every other place of the sprites' memory what it held.
    pub m_cycles-start :
        (n : ℕ) (b : MachineBus M V A) (page place : ℕ)
        → 0xc0 ≤ page
        → page ≤ 0xfd
        → laws.oam (m_cycles n (record b { dma = start b.dma page })).video place ≡ (
            if ltb place (min n 160)
            then get_or b.wram (work_cell (page * 256 + place)) 0
            else laws.oam b.video place)
    unfolding start
    m_cycles-start n b page place low high =
        running-oam n b page 0 place low high (omega arith) ∙ from_first n place _ _
      where
        from_first :
            (n place x old : ℕ)
            → (if is_copied n 0 place then x else old) ≡ (if ltb place (min n 160) then x else old)
        from_first n place x old = ground arith
