-- ===== src/Audio/Counting.antt =====
-- The counters of crates/gb-core/src/apu: the length counter's end, the phase of the samples and the
-- samples that are kept.
use pockiva.Prelude.{
  ℕ, zero, suc, ◌+◌, ◌-◌, ◌*◌, ◌≤◌, ◌<◌, ◌≡◌, refl, ap, ◌∙◌, true, false, not, ◌&&◌, List, [], ◌∷◌,
  ◌++◌, ◌==◌, leb, if◌then◌else◌, length, drop, replicate, arith, Bool-cases, inl, inr,
  length-append, ==_iff, bit_and, add16_wrap,
}
use pockiva.Audio.Length
use pockiva.Audio.Length.{LengthCounter, clocks}
use pockiva.Audio.Pcm.{PcmBuffer, push_stereo, stereo_frames_available, max_core_stereo_frames}
use pockiva.Audio.Unit.{
  Apu, MixerOperations, sample, samples, dmg_clock_hz, tick_t_cycle, tick_channels,
  clock_frame_sequencer,
}

clock-last :
    (l : LengthCounter)
    → l.enabled ≡ true
    → l.remaining ≡ 1
    → Length.clock l ≡ (record { remaining = 0; enabled = true }, true)
unfolding Length.clock
clock-last l on left = rw (on, left) refl

clock-more :
    (l : LengthCounter) (n : ℕ)
    → l.enabled ≡ true
    → l.remaining ≡ suc (suc n)
    → Length.clock l ≡ (record { remaining = suc n; enabled = true }, false)
unfolding Length.clock
clock-more l n on left =
    let some_left : (l.remaining == 0) ≡ false = ground arith in
    let not_last : (l.remaining - 1 == 0) ≡ false = ground arith in
    let less : l.remaining - 1 ≡ suc n = omega arith in rw (on, some_left, not_last, less) refl

-- An enabled counter that has some steps left reports its end at the last of them, and not before.
pub clocks-ends :
    (l : LengthCounter) (n : ℕ)
    → l.enabled ≡ true
    → l.remaining ≡ suc n
    → clocks (suc n) l ≡ replicate n false ++ true ∷ []
unfolding clocks
clocks-ends l zero on left = ap (λ r. r.1 ∷ []) (clock-last l on left)
clocks-ends l (suc n) on left =
    ap (λ r. r.1 ∷ clocks (suc n) r.0) (clock-more l n on left)
    ∙ ap (λ r. false ∷ r) (clocks-ends (record { remaining = suc n; enabled = true }) n refl refl)

module _ {F : Type 0} where
  -- The buffer holds whole frames, no more than it may.
  unfoldable pub HoldsFrames : PcmBuffer F → ℕ → Type 0
  HoldsFrames p n = (length p.samples ≡ n * 2) × (n ≤ max_core_stereo_frames)

  length-drop2 : (xs : List F) → length (drop 2 xs) ≡ length xs - 2
  length-drop2 [] = refl
  length-drop2 (x ∷ []) = refl
  length-drop2 (x ∷ y ∷ xs) = omega arith

  -- A frame that is pushed is kept at the end; a full buffer drops its first frame for it, and stays
  -- full.
  pub push_stereo-HoldsFrames :
      (p : PcmBuffer F) (left right : F) (n : ℕ)
      → HoldsFrames p n
      → HoldsFrames (push_stereo p left right) (if n == max_core_stereo_frames then n else n + 1)
  unfolding push_stereo HoldsFrames stereo_frames_available
  push_stereo-HoldsFrames p left right n (whole, fits) =
      let frames : stereo_frames_available p ≡ n = omega (arith, whole) in
      elim (Bool-cases (n == max_core_stereo_frames)) [
        | inl full ↦
            rw (frames, full)
              (
                length-append (drop 2 p.samples) (left ∷ right ∷ [])
                    ∙ omega (arith, length-drop2 p.samples, whole, (==_iff _ _).0 full),
                fits,
              )
        | inr room ↦
            rw (frames, room)
              (length-append p.samples (left ∷ right ∷ []) ∙ omega (arith, whole), ground arith)
      ]

module _ {X F : Type 0} (mixing : MixerOperations X F) where
  sample-phase : (a : Apu X F) → (sample mixing a).sample_phase ≡ a.sample_phase
  unfolding sample
  sample-phase a = ground arith

  samples-phase :
      (fuel : ℕ) (a : Apu X F)
      → a.sample_phase ≤ fuel
      → (samples mixing fuel a).sample_phase < dmg_clock_hz
  unfolding samples
  samples-phase zero a enough = omega arith
  samples-phase (suc fuel) a enough = elim (Bool-cases (leb dmg_clock_hz a.sample_phase)) [
    | inl due ↦
        let long : dmg_clock_hz ≤ a.sample_phase = ground arith in
        let a' : Apu X F = record a { sample_phase = a.sample_phase - dmg_clock_hz } in
        rw due (samples-phase fuel (sample mixing a') (omega (arith, sample-phase a')))
    | inr early ↦ rw early (ground arith)
  ]

  -- the unit before the loop on the phase
  unfoldable advanced : Apu X F → Apu X F
  unfolding clock_frame_sequencer tick_channels
  advanced a =
      let old_high = not (bit_and a.divider_mirror 0x1000 == 0) in
      let a1 = record a { divider_mirror = add16_wrap a.divider_mirror 1 } in
      let a2 =
        if old_high && bit_and a1.divider_mirror 0x1000 == 0
        then clock_frame_sequencer mixing a1
        else a1 in
      let a3 = if a2.master_enabled then tick_channels mixing a2 else a2 in
      record a3 { sample_phase = a3.sample_phase + a3.sample_rate }

  -- The loop on the phase ends within its fuel: after every clock the phase is below a second's clocks,
  -- whatever it was before and whatever the sample rate.
  pub tick_t_cycle-phase : (a : Apu X F) → (tick_t_cycle mixing a).sample_phase < dmg_clock_hz
  unfolding tick_t_cycle advanced
  tick_t_cycle-phase a =
      let phase = (advanced a).sample_phase in samples-phase phase (advanced a) (omega arith)
