-- ===== src/Audio/Pcm.antt =====
-- crates/gb-core/src/apu/pcm.rs; a sample, an `f32`, is of a type that is a parameter.
use pockiva.Prelude.{ℕ, ◌+◌, ◌/◌, List, [], ◌∷◌, ◌++◌, ◌==◌, if◌then◌else◌, length, drop}

-- `MAX_CORE_STEREO_FRAMES`
abbrev pub max_core_stereo_frames : ℕ
max_core_stereo_frames = 4096

pub record PcmBuffer (F : Type 0) : Type 0 where
  pub samples : List F
  pub dropped_stereo_frames : ℕ

module _ {F : Type 0} where
  abbrev pub default_buffer : PcmBuffer F
  default_buffer = record { samples = []; dropped_stereo_frames = 0 }

  unfoldable pub stereo_frames_available : PcmBuffer F → ℕ
  stereo_frames_available p = length p.samples / 2

  unfoldable pub push_stereo : PcmBuffer F → F → F → PcmBuffer F
  unfolding stereo_frames_available
  push_stereo p left right =
      let p' =
        if stereo_frames_available p == max_core_stereo_frames
        then record {
          samples = drop 2 p.samples;
          dropped_stereo_frames = p.dropped_stereo_frames + 1;
        }
        else p in
      record p' { samples = p'.samples ++ left ∷ right ∷ [] }

  -- `drain`: the samples, and the buffer without them
  unfoldable pub drain : PcmBuffer F → List F × PcmBuffer F
  drain p = (p.samples, record p { samples = [] })
