-- ===== src/Desktop/Packet.antt =====
-- apps/desktop/src-tauri/src/video/packet.rs: a frame as the window receives it.
use mathlib.Core.Path.{subst}
use pockiva.Prelude.{
  ℕ, zero, suc, ◌+◌, ◌*◌, ◌/◌, ◌%◌, ◌^◌, ◌<◌, ◌≡◌, refl, ◌∙◌, ap, List, [], ◌∷◌, ◌++◌, length,
  get_or, take, arith,
}
use pockiva.Contracts.{Frame, screen_width, screen_height}

abbrev pub frame_header_byte_length : ℕ
frame_header_byte_length = 12

abbrev pub frame_rgba_byte_length : ℕ
frame_rgba_byte_length = screen_width * screen_height * 4

abbrev pub frame_packet_byte_length : ℕ
frame_packet_byte_length = frame_header_byte_length + frame_rgba_byte_length

-- `to_le_bytes` of a number of so many bytes
unfoldable pub to_le_bytes : ℕ → ℕ → List ℕ
to_le_bytes zero n = []
to_le_bytes (suc k) n = n % 256 ∷ to_le_bytes k (n / 256)

-- `frame.rgba()`, so many bytes from an index on
unfoldable pub rgba_from : (ℕ → ℕ) → ℕ → ℕ → List ℕ
rgba_from rgba zero i = []
rgba_from rgba (suc n) i = rgba i ∷ rgba_from rgba n (suc i)

unfoldable pub header : ℕ → List ℕ
unfolding to_le_bytes
header sequence =
    to_le_bytes 8 sequence ++ (to_le_bytes 2 screen_width ++ to_le_bytes 2 screen_height)

unfoldable pub encode_frame_packet : Frame → List ℕ
encode_frame_packet frame = header frame.sequence ++ rgba_from frame.rgba frame_rgba_byte_length 0

-- `u64::from_le_bytes`
unfoldable pub from_le_bytes : List ℕ → ℕ
from_le_bytes [] = 0
from_le_bytes (b ∷ bs) = b + 256 * from_le_bytes bs

length-rgba_from : (rgba : ℕ → ℕ) (n i : ℕ) → length (rgba_from rgba n i) ≡ n
unfolding rgba_from
length-rgba_from rgba zero i = refl
length-rgba_from rgba (suc n) i = ap suc (length-rgba_from rgba n (suc i))

get_or-rgba_from :
    (rgba : ℕ → ℕ) (n i k : ℕ) → k < n → get_or (rgba_from rgba n i) k 0 ≡ rgba (i + k)
unfolding rgba_from
get_or-rgba_from rgba zero i k h = absurd (omega arith)
get_or-rgba_from rgba (suc n) i zero h = ap rgba (omega arith)
get_or-rgba_from rgba (suc n) i (suc k) h =
    get_or-rgba_from rgba n (suc i) k (omega arith) ∙ ap rgba (omega arith)

-- The packet of the rest, behind the header.
module _ (sequence : ℕ) (rest : List ℕ) where
  length-header : length (header sequence ++ rest) ≡ 12 + length rest
  unfolding header
  length-header = omega arith

  header_sequence : sequence < 2 ^ 64 → from_le_bytes (take 8 (header sequence ++ rest)) ≡ sequence
  unfolding header from_le_bytes
  header_sequence h = omega arith

  after_header : (i : ℕ) → get_or (header sequence ++ rest) (12 + i) 0 ≡ get_or rest i 0
  unfolding header
  after_header i =
      let place : suc (suc (suc (suc (suc (suc (suc (suc (suc (suc (suc (suc i))))))))))) ≡ 12 + i =
        omega arith in
      subst (λ k. get_or (header sequence ++ rest) k 0 ≡ get_or rest i 0) place refl

-- A packet has its fixed length, its first eight bytes give the sequence number back, and the bytes
-- of the picture follow the header in their order.
pub encode_frame_packet_lem :
    (frame : Frame) (i : ℕ)
    → frame.sequence < 2 ^ 64
    → i < frame_rgba_byte_length
    → (length (encode_frame_packet frame) ≡ frame_packet_byte_length)
      × (from_le_bytes (take 8 (encode_frame_packet frame)) ≡ frame.sequence)
      × (get_or (encode_frame_packet frame) (frame_header_byte_length + i) 0 ≡ frame.rgba i)
unfolding encode_frame_packet
encode_frame_packet_lem frame i s h =
    let n : ℕ = frame_rgba_byte_length in
    let rest : List ℕ = rgba_from frame.rgba n 0 in
    (
      length-header frame.sequence rest ∙ ap (λ (k : ℕ). 12 + k) (length-rgba_from frame.rgba n 0),
      header_sequence frame.sequence rest s,
      after_header frame.sequence rest i
          ∙ get_or-rgba_from frame.rgba n 0 i h
          ∙ ap frame.rgba (omega arith),
    )
