-- ===== src/Ppu/Tiles.antt =====
-- crates/gb-core/src/ppu: where the rows of tiles lie in video RAM, and the colors that they hold.
use pockiva.Prelude.{
  ℕ, ◌+◌, ◌-◌, ◌*◌, ◌/◌, ◌^◌, ◌<◌, ◌≤◌, ◌≡◌, refl, bit_and, Bool, true, false, if◌then◌else◌, ltb,
  ◌==◌, arith, ==_iff,
}
use pockiva.Prelude.Bits.{bit_and-le, bit_or-lt, bit_and_mask, all_below, all_below_sound}
use pockiva.Ppu.Sprite.{decode_tile_row, tile_row}
use pockiva.Ppu.Render.{tile_row_address}

-- Both bytes of a row of a tile lie in the 0x1800 bytes of tile data, in either way of counting, and
-- the two ways differ below the tile 128 only, by 0x1000.
pub tile_row_address_range :
    (unsigned : Bool) (tile row : ℕ)
    → tile < 256
    → row < 8
    → (0x8000 ≤ tile_row_address unsigned tile row)
      × (tile_row_address unsigned tile row + 1 < 0x9800)
      × (tile_row_address false tile row
          ≡ (if ltb tile 128 then 0x1000 else 0) + tile_row_address true tile row)
unfolding tile_row_address
tile_row_address_range true tile row t r = ground arith
tile_row_address_range false tile row t r = ground arith

-- A color of a tile is one of four.
pub decode_tile_row-lt : (low high index : ℕ) → decode_tile_row low high index < 4
unfolding decode_tile_row
decode_tile_row-lt low high index =
    bit_or-lt 2 _ _ (omega (arith, bit_and-le (high / 2 ^ (7 - index)) 1))
      (omega (arith, bit_and-le (low / 2 ^ (7 - index)) 1))

even_table : all_below 256 (λ tile. bit_and tile 0xfe == tile / 2 * 2) ≡ true
unfolding all_below
even_table = refl

even_tile : (tile : ℕ) → tile < 256 → bit_and tile 0xfe ≡ tile / 2 * 2
even_tile tile h = (==_iff _ _).0 (all_below_sound 256 _ tile even_table h)

-- The row of a sprite of 8 or of 16 lines lies in video RAM: a taller sprite is its even tile and
-- the odd one after it.
pub tile_row_range :
    (tall : Bool) (tile y : ℕ)
    → tile < 256
    → let height : ℕ = if tall then 16 else 8 in
      y < height
      → let (t, row) = tile_row height tile y in
        (t < 256) × (row < 8) × (t * 8 + row ≡ (if tall then tile / 2 * 16 + y else tile * 8 + y))
unfolding tile_row
tile_row_range true tile y h k =
    omega (arith, bit_and_mask 3 y, even_tile tile h, bit_and-le tile 0xfe)
tile_row_range false tile y h k = omega arith
