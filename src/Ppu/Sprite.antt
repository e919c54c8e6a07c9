-- ===== src/Ppu/Sprite.antt =====
-- crates/gb-core/src/ppu/sprite.rs: the sprites of a line and the dots that they cost. A signed
-- comparison with `raw - 16` or `raw - 8` is written with the summand on the other side.
use pockiva.Prelude.{
  ℕ, zero, suc, ◌+◌, ◌-◌, ◌*◌, ◌/◌, ◌^◌, ◌==◌, ltb, leb, bit_and, bit_or, add8_wrap, Bool, true,
  false, ◌&&◌, ◌||◌, List, [], ◌∷◌, if◌then◌else◌, take, update,
}
use pockiva.Ppu.Registers.{
  has_bits, object_height, objects_enabled, background_enabled, window_enabled,
}
use pockiva.Ppu.State.{Ppu, SelectedSprite}

-- The closure of `filter_map`, for the entry of an index.
unfoldable pub on_line : Ppu → ℕ → ℕ → Bool
unfolding object_height
on_line p line index =
    let raw_y = p.oam (index * 4) in
    leb raw_y (line + 16) && ltb (line + 16) (raw_y + object_height p.registers.lcdc)

unfoldable pub oam_entry : Ppu → ℕ → SelectedSprite
oam_entry p index = record {
  raw_y = p.oam (index * 4);
  raw_x = p.oam (index * 4 + 1);
  tile = p.oam (index * 4 + 2);
  flags = p.oam (index * 4 + 3);
  oam_index = index;
}

-- `filter_map` over so many entries from an index on
unfoldable pub sprites_from : Ppu → ℕ → ℕ → ℕ → List SelectedSprite
unfolding on_line oam_entry
sprites_from p line zero index = []
sprites_from p line (suc n) index =
    let rest = sprites_from p line n (suc index) in
    if on_line p line index then oam_entry p index ∷ rest else rest

-- The 160 bytes are 40 entries.
unfoldable pub select_sprites_for_line : Ppu → ℕ → List SelectedSprite
unfolding sprites_from
select_sprites_for_line p line = take 10 (sprites_from p line 40 0)

-- `sort_by_key(|sprite| (sprite.raw_x, sprite.oam_index))`, a stable sort
unfoldable pub key_le : SelectedSprite → SelectedSprite → Bool
key_le a b = ltb a.raw_x b.raw_x || (a.raw_x == b.raw_x && leb a.oam_index b.oam_index)

unfoldable pub insert_by_key : SelectedSprite → List SelectedSprite → List SelectedSprite
unfolding key_le
insert_by_key s [] = s ∷ []
insert_by_key s (t ∷ ts) =
    let rest = insert_by_key s ts in if key_le s t then s ∷ t ∷ ts else t ∷ rest

unfoldable pub sort_by_key : List SelectedSprite → List SelectedSprite
unfolding insert_by_key
sort_by_key [] = []
sort_by_key (s ∷ ss) = insert_by_key s (sort_by_key ss)

-- `decode_tile_row(low, high)[index]` of render.rs
unfoldable pub decode_tile_row : ℕ → ℕ → ℕ → ℕ
decode_tile_row low high index =
    let bit = 7 - index in bit_or (bit_and (high / 2 ^ bit) 1 * 2) (bit_and (low / 2 ^ bit) 1)

-- The tile and the row in it of a sprite's row `y`.
unfoldable pub tile_row : ℕ → ℕ → ℕ → ℕ × ℕ
tile_row height tile y =
    if height == 16 then (add8_wrap (bit_and tile 0xfe) (y / 8), bit_and y 7) else (tile, y)

-- The part of `sprite_color_number` from the flips on, at a place in the sprite.
unfoldable pub sprite_pixel : Ppu → SelectedSprite → ℕ → ℕ → ℕ → ℕ
unfolding tile_row decode_tile_row
sprite_pixel p sprite height x y =
    let x' = if has_bits sprite.flags 0x20 then 7 - x else x in
    let y' = if has_bits sprite.flags 0x40 then height - 1 - y else y in
    let (tile, row) = tile_row height sprite.tile y' in
    let offset = tile * 16 + row * 2 in decode_tile_row (p.vram offset) (p.vram (offset + 1)) x'

unfoldable pub sprite_color_number : Ppu → SelectedSprite → ℕ → ℕ → ℕ
unfolding object_height sprite_pixel
sprite_color_number p sprite screen_x line =
    let height = object_height p.registers.lcdc in
    if leb sprite.raw_x (screen_x + 8)
      && ltb (screen_x + 8) (sprite.raw_x + 8)
      && (leb sprite.raw_y (line + 16) && ltb (line + 16) (sprite.raw_y + height))
    then sprite_pixel p sprite height (screen_x + 8 - sprite.raw_x) (line + 16 - sprite.raw_y)
    else 0

-- `window_visible_on_line` of render.rs
unfoldable pub window_visible_on_line : Ppu → ℕ → Bool
unfolding background_enabled window_enabled
window_visible_on_line p line =
    background_enabled p.registers.lcdc
    && window_enabled p.registers.lcdc
    && leb p.registers.wy line
    && leb p.registers.wx 166

-- The tile that a sprite's left edge falls in, counted from 32 on in the window, and the column.
unfoldable pub charged_tile : Ppu → SelectedSprite → ℕ × ℕ
unfolding window_visible_on_line
charged_tile p sprite =
    let window_x = sprite.raw_x - p.registers.wx - 1 in
    let map_x = add8_wrap sprite.raw_x p.registers.scx in
    if leb 8 sprite.raw_x
      && window_visible_on_line p p.internal_line
      && ltb p.registers.wx sprite.raw_x
    then (32 + window_x / 8, bit_and window_x 7)
    else (map_x / 8, bit_and map_x 7)

-- The loop of `sprite_mode3_penalty`, with its two variables.
unfoldable pub penalty_from : Ppu → List SelectedSprite → (ℕ → Bool) → ℕ → ℕ
unfolding charged_tile
penalty_from p [] charged_tiles penalty = penalty
penalty_from p (sprite ∷ sprites) charged_tiles penalty =
    let (tile, local_x) = charged_tile p sprite in
    let skipped = leb 168 sprite.raw_x in
    penalty_from p sprites (if skipped then charged_tiles else update charged_tiles tile true) (
      if skipped
      then penalty
      else penalty + (if charged_tiles tile then 0 else 7 - local_x - 2) + 6)

unfoldable pub sprite_mode3_penalty : Ppu → ℕ
unfolding objects_enabled sort_by_key penalty_from
sprite_mode3_penalty p =
    if objects_enabled p.registers.lcdc
    then penalty_from p (sort_by_key p.selected_sprites) (λ tile. false) 0
    else 0
