-- ===== src/Ppu/Render.antt =====
-- crates/gb-core/src/ppu/render.rs: a line of the background, the window and the sprites.
use pockiva.Prelude.{
  ℕ, zero, suc, ◌+◌, ◌-◌, ◌*◌, ◌/◌, ◌%◌, ◌==◌, ltb, leb, bit_and, add8_wrap, Bool, true, false, not,
  ◌&&◌, none, some, List, [], ◌∷◌, get_or, if◌then◌else◌, update,
}
use pockiva.Contracts.{screen_width}
use pockiva.Ppu.Registers.{
  has_bits, window_map_high, tile_data_unsigned, background_map_high, objects_enabled,
  background_enabled,
}
use pockiva.Ppu.State.{
  white, map_palette, SelectedSprite, background, window, sprite, RenderedRow, Ppu,
}
use pockiva.Ppu.Sprite.{decode_tile_row, sprite_color_number, sort_by_key, window_visible_on_line}

-- `RenderedRow::white`
abbrev pub white_row : RenderedRow
white_row = record {
  rgba = λ x. white;
  colors = λ x. 0;
  sources = λ x. background;
  winning_sprites = λ x. none;
  window_drawn = false;
}

-- A tile from 128 on is negative where the data is signed.
unfoldable pub tile_row_address : Bool → ℕ → ℕ → ℕ
tile_row_address unsigned tile row =
    if unsigned
    then 0x8000 + tile * 16 + row * 2
    else if ltb tile 128
    then 0x9000 + tile * 16 + row * 2
    else 0x9000 + row * 2 - (256 - tile) * 16

unfoldable pub tile_color : Ppu → ℕ → ℕ → ℕ → ℕ
unfolding tile_data_unsigned tile_row_address decode_tile_row
tile_color p map_base pixel_x pixel_y =
    let map_offset = pixel_y / 8 * 32 + pixel_x / 8 in
    let tile = p.vram (map_base + map_offset - 0x8000) in
    let address = tile_row_address (tile_data_unsigned p.registers.lcdc) tile (bit_and pixel_y 7) in
    let offset = address - 0x8000 in
    decode_tile_row (p.vram offset) (p.vram (offset + 1)) (bit_and pixel_x 7)

-- `if … { 0x9c00 } else { 0x9800 }`
abbrev pub map_base : Bool → ℕ
map_base high = if high then 0x9c00 else 0x9800

-- The color of each of the 160 pixels of the row.
unfoldable pub background_color_numbers : Ppu → ℕ → ℕ → ℕ
background_color_numbers p line x =
    if background_enabled p.registers.lcdc
    then tile_color p (map_base (background_map_high p.registers.lcdc))
        (add8_wrap x p.registers.scx) (add8_wrap line p.registers.scy)
    else 0

-- `for x in 0..n`, over the row
unfoldable pub for_each {ℓ} : {A : Type ℓ} → (ℕ → A → A) → ℕ → A → A
for_each body zero row = row
for_each body (suc n) row = body n (for_each body n row)

-- The body of the background's loop.
unfoldable pub paint_background : Ppu → ℕ → RenderedRow → RenderedRow
paint_background p x row = record row {
  rgba = update row.rgba x (map_palette p.registers.bgp (row.colors x));
}

-- The body of the window's loop. `window_x` is `screen_x - (wx - 7)`.
unfoldable pub paint_window : Ppu → ℕ → RenderedRow → RenderedRow
paint_window p screen_x row =
    let window_x = screen_x + 7 - p.registers.wx in
    let color = tile_color p (map_base (window_map_high p.registers.lcdc)) window_x p.window_line in
    if leb p.registers.wx (screen_x + 7) && leb window_x 255
    then record row {
      colors = update row.colors screen_x color;
      rgba = update row.rgba screen_x (map_palette p.registers.bgp color);
      sources = update row.sources screen_x window;
      window_drawn = true;
    }
    else row

-- The loop over the sprites at one pixel, left by its two `break`s.
unfoldable pub paint_sprites : Ppu → ℕ → ℕ → List SelectedSprite → RenderedRow → RenderedRow
paint_sprites p line screen_x [] row = row
paint_sprites p line screen_x (s ∷ ss) row =
    let color = sprite_color_number p s screen_x line in
    let rest = paint_sprites p line screen_x ss row in
    let palette = if has_bits s.flags 0x10 then p.registers.obp1 else p.registers.obp0 in
    if color == 0
    then rest
    else if has_bits s.flags 0x80 && not (row.colors screen_x == 0)
    then row
    else record row {
      rgba = update row.rgba screen_x (map_palette palette color);
      sources = update row.sources screen_x (sprite s.oam_index);
      winning_sprites = update row.winning_sprites screen_x (some s.oam_index);
    }

-- The three parts of `render_scanline`.
unfoldable pub render_background : Ppu → ℕ → RenderedRow
render_background p line =
    for_each (paint_background p) screen_width
      (record white_row { colors = background_color_numbers p line })

unfoldable pub render_window : Ppu → ℕ → RenderedRow → RenderedRow
render_window p line row =
    if window_visible_on_line p line then for_each (paint_window p) screen_width row else row

unfoldable pub render_sprites : Ppu → ℕ → RenderedRow → RenderedRow
render_sprites p line row =
    if objects_enabled p.registers.lcdc
    then for_each (λ screen_x. paint_sprites p line screen_x (sort_by_key p.selected_sprites))
        screen_width row
    else row

unfoldable pub render_scanline : Ppu → ℕ → RenderedRow
unfolding render_background render_window render_sprites
render_scanline p line = render_sprites p line (render_window p line (render_background p line))

-- The four bytes of each pixel go to the line's place in the picture.
unfoldable pub copy_row : ℕ → RenderedRow → (ℕ → ℕ) → ℕ → ℕ
copy_row start row framebuffer i =
    if leb start i && ltb i (start + screen_width * 4)
    then get_or (row.rgba ((i - start) / 4)) ((i - start) % 4) 0
    else framebuffer i

unfoldable pub store_scanline : Ppu → ℕ → Ppu
unfolding render_scanline copy_row
store_scanline p line =
    let row = render_scanline p line in
    record p {
      framebuffer =
          if p.blank_first_frame
          then p.framebuffer
          else copy_row (line * screen_width * 4) row p.framebuffer;
      window_line = if row.window_drawn then add8_wrap p.window_line 1 else p.window_line;
      last_rendered_row = some row;
    }
