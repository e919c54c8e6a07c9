-- ===== src/Ppu/Pixels.antt =====
-- crates/gb-core/src/ppu/render.rs: what a row shows at each pixel.
use pockiva.Prelude.{
  ℕ, zero, suc, ◌+◌, ◌-◌, ◌<◌, ◌≡◌, refl, ◌∙◌, ap, Bool, true, false, not, ◌&&◌, Option, none, some,
  List, [], ◌∷◌, if◌then◌else◌, ◌==◌, ltb, leb, Bool-cases, inl, inr, if-holds, arith, lt→ltb,
  ==_iff,
}
use mathlib.Core.Path.{subst}
use pockiva.Contracts.{screen_width}
use pockiva.Ppu.Registers.{has_bits, window_map_high, objects_enabled}
use pockiva.Ppu.State.{
  Rgba, map_palette, SelectedSprite, PixelSource, background, window, sprite, RenderedRow, Ppu,
}
use pockiva.Ppu.Sprite.{sprite_color_number, sort_by_key, window_visible_on_line}
use pockiva.Ppu.Render.{
  tile_color, map_base, background_color_numbers, for_each, paint_background, paint_window,
  paint_sprites, white_row, render_background, render_window, render_sprites, render_scanline,
}

-- A row at one place.
pub record Pixel : Type 0 where
  pub rgba : Rgba
  pub color : ℕ
  pub source : PixelSource
  pub winning_sprite : Option ℕ

abbrev pub pixel_at : RenderedRow → ℕ → Pixel
pixel_at row x = record {
  rgba = row.rgba x;
  color = row.colors x;
  source = row.sources x;
  winning_sprite = row.winning_sprites x;
}

-- The topmost sprite that is not transparent at a place.
unfoldable pub first_opaque : Ppu → ℕ → ℕ → List SelectedSprite → Option SelectedSprite
first_opaque p line x [] = none
first_opaque p line x (s ∷ ss) =
    if sprite_color_number p s x line == 0 then first_opaque p line x ss else some s

abbrev pub object_palette : Ppu → SelectedSprite → ℕ
object_palette p s = if has_bits s.flags 0x10 then p.registers.obp1 else p.registers.obp0

-- A pixel under the topmost sprite. Behind it where the sprite's flag says so and its color is not 0.
unfoldable pub under_sprite : Ppu → ℕ → ℕ → Option SelectedSprite → Pixel → Pixel
under_sprite p line x none below = below
under_sprite p line x (some s) below =
    if has_bits s.flags 0x80 && not (below.color == 0) then below else record {
      rgba = map_palette (object_palette p s) (sprite_color_number p s x line);
      color = below.color;
      source = sprite s.oam_index;
      winning_sprite = some s.oam_index;
    }

abbrev pub in_window : Ppu → ℕ → Bool
in_window p x = leb p.registers.wx (x + 7) && leb (x + 7 - p.registers.wx) 255

abbrev pub window_pixel : Ppu → ℕ → Pixel
window_pixel p x =
    let color =
      tile_color p (map_base (window_map_high p.registers.lcdc)) (x + 7 - p.registers.wx)
        p.window_line in
    record {
      rgba = map_palette p.registers.bgp color;
      color = color;
      source = window;
      winning_sprite = none;
    }

abbrev pub background_pixel : Ppu → ℕ → ℕ → Pixel
background_pixel p line x =
    let color = background_color_numbers p line x in
    record {
      rgba = map_palette p.registers.bgp color;
      color = color;
      source = background;
      winning_sprite = none;
    }

-- The layers at one place: the background, the window over it, the topmost sprite over both.
unfoldable pub layers : Ppu → ℕ → ℕ → Pixel
layers p line x =
    let flat =
      if window_visible_on_line p line && in_window p x
      then window_pixel p x
      else background_pixel p line x in
    if objects_enabled p.registers.lcdc
    then under_sprite p line x (first_opaque p line x (sort_by_key p.selected_sprites)) flat
    else flat

diagonal : (y : ℕ) → (y == y) ≡ true
diagonal y = (==_iff y y).1 refl

ltb_irrefl : (n : ℕ) → ltb n n ≡ false
ltb_irrefl n = ground arith

ltb-suc_of_ne : (n y : ℕ) → (n == y) ≡ false → ltb y (suc n) ≡ ltb y n
ltb-suc_of_ne n y e = ground arith

-- A body of a loop that changes the row at its own place only.
record Paints (body : ℕ → RenderedRow → RenderedRow) (paint : ℕ → Pixel → Pixel) : Type 0 where
  here : (y : ℕ) (row : RenderedRow) → pixel_at (body y row) y ≡ paint y (pixel_at row y)
  there :
      (x y : ℕ) (row : RenderedRow) → (x == y) ≡ false → pixel_at (body x row) y ≡ pixel_at row y

for_each-pixel :
    (body : ℕ → RenderedRow → RenderedRow) (paint : ℕ → Pixel → Pixel)
    → Paints body paint
    → (n : ℕ) (row : RenderedRow) (y : ℕ)
    → pixel_at (for_each body n row) y
      ≡ (if ltb y n then paint y (pixel_at row y) else pixel_at row y)
unfolding for_each
for_each-pixel body paint h zero row y = ground arith
for_each-pixel body paint h (suc n) row y =
    let before : RenderedRow = for_each body n row in
    let painted : pixel_at (body n before) n ≡ paint n (pixel_at row n) =
      h.here n before
      ∙ ap (paint n) (for_each-pixel body paint h n row n ∙ rw (ltb_irrefl n) refl) in
    elim (Bool-cases (n == y)) [
      | inl e ↦
          let n-eq-y = (==_iff n y).0 e in
          rw (lt→ltb y (suc n) (omega arith))
            (subst (λ k. pixel_at (body n before) k ≡ paint k (pixel_at row k)) n-eq-y painted)
      | inr e ↦
          rw (ltb-suc_of_ne n y e) (h.there n y before e ∙ for_each-pixel body paint h n row y)
    ]

paint_background-Paints :
    (p : Ppu)
    → Paints
        (paint_background p)
        (λ y below. record below { rgba = map_palette p.registers.bgp below.color })
unfolding paint_background
paint_background-Paints p = record {
  here = λ y row. rw (diagonal y) refl;
  there = λ x y row e. rw e refl;
}

paint_window-Paints :
    (p : Ppu)
    → Paints (paint_window p) (λ y below.
      if in_window p y
      then record (window_pixel p y) { winning_sprite = below.winning_sprite }
      else below)
unfolding paint_window
paint_window-Paints p = record {
  here = λ y row. elim (Bool-cases (in_window p y)) [
    | inl w ↦ rw (w, diagonal y) refl
    | inr w ↦ rw w refl
  ];
  there = λ x y row e.
      if-holds (λ (r : RenderedRow). pixel_at r y ≡ pixel_at row y) (in_window p x) (rw e refl)
        refl;
}

sprites_here :
    (p : Ppu) (line y : ℕ) (ss : List SelectedSprite) (row : RenderedRow)
    → pixel_at (paint_sprites p line y ss row) y
      ≡ under_sprite p line y (first_opaque p line y ss) (pixel_at row y)
unfolding paint_sprites first_opaque under_sprite
sprites_here p line y [] row = refl
sprites_here p line y (s ∷ ss) row = elim (Bool-cases (sprite_color_number p s y line == 0)) [
  | inl clear ↦ rw clear (sprites_here p line y ss row)
  | inr opaque ↦ rw opaque (elim (Bool-cases (has_bits s.flags 0x80 && not (row.colors y == 0))) [
    | inl behind ↦ rw behind refl
    | inr front ↦ rw (front, diagonal y) refl
  ])
]

sprites_there :
    (p : Ppu) (line x y : ℕ) (ss : List SelectedSprite) (row : RenderedRow)
    → (x == y) ≡ false
    → pixel_at (paint_sprites p line x ss row) y ≡ pixel_at row y
unfolding paint_sprites
sprites_there p line x y [] row e = refl
sprites_there p line x y (s ∷ ss) row e =
    let P : RenderedRow → Type 0 = λ r. pixel_at r y ≡ pixel_at row y in
    if-holds P (sprite_color_number p s x line == 0) (sprites_there p line x y ss row e)
      (if-holds P (has_bits s.flags 0x80 && not (row.colors x == 0)) refl (rw e refl))

-- The three parts of `render_scanline` at a pixel of the row.
background_at :
    (p : Ppu) (line x : ℕ)
    → x < 160
    → pixel_at (render_background p line) x ≡ background_pixel p line x
unfolding render_background
background_at p line x h =
    for_each-pixel (paint_background p) _ (paint_background-Paints p) screen_width
      (record white_row { colors = background_color_numbers p line }) x
    ∙ rw (lt→ltb x 160 h) refl

window_at :
    (p : Ppu) (line x : ℕ) (row : RenderedRow)
    → x < 160
    → row.winning_sprites x ≡ none
    → pixel_at (render_window p line row) x ≡ (
        if window_visible_on_line p line && in_window p x then window_pixel p x else pixel_at row x)
unfolding render_window
window_at p line x row h no_sprite = elim (Bool-cases (window_visible_on_line p line)) [
  | inl v ↦ rw v (
      for_each-pixel (paint_window p) _ (paint_window-Paints p) screen_width row x
      ∙ rw (lt→ltb x 160 h, no_sprite) refl)
  | inr v ↦ rw v refl
]

sprites_at :
    (p : Ppu) (line x : ℕ) (row : RenderedRow)
    → x < 160
    → pixel_at (render_sprites p line row) x ≡ (
        if objects_enabled p.registers.lcdc
        then under_sprite p line x
            (first_opaque p line x (sort_by_key p.selected_sprites))
            (pixel_at row x)
        else pixel_at row x)
unfolding render_sprites
sprites_at p line x row h = elim (Bool-cases (objects_enabled p.registers.lcdc)) [
  | inl o ↦ rw o (
      for_each-pixel (λ screen_x. paint_sprites p line screen_x (sort_by_key p.selected_sprites))
        (λ y. under_sprite p line y (first_opaque p line y (sort_by_key p.selected_sprites)))
        (record {
          here = λ y r. sprites_here p line y (sort_by_key p.selected_sprites) r;
          there = λ z y r e. sprites_there p line z y (sort_by_key p.selected_sprites) r e;
        })
        screen_width row x
      ∙ rw (lt→ltb x 160 h) refl)
  | inr o ↦ rw o refl
]

-- The rendered row shows at each of its pixels the topmost layer.
pub render_scanline-layers :
    (p : Ppu) (line x : ℕ) → x < 160 → pixel_at (render_scanline p line) x ≡ layers p line x
unfolding render_scanline layers
render_scanline-layers p line x h =
    let bg = background_at p line x h in
    let below = render_background p line in
    sprites_at p line x (render_window p line below) h
    ∙ rw (window_at p line x below h (ap (λ (q : Pixel). q.winning_sprite) bg), bg) refl
