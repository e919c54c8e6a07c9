-- ===== src/Ppu/Drawing.antt =====
-- crates/gb-core/src/ppu: the bounds of a line's drawing, and the STAT line.
use pockiva.Prelude.{
  ℕ, zero, suc, ◌+◌, ◌-◌, ◌*◌, ◌≤◌, ◌≡◌, refl, bit_and, Bool, true, false, not, ◌&&◌, List, [], ◌∷◌,
  length, take, if◌then◌else◌, ◌==◌, leb, if-holds, arith, update,
}
use pockiva.Ppu.Registers.{objects_enabled}
use pockiva.Ppu.State.{Ppu, SelectedSprite}
use pockiva.Ppu.Sprite.{
  sprites_from, select_sprites_for_line, insert_by_key, sort_by_key, charged_tile, penalty_from,
  sprite_mode3_penalty, window_visible_on_line,
}
use pockiva.Ppu.Timing.{mode3_start_dot, compute_mode3_end_dot}

length-take {ℓ} : {A : Type ℓ} (n : ℕ) (xs : List A) → length (take n xs) ≤ n
length-take zero xs = omega arith
length-take (suc n) [] = omega arith
length-take (suc n) (x ∷ xs) = omega (arith, length-take n xs)

-- A line draws ten sprites at most.
pub select_sprites_for_line-le : (p : Ppu) (line : ℕ) → length (select_sprites_for_line p line) ≤ 10
unfolding select_sprites_for_line
select_sprites_for_line-le p line = length-take 10 (sprites_from p line 40 0)

length-insert_by_key :
    (s : SelectedSprite) (ss : List SelectedSprite) → length (insert_by_key s ss) ≡ suc (length ss)
unfolding insert_by_key
length-insert_by_key s [] = refl
length-insert_by_key s (t ∷ ts) = ground (arith, length-insert_by_key s ts)

length-sort_by_key : (ss : List SelectedSprite) → length (sort_by_key ss) ≡ length ss
unfolding sort_by_key
length-sort_by_key [] = refl
length-sort_by_key (s ∷ ss) =
    omega (arith, length-insert_by_key s (sort_by_key ss), length-sort_by_key ss)

penalty_from-le :
    (p : Ppu) (ss : List SelectedSprite) (charged : ℕ → Bool) (penalty : ℕ)
    → penalty_from p ss charged penalty ≤ penalty + 11 * length ss
unfolding penalty_from
penalty_from-le p [] charged penalty = omega arith
penalty_from-le p (s ∷ ss) charged penalty =
    let tile : ℕ = (charged_tile p s).0 in
    let skipped : Bool = leb 168 s.raw_x in
    let added : ℕ = if charged tile then 0 else 7 - (charged_tile p s).1 - 2 in
    let next : ℕ = if skipped then penalty else penalty + added + 6 in
    let added_le : added ≤ 5 = if-holds (λ n. n ≤ 5) (charged tile) (omega arith) (omega arith) in
    let next_le : next ≤ penalty + 11 =
      if-holds (λ n. n ≤ penalty + 11) skipped (omega arith) (omega arith) in
    omega (arith, penalty_from-le p ss (if skipped then charged else update charged tile true) next)

-- Each sprite of the line costs eleven dots at most.
pub sprite_mode3_penalty-le : (p : Ppu) → sprite_mode3_penalty p ≤ 11 * length p.selected_sprites
unfolding sprite_mode3_penalty
sprite_mode3_penalty-le p =
    if-holds (λ n. n ≤ 11 * length p.selected_sprites) (objects_enabled p.registers.lcdc)
      (omega (
        arith,
        penalty_from-le p (sort_by_key p.selected_sprites) (λ tile. false) 0,
        length-sort_by_key p.selected_sprites,
      ))
      (omega arith)

-- Mode 3 takes from 172 to 289 dots.
pub compute_mode3_end_dot_bounds :
    (p : Ppu)
    → (mode3_start_dot p + 172 ≤ compute_mode3_end_dot p)
      × (compute_mode3_end_dot p ≤ mode3_start_dot p + 289)
unfolding compute_mode3_end_dot
compute_mode3_end_dot_bounds p =
    let fine : ℕ = bit_and p.registers.scx 7 in
    let short : ℕ = if p.registers.wx == 0 && not (fine == 0) then 1 else 0 in
    let short_le : short ≤ 1 =
      if-holds (λ n. n ≤ 1) (p.registers.wx == 0 && not (fine == 0)) (omega arith) (omega arith) in
    let base : ℕ =
      if window_visible_on_line p p.internal_line then 172 + fine + 6 - short else 172 + fine in
    let base_le : 172 ≤ base =
      if-holds (λ n. 172 ≤ n) (window_visible_on_line p p.internal_line) (omega arith)
        (omega arith) in
    omega arith
