-- ===== src/Ppu/Selection.antt =====
-- crates/gb-core/src/ppu/sprite.rs: which sprites a line draws, and in which order it tries them.
use pockiva.Prelude.{
  ℕ, zero, suc, ◌+◌, ◌<◌, ◌≡◌, refl, ◌∙◌, ap, Bool, true, false, ◌&&◌, ◌||◌, List, [], ◌∷◌, take,
  from_bool, ◌==◌, ltb, Bool-cases, inl, inr, if-holds, if-cases, arith,
}
use pockiva.Ppu.State.{Ppu, SelectedSprite}
use pockiva.Ppu.Sprite.{
  on_line, oam_entry, sprites_from, select_sprites_for_line, key_le, insert_by_key, sort_by_key,
}

-- Whether the entry of an index is among the sprites.
abbrev pub has_entry : ℕ → List SelectedSprite → Bool
has_entry index [] = false
has_entry index (s ∷ ss) = s.oam_index == index || has_entry index ss

-- How many of `n` entries from an index on are on the line.
unfoldable pub count_on_line : Ppu → ℕ → ℕ → ℕ → ℕ
count_on_line p line zero index = 0
count_on_line p line (suc n) index =
    from_bool (on_line p line index) + count_on_line p line n (suc index)

not_before :
    (p : Ppu) (line n start room index : ℕ)
    → index < start
    → has_entry index (take room (sprites_from p line n start)) ≡ false
unfolding sprites_from oam_entry
not_before p line zero start zero index h = refl
not_before p line zero start (suc room) index h = refl
not_before p line (suc n) start zero index h = refl
not_before p line (suc n) start (suc room) index h = elim (Bool-cases (on_line p line start)) [
  | inl here ↦ rw here (ground (arith, not_before p line n (suc start) room index (omega arith)))
  | inr gone ↦ rw gone (not_before p line n (suc start) (suc room) index (omega arith))
]

-- Of `n` entries from `start` on, the `k`-th is taken when it is on the line and fewer than the room
-- are before it.
taken :
    (p : Ppu) (line n start room k index : ℕ)
    → index ≡ start + k
    → k < n
    → has_entry index (take room (sprites_from p line n start))
      ≡ (on_line p line index && ltb (count_on_line p line k start) room)
unfolding sprites_from oam_entry count_on_line
taken p line zero start room k index e h = absurd (omega arith)
taken p line (suc n) start zero k index e h = ground arith
taken p line (suc n) start (suc room) zero index e h =
    let at_start : index ≡ start = omega arith in
    rw at_start (elim (Bool-cases (on_line p line start)) [
      | inl here ↦ rw here (ground arith)
      | inr gone ↦ rw gone (not_before p line n (suc start) (suc room) start (omega arith))
    ])
taken p line (suc n) start (suc room) (suc k) index e h = elim (Bool-cases (on_line p line start)) [
  | inl here ↦
      rw here (ground (arith, taken p line n (suc start) room k index (omega arith) (omega arith)))
  | inr gone ↦
      rw gone
        (ground (arith, taken p line n (suc start) (suc room) k index (omega arith) (omega arith)))
]

-- Each of the 40 sprites is selected exactly when it is on the line and fewer than ten sprites of a
-- lower place in OAM are.
pub select_sprites-has_entry :
    (p : Ppu) (line index : ℕ)
    → index < 40
    → has_entry index (select_sprites_for_line p line)
      ≡ (on_line p line index && ltb (count_on_line p line index 0) 10)
unfolding select_sprites_for_line
select_sprites-has_entry p line index h = taken p line 40 0 10 index index (omega arith) h

-- Each sprite's key is no greater than those after it.
abbrev pub AllAfter : SelectedSprite → List SelectedSprite → Type 0
AllAfter s [] = Unit {0}
AllAfter s (t ∷ ts) = (key_le s t ≡ true) × AllAfter s ts

abbrev pub IsSorted : List SelectedSprite → Type 0
IsSorted [] = Unit {0}
IsSorted (s ∷ ss) = AllAfter s ss × IsSorted ss

key_le_trans : (a b c : SelectedSprite) → key_le a b ≡ true → key_le b c ≡ true → key_le a c ≡ true
unfolding key_le
key_le_trans a b c h k = ground arith

key_le-total : (a b : SelectedSprite) → key_le a b ≡ false → key_le b a ≡ true
unfolding key_le
key_le-total a b h = ground arith

AllAfter-le :
    (s t : SelectedSprite) (ss : List SelectedSprite)
    → key_le s t ≡ true
    → AllAfter t ss
    → AllAfter s ss
AllAfter-le s t [] h v = tt
AllAfter-le s t (u ∷ us) h v = (key_le_trans s t u h v.0, AllAfter-le s t us h v.1)

AllAfter-insert_by_key :
    (s t : SelectedSprite) (ts : List SelectedSprite)
    → key_le s t ≡ true
    → AllAfter s ts
    → AllAfter s (insert_by_key t ts)
unfolding insert_by_key
AllAfter-insert_by_key s t [] h v = (h, tt)
AllAfter-insert_by_key s t (u ∷ us) h v =
    if-holds (AllAfter s) (key_le t u) (h, v) (v.0, AllAfter-insert_by_key s t us h v.1)

insert_by_key-IsSorted :
    (s : SelectedSprite) (ss : List SelectedSprite) → IsSorted ss → IsSorted (insert_by_key s ss)
unfolding insert_by_key
insert_by_key-IsSorted s [] v = (tt, tt)
insert_by_key-IsSorted s (t ∷ ts) v =
    if-cases IsSorted (key_le s t) (λ le. ((le, AllAfter-le s t ts le v.0), v))
      (λ gt.
        (AllAfter-insert_by_key t s ts (key_le-total s t gt) v.0, insert_by_key-IsSorted s ts v.1))

-- The sprites are tried from the left, and at one place in the order of OAM.
pub sort_by_key-IsSorted : (ss : List SelectedSprite) → IsSorted (sort_by_key ss)
unfolding sort_by_key
sort_by_key-IsSorted [] = tt
sort_by_key-IsSorted (s ∷ ss) = insert_by_key-IsSorted s (sort_by_key ss) (sort_by_key-IsSorted ss)

has_entry-insert_by_key :
    (index : ℕ) (s : SelectedSprite) (ss : List SelectedSprite)
    → has_entry index (insert_by_key s ss) ≡ has_entry index (s ∷ ss)
unfolding insert_by_key
has_entry-insert_by_key index s [] = refl
has_entry-insert_by_key index s (t ∷ ts) = ground (arith, has_entry-insert_by_key index s ts)

pub has_entry-sort_by_key :
    (index : ℕ) (ss : List SelectedSprite) → has_entry index (sort_by_key ss) ≡ has_entry index ss
unfolding sort_by_key
has_entry-sort_by_key index [] = refl
has_entry-sort_by_key index (s ∷ ss) =
    has_entry-insert_by_key index s (sort_by_key ss)
    ∙ ap (λ t. s.oam_index == index || t) (has_entry-sort_by_key index ss)
