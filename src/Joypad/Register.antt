-- ===== src/Joypad/Register.antt =====
-- The P1 register: what its low lines show, and when a key requests an interrupt.
use pockiva.Prelude.{
  ℕ, zero, suc, ◌*◌, ◌/◌, ◌%◌, ◌<◌, bit_and, bit_or, ◌≡◌, refl, ◌∙◌, ◌⊎◌, Bool, true, not, ◌&&◌,
  ◌||◌, arith, ltb, ◌==◌, if◌then◌else◌, ltb→lt, ==_iff, same, same-eq, not8,
}
use pockiva.Prelude.Bits.{bit_at, bit_at-bit_or, bit_or-lt, all_below, all_below_sound}
use pockiva.Interrupts.{bit, joypad}
use pockiva.Joypad.{
  Button, up, down, left, right, a, b, start, select, JoypadState, is_pressed, JoypadRegister,
  visible_keys, write, set_state, default_register, read,
}

-- The buttons of the two rows, by line.
abbrev pub direction : ℕ → Button
direction zero = right
direction (suc zero) = left
direction (suc (suc zero)) = up
direction (suc (suc (suc k))) = down

abbrev pub action : ℕ → Button
action zero = a
action (suc zero) = b
action (suc (suc zero)) = select
action (suc (suc (suc k))) = start

-- A line is pulled low by a pressed key of a row that is selected, which is by a clear bit.
pub is_low : ℕ → JoypadState → ℕ → Bool
is_low selected state k =
    (bit_at 4 selected == 0) && is_pressed state (direction k)
    || (bit_at 5 selected == 0) && is_pressed state (action k)

line_agrees : ℕ → JoypadState → ℕ → Bool
line_agrees selected state k =
    bit_at k (visible_keys selected state) == (if is_low selected state k then 0 else 1)

visible_table :
    all_below 4 (λ row. all_below 256 (λ state.
      all_below 4 (λ k. line_agrees (row * 16) state k) && ltb (visible_keys (row * 16) state) 16))
    ≡ true
unfolding all_below line_agrees is_low visible_keys
visible_table = refl

pub record IsValid (r : JoypadRegister) : Type 0 where
  pub row : ℕ
  pub row_lt : row < 4
  pub row_eq : r.select_bits ≡ row * 16
  pub state_u8 : r.state < 256
  pub shown : r.visible_low ≡ visible_keys r.select_bits r.state

below_four : (k : ℕ) → k < 4 → (k ≡ 0) ⊎ ((k ≡ 1) ⊎ ((k ≡ 2) ⊎ (k ≡ 3)))
below_four k h = omega arith

and_true : (x y : Bool) → (x && y) ≡ true → (x ≡ true) × (y ≡ true)
and_true x y h = ground arith

visible_row :
    (row : ℕ) (state : JoypadState)
    → row < 4
    → state < 256
    → (all_below 4 (λ k. line_agrees (row * 16) state k) ≡ true)
      × (visible_keys (row * 16) state < 16)
visible_row row state hr hs =
    let row_holds : all_below 256 (λ state.
      all_below 4 (λ k. line_agrees (row * 16) state k) && ltb (visible_keys (row * 16) state) 16)
        ≡ true =
      all_below_sound 4 _ row visible_table hr in
    let (lines, low) = and_true _ _ (all_below_sound 256 _ state row_holds hs) in
    (lines, ltb→lt _ _ low)

visible_line :
    (row : ℕ) (state : JoypadState) (k : ℕ)
    → row < 4
    → state < 256
    → k < 4
    → bit_at k (visible_keys (row * 16) state) ≡ (if is_low (row * 16) state k then 0 else 1)
unfolding line_agrees
visible_line row state k hr hs hk =
    (==_iff _ _).0
      (all_below_sound 4 (λ k. line_agrees (row * 16) state k) k (visible_row row state hr hs).0 hk)

select_table : all_below 256 (λ v. bit_and v 0x30 == v / 16 % 4 * 16) ≡ true
unfolding all_below
select_table = refl

pub default_register-IsValid : IsValid default_register
unfolding visible_keys
default_register-IsValid = record {
  row = 3;
  row_lt = omega arith;
  row_eq = refl;
  state_u8 = omega arith;
  shown = refl;
}

pub write-IsValid :
    (r : JoypadRegister) (value : ℕ) → value < 256 → IsValid r → IsValid (write r value).0
unfolding write
write-IsValid r value h v = record {
  row = value / 16 % 4;
  row_lt = omega arith;
  row_eq = (==_iff _ _).0 (all_below_sound 256 _ value select_table h);
  state_u8 = v.state_u8;
  shown = refl;
}

-- A valid register is valid after a change of the buttons to any byte.
pub set_state-IsValid :
    (r : JoypadRegister) (state : JoypadState)
    → state < 256
    → IsValid r
    → IsValid (set_state r state).0
unfolding set_state
set_state-IsValid r state h v = record {
  row = v.row;
  row_lt = v.row_lt;
  row_eq = v.row_eq;
  state_u8 = h;
  shown = refl;
}

bit_at-read :
    (k selected visible row : ℕ)
    → k < 4
    → selected ≡ row * 16
    → bit_at k (bit_or (bit_or 0xc0 selected) visible) ≡ bit_at k visible
bit_at-read zero selected visible row h e =
    omega (arith, bit_at-bit_or 0 (bit_or 0xc0 selected) visible, bit_at-bit_or 0 0xc0 selected)
bit_at-read (suc zero) selected visible row h e =
    omega (arith, bit_at-bit_or 1 (bit_or 0xc0 selected) visible, bit_at-bit_or 1 0xc0 selected)
bit_at-read (suc (suc zero)) selected visible row h e =
    omega (arith, bit_at-bit_or 2 (bit_or 0xc0 selected) visible, bit_at-bit_or 2 0xc0 selected)
bit_at-read (suc (suc (suc zero))) selected visible row h e =
    omega (arith, bit_at-bit_or 3 (bit_or 0xc0 selected) visible, bit_at-bit_or 3 0xc0 selected)
bit_at-read (suc (suc (suc (suc k)))) selected visible row h e = absurd (omega arith)

-- In a valid register each of the four low lines reads 0 exactly when its button of a selected row
-- is pressed.
pub read-lines :
    (r : JoypadRegister) (k : ℕ)
    → IsValid r
    → k < 4
    → bit_at k (read r) ≡ (if is_low r.select_bits r.state k then 0 else 1)
unfolding read
read-lines r k v h =
    let line : bit_at k r.visible_low ≡ (if is_low r.select_bits r.state k then 0 else 1) =
      rw (v.shown, v.row_eq) (visible_line v.row r.state k v.row_lt v.state_u8 h) in
    bit_at-read k r.select_bits r.visible_low v.row h v.row_eq ∙ line

-- A valid register reads as a byte.
pub read-lt : (r : JoypadRegister) → IsValid r → read r < 256
unfolding read
read-lt r v =
    bit_or-lt 8 (bit_or 0xc0 r.select_bits) r.visible_low
      (bit_or-lt 8 0xc0 r.select_bits (omega arith) (omega (arith, v.row_eq, v.row_lt))) shown_lt
  where
    shown_lt : r.visible_low < 256
    shown_lt =
        rw (v.shown, v.row_eq) (omega (arith, (visible_row v.row r.state v.row_lt v.state_u8).1))

-- Some line goes from 1 to 0.
pub falls : ℕ → ℕ → Bool
falls old new = bit_fell 0 || bit_fell 1 || bit_fell 2 || bit_fell 3
  where
    bit_fell : ℕ → Bool
    bit_fell k = (bit_at k old == 1) && (bit_at k new == 0)

request_table :
    all_below 16
      (λ old. all_below 16 (λ new. same (falls old new) (not (bit_and old (not8 new) == 0))))
    ≡ true
unfolding all_below falls
request_table = refl

request_iff :
    (old new : ℕ) → old < 16 → new < 16 → falls old new ≡ not (bit_and old (not8 new) == 0)
request_iff old new ho hn = same-eq _ _ (
    all_below_sound 16 (λ n. same (falls old n) (not (bit_and old (not8 n) == 0))) new
      (all_below_sound 16 _ old request_table ho) hn)

-- A change of the buttons requests the joypad interrupt exactly when one of the visible lines falls,
-- and nothing else; the lines then show the new buttons.
pub set_state_request :
    (r : JoypadRegister) (state : JoypadState)
    → IsValid r
    → state < 256
    → let (r', requested) = set_state r state in
      (requested ≡ (if falls r.visible_low r'.visible_low then bit joypad else 0))
      × (r'.visible_low ≡ visible_keys r.select_bits state)
unfolding set_state
set_state_request r state v h = (
  ground (
    arith,
    request_iff r.visible_low (visible_keys r.select_bits state)
        (rw (v.shown, v.row_eq) (visible_row v.row r.state v.row_lt v.state_u8).1)
        (rw v.row_eq (visible_row v.row state v.row_lt h).1),
  ),
  refl,
)
