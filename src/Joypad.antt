-- ===== src/Joypad.antt =====
-- crates/gb-core/src/contracts/input.rs and joypad.rs: button states, the states that several input
-- sources hold at once, and the P1 register. `JoypadState(u8)` is its bits, and an `InputSourceId`
-- its number.
pub mod Sources
pub mod Register
mod Tests
use pockiva.Prelude.{
  ℕ, suc, ◌^◌, bit_and, bit_or, Bool, not, List, [], ◌∷◌, ◌==◌, if◌then◌else◌, not8,
}
use pockiva.Interrupts.{InterruptMask, no_interrupt, from_bits, bit, joypad}

pub data Button : Type 0 where
  up down left right a b start select : Button

-- `self as u8`
abbrev pub index : Button → ℕ
index up = 0
index down = 1
index left = 2
index right = 3
index a = 4
index b = 5
index start = 6
index select = 7

unfoldable pub mask : Button → ℕ
mask button = 2 ^ index button

abbrev pub JoypadState : Type 0
JoypadState = ℕ

unfoldable pub press : JoypadState → Button → JoypadState
unfolding mask
press state button = bit_or state (mask button)

unfoldable pub release : JoypadState → Button → JoypadState
unfolding mask
release state button = bit_and state (not8 (mask button))

unfoldable pub is_pressed : JoypadState → Button → Bool
unfolding mask
is_pressed state button = not (bit_and state (mask button) == 0)

unfoldable pub union : JoypadState → JoypadState → JoypadState
union s t = bit_or s t

-- `HashMap<InputSourceId, JoypadState>`
abbrev pub InputMatrix : Type 0
InputMatrix = List (ℕ × JoypadState)

unfoldable pub set_source : InputMatrix → ℕ → JoypadState → InputMatrix
set_source [] source state = (source, state) ∷ []
set_source ((s, t) ∷ m) source state =
    if s == source then (source, state) ∷ m else (s, t) ∷ set_source m source state

unfoldable pub clear_source : InputMatrix → ℕ → InputMatrix
clear_source [] source = []
clear_source ((s, t) ∷ m) source =
    if s == source then clear_source m source else (s, t) ∷ clear_source m source

-- `fold(JoypadState::default(), JoypadState::union)`, from an accumulator
unfoldable pub fold_states : JoypadState → InputMatrix → JoypadState
unfolding union
fold_states acc [] = acc
fold_states acc ((s, t) ∷ m) = fold_states (union acc t) m

unfoldable pub effective : InputMatrix → JoypadState
unfolding fold_states
effective m = fold_states 0 m

pub record JoypadRegister : Type 0 where
  pub select_bits : ℕ
  pub state : JoypadState
  pub visible_low : ℕ

abbrev pub default_register : JoypadRegister
default_register = record { select_bits = 0x30; state = 0; visible_low = 0x0f }

unfoldable pub read : JoypadRegister → ℕ
read r = bit_or (bit_or 0xc0 r.select_bits) r.visible_low

-- The loop over a row's buttons and their bits.
unfoldable pub clear_pressed : JoypadState → ℕ → List Button → ℕ → ℕ
unfolding is_pressed
clear_pressed state k [] visible = visible
clear_pressed state k (button ∷ buttons) visible =
    clear_pressed state (suc k) buttons
      (if is_pressed state button then bit_and visible (not8 (2 ^ k)) else visible)

-- The new `visible` of `update_visible`.
unfoldable pub visible_keys : ℕ → JoypadState → ℕ
unfolding clear_pressed
visible_keys selected state =
    let directions =
      if bit_and selected 0x10 == 0
      then clear_pressed state 0 (right ∷ left ∷ up ∷ down ∷ []) 0x0f
      else 0x0f in
    if bit_and selected 0x20 == 0
    then clear_pressed state 0 (a ∷ b ∷ select ∷ start ∷ []) directions
    else directions

unfoldable pub update_visible : JoypadRegister → JoypadRegister × InterruptMask
unfolding from_bits bit
update_visible r =
    let visible = visible_keys r.select_bits r.state in
    (
      record r { visible_low = visible },
      if not (bit_and r.visible_low (not8 visible) == 0)
          then from_bits (bit joypad)
          else no_interrupt,
    )

unfoldable pub write : JoypadRegister → ℕ → JoypadRegister × InterruptMask
unfolding update_visible
write r value = update_visible (record r { select_bits = bit_and value 0x30 })

unfoldable pub set_state : JoypadRegister → JoypadState → JoypadRegister × InterruptMask
unfolding update_visible
set_state r state = update_visible (record r { state = state })
