-- ===== src/Joypad/Sources.antt =====
-- The effective state against the sources that hold a button.
use pockiva.Prelude.{
  ℕ, bit_or, ◌≡◌, refl, Bool, false, ◌||◌, Option, none, some, [], ◌∷◌, arith, ◌==◌, if◌then◌else◌,
}
use pockiva.Prelude.Bits.{bit_at, bit_and-pow, bit_at-bit_or}
use pockiva.Joypad.{
  Button, up, index, JoypadState, is_pressed, union, InputMatrix, set_source, clear_source,
  fold_states, effective,
}

pub is_pressed_lem : (s : JoypadState) (k : Button) → is_pressed s k ≡ (bit_at (index k) s == 1)
unfolding is_pressed
is_pressed_lem s up = ground (arith, bit_and-pow 0 s)
is_pressed_lem s k = ground (arith, bit_and-pow (index k) s)

-- A button is pressed in a union when it is pressed in either state.
pub is_pressed-union :
    (s t : JoypadState) (k : Button) → is_pressed (union s t) k ≡ (is_pressed s k || is_pressed t k)
unfolding union
is_pressed-union s t k = ground (
  arith,
  is_pressed_lem (bit_or s t) k,
  is_pressed_lem s k,
  is_pressed_lem t k,
  bit_at-bit_or (index k) s t,
)

-- Some source holds the button.
pub held : InputMatrix → Button → Bool
held [] k = false
held ((s, t) ∷ m) k = is_pressed t k || held m k

fold_states-held :
    (acc : JoypadState) (m : InputMatrix) (k : Button)
    → is_pressed (fold_states acc m) k ≡ (is_pressed acc k || held m k)
unfolding fold_states held
fold_states-held acc [] k = ground arith
fold_states-held acc ((s, t) ∷ m) k =
    ground (arith, fold_states-held (union acc t) m k, is_pressed-union acc t k)

is_pressed-zero : (k : Button) → is_pressed 0 k ≡ false
unfolding is_pressed
is_pressed-zero up = refl
is_pressed-zero k = refl

-- A button is pressed in the effective state exactly when some source holds it, in whatever order
-- the map gives its values.
pub effective-held : (m : InputMatrix) (k : Button) → is_pressed (effective m) k ≡ held m k
unfolding effective
effective-held m k = ground (arith, fold_states-held 0 m k, is_pressed-zero k)

-- The source's own state.
unfoldable pub lookup : ℕ → InputMatrix → Option JoypadState
lookup source [] = none
lookup source ((s, t) ∷ m) = if s == source then some t else lookup source m

-- No source stands in the map twice.
abbrev pub IsMap : InputMatrix → Type 0
IsMap [] = Unit {0}
IsMap ((s, t) ∷ m) = (lookup s m ≡ none) × IsMap m

clear_source-absent :
    (m : InputMatrix) (source : ℕ) → lookup source m ≡ none → clear_source m source ≡ m
unfolding clear_source lookup
clear_source-absent [] source h = refl
clear_source-absent ((s, t) ∷ m) source h = ground (arith, clear_source-absent m source)

pub lookup-set_source :
    (m : InputMatrix) (source other : ℕ) (state : JoypadState)
    → lookup other (set_source m source state)
      ≡ (if source == other then some state else lookup other m)
unfolding set_source lookup
lookup-set_source [] source other state = refl
lookup-set_source ((s, t) ∷ m) source other state =
    ground (arith, lookup-set_source m source other state)

pub lookup-clear_source :
    (m : InputMatrix) (source other : ℕ)
    → lookup other (clear_source m source) ≡ (if source == other then none else lookup other m)
unfolding clear_source lookup
lookup-clear_source [] source other = ground arith
lookup-clear_source ((s, t) ∷ m) source other = ground (arith, lookup-clear_source m source other)

pub set_source-IsMap :
    (m : InputMatrix) (source : ℕ) (state : JoypadState)
    → IsMap m
    → IsMap (set_source m source state)
unfolding set_source lookup
set_source-IsMap [] source state h = (refl, tt)
set_source-IsMap ((s, t) ∷ m) source state h =
    ground (arith, set_source-IsMap m source state, lookup-set_source m source s state)

pub clear_source-IsMap : (m : InputMatrix) (source : ℕ) → IsMap m → IsMap (clear_source m source)
unfolding clear_source lookup
clear_source-IsMap [] source h = tt
clear_source-IsMap ((s, t) ∷ m) source h =
    ground (arith, clear_source-IsMap m source, lookup-clear_source m source s)

held-set_source :
    (m : InputMatrix) (source : ℕ) (state : JoypadState) (k : Button)
    → IsMap m
    → held (set_source m source state) k ≡ (is_pressed state k || held (clear_source m source) k)
unfolding set_source clear_source held lookup
held-set_source [] source state k h = refl
held-set_source ((s, t) ∷ m) source state k h =
    ground (arith, held-set_source m source state k h.1, clear_source-absent m source)

-- With each source in the map once, giving a source a state presses in the effective state exactly
-- the buttons of that state and those that the other sources hold: its own former buttons are gone
-- and nobody else's are lost. The map stays one.
pub effective-set_source :
    (m : InputMatrix) (source : ℕ) (state : JoypadState) (k : Button)
    → IsMap m
    → (is_pressed (effective (set_source m source state)) k
        ≡ (is_pressed state k || is_pressed (effective (clear_source m source)) k))
      × IsMap (set_source m source state)
effective-set_source m source state k h = (
  ground (
    arith,
    effective-held (set_source m source state) k,
    effective-held (clear_source m source) k,
    held-set_source m source state k h,
  ),
  set_source-IsMap m source state h,
)
