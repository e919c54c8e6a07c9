-- ===== src/Joypad/Tests.antt =====
-- The joypad's theorems with two input sources and at a register with its action row selected.
use pockiva.Prelude.{◌≡◌, refl, [], ◌∷◌, ◌||◌, arith}
use pockiva.Interrupts.{bit, joypad}
use pockiva.Joypad.{
  Button, down, a, is_pressed, InputMatrix, set_source, clear_source, effective, JoypadRegister,
  default_register, read, write, set_state, visible_keys,
}
use pockiva.Joypad.Sources.{IsMap, effective-set_source}
use pockiva.Joypad.Register.{IsValid, default_register-IsValid, write-IsValid}

-- the keyboard holds A and down, the remote controller A
abbrev two_sources : InputMatrix
two_sources = (0, 0x18) ∷ (7, 0x10) ∷ []

two_sources-IsMap : IsMap two_sources
unfolding pockiva.Joypad.Sources.lookup
two_sources-IsMap = (refl, (refl, tt))

effective-set_source_example :
    (is_pressed (effective (set_source two_sources 0 0)) a
      ≡ (is_pressed 0 a || is_pressed (effective (clear_source two_sources 0)) a))
    × IsMap (set_source two_sources 0 0)
effective-set_source_example = effective-set_source two_sources 0 0 a two_sources-IsMap

-- the action row is selected
abbrev actions : JoypadRegister
actions = (write default_register 0x10).0

actions-IsValid : IsValid actions
actions-IsValid = write-IsValid default_register 0x10 (omega arith) default_register-IsValid

pressed_a_requests : (set_state actions 0x10).1 ≡ 16
unfolding set_state write visible_keys pockiva.Interrupts.bit
pressed_a_requests = refl
