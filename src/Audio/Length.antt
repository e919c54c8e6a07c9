-- ===== src/Audio/Length.antt =====
-- crates/gb-core/src/apu/length.rs; the type's `MAX`, a power of two, is an argument.
use pockiva.Prelude.{
  ℕ, zero, suc, ◌-◌, Bool, false, not, ◌&&◌, ◌||◌, bit_and, ◌==◌, ltb, if◌then◌else◌, List, [], ◌∷◌,
}

pub record LengthCounter : Type 0 where
  pub remaining : ℕ  -- u16
  pub enabled : Bool

abbrev pub default_length : LengthCounter
default_length = record { remaining = 0; enabled = false }

unfoldable pub load : ℕ → LengthCounter → ℕ → LengthCounter
load most l raw = record l { remaining = most - bit_and raw (most - 1) }

unfoldable pub trigger : ℕ → LengthCounter → Bool → LengthCounter × Bool
trigger most l next_step_clocks_length =
    let l' =
      if l.remaining == 0
      then record l {
        remaining = if l.enabled && not next_step_clocks_length then most - 1 else most;
      }
      else l in
    (l', l'.remaining == 0)

unfoldable pub set_enabled : LengthCounter → Bool → Bool → Bool → LengthCounter × Bool
set_enabled l enabled next_step_clocks_length channel_active =
    let steps = not l.enabled && (enabled && (not next_step_clocks_length && ltb 0 l.remaining)) in
    let remaining = if steps then l.remaining - 1 else l.remaining in
    (
      record { remaining = remaining; enabled = enabled },
      channel_active && (enabled && remaining == 0),
    )

unfoldable pub clock : LengthCounter → LengthCounter × Bool
clock l =
    if not l.enabled || l.remaining == 0
    then (l, false)
    else (record l { remaining = l.remaining - 1 }, l.remaining - 1 == 0)

-- What a number of clocks report, the first one first.
unfoldable pub clocks : ℕ → LengthCounter → List Bool
unfolding clock
clocks zero l = []
clocks (suc n) l = let (l', ends) = clock l in ends ∷ clocks n l'
