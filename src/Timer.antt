-- ===== src/Timer.antt =====
-- crates/gb-core/src/timer.rs: the divider and the TIMA counter.
mod Tests
pub mod Valid
pub mod Counting
use pockiva.Prelude.{
  ℕ, zero, suc, ◌+◌, ◌-◌, ◌/◌, ◌%◌, ◌^◌, ◌==◌, bit_and, bit_or, add8_wrap, add16_wrap, Bool, true,
  false, not, ◌&&◌, Option, none, some, if◌then◌else◌,
}
use pockiva.Interrupts.{InterruptMask, no_interrupt, union, from_bits, bit, timer}

pub record Timer : Type 0 where
  pub divider : ℕ  -- u16
  pub tima : ℕ  -- u8
  pub tma : ℕ  -- u8
  pub tac : ℕ  -- u8
  pub reload_delay : Option ℕ  -- u8
  pub reloaded_this_cycle : Bool

abbrev pub default_timer : Timer
default_timer = record {
  divider = 0xabcc;
  tima = 0;
  tma = 0;
  tac = 0;
  reload_delay = none;
  reloaded_this_cycle = false;
}

unfoldable pub read : Timer → ℕ → ℕ
read t address =
    if address == 0xff04
    then t.divider / 2 ^ 8 % 256
    else if address == 0xff05
    then t.tima
    else if address == 0xff06
    then t.tma
    else if address == 0xff07
    then bit_or 0xf8 t.tac
    else 0xff

-- The divider's bit that the low two bits of TAC select.
unfoldable pub selected_bit : ℕ → ℕ
selected_bit tac =
    let selector = bit_and tac 0x03 in
    if selector == 0 then 9 else if selector == 1 then 3 else if selector == 2 then 5 else 7

unfoldable pub timer_input : Timer → Bool
unfolding selected_bit
timer_input t =
    if bit_and t.tac 0x04 == 0 then false else not (bit_and t.divider (2 ^ selected_bit t.tac) == 0)

unfoldable pub increment_tima : Timer → Timer
increment_tima t = elim t.reload_delay [
  | some _ ↦ t
  | none ↦
      if t.tima == 0xff
      then record t { tima = 0; reload_delay = some 4 }
      else record t { tima = add8_wrap t.tima 1 }
]

-- `if old && !self.timer_input() { self.increment_tima(); }`
unfoldable pub after_input : Bool → Timer → Timer
unfolding timer_input increment_tima
after_input old t = if old && not (timer_input t) then increment_tima t else t

unfoldable pub write : Timer → ℕ → ℕ → Timer × InterruptMask
unfolding timer_input after_input
write t address value = (
  if address == 0xff04
      then after_input (timer_input t) (record t { divider = 0 })
      else if address == 0xff05 && not t.reloaded_this_cycle
      then record t { tima = value; reload_delay = none }
      else if address == 0xff06
      then record t { tma = value; tima = if t.reloaded_this_cycle then value else t.tima }
      else if address == 0xff07
      then after_input (timer_input t) (record t { tac = bit_and value 0x07 })
      else t,
  no_interrupt,
)

-- The pending reload, at the start of a clock: the timer and whether TIMA was reloaded.
unfoldable pub reload : Timer → Timer × Bool
reload t = elim t.reload_delay [
  | none ↦ (t, false)
  | some delay ↦
      if delay == 1
      then (record t { reload_delay = none; tima = t.tma; reloaded_this_cycle = true }, true)
      else (record t { reload_delay = some (delay - 1) }, false)
]

-- One round of the loop of `tick`.
unfoldable pub tick_one : Timer → Timer × Bool
unfolding reload timer_input after_input
tick_one t =
    let (r, reloaded) = reload (record t { reloaded_this_cycle = false }) in
    (after_input (timer_input r) (record r { divider = add16_wrap r.divider 1 }), reloaded)

-- The loop of `tick`, with `requested` as its accumulator.
unfoldable pub tick_from : ℕ → Timer → InterruptMask → Timer × InterruptMask
unfolding union from_bits bit
tick_from zero t requested = (t, requested)
tick_from (suc n) t requested =
    let (t', reloaded) = tick_one t in
    tick_from n t' (if reloaded then union requested (from_bits (bit timer)) else requested)

unfoldable pub tick : ℕ → Timer → Timer × InterruptMask
unfolding tick_from
tick t_cycles t = tick_from t_cycles t no_interrupt
