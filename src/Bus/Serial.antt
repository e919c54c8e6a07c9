-- ===== src/Bus/Serial.antt =====
-- `SerialPort` of crates/gb-core/src/bus/mod.rs. A byte that is sent is captured, the last 4096 of
-- them.
use pockiva.Prelude.{
  ℕ, bit_and, bit_or, List, [], ◌∷◌, ◌++◌, ◌==◌, if◌then◌else◌, length, drop, length-append, ◌≤◌,
  ◌<◌, ◌+◌, ◌-◌, ◌≡◌, refl, ap, ◌∙◌, Bool, true, false, arith,
}
use pockiva.Interrupts.{InterruptMask, no_interrupt, from_bits, bit, serial}

pub record SerialPort : Type 0 where
  pub data_byte : ℕ  -- u8
  pub control : ℕ  -- u8
  pub captured : List ℕ

abbrev pub default_port : SerialPort
default_port = record { data_byte = 0; control = 0; captured = [] }

unfoldable pub read : SerialPort → ℕ → ℕ
read p address =
    if address == 0xff01
    then p.data_byte
    else if address == 0xff02
    then bit_or p.control 0x7e
    else 0xff

unfoldable pub capture : List ℕ → ℕ → List ℕ
capture captured value =
    (if length captured == 4096 then drop 1 captured else captured) ++ (value ∷ [])

unfoldable pub write : SerialPort → ℕ → ℕ → SerialPort × InterruptMask
unfolding capture from_bits bit
write p address value =
    if address == 0xff01
    then (record p { data_byte = value }, no_interrupt)
    else if address == 0xff02
    then (if value == 0x81
        then (
          record p { control = bit_and value 0x7f; captured = capture p.captured p.data_byte },
          from_bits (bit serial),
        )
        else (record p { control = value }, no_interrupt))
    else (p, no_interrupt)

drop_head : (c : List ℕ) (v : ℕ) → 0 < length c → drop 1 c ++ (v ∷ []) ≡ drop 1 (c ++ (v ∷ []))
drop_head [] v h = absurd (ground arith)
drop_head (x ∷ c) v h = refl

length-drop_head : (c : List ℕ) → length (drop 1 c) ≡ length c - 1
length-drop_head [] = ground arith
length-drop_head (x ∷ c) = ground arith

-- Sending a byte, from a port that has captured 4096 bytes at most, keeps the last 4096 of those
-- captured and the new one, requests exactly the serial interrupt and clears the start bit.
pub write_send :
    (p : SerialPort) (value : ℕ)
    → length p.captured ≤ 4096
    → let (p', mask) = write (write p 0xff01 value).0 0xff02 0x81 in
      (p'.captured ≡ drop (length p.captured + 1 - 4096) (p.captured ++ (value ∷ [])))
      × (length p'.captured ≤ 4096)
      × (mask ≡ bit serial)
      × (p'.control ≡ 1)
unfolding write from_bits bit
write_send p value h = (kept (length p.captured == 4096) refl, short, refl, refl)
  where
    same_drop :
        (k : ℕ)
        → k ≡ length p.captured + 1 - 4096
        → drop k (p.captured ++ (value ∷ []))
          ≡ drop (length p.captured + 1 - 4096) (p.captured ++ (value ∷ []))
    same_drop k e = ap (λ (t : ℕ). drop t (p.captured ++ (value ∷ []))) e

    kept :
        (full : Bool)
        → (length p.captured == 4096) ≡ full
        → (if full then drop 1 p.captured else p.captured) ++ (value ∷ [])
          ≡ drop (length p.captured + 1 - 4096) (p.captured ++ (value ∷ []))
    kept true e = drop_head p.captured value (ground arith) ∙ same_drop 1 (ground arith)
    kept false e = same_drop 0 (ground arith)

    short :
        length
          ((if length p.captured == 4096 then drop 1 p.captured else p.captured) ++ (value ∷ []))
        ≤ 4096
    short = ground (
      arith,
      length-append (drop 1 p.captured) (value ∷ []),
      length-append p.captured (value ∷ []),
      length-drop_head p.captured,
    )
