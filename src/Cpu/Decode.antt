-- ===== src/Cpu/Decode.antt =====
-- crates/gb-core/src/cpu/decode.rs: the length and the clocks of every opcode. `base_metadata` is one
-- function by blocks of its outer match.
use pockiva.Prelude.{
  ℕ, ◌/◌, bit_and, Bool, true, false, ◌||◌, List, [], ◌∷◌, ltb, leb, ◌==◌, if◌then◌else◌, length,
}

-- `opcode >> 6`, `(opcode >> 3) & 7` and `opcode & 7`
abbrev pub x_of : ℕ → ℕ
x_of opcode = opcode / 64

abbrev pub y_of : ℕ → ℕ
y_of opcode = bit_and (opcode / 8) 7

abbrev pub z_of : ℕ → ℕ
z_of opcode = bit_and opcode 7

pub data Instruction : Type 0 where
  base : ℕ → Instruction
  prefixed : ℕ → Instruction

pub record DecodedInstruction : Type 0 where
  pub instruction : Instruction
  pub length : ℕ
  pub cycles_taken : ℕ
  pub cycles_not_taken : ℕ
  pub illegal : Bool

-- a length, and the clocks with the branch taken and not taken
abbrev pub Metadata : Type 0
Metadata = ℕ × ℕ × ℕ

-- `x` is 0
unfoldable pub metadata0 : ℕ → ℕ → Metadata
metadata0 z y =
    if z == 0
    then (if y == 0
        then (1, 4, 4)
        else if y == 1
        then (3, 20, 20)
        else if y == 2
        then (2, 4, 4)
        else if y == 3
        then (2, 12, 12)
        else (2, 12, 8))
    else if z == 1
    then (if bit_and y 1 == 0 then (3, 12, 12) else (1, 8, 8))
    else if z == 2 || z == 3
    then (1, 8, 8)
    else if z == 4 || z == 5
    then (1, (if y == 6 then 12 else 4), (if y == 6 then 12 else 4))
    else if z == 6
    then (2, (if y == 6 then 12 else 8), (if y == 6 then 12 else 8))
    else (1, 4, 4)

-- `x` is 1
unfoldable pub metadata1 : ℕ → ℕ → ℕ → Metadata
metadata1 opcode z y =
    let cycles : ℕ = if opcode == 0x76 then 4 else if y == 6 || z == 6 then 8 else 4 in
    (1, cycles, cycles)

-- `x` is 2
unfoldable pub metadata2 : ℕ → Metadata
metadata2 z = let cycles : ℕ = if z == 6 then 8 else 4 in (1, cycles, cycles)

-- `x` is 3
unfoldable pub metadata3 : ℕ → ℕ → Metadata
metadata3 z y =
    if z == 0
    then (if leb y 3
        then (1, 20, 8)
        else if y == 4 || y == 6
        then (2, 12, 12)
        else if y == 5
        then (2, 16, 16)
        else (2, 12, 12))
    else if z == 1
    then (if bit_and y 1 == 0
        then (1, 12, 12)
        else if y / 2 == 0 || y / 2 == 1
        then (1, 16, 16)
        else if y / 2 == 2
        then (1, 4, 4)
        else (1, 8, 8))
    else if z == 2
    then (if ltb y 4 then (3, 16, 12) else if y == 5 || y == 7 then (3, 16, 16) else (1, 8, 8))
    else if z == 3
    then (if y == 0 then (3, 16, 16) else if y == 1 then (2, 8, 8) else (1, 4, 4))
    else if z == 4
    then (3, 24, 12)
    else if z == 5
    then (if bit_and y 1 == 0 then (1, 16, 16) else (3, 24, 24))
    else if z == 6
    then (2, 8, 8)
    else (1, 16, 16)

unfoldable pub base_metadata : ℕ → Metadata
base_metadata opcode =
    let x = x_of opcode in
    let y = y_of opcode in
    let z = z_of opcode in
    if x == 0
    then metadata0 z y
    else if x == 1
    then metadata1 opcode z y
    else if x == 2
    then metadata2 z
    else metadata3 z y

abbrev pub illegal_opcodes : List ℕ
illegal_opcodes = 0xd3 ∷ 0xdb ∷ 0xdd ∷ 0xe3 ∷ 0xe4 ∷ 0xeb ∷ 0xec ∷ 0xed ∷ 0xf4 ∷ 0xfc ∷ 0xfd ∷ []

-- `ILLEGAL.contains(&opcode)`
unfoldable pub contains : List ℕ → ℕ → Bool
contains [] opcode = false
contains (o ∷ os) opcode = o == opcode || contains os opcode

unfoldable pub is_illegal : ℕ → Bool
unfolding contains
is_illegal opcode = contains illegal_opcodes opcode

-- the clocks of a prefixed opcode
unfoldable pub prefixed_cycles : ℕ → ℕ
prefixed_cycles opcode =
    let target = bit_and opcode 7 in
    if target == 6 then (if opcode / 64 == 1 then 12 else 16) else 8

unfoldable pub decode : ℕ → Bool → DecodedInstruction
decode opcode true =
    let cycles = prefixed_cycles opcode in
    record {
      instruction = prefixed opcode;
      length = 2;
      cycles_taken = cycles;
      cycles_not_taken = cycles;
      illegal = false;
    }
decode opcode false =
    let (length, taken, not_taken) = base_metadata opcode in
    record {
      instruction = base opcode;
      length = length;
      cycles_taken = taken;
      cycles_not_taken = not_taken;
      illegal = is_illegal opcode;
    }
