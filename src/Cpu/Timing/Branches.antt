-- ===== src/Cpu/Timing/Branches.antt =====
-- `branch_taken`, which reads the opcode, against the branch that `execute_base` takes.
use pockiva.Prelude.{
  ℕ, ◌-◌, ◌<◌, ◌≡◌, refl, Bool, true, false, not, ◌&&◌, ◌||◌, arith, ltb, leb, ◌==◌, if◌then◌else◌,
  same, same-eq,
}
use pockiva.Prelude.Bits.{all_below, all_below_sound}
use pockiva.Cpu.Registers.{Registers, Flags, flag_z, flag_c, contains}
use pockiva.Cpu.Decode.{x_of, y_of, z_of, is_illegal}
use pockiva.Cpu.State.{CpuBus, System, condition, fetch8, fetch16}
use pockiva.Cpu.Execute.{
  jump_relative, execute0, execute1, halt, execute2, return_or_high, jump_or_load, call_if,
  execute3, execute_base, load_pair, load_indirect, step_pair, step_byte, load_immediate,
  pop_or_return, jump_or_ime, push_or_call,
}
use pockiva.Cpu.Step.{branch_taken, one_of}
use pockiva.Cpu.Timing.Access.{ClockLaws, fetch8-flags, fetch16-flags}

-- The condition that a code stands for, given the two flags.
condition_of : Bool → Bool → ℕ → Bool
condition_of z c code =
    if code == 0 then not z else if code == 1 then z else if code == 2 then not c else c

-- The branch that the blocks of `execute_base` take.
block_branch : Bool → Bool → ℕ → ℕ → ℕ → Bool
unfolding condition_of
block_branch zero_flag carry x y z =
    if (x == 0) && ((z == 0) && leb 4 y)
    then condition_of zero_flag carry (y - 4)
    else if (x == 3) && ((z == 0) && leb y 3 || ((z == 2) && ltb y 4 || z == 4))
    then condition_of zero_flag carry y
    else true

opcode_branch : Bool → Bool → ℕ → Bool
opcode_branch z c opcode =
    if one_of opcode 0x20 0xc0 0xc2 0xc4
    then not z
    else if one_of opcode 0x28 0xc8 0xca 0xcc
    then z
    else if one_of opcode 0x30 0xd0 0xd2 0xd4
    then not c
    else if one_of opcode 0x38 0xd8 0xda 0xdc
    then c
    else true

branches_agree : Bool → Bool → ℕ → Bool
unfolding block_branch opcode_branch
branches_agree z c opcode =
    is_illegal opcode
    || same (opcode_branch z c opcode) (block_branch z c (x_of opcode) (y_of opcode) (z_of opcode))

agree_table :
    all_below 256 (λ o.
      branches_agree false false o
      && (branches_agree false true o
          && (branches_agree true false o && branches_agree true true o)))
    ≡ true
unfolding all_below branches_agree is_illegal
agree_table = refl

agree_four : (z c : Bool) (opcode : ℕ) → opcode < 256 → branches_agree z c opcode ≡ true
agree_four z c opcode h = pick z c (
    all_below_sound 256
      (λ o.
        branches_agree false false o
        && (branches_agree false true o
            && (branches_agree true false o && branches_agree true true o)))
      opcode agree_table h)
  where
    pick :
        (z c : Bool)
        → (branches_agree false false opcode
            && (branches_agree false true opcode
                && (branches_agree true false opcode && branches_agree true true opcode)))
          ≡ true
        → branches_agree z c opcode ≡ true
    pick false false e = ground arith
    pick false true e = ground arith
    pick true false e = ground arith
    pick true true e = ground arith

branch_agrees :
    (z c : Bool) (opcode : ℕ)
    → opcode < 256
    → is_illegal opcode ≡ false
    → opcode_branch z c opcode ≡ block_branch z c (x_of opcode) (y_of opcode) (z_of opcode)
unfolding branches_agree
branch_agrees z c opcode h legal = same-eq _ _ (ground (arith, agree_four z c opcode h))

condition-flags :
    (r : Registers) (code : ℕ)
    → condition r code ≡ condition_of (contains r.f flag_z) (contains r.f flag_c) code
unfolding condition condition_of
condition-flags r code = refl

branch_taken_lem :
    (f : Flags) (opcode : ℕ)
    → branch_taken f opcode ≡ opcode_branch (contains f flag_z) (contains f flag_c) opcode
unfolding branch_taken opcode_branch
branch_taken_lem f opcode = refl

module _ {B : Type 0} (bus : CpuBus B) (laws : ClockLaws bus) where
  -- The condition that the flags before the fetches give.
  abbrev holds : System B → ℕ → Bool
  holds s code =
      let f = s.cpu.registers.f in condition_of (contains f flag_z) (contains f flag_c) code

  after_fetch8 :
      (s : System B) (code : ℕ) → condition (fetch8 bus s).1.cpu.registers code ≡ holds s code
  after_fetch8 s code = rw (condition-flags, fetch8-flags bus laws s)

  after_fetch16 :
      (s : System B) (code : ℕ) → condition (fetch16 bus s).1.cpu.registers code ≡ holds s code
  after_fetch16 s code = rw (condition-flags, fetch16-flags bus laws s)

  jump_relative-branch :
      (y : ℕ) (s : System B)
      → (jump_relative bus y s).0 ≡ (if leb 4 y then holds s (y - 4) else true)
  unfolding jump_relative
  jump_relative-branch y s = ground (arith, after_fetch8 s (y - 4))

  execute0-branch :
      (z y : ℕ) (s : System B)
      → (execute0 bus z y s).0 ≡ (if (z == 0) && leb 4 y then holds s (y - 4) else true)
  unfolding execute0 load_pair load_indirect step_pair step_byte load_immediate
  execute0-branch z y s = ground (arith, jump_relative-branch y s)

  return_or_high-branch :
      (y : ℕ) (s : System B) → (return_or_high bus y s).0 ≡ (if leb y 3 then holds s y else true)
  unfolding return_or_high
  return_or_high-branch y s = ground (arith, condition-flags s.cpu.registers y)

  jump_or_load-branch :
      (y : ℕ) (s : System B) → (jump_or_load bus y s).0 ≡ (if ltb y 4 then holds s y else true)
  unfolding jump_or_load
  jump_or_load-branch y s = ground (arith, after_fetch16 s y)

  call_if-branch : (y : ℕ) (s : System B) → (call_if bus y s).0 ≡ holds s y
  unfolding call_if
  call_if-branch y s = ground (arith, after_fetch16 s y)

  execute3-branch :
      (z y : ℕ) (s : System B)
      → (execute3 bus z y s).0
        ≡ (if (z == 0) && leb y 3 || ((z == 2) && ltb y 4 || z == 4) then holds s y else true)
  unfolding execute3 pop_or_return jump_or_ime push_or_call
  execute3-branch z y s =
      ground (arith, return_or_high-branch y s, jump_or_load-branch y s, call_if-branch y s)

  execute1-branch : (opcode z y : ℕ) (s : System B) → (execute1 bus opcode z y s).0 ≡ true
  unfolding execute1 halt
  execute1-branch opcode z y s = ground arith

  execute2-branch : (z y : ℕ) (s : System B) → (execute2 bus z y s).0 ≡ true
  unfolding execute2
  execute2-branch z y s = refl

  -- A legal opcode takes its branch exactly when `branch_taken` says so of the flags before it.
  pub execute_base-branch :
      (opcode : ℕ) (s : System B)
      → opcode < 256
      → is_illegal opcode ≡ false
      → (execute_base bus opcode s).0 ≡ branch_taken s.cpu.registers.f opcode
  unfolding execute_base block_branch
  execute_base-branch opcode s h legal = rw (branch_taken_lem s.cpu.registers.f opcode) (
      ground (
        arith,
        branch_agrees (contains s.cpu.registers.f flag_z) (contains s.cpu.registers.f flag_c) opcode
            h legal,
        execute0-branch (z_of opcode) (y_of opcode) s,
        execute1-branch opcode (z_of opcode) (y_of opcode) s,
        execute2-branch (z_of opcode) (y_of opcode) s,
        execute3-branch (z_of opcode) (y_of opcode) s,
      ))
