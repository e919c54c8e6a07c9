-- ===== src/Contracts.antt =====
-- crates/gb-core/src/contracts/emulator.rs: the core's errors. The message of an error carries no
-- behaviour: `InvalidRom` keeps the message's reason as a constructor, and the one
-- `InternalInvariant` that the processor raises keeps the opcode and the address that it prints.
use pockiva.Prelude.{ℕ}

pub data Reason : Type 0 where
  short_image image_length header_checksum ram_without_type rom_size_code ram_size_code : Reason
  capacity without_battery format_version ram_length mapper_data_not_empty : Reason
  mbc3_schema mbc3_values : Reason

pub data CoreError : Type 0 where
  invalid_rom : Reason → CoreError
  unsupported_cgb_only_cartridge : CoreError
  unsupported_mapper : ℕ → CoreError
  not_loaded : CoreError
  illegal_opcode : ℕ → ℕ → CoreError

-- `Result<A, CoreError>`, and a panic (a failed `expect`).
pub data Result {ℓ} (A : Type ℓ) : Type ℓ where
  ok : A → Result A
  err : CoreError → Result A
  panic : Result A

-- `?`, and `?` after a check that gives no value
infixl 5 ◌>>=◌ ◌>>◌
abbrev pub ◌>>=◌ {ℓ κ} : {A : Type ℓ} {C : Type κ} → Result A → (A → Result C) → Result C
ok value >>= next = next value
err reason >>= next = err reason
panic >>= next = panic

abbrev pub ◌>>◌ {ℓ} : {C : Type ℓ} → Result (Unit {0}) → Result C → Result C
check >> next = check >>= λ unit. next

-- contracts/frame.rs: a picture, its 160 * 144 * 4 bytes as a function of the index. A buffer of
-- another length cannot be written so, and is the one that `Frame::new` refuses.
pub record Frame : Type 0 where
  pub sequence : ℕ  -- u64
  pub rgba : ℕ → ℕ

abbrev pub screen_width : ℕ
screen_width = 160

abbrev pub screen_height : ℕ
screen_height = 144
