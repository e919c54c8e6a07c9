-- ===== src/Desktop/Lifecycle.antt =====
-- apps/desktop/src-tauri/src/emulator/contracts.rs and the model of emulator/runtime.rs. An error is
-- its code; the message carries no behaviour.
use pockiva.Prelude.{ℕ, Bool, true, false, Option, none, some, List, if◌then◌else◌}
use pockiva.Contracts.{
  CoreError, invalid_rom, unsupported_cgb_only_cartridge, unsupported_mapper, not_loaded,
  illegal_opcode,
}
use pockiva.Cartridge.Header.{MapperKind, CompatibilityMode, CartridgeMetadata}

-- `KEYBOARD_INPUT_SOURCE` and `REMOTE_INPUT_SOURCE`
abbrev pub keyboard_input_source : ℕ
keyboard_input_source = 1

abbrev pub remote_input_source : ℕ
remote_input_source = 2

pub data RuntimePhase : Type 0 where
  empty loading paused running error : RuntimePhase

pub data RuntimeErrorCode : Type 0 where
  file_inaccessible invalid_rom_file cgb_only unknown_mapper core_failure invalid_lifecycle :
      RuntimeErrorCode
  runtime_unavailable : RuntimeErrorCode

pub data RuntimeMapper : Type 0 where
  rom_only mbc1 mbc3 mbc5 : RuntimeMapper

pub data RuntimeCompatibility : Type 0 where
  dmg dmg_compatible : RuntimeCompatibility

-- `From<CoreError>`
unfoldable pub from_core_error : CoreError → RuntimeErrorCode
from_core_error (invalid_rom reason) = invalid_rom_file
from_core_error unsupported_cgb_only_cartridge = cgb_only
from_core_error (unsupported_mapper mapper) = unknown_mapper
from_core_error not_loaded = invalid_lifecycle
from_core_error (illegal_opcode opcode pc) = core_failure

-- `From<MapperKind>` and `From<CompatibilityMode>`
unfoldable pub from_mapper : MapperKind → RuntimeMapper
from_mapper MapperKind.rom_only = rom_only
from_mapper MapperKind.mbc1 = mbc1
from_mapper MapperKind.mbc3 = mbc3
from_mapper MapperKind.mbc5 = mbc5

unfoldable pub from_compatibility : CompatibilityMode → RuntimeCompatibility
from_compatibility CompatibilityMode.dmg = dmg
from_compatibility CompatibilityMode.dmg_compatible = dmg_compatible

pub record RomSummary : Type 0 where
  pub title : List ℕ
  pub file_name : List ℕ
  pub rom_identity : List ℕ
  pub mapper : RuntimeMapper
  pub compatibility : RuntimeCompatibility

unfoldable pub from_metadata : CartridgeMetadata → List ℕ → RomSummary
unfolding from_mapper from_compatibility
from_metadata metadata file_name = record {
  title = metadata.title;
  file_name = file_name;
  rom_identity = metadata.rom_identity;
  mapper = from_mapper metadata.mapper;
  compatibility = from_compatibility metadata.compatibility;
}

pub record RuntimeSnapshot : Type 0 where
  pub phase : RuntimePhase
  pub rom : Option RomSummary
  pub failure : Option RuntimeErrorCode  -- the field `error`

abbrev pub empty_snapshot : RuntimeSnapshot
empty_snapshot = record { phase = empty; rom = none; failure = none }

-- `RuntimeResult`
pub data RuntimeResult (A : Type 0) : Type 0 where
  ok : A → RuntimeResult A
  err : RuntimeErrorCode → RuntimeResult A

pub record RuntimeModel : Type 0 where
  pub snapshot : RuntimeSnapshot
  pub core_loaded : Bool

abbrev pub default_model : RuntimeModel
default_model = record { snapshot = empty_snapshot; core_loaded = false }

unfoldable pub begin_load : RuntimeModel → RuntimeModel
begin_load m = record {
  core_loaded = false;
  snapshot = record { phase = loading; rom = none; failure = none };
}

unfoldable pub finish_load : RuntimeModel → CartridgeMetadata → List ℕ → RuntimeModel
unfolding from_metadata
finish_load m metadata file_name = record {
  core_loaded = true;
  snapshot = record {
    phase = paused;
    rom = some (from_metadata metadata file_name);
    failure = none;
  };
}

unfoldable pub fail_load : RuntimeModel → RuntimeErrorCode → RuntimeModel
fail_load m code = record {
  core_loaded = false;
  snapshot = record { phase = error; rom = none; failure = some code };
}

unfoldable pub close : RuntimeModel → RuntimeModel
close m = record { core_loaded = false; snapshot = empty_snapshot }

unfoldable pub require_loaded : RuntimeModel → RuntimeResult (Unit {0})
require_loaded m = if m.core_loaded then ok tt else err invalid_lifecycle

-- The change of phase that `start`, `pause` and `restart` make after `require_loaded`.
unfoldable pub enter : RuntimePhase → RuntimeModel → RuntimeModel × RuntimeResult (Unit {0})
unfolding require_loaded
enter phase m = elim (require_loaded m) [
  | ok unit ↦ (record m { snapshot = record m.snapshot { phase = phase } }, ok tt)
  | err code ↦ (m, err code)
]

unfoldable pub start : RuntimeModel → RuntimeModel × RuntimeResult (Unit {0})
unfolding enter
start m = enter running m

unfoldable pub pause : RuntimeModel → RuntimeModel × RuntimeResult (Unit {0})
unfolding enter
pause m = enter paused m

unfoldable pub restart : RuntimeModel → RuntimeModel × RuntimeResult (Unit {0})
unfolding enter
restart m = enter running m
