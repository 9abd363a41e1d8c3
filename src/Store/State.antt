-- ===== src/Store/State.antt =====
-- native/src/brightness_store.cpp: the engine's state kept across restarts, in two files.
use showmesh_fpp_plugin.Base.{
  Bool, true, false, ◌||◌, if◌then◌else◌, Option, none, some, Bytes, eq_bytes,
}
use showmesh_fpp_plugin.Store.{
  Files, Opens, opened, FileCalls, write_with_backup_rotation, two_lines, record_text,
}

unfoldable pub is_some {ℓ} : {A : Type ℓ} → Option A → Bool
is_some none = false
is_some (some a) = true

-- `state` is `some` where `ok` is true.
pub record BrightnessStateLoad (State : Type 0) : Type 0 where
  pub state : Option State
  pub trusted_as_current : Bool
  pub record_expected_but_unreadable : Bool

-- The hash, and encodeBrightnessState and decodeBrightnessState, are native/src/sha256.cpp's and
-- native/src/brightness_codec.cpp's in the program.
module _ {State : Type 0} (sha256_hex : Bytes → Bytes) (encode : State → Bytes)
    (decode : Bytes → Option State) where
  unfoldable pub encode_state_record : State → Bytes
  encode_state_record state = record_text sha256_hex (encode state)

  unfoldable pub parse_state_lines : Option (Bytes × Bytes) → Option State
  parse_state_lines none = none
  parse_state_lines (some lines) =
      if eq_bytes lines.1 (sha256_hex lines.0) then decode lines.0 else none

  unfoldable pub parse_state_record : Option Bytes → Option State
  parse_state_record none = none
  parse_state_record (some text) = parse_state_lines (two_lines text)

  unfoldable pub choose_state : Option State → Option State → Bool → BrightnessStateLoad State
  choose_state (some state) backup exists = record {
    state = some state;
    trusted_as_current = true;
    record_expected_but_unreadable = false;
  }
  choose_state none (some state) exists = record {
    state = some state;
    trusted_as_current = false;
    record_expected_but_unreadable = false;
  }
  choose_state none none exists = record {
    state = none;
    trusted_as_current = false;
    record_expected_but_unreadable = exists;
  }

  -- The reads of the two files, and fileExists, which opens them again.
  unfoldable pub load_state : Files → Opens → Opens → BrightnessStateLoad State
  load_state files opens again =
      choose_state (parse_state_record (opened opens.primary files.primary))
        (parse_state_record (opened opens.backup files.backup))
        (is_some (opened again.primary files.primary) || is_some (opened again.backup files.backup))

  unfoldable pub store_state : Files → FileCalls → State → Bool × Files
  store_state files calls state =
      write_with_backup_rotation files calls
        (is_some (parse_state_record (opened calls.checks files.primary)))
        (encode_state_record state)
