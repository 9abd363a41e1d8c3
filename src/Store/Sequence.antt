-- ===== src/Store/Sequence.antt =====
-- native/src/sequence_store.cpp: the event sequence kept across restarts, in two files; and
-- SequenceState of native/include/showmesh/playlist_identity.h.
use showmesh_fpp_plugin.Base.{
  ℕ, suc, ◌%◌, ◌^◌, ltb, leb, Bool, true, false, not, ◌&&◌, ◌||◌, if◌then◌else◌, Option, none, some,
  Bytes, eq_bytes, null,
}
use showmesh_fpp_plugin.Decimal.{all_digits, to_string, scan_digits}
use showmesh_fpp_plugin.Store.{
  Files, Opens, FileCalls, opened, write_with_backup_rotation, two_lines, record_text,
}

pub record ParsedRecord : Type 0 where
  pub value : ℕ
  pub ok : Bool
  pub present : Bool

pub record LoadResult : Type 0 where
  pub value : ℕ
  pub files_present_but_invalid : Bool

-- strtoull fails on a number of more than 64 bits and on text left over.
unfoldable pub value_of_line : Bytes → Option ℕ
value_of_line line =
    let scanned = scan_digits 0 line in
    if null line || not (all_digits line)
    then none
    else if leb (2 ^ 64) scanned.0 || not (null scanned.1)
    then none
    else some scanned.0

abbrev pub invalid : ParsedRecord
invalid = record { value = 0; ok = false; present = true }

unfoldable pub valid : Option ℕ → ParsedRecord
valid none = invalid
valid (some value) = record { value = value; ok = true; present = true }

abbrev pub raised : ℕ → ParsedRecord → ℕ
raised value parsed = if parsed.ok && ltb value parsed.value then parsed.value else value

unfoldable pub load_records : ParsedRecord → ParsedRecord → LoadResult
load_records primary backup = record {
  value = raised (raised 0 primary) backup;
  files_present_but_invalid = (primary.present || backup.present) && not (primary.ok || backup.ok);
}

-- The hash of a line, which is native/src/sha256.cpp's in the program.
module _ (sha256_hex : Bytes → Bytes) where
  unfoldable pub encode_record : ℕ → Bytes
  encode_record value = record_text sha256_hex (to_string value)

  -- The checks of a file that opened: the two lines, the value's digits, the hash, the number.
  unfoldable pub parse_lines : Option (Bytes × Bytes) → ParsedRecord
  parse_lines none = invalid
  parse_lines (some lines) =
      if eq_bytes lines.1 (sha256_hex lines.0) then valid (value_of_line lines.0) else invalid

  unfoldable pub parse_record : Option Bytes → ParsedRecord
  parse_record none = record { value = 0; ok = false; present = false }
  parse_record (some text) = parse_lines (two_lines text)

  unfoldable pub load_detailed : Files → Opens → LoadResult
  load_detailed files opens =
      load_records (parse_record (opened opens.primary files.primary))
        (parse_record (opened opens.backup files.backup))

  unfoldable pub load : Files → Opens → ℕ
  load files opens = (load_detailed files opens).value

  unfoldable pub store : Files → FileCalls → ℕ → Bool × Files
  store files calls value =
      if ltb value (load files calls.reads)
      then (false, files)
      else write_with_backup_rotation files calls
          (parse_record (opened calls.checks files.primary)).ok (encode_record value)

-- SequenceState: a counter of 64 bits.
unfoldable pub next : ℕ → ℕ
next value = suc value % 2 ^ 64

unfoldable pub restore : ℕ → ℕ → ℕ
restore value persisted = if ltb value persisted then persisted else value
