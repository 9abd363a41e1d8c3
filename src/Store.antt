-- ===== src/Store.antt =====
-- native/src/atomic_write.cpp: a file replaced through a temporary file and a rename, and the
-- rotation of the previous file into a backup.
pub mod Sequence
pub mod Paths
pub mod Record
pub mod Monotone
pub mod State
pub mod Loaded
pub mod Durable
use showmesh_fpp_plugin.Base.{
  ℕ, ◌==◌, Bool, true, false, ◌≡◌, refl, if◌then◌else◌, List, [], ◌∷◌, ◌++◌, Option, none, some,
  Bytes,
}

-- The files of one store: the primary, its backup, and the primary's temporary file.
pub record Files : Type 0 where
  pub primary : Option Bytes
  pub backup : Option Bytes
  pub temporary : Option Bytes

-- Whether each of the two files, where it exists, can be opened for reading.
pub record Opens : Type 0 where
  pub primary : Bool
  pub backup : Bool

abbrev pub all_open : Opens
all_open = record { primary = true; backup = true }

-- What a std::ifstream reads: nothing where the file is missing or its open fails, and its whole text
-- otherwise.
unfoldable pub opened : Bool → Option Bytes → Option Bytes
opened opens file = if opens then file else none

-- What the file system answers to each call of one store(), in the order of the calls: the reads of the
-- load that it compares with, the read of the primary that decides on the rotation, the rotation, and
-- the steps of the write, with what a write that fails leaves behind. A process that stops between two
-- calls is one whose later calls fail.
pub record FileCalls : Type 0 where
  pub reads : Opens
  pub checks : Bool
  pub rotates : Bool
  pub opens : Bool
  pub writes : Bool
  pub written : Bytes
  pub syncs : Bool
  pub renames : Bool

-- The rename of the temporary file over the primary.
abbrev pub renamed : Files → Bytes → Files
renamed files contents = record files { primary = some contents; temporary = none }

unfoldable pub write_file_atomically : Files → FileCalls → Bytes → Bool × Files
write_file_atomically files calls contents =
    if calls.opens
    then (if calls.writes
        then (if calls.syncs
            then (if calls.renames
                then (true, renamed files contents)
                else (false, record files { temporary = some contents }))
            else (false, record files { temporary = some contents }))
        else (false, record files { temporary = some calls.written }))
    else (false, files)

-- A rename of a primary that is not there fails.
unfoldable pub rotate_contents : Option Bytes → Files → Files
rotate_contents none files = files
rotate_contents (some contents) files = record files { primary = none; backup = some contents }

unfoldable pub rotate : Files → Files
rotate files = rotate_contents files.primary files

unfoldable pub write_with_backup_rotation : Files → FileCalls → Bool → Bytes → Bool × Files
write_with_backup_rotation files calls primary_is_currently_valid contents =
    if primary_is_currently_valid
    then write_file_atomically (if calls.rotates then rotate files else files) calls contents
    else write_file_atomically files calls contents

-- std::getline on what is left of a file: no line at its end, and a last line needs no newline.
unfoldable pub line_of : Bytes → Bytes × Bytes
line_of [] = ([], [])
line_of (c ∷ cs) = let rest = line_of cs in if c == 10 then ([], cs) else (c ∷ rest.0, rest.1)

unfoldable pub getline : Bytes → Option (Bytes × Bytes)
getline [] = none
getline (c ∷ cs) = some (line_of (c ∷ cs))

-- The two lines of a record, when the file has exactly two.
unfoldable pub no_trailing : Bytes → Option (Bytes × Bytes) → Option (Bytes × Bytes)
no_trailing first none = none
no_trailing first (some second) = elim (getline second.1) [
  | none ↦ some (first, second.0)
  | some trailing ↦ none
]

unfoldable pub second_line : Option (Bytes × Bytes) → Option (Bytes × Bytes)
second_line none = none
second_line (some first) = no_trailing first.0 (getline first.1)

unfoldable pub two_lines : Bytes → Option (Bytes × Bytes)
two_lines text = second_line (getline text)

-- A line, its hash, and nothing else.
unfoldable pub record_text : (Bytes → Bytes) → Bytes → Bytes
record_text sha256_hex line = line ++ (10 ∷ (sha256_hex line ++ (10 ∷ [])))
