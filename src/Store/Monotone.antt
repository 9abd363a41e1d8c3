-- ===== src/Store/Monotone.antt =====
-- The order of the two files of the sequence store: what is on disk never goes back.
use showmesh_fpp_plugin.Base.{
  ℕ, ◌≤◌, ◌<◌, ◌^◌, ltb, Bool, true, false, ◌≡◌, refl, sym, ◌∙◌, ap, if◌then◌else◌, Option, none,
  some, Bytes, arith, Bool-cases, inl, inr, ◌⊎◌, subst, ltb-false,
}
use showmesh_fpp_plugin.Decimal.{to_string}
use showmesh_fpp_plugin.Store.{
  Files, FileCalls, all_open, opened, rotate, rotate_contents, write_file_atomically,
  write_with_backup_rotation,
}
use showmesh_fpp_plugin.Store.Sequence.{
  ParsedRecord, load_records, encode_record, parse_record, load_detailed, load, store,
}
use showmesh_fpp_plugin.Store.Record.{IsLine, parse_record-encode_record}

-- What a file counts for: nothing when it is not valid.
abbrev held : ParsedRecord → ℕ
held parsed = if parsed.ok then parsed.value else 0

-- A valid primary is not behind the backup.
abbrev Ahead : ParsedRecord → ParsedRecord → Type 0
Ahead primary backup = if primary.ok then held backup ≤ primary.value else Unit

max_held : (primary backup : ParsedRecord) → held backup ≤ (load_records primary backup).value
unfolding load_records
max_held primary backup = ground arith

load-Ahead :
    (primary backup : ParsedRecord)
    → primary.ok ≡ true
    → Ahead primary backup
    → (load_records primary backup).value ≡ primary.value
unfolding load_records
load-Ahead primary backup h k = ground arith

load-no_primary :
    (primary backup : ParsedRecord)
    → primary.ok ≡ false
    → (load_records primary backup).value ≡ held backup
unfolding load_records
load-no_primary primary backup h = ground arith

-- What a store promises of the two files it leaves, from those it found.
abbrev Settled : (before after : ParsedRecord × ParsedRecord) → Bool → ℕ → Type 0
Settled before after done value =
    Ahead after.0 after.1
    × ((load_records after.0 after.1).value
        ≡ (if done then value else (load_records before.0 before.1).value))

abbrev absent : ParsedRecord
absent = record { value = 0; ok = false; present = false }

abbrev written : ℕ → ParsedRecord
written value = record { value = value; ok = true; present = true }

Settled-kept : (p b : ParsedRecord) (value : ℕ) → Ahead p b → Settled (p, b) (p, b) false value
Settled-kept p b value h = (h, refl)

Settled-rotated :
    (p b : ParsedRecord) (value : ℕ)
    → p.ok ≡ true
    → Ahead p b
    → Settled (p, b) (absent, p) false value
Settled-rotated p b value k h =
    (tt, load-no_primary absent p refl ∙ (rw k refl) ∙ sym (load-Ahead p b k h))

Settled-written :
    (p b : ParsedRecord) (value : ℕ)
    → (load_records p b).value ≤ value
    → Settled (p, b) (written value, b) true value
Settled-written p b value h =
    let ahead = held_le p b value h in (ahead, load-Ahead (written value) b refl ahead)
  where
    held_le : (p b : ParsedRecord) (value : ℕ) → (load_records p b).value ≤ value → held b ≤ value
    held_le p b value h = omega (arith, max_held p b)

Settled-both :
    (p b : ParsedRecord) (value : ℕ)
    → p.ok ≡ true
    → Ahead p b
    → (load_records p b).value ≤ value
    → Settled (p, b) (written value, p) true value
Settled-both p b value k a h =
    let ahead = held_le p b value k a h in (ahead, load-Ahead (written value) p refl ahead)
  where
    held_le :
        (p b : ParsedRecord) (value : ℕ)
        → p.ok ≡ true
        → Ahead p b
        → (load_records p b).value ≤ value
        → held p ≤ value
    held_le p b value k a h = subst (λ n. n ≤ value) (load-Ahead p b k a ∙ rw k refl) h

-- A write leaves the backup alone, and puts the contents in place or nothing.
abbrev pub Replaces : Files → Bytes → Bool × Files → Type 0
Replaces files contents r =
    (r.1.backup ≡ files.backup)
    × (((r.0 ≡ true) × (r.1.primary ≡ some contents))
        ⊎ ((r.0 ≡ false) × (r.1.primary ≡ files.primary)))

if-Replaces :
    (test : Bool) (files : Files) (contents : Bytes) (r s : Bool × Files)
    → Replaces files contents r
    → Replaces files contents s
    → Replaces files contents (if test then r else s)
if-Replaces true files contents r s h k = h
if-Replaces false files contents r s h k = k

pub write_file_atomically-Replaces :
    (files : Files) (calls : FileCalls) (contents : Bytes)
    → Replaces files contents (write_file_atomically files calls contents)
unfolding write_file_atomically
write_file_atomically-Replaces files calls contents =
    if-Replaces calls.opens files contents _ _
      (if-Replaces calls.writes files contents _ _
        (if-Replaces calls.syncs files contents _ _
          (if-Replaces calls.renames files contents _ _ (refl, inl (refl, refl))
            (refl, inr (refl, refl)))
          (refl, inr (refl, refl)))
        (refl, inr (refl, refl)))
      (refl, inr (refl, refl))

at_least : (m n : ℕ) (b : Bool) → m ≤ n → m ≤ (if b then n else m)
at_least m n b h = ground arith

module _ (sha256_hex : Bytes → Bytes) where
  abbrev records : Files → ParsedRecord × ParsedRecord
  records files = (parse_record sha256_hex files.primary, parse_record sha256_hex files.backup)

  -- The primary on disk, when valid, is not behind the backup.
  abbrev pub IsOrdered : Files → Type 0
  IsOrdered files = Ahead (records files).0 (records files).1

  Replaces-Settled :
      (before : ParsedRecord × ParsedRecord) (files : Files) (contents : Bytes) (value : ℕ)
      (r : Bool × Files)
      → parse_record sha256_hex (some contents) ≡ written value
      → Settled before (records files) false value
      → Settled before (written value, (records files).1) true value
      → Replaces files contents r
      → Settled before (records r.1) r.0 value
  Replaces-Settled before files contents value r e kept wrote (same, inl (done, new)) =
      rw (same, new, done, e) wrote
  Replaces-Settled before files contents value r e kept wrote (same, inr (done, old)) =
      rw (same, old, done) kept

  records-rotate_contents :
      (found : Option Bytes) (files : Files)
      → (parse_record sha256_hex found).ok ≡ true
      → records (rotate_contents found files) ≡ (absent, parse_record sha256_hex found)
  unfolding parse_record rotate_contents
  records-rotate_contents none files h = absurd (ground arith)
  records-rotate_contents (some contents) files h = refl

  records-rotate :
      (files : Files)
      → (records files).0.ok ≡ true
      → records (rotate files) ≡ (absent, (records files).0)
  unfolding rotate
  records-rotate files h = records-rotate_contents files.primary files h

  -- The two ways a write can start, and both ways it can end.
  Settled-plain :
      (files : Files) (calls : FileCalls) (contents : Bytes) (value : ℕ)
      → parse_record sha256_hex (some contents) ≡ written value
      → IsOrdered files
      → (load_records (records files).0 (records files).1).value ≤ value
      → let r = write_file_atomically files calls contents in
        Settled (records files) (records r.1) r.0 value
  Settled-plain files calls contents value e h k =
      Replaces-Settled (records files) files contents value
        (write_file_atomically files calls contents) e
        (Settled-kept (records files).0 (records files).1 value h)
        (Settled-written (records files).0 (records files).1 value k)
        (write_file_atomically-Replaces files calls contents)

  Settled-after_rotation :
      (files : Files) (calls : FileCalls) (contents : Bytes) (value : ℕ)
      → parse_record sha256_hex (some contents) ≡ written value
      → (records files).0.ok ≡ true
      → IsOrdered files
      → (load_records (records files).0 (records files).1).value ≤ value
      → let r = write_file_atomically (rotate files) calls contents in
        Settled (records files) (records r.1) r.0 value
  Settled-after_rotation files calls contents value e v h k =
      let turned = records-rotate files v in
      Replaces-Settled (records files) (rotate files) contents value
        (write_file_atomically (rotate files) calls contents) e
        (subst (λ after. Settled (records files) after false value) (sym turned)
          (Settled-rotated (records files).0 (records files).1 value v h))
        (subst (λ after. Settled (records files) (written value, after.1) true value) (sym turned)
          (Settled-both (records files).0 (records files).1 value v h k))
        (write_file_atomically-Replaces (rotate files) calls contents)

  Settled-rotation :
      (files : Files) (calls : FileCalls) (contents : Bytes) (value : ℕ) (rotates : Bool)
      → parse_record sha256_hex (some contents) ≡ written value
      → (records files).0.ok ≡ true
      → IsOrdered files
      → (load_records (records files).0 (records files).1).value ≤ value
      → let r = write_file_atomically (if rotates then rotate files else files) calls contents in
        Settled (records files) (records r.1) r.0 value
  Settled-rotation files calls contents value true e v h k =
      Settled-after_rotation files calls contents value e v h k
  Settled-rotation files calls contents value false e v h k =
      Settled-plain files calls contents value e h k

  -- What the check of the primary says is true of the primary.
  checked-valid :
      (files : Files) (checks : Bool)
      → (parse_record sha256_hex (opened checks files.primary)).ok ≡ true
      → (records files).0.ok ≡ true
  unfolding opened parse_record
  checked-valid files true h = h
  checked-valid files false h = absurd (ground arith)

  Settled-write :
      (files : Files) (calls : FileCalls) (contents : Bytes) (value : ℕ) (valid : Bool)
      → (valid ≡ true → (records files).0.ok ≡ true)
      → parse_record sha256_hex (some contents) ≡ written value
      → IsOrdered files
      → (load_records (records files).0 (records files).1).value ≤ value
      → let r = write_with_backup_rotation files calls valid contents in
        Settled (records files) (records r.1) r.0 value
  unfolding write_with_backup_rotation
  Settled-write files calls contents value true v e h k =
      Settled-rotation files calls contents value calls.rotates e (v refl) h k
  Settled-write files calls contents value false v e h k =
      Settled-plain files calls contents value e h k

  abbrev GoodStore : Files → ℕ → Bool × Files → Type 0
  GoodStore files value r =
      Settled (records files) (records r.1) r.0 value
      × ((load_records (records files).0 (records files).1).value
          ≤ (if r.0 then value else (load_records (records files).0 (records files).1).value))

  Settled-store :
      (files : Files) (calls : FileCalls) (value : ℕ)
      → calls.reads ≡ all_open
      → parse_record sha256_hex (some (encode_record sha256_hex value)) ≡ written value
      → IsOrdered files
      → GoodStore files value (store sha256_hex files calls value)
  unfolding store load load_detailed opened
  Settled-store files calls value o e h =
      subst (λ n. GoodStore files value (if ltb value n then (false, files) else go))
        (sym (ap (λ x. load sha256_hex files x) o))
        (elim (Bool-cases (ltb value (load_records (records files).0 (records files).1).value)) [
          | inl behind ↦
              subst (λ t. GoodStore files value (if t then (false, files) else go)) (sym behind)
                (Settled-kept (records files).0 (records files).1 value h, omega arith)
          | inr ahead ↦
              subst (λ t. GoodStore files value (if t then (false, files) else go)) (sym ahead)
                (
                  Settled-write files calls (encode_record sha256_hex value) value
                      (parse_record sha256_hex (opened calls.checks files.primary)).ok
                      (checked-valid files calls.checks) e h
                      (ltb-false value (load_records (records files).0 (records files).1).value
                        ahead),
                  at_least _ value go.0 (
                      ltb-false value (load_records (records files).0 (records files).1).value
                        ahead),
                )
        ])
    where
      go : Bool × Files
      go =
          write_with_backup_rotation files calls
            (parse_record sha256_hex (opened calls.checks files.primary)).ok
            (encode_record sha256_hex value)

-- For any hash whose text of the number has no newline: where the primary on disk is not behind the
-- backup, and the files that exist can be opened for reading when the store compares with them, then
-- whatever the file system answers to every other call of the store, the check of the primary, the
-- rotation and the write included, a store of a 64-bit number leaves the primary not behind the backup;
-- and the number that a load reads afterwards, when it can open the files, is the stored one when the
-- store reports success and the one before when it does not, and is never smaller than the one before.
pub store-load :
    (sha256_hex : Bytes → Bytes) (files : Files) (calls : FileCalls) (value : ℕ)
    → calls.reads ≡ all_open
    → value < 2 ^ 64
    → IsLine (sha256_hex (to_string value))
    → IsOrdered sha256_hex files
    → let r = store sha256_hex files calls value in
      IsOrdered sha256_hex r.1
      × (load sha256_hex r.1 all_open ≡ (if r.0 then value else load sha256_hex files all_open))
      × (load sha256_hex files all_open ≤ load sha256_hex r.1 all_open)
unfolding load load_detailed opened
store-load sha256_hex files calls value r h k o =
    let (good, least) =
      Settled-store sha256_hex files calls value r (parse_record-encode_record sha256_hex value h k)
        o in
    (good.0, good.1, subst (λ n. load sha256_hex files all_open ≤ n) (sym good.1) least)
