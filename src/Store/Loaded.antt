-- ===== src/Store/Loaded.antt =====
-- What BrightnessFileStore::load finds after a store, on each way that the store can end.
use showmesh_fpp_plugin.Base.{
  Bool, true, false, not, ◌&&◌, ◌||◌, ◌≡◌, refl, sym, ◌∙◌, ap, inl, inr, if◌then◌else◌, Option,
  none, some, Bytes, eq_bytes_refl, arith,
}
use showmesh_fpp_plugin.Store.{
  Files, all_open, opened, FileCalls, rotate_contents, rotate, write_file_atomically,
  write_with_backup_rotation, two_lines,
}
use showmesh_fpp_plugin.Store.Record.{IsLine, two_lines-record_text}
use showmesh_fpp_plugin.Store.Monotone.{Replaces, write_file_atomically-Replaces}
use showmesh_fpp_plugin.Store.State.{
  is_some, BrightnessStateLoad, encode_state_record, parse_state_lines, parse_state_record,
  choose_state, load_state, store_state,
}

and_true : (b : Bool) → b && true ≡ b
and_true true = refl
and_true false = refl

module _ {State : Type 0} (sha256_hex : Bytes → Bytes) (encode : State → Bytes)
    (decode : Bytes → Option State) where
  parse_state_record-encode_state_record :
      (state : State)
      → IsLine (encode state)
      → IsLine (sha256_hex (encode state))
      → decode (encode state) ≡ some state
      → parse_state_record sha256_hex encode decode
          (some (encode_state_record sha256_hex encode decode state))
        ≡ some state
  unfolding parse_state_record encode_state_record parse_state_lines
  parse_state_record-encode_state_record state h k e =
      ap (parse_state_lines sha256_hex encode decode)
        (two_lines-record_text sha256_hex (encode state) h k)
      ∙ rw (eq_bytes_refl (sha256_hex (encode state)), e)

  -- A load that opens every file that exists.
  abbrev pub loaded : Files → BrightnessStateLoad State
  loaded files = load_state sha256_hex encode decode files all_open all_open

  abbrev pub stored : State → BrightnessStateLoad State
  stored state = record {
    state = some state;
    trusted_as_current = true;
    record_expected_but_unreadable = false;
  }

  -- The load is not trusted any more, where the primary has become the backup.
  abbrev pub demoted : Bool → BrightnessStateLoad State → BrightnessStateLoad State
  demoted rotated before = record before {
    trusted_as_current = before.trusted_as_current && not rotated;
  }

  Replaces-loaded :
      (after : BrightnessStateLoad State) (files : Files) (contents : Bytes) (state : State)
      (r : Bool × Files)
      → parse_state_record sha256_hex encode decode (some contents) ≡ some state
      → loaded files ≡ after
      → Replaces files contents r
      → loaded r.1 ≡ (if r.0 then stored state else after)
  unfolding load_state choose_state opened
  Replaces-loaded after files contents state r e kept (same, inl (done, new)) =
      rw (new, done, e) refl
  Replaces-loaded after files contents state r e kept (same, inr (done, old)) =
      rw (same, old, done) kept

  demoted-false : (l : BrightnessStateLoad State) → demoted false l ≡ l
  demoted-false l = ap (λ b. record l { trusted_as_current = b }) (and_true l.trusted_as_current)

  -- A load that finds no state in the primary is not trusted before either.
  choose_state-untrusted :
      (b exists : Bool) (backup : Option State)
      → demoted b (choose_state sha256_hex encode decode none backup exists)
        ≡ choose_state sha256_hex encode decode none backup exists
  unfolding choose_state
  choose_state-untrusted b exists none = refl
  choose_state-untrusted b exists (some state) = refl

  loaded-untrusted :
      (b : Bool) (files : Files)
      → is_some (parse_state_record sha256_hex encode decode files.primary) ≡ false
      → demoted b (loaded files) ≡ loaded files
  unfolding load_state opened is_some
  loaded-untrusted b files h = only (parse_state_record sha256_hex encode decode files.primary) h
    where
      exists : Bool
      exists = is_some files.primary || is_some files.backup

      only :
          (o : Option State)
          → is_some o ≡ false
          → demoted b (
              choose_state sha256_hex encode decode o
                (parse_state_record sha256_hex encode decode files.backup)
                exists)
            ≡ choose_state sha256_hex encode decode o
                (parse_state_record sha256_hex encode decode files.backup)
                exists
      only none h =
          choose_state-untrusted b exists (parse_state_record sha256_hex encode decode files.backup)
      only (some state) h = absurd (ground arith)

  loaded-rotate_contents :
      (primary : Option Bytes) (files : Files)
      → is_some (parse_state_record sha256_hex encode decode primary) ≡ true
      → loaded (rotate_contents primary files)
        ≡ demoted true (
            choose_state sha256_hex encode decode
              (parse_state_record sha256_hex encode decode primary)
              (parse_state_record sha256_hex encode decode files.backup)
              true)
  unfolding rotate_contents parse_state_record load_state choose_state is_some opened
  loaded-rotate_contents none files h = absurd (ground arith)
  loaded-rotate_contents (some text) files h =
      only (parse_state_lines sha256_hex encode decode (two_lines text)) h
    where
      only :
          (o : Option State)
          → is_some o ≡ true
          → choose_state sha256_hex encode decode none o true
            ≡ demoted true (
                choose_state sha256_hex encode decode o
                  (parse_state_record sha256_hex encode decode files.backup)
                  true)
      only none h = absurd (ground arith)
      only (some state) h = refl

  choose_state-exists :
      (primary backup : Option State) (a b : Bool)
      → is_some primary ≡ true
      → choose_state sha256_hex encode decode primary backup a
        ≡ choose_state sha256_hex encode decode primary backup b
  unfolding choose_state is_some
  choose_state-exists (some state) backup a b h = refl
  choose_state-exists none backup a b h = absurd (ground arith)

  loaded-rotate :
      (files : Files)
      → is_some (parse_state_record sha256_hex encode decode files.primary) ≡ true
      → loaded (rotate files) ≡ demoted true (loaded files)
  unfolding load_state rotate opened
  loaded-rotate files h =
      loaded-rotate_contents files.primary files h
      ∙ ap (demoted true) (
          choose_state-exists _ (parse_state_record sha256_hex encode decode files.backup) true _ h)

  -- The check of the primary succeeds only where it is opened and holds a state.
  checked :
      (checks : Bool) (files : Files)
      → is_some (parse_state_record sha256_hex encode decode (opened checks files.primary)) ≡ true
      → (checks ≡ true)
        × (is_some (parse_state_record sha256_hex encode decode files.primary) ≡ true)
  unfolding opened parse_state_record is_some
  checked true files h = (refl, h)
  checked false files h = absurd (ground arith)

  -- Where it fails, the load is as it was, trusted or not.
  unchecked :
      (checks rotates : Bool) (files : Files)
      → is_some (parse_state_record sha256_hex encode decode (opened checks files.primary)) ≡ false
      → loaded files ≡ demoted (checks && rotates) (loaded files)
  unfolding opened
  unchecked true rotates files h = sym (loaded-untrusted rotates files h)
  unchecked false rotates files h = sym (demoted-false (loaded files))

  write_if-loaded :
      (files : Files) (calls : FileCalls) (state : State) (valid : Bool)
      → parse_state_record sha256_hex encode decode
          (some (encode_state_record sha256_hex encode decode state))
        ≡ some state
      → is_some (parse_state_record sha256_hex encode decode (opened calls.checks files.primary))
        ≡ valid
      → let r =
          write_with_backup_rotation files calls valid
            (encode_state_record sha256_hex encode decode state) in
        loaded r.1
        ≡ (if r.0 then stored state else demoted (calls.checks && calls.rotates) (loaded files))
  unfolding write_with_backup_rotation
  write_if-loaded files calls state true read v =
      let (checks, held) = checked calls.checks files v in turns calls.rotates checks held
    where
      turns :
          (rotates : Bool)
          → calls.checks ≡ true
          → is_some (parse_state_record sha256_hex encode decode files.primary) ≡ true
          → let r =
              write_file_atomically
                (if rotates then rotate files else files)
                calls
                (encode_state_record sha256_hex encode decode state) in
            loaded r.1
            ≡ (if r.0 then stored state else demoted (calls.checks && rotates) (loaded files))
      turns true checks held =
          Replaces-loaded (demoted (calls.checks && true) (loaded files)) (rotate files)
            (encode_state_record sha256_hex encode decode state) state _ read
            (loaded-rotate files held ∙ ap (λ b. demoted (b && true) (loaded files)) (sym checks))
            (write_file_atomically-Replaces (rotate files) calls
              (encode_state_record sha256_hex encode decode state))
      turns false checks held =
          Replaces-loaded (demoted (calls.checks && false) (loaded files)) files
            (encode_state_record sha256_hex encode decode state) state _ read
            (sym (demoted-false (loaded files))
              ∙ ap (λ b. demoted (b && false) (loaded files)) (sym checks))
            (write_file_atomically-Replaces files calls
              (encode_state_record sha256_hex encode decode state))
  write_if-loaded files calls state false read v =
      Replaces-loaded (demoted (calls.checks && calls.rotates) (loaded files)) files
        (encode_state_record sha256_hex encode decode state) state _ read
        (unchecked calls.checks calls.rotates files v)
        (write_file_atomically-Replaces files calls
          (encode_state_record sha256_hex encode decode state))

-- Where the codec gives back a state that it encoded on one line, and the hash is one line.
pub store_state-loaded :
    {State : Type 0} (sha256_hex : Bytes → Bytes) (encode : State → Bytes)
    (decode : Bytes → Option State) (files : Files) (calls : FileCalls) (state : State)
    → IsLine (encode state)
    → IsLine (sha256_hex (encode state))
    → decode (encode state) ≡ some state
    → let r = store_state sha256_hex encode decode files calls state in
      loaded sha256_hex encode decode r.1 ≡ (
        if r.0
        then stored sha256_hex encode decode state
        else demoted sha256_hex encode decode
            (calls.checks && calls.rotates)
            (loaded sha256_hex encode decode files))
unfolding store_state
store_state-loaded sha256_hex encode decode files calls state h k e =
    write_if-loaded sha256_hex encode decode files calls state _
      (parse_state_record-encode_state_record sha256_hex encode decode state h k e) refl
