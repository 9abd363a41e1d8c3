-- ===== src/Store/Durable.antt =====
-- The stores with the program's own hash and codec: native/src/sequence_store.cpp and
-- native/src/brightness_store.cpp over sha256.cpp, brightness_codec.cpp and json.cpp.
use showmesh_fpp_plugin.Base.{
  ℕ, ◌^◌, ◌<◌, ◌≤◌, ◌==◌, true, false, not, ◌&&◌, ◌≡◌, refl, sym, ◌∙◌, ap, List, subst,
  if◌then◌else◌, [], ◌∷◌, Option, none, some, Bytes, All, arith,
}
use showmesh_fpp_plugin.Decimal.{to_string}
use showmesh_fpp_plugin.Brightness.State.{BrightnessState}
use showmesh_fpp_plugin.Json.{object_value}
use showmesh_fpp_plugin.Json.Number.{NumberText}
use showmesh_fpp_plugin.Json.Canonical.{parse-canonicalize, IsReadable-sort_value}
use showmesh_fpp_plugin.Json.OneLine.{canonicalize-IsLine}
use showmesh_fpp_plugin.Sha256.{sha256_hex}
use showmesh_fpp_plugin.Sha256.Hex.{is_hex, sha256_hex-is_hex}
use showmesh_fpp_plugin.Codec.{
  Conversions, Decoded, decoded, undecoded, members_of, text_or_empty, encode_brightness_state,
  decode_brightness_state,
}
use showmesh_fpp_plugin.Codec.Exact.{ExactIntegers}
use showmesh_fpp_plugin.Codec.Encodable.{IsEncodable, state-IsReadable}
use showmesh_fpp_plugin.Codec.RoundTrip.{decode_brightness_state-encode_brightness_state}
use showmesh_fpp_plugin.Store.{Files, FileCalls, all_open}
use showmesh_fpp_plugin.Store.Record.{IsLine}
use showmesh_fpp_plugin.Store.Sequence.{load, store}
use showmesh_fpp_plugin.Store.Monotone.{IsOrdered, store-load}
use showmesh_fpp_plugin.Store.State.{load_state, store_state}
use showmesh_fpp_plugin.Store.Loaded.{store_state-loaded}

hex_line : (c : ℕ) → is_hex c ≡ true → (c == 10) ≡ false
hex_line c h = ground arith

hex-IsLine : (cs : Bytes) → All (λ c. is_hex c ≡ true) cs → IsLine cs
hex-IsLine [] h = tt
hex-IsLine (c ∷ cs) h = (hex_line c h.0, hex-IsLine cs h.1)

sha256_hex-IsLine : (bytes : Bytes) → IsLine (sha256_hex bytes)
sha256_hex-IsLine bytes = hex-IsLine (sha256_hex bytes) (sha256_hex-is_hex bytes).1

-- `ok ? state : nothing`.
abbrev pub decoded_state : {State : Type 0} → Decoded State → Option State
decoded_state (decoded state) = some state
decoded_state (undecoded problem) = none

-- One store with SHA-256 as the hash, which is always a line.
sequence_store-load :
    (files : Files) (calls : FileCalls) (value : ℕ)
    → calls.reads ≡ all_open
    → value < 2 ^ 64
    → IsOrdered sha256_hex files
    → let r = store sha256_hex files calls value in
      IsOrdered sha256_hex r.1
      × (load sha256_hex r.1 all_open ≡ (if r.0 then value else load sha256_hex files all_open))
      × (load sha256_hex files all_open ≤ load sha256_hex r.1 all_open)
sequence_store-load files calls value r h o =
    store-load sha256_hex files calls value r h (sha256_hex-IsLine (to_string value)) o

-- The stores of a run of the program: what the file system answers to each, and the number.
abbrev pub Stores : Type 0
Stores = List (FileCalls × ℕ)

-- The files after the stores, and the last number whose store reported success, from `value`.
abbrev pub store_all : Files → Stores → Files
store_all files [] = files
store_all files ((calls, value) ∷ rest) = store_all (store sha256_hex files calls value).1 rest

abbrev pub last_stored : ℕ → Files → Stores → ℕ
last_stored last files [] = last
last_stored last files ((calls, value) ∷ rest) =
    let r = store sha256_hex files calls value in last_stored (if r.0 then value else last) r.1 rest

-- Numbers of 64 bits, stored where the files that exist can be opened for the load before.
abbrev pub AreReadable : Stores → Type 0
AreReadable [] = Unit
AreReadable ((calls, value) ∷ rest) = (calls.reads ≡ all_open) × (value < 2 ^ 64) × AreReadable rest

-- With SHA-256 as the hash, where the primary on disk is not behind the backup: after any sequence of
-- stores of 64-bit numbers, for each of which the files that exist can be opened for reading when the
-- store compares with them, and whatever the file system answers to every other call of each, a load
-- that can open the files reads the last number whose store reported success, or what it read before
-- where none did; and this is never smaller than what it read before.
pub sequence_stores-load :
    (files : Files) (stores : Stores)
    → AreReadable stores
    → IsOrdered sha256_hex files
    → (load sha256_hex (store_all files stores) all_open
        ≡ last_stored (load sha256_hex files all_open) files stores)
      × (load sha256_hex files all_open ≤ load sha256_hex (store_all files stores) all_open)
sequence_stores-load files [] h o = (refl, omega arith)
sequence_stores-load files ((calls, value) ∷ rest) (r, small, later) o =
    let now = sequence_store-load files calls value r small o in
    let then_on = sequence_stores-load (store sha256_hex files calls value).1 rest later now.0 in
    (
      then_on.0 ∙ ap (λ n. last_stored n (store sha256_hex files calls value).1 rest) now.1,
      omega (arith, now.2, then_on.1),
    )

abbrev pub decode_option :
    {Num : Type 0} → NumberText Num → Conversions Num → Bytes → Option (BrightnessState Num)
decode_option t r text = decoded_state (decode_brightness_state t r text)

module _ {Num : Type 0} (t : NumberText Num) (r : Conversions Num) (x : ExactIntegers t r) where
  encode_brightness_state-IsLine :
      (s : BrightnessState Num) → IsEncodable t r x s → IsLine (encode_brightness_state t r s)
  unfolding encode_brightness_state
  encode_brightness_state-IsLine s h =
      let readable = state-IsReadable t r x s h in
      let p = parse-canonicalize t (object_value (members_of t r s)) readable in
      let line =
        canonicalize-IsLine t (object_value (members_of t r s)) p.0
          (IsReadable-sort_value t 0 (object_value (members_of t r s)) readable) p.1 in
      subst (λ o. IsLine (text_or_empty o)) (sym p.1) line

  -- With SHA-256 as the hash and the program's codec, for a state whose instance id is UTF-8, whose
  -- times and counts are within the codec's bounds and exact as doubles, and whose numbers' texts are
  -- read back: whatever the file system answers to each call of the store, its read of the primary
  -- included, a load that can open the files finds afterwards, where the store reports success, that
  -- state, every field, trusted as current; and where it does not, the state and the other results that
  -- it found before, but that it is no longer trusted as current where the primary was opened and the
  -- rotation had succeeded.
  pub brightness_store-loaded :
      (files : Files) (calls : FileCalls) (s : BrightnessState Num)
      → IsEncodable t r x s
      → let encode = encode_brightness_state t r in
        let decode = decode_option t r in
        let w = store_state sha256_hex encode decode files calls s in
        let before = load_state sha256_hex encode decode files all_open all_open in
        load_state sha256_hex encode decode w.1 all_open all_open ≡ (
          if w.0
          then record {
            state = some s;
            trusted_as_current = true;
            record_expected_but_unreadable = false;
          }
          else record before {
            trusted_as_current = before.trusted_as_current && not (calls.checks && calls.rotates);
          })
  brightness_store-loaded files calls s h =
      store_state-loaded sha256_hex (encode_brightness_state t r) (decode_option t r) files calls s
        (encode_brightness_state-IsLine s h) (sha256_hex-IsLine (encode_brightness_state t r s))
        (ap decoded_state (decode_brightness_state-encode_brightness_state t r x s h))
