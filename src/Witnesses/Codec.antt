-- ===== src/Witnesses/Codec.antt =====
-- The codec at a concrete state of one-digit numbers.
use showmesh_fpp_plugin.Base.{
  ◌≤◌, ℤ, pos, eqb_ℤ, ltb_ℤ, true, false, not, ◌&&◌, if◌then◌else◌, ◌≡◌, refl, [], ◌∷◌, some, none,
  arith,
}
use showmesh_fpp_plugin.Json.Strings.{no_bytes, one_byte}
use showmesh_fpp_plugin.Brightness.State.{BrightnessState}
use showmesh_fpp_plugin.Codec.{
  Conversions, decoded, encode_brightness_state, decode_brightness_state,
}
use showmesh_fpp_plugin.Codec.Exact.{ExactIntegers}
use showmesh_fpp_plugin.Codec.Encodable.{IsEncodable}
use showmesh_fpp_plugin.Codec.RoundTrip.{decode_brightness_state-encode_brightness_state}
use showmesh_fpp_plugin.Sha256.{sha256_hex}
use showmesh_fpp_plugin.Store.{Files, FileCalls, all_open}
use showmesh_fpp_plugin.Store.Sequence.{load, parse_record}
use showmesh_fpp_plugin.Store.Monotone.{IsOrdered}
use showmesh_fpp_plugin.Store.State.{load_state, store_state}
use showmesh_fpp_plugin.Store.Durable.{
  decode_option, Stores, store_all, last_stored, sequence_stores-load, brightness_store-loaded,
}
use showmesh_fpp_plugin.Witnesses.Numbers.{one_digit, digits-IsReadBack}

abbrev pub whole_conversions : Conversions ℤ
whole_conversions = record { lt = ltb_ℤ; of_int = λ z. z; floor = λ z. z; to_int = λ z. z }

eqb_ℤ_refl : (z : ℤ) → eqb_ℤ z z ≡ true
eqb_ℤ_refl z = ground arith

abbrev all_exact : ExactIntegers one_digit whole_conversions
all_exact = record {
  exact = λ z. true;
  finite-of_int = λ z h. refl;
  floor-of_int = λ z h. eqb_ℤ_refl z;
  to_int-of_int = λ z h. refl;
  lt-of_int = λ a b h k. refl;
  exact-zero = refl;
  exact-schema = refl;
  exact-revision = refl;
  exact-gate = refl;
  exact-least = refl;
  exact-most = refl;
}

abbrev small : BrightnessState ℤ
small = record {
  schema_version = pos 1;
  revision = 4;
  state_changed_at_millis = pos 5;
  instance_id = 65 ∷ [];
  ceiling_start = pos 8;
  ceiling_target = pos 6;
  ceiling_fade_start_millis = pos 2;
  ceiling_fade_end_millis = pos 3;
  gain_start = pos 9;
  gain_target = pos 7;
  gain_fade_start_millis = pos 0;
  gain_fade_end_millis = pos 0;
  last_applied_ceiling = pos 6;
  last_applied_gain = pos 9;
  persisted_at_millis = pos 5;
  weather_gate_closed = true;
  weather_gate_revision = 2;
  ceiling_changed_at_millis = pos 1;
}

small-IsEncodable : IsEncodable one_digit whole_conversions all_exact small
small-IsEncodable = record {
  schema_version = (1, refl, (refl, omega arith, digits-IsReadBack.1));
  revision = (refl, omega arith, digits-IsReadBack.4);
  state_changed_at_millis = (refl, refl, digits-IsReadBack.5);
  instance_id = one_byte 65 [] (omega arith) no_bytes;
  ceiling_start = digits-IsReadBack.8;
  ceiling_target = digits-IsReadBack.6;
  ceiling_fade_start_millis = (refl, refl, digits-IsReadBack.2);
  ceiling_fade_end_millis = (refl, refl, digits-IsReadBack.3);
  gain_start = digits-IsReadBack.9;
  gain_target = digits-IsReadBack.7;
  gain_fade_start_millis = (refl, refl, digits-IsReadBack.0);
  gain_fade_end_millis = (refl, refl, digits-IsReadBack.0);
  last_applied_ceiling = digits-IsReadBack.6;
  last_applied_gain = digits-IsReadBack.9;
  persisted_at_millis = (refl, refl, digits-IsReadBack.5);
  weather_gate_revision = (refl, omega arith, digits-IsReadBack.2);
  ceiling_changed_at_millis = (refl, refl, digits-IsReadBack.1);
}

decode_brightness_state-encode_brightness_state_example :
    decode_brightness_state one_digit whole_conversions
      (encode_brightness_state one_digit whole_conversions small)
    ≡ decoded small
decode_brightness_state-encode_brightness_state_example =
    decode_brightness_state-encode_brightness_state one_digit whole_conversions all_exact small
      small-IsEncodable

abbrev no_files : Files
no_files = record { primary = none; backup = none; temporary = none }

abbrev all_succeed : FileCalls
all_succeed = record {
  reads = all_open;
  checks = true;
  rotates = true;
  opens = true;
  writes = true;
  written = [];
  syncs = true;
  renames = true;
}

no_files-IsOrdered : IsOrdered sha256_hex no_files
unfolding parse_record
no_files-IsOrdered = tt

-- The second write stops halfway, and the third has all its calls succeed.
abbrev stops : FileCalls
stops = record all_succeed { writes = false; written = 49 ∷ [] }

abbrev three_stores : Stores
three_stores = (all_succeed, 1729) ∷ (stops, 1730) ∷ (all_succeed, 1731) ∷ []

sequence_stores-load_example :
    (load sha256_hex (store_all no_files three_stores) all_open
      ≡ last_stored (load sha256_hex no_files all_open) no_files three_stores)
    × (load sha256_hex no_files all_open
        ≤ load sha256_hex (store_all no_files three_stores) all_open)
sequence_stores-load_example =
    sequence_stores-load no_files three_stores
      (refl, omega arith, (refl, omega arith, (refl, omega arith, tt))) no_files-IsOrdered

brightness_store-loaded_example :
    let encode = encode_brightness_state one_digit whole_conversions in
    let decode = decode_option one_digit whole_conversions in
    let w = store_state sha256_hex encode decode no_files stops small in
    let before = load_state sha256_hex encode decode no_files all_open all_open in
    load_state sha256_hex encode decode w.1 all_open all_open ≡ (
      if w.0
      then record {
        state = some small;
        trusted_as_current = true;
        record_expected_but_unreadable = false;
      }
      else record before { trusted_as_current = before.trusted_as_current && not (true && true) })
brightness_store-loaded_example =
    brightness_store-loaded one_digit whole_conversions all_exact no_files stops small
      small-IsEncodable
