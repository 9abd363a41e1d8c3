-- ===== src/Codec.antt =====
-- native/src/brightness_codec.cpp: the brightness state as canonical JSON, for the disk and for the
-- other nodes.
pub mod Names
pub mod Exact
pub mod Encodable
pub mod RoundTrip
use showmesh_fpp_plugin.Base.{
  ℕ, ◌*◌, ◌^◌, ℤ, pos, negsuc, pos_part, Bool, true, false, not, ◌&&◌, ◌||◌, if◌then◌else◌, List,
  [], ◌∷◌, Option, none, some, Bytes,
}
use showmesh_fpp_plugin.Brightness.State.{BrightnessState, max_weather_gate_revision}
use showmesh_fpp_plugin.Json.{
  Value, Members, bool_value, number_value, string_value, object_value, no_members, member_then,
  member_of, Parsed, ok, failed, out_of_fuel, Problem,
}
use showmesh_fpp_plugin.Json.Number.{NumberText}
use showmesh_fpp_plugin.Json.Parser.{parse}
use showmesh_fpp_plugin.Json.Writer.{canonicalize}
use showmesh_fpp_plugin.Codec.Names

-- What the codec takes from C++ about doubles: `<`, the conversion of an integer, std::floor, and the
-- conversion to an integer of its range.
pub record Conversions (Num : Type 0) : Type 0 where
  pub lt : Num → Num → Bool
  pub of_int : ℤ → Num
  pub floor : Num → Num
  pub to_int : Num → ℤ

abbrev pub int_64_safe_magnitude : ℕ
int_64_safe_magnitude = 4000000000000000000

abbrev pub max_plausible_revision_value : ℕ
max_plausible_revision_value = 1000000000000000

abbrev pub max_plausible_schema_version_value : ℕ
max_plausible_schema_version_value = 1000

-- The error messages; `not_json` has the parser's.
pub data DecodeProblem : Type 0 where
  not_json : Problem → Bytes → DecodeProblem
  not_a_json_object gate_not_a_boolean : DecodeProblem
  missing_or_non_numeric missing_or_non_string not_a_representable_time : Bytes → DecodeProblem
  not_a_whole_number_of_milliseconds field_out_of_domain : Bytes → DecodeProblem

pub data Decoded (A : Type 0) : Type 0 where
  decoded : A → Decoded A
  undecoded : DecodeProblem → Decoded A

-- The early returns.
abbrev pub and_then : {A B : Type 0} → Decoded A → (A → Decoded B) → Decoded B
and_then (decoded a) f = f a
and_then (undecoded problem) f = undecoded problem

module _ {Num : Type 0} where
  unfoldable pub number_of : Bytes → Option (Value Num) → Decoded Num
  number_of name (some (number_value d)) = decoded d
  number_of name value = undecoded (missing_or_non_numeric name)

  unfoldable pub read_number : Members Num → Bytes → Decoded Num
  read_number object name = number_of name (member_of object name)

  unfoldable pub bool_of : Bool → Option (Value Num) → Decoded Bool
  bool_of default none = decoded default
  bool_of default (some (bool_value b)) = decoded b
  bool_of default (some value) = undecoded gate_not_a_boolean

  unfoldable pub read_optional_bool : Members Num → Bytes → Bool → Decoded Bool
  read_optional_bool object name default = bool_of default (member_of object name)

  unfoldable pub string_of : Bytes → Option (Value Num) → Decoded Bytes
  string_of name (some (string_value s)) = decoded s
  string_of name value = undecoded (missing_or_non_string name)

  unfoldable pub read_string : Members Num → Bytes → Decoded Bytes
  read_string object name = string_of name (member_of object name)

-- `canonical.ok ? canonical.text : std::string()`.
abbrev pub text_or_empty : Option Bytes → Bytes
text_or_empty none = []
text_or_empty (some text) = text

module _ {Num : Type 0} (t : NumberText Num) (r : Conversions Num) where
  open t use {is_finite, eq}
  open r use {lt, of_int, floor, to_int}

  unfoldable pub millis_of : Bytes → Num → Decoded ℤ
  millis_of name d =
      if not (is_finite d)
        || lt d (of_int (negsuc 3999999999999999999))
        || lt (of_int (pos int_64_safe_magnitude)) d
      then undecoded (not_a_representable_time name)
      else if not (eq d (floor d))
      then undecoded (not_a_whole_number_of_milliseconds name)
      else decoded (to_int d)

  unfoldable pub read_millis : Members Num → Bytes → Decoded ℤ
  read_millis object name = and_then (read_number object name) (λ d. millis_of name d)

  unfoldable pub count_of : Bytes → ℕ → Num → Decoded Num
  count_of name max_value d =
      if not (is_finite d)
        || lt d (of_int (pos 0))
        || lt (of_int (pos max_value)) d
        || not (eq d (floor d))
      then undecoded (field_out_of_domain name)
      else decoded d

  unfoldable pub read_bounded_count : Members Num → Bytes → ℕ → Decoded Num
  read_bounded_count object name max_value =
      and_then (read_number object name) (λ d. count_of name max_value d)

  unfoldable pub members_of : BrightnessState Num → Members Num
  members_of s = member_then Names.schema_version (number_value (of_int s.schema_version)) (
      member_then Names.revision (number_value (of_int (pos s.revision))) (
        member_then Names.state_changed_at_millis (number_value (of_int s.state_changed_at_millis))
          (member_then Names.instance_id (string_value s.instance_id) (
            member_then Names.ceiling_start (number_value s.ceiling_start) (
              member_then Names.ceiling_target (number_value s.ceiling_target) (
                member_then Names.ceiling_fade_start_millis
                  (number_value (of_int s.ceiling_fade_start_millis))
                  (member_then Names.ceiling_fade_end_millis
                    (number_value (of_int s.ceiling_fade_end_millis))
                    (member_then Names.gain_start (number_value s.gain_start) (
                      member_then Names.gain_target (number_value s.gain_target) (
                        member_then Names.gain_fade_start_millis
                          (number_value (of_int s.gain_fade_start_millis))
                          (member_then Names.gain_fade_end_millis
                            (number_value (of_int s.gain_fade_end_millis))
                            (member_then Names.last_applied_ceiling
                              (number_value s.last_applied_ceiling)
                              (member_then Names.last_applied_gain
                                (number_value s.last_applied_gain)
                                (member_then Names.persisted_at_millis
                                  (number_value (of_int s.persisted_at_millis))
                                  (member_then Names.weather_gate_closed
                                    (bool_value s.weather_gate_closed)
                                    (member_then Names.weather_gate_revision
                                      (number_value (of_int (pos s.weather_gate_revision)))
                                      (member_then Names.ceiling_changed_at_millis
                                        (number_value (of_int s.ceiling_changed_at_millis))
                                        no_members)))))))))))))))))

  unfoldable pub encode_brightness_state : BrightnessState Num → Bytes
  encode_brightness_state s = text_or_empty (canonicalize t (object_value (members_of s)))

  -- The two members that a record may lack.
  unfoldable pub optional_gate_revision : Members Num → Option (Value Num) → Decoded ℕ
  optional_gate_revision object none = decoded 0
  optional_gate_revision object (some value) =
      and_then (read_bounded_count object Names.weather_gate_revision max_weather_gate_revision)
        (λ d. decoded (pos_part (to_int d)))

  unfoldable pub optional_ceiling_change : Members Num → Option (Value Num) → Decoded ℤ
  optional_ceiling_change object none = decoded (pos 0)
  optional_ceiling_change object (some value) = read_millis object Names.ceiling_changed_at_millis

  unfoldable pub decode_members : Members Num → Decoded (BrightnessState Num)
  decode_members o =
      and_then (read_bounded_count o Names.schema_version max_plausible_schema_version_value)
        (λ schema_version.
          and_then (read_bounded_count o Names.revision max_plausible_revision_value) (λ revision.
            and_then (read_millis o Names.state_changed_at_millis) (λ state_changed_at_millis.
              and_then (read_string o Names.instance_id) (λ instance_id.
                and_then (read_number o Names.ceiling_start) (λ ceiling_start.
                  and_then (read_number o Names.ceiling_target) (λ ceiling_target.
                    and_then (read_millis o Names.ceiling_fade_start_millis)
                      (λ ceiling_fade_start_millis.
                        and_then (read_millis o Names.ceiling_fade_end_millis)
                          (λ ceiling_fade_end_millis.
                            and_then (read_number o Names.gain_start) (λ gain_start.
                              and_then (read_number o Names.gain_target) (λ gain_target.
                                and_then (read_millis o Names.gain_fade_start_millis)
                                  (λ gain_fade_start_millis.
                                    and_then (read_millis o Names.gain_fade_end_millis)
                                      (λ gain_fade_end_millis.
                                        and_then (read_number o Names.last_applied_ceiling)
                                          (λ last_applied_ceiling.
                                            and_then (read_number o Names.last_applied_gain)
                                              (λ last_applied_gain.
                                                and_then (read_millis o Names.persisted_at_millis)
                                                  (λ persisted_at_millis.
                                                    and_then
                                                      (read_optional_bool o
                                                        Names.weather_gate_closed false)
                                                      (λ weather_gate_closed.
                                                        and_then
                                                          (optional_gate_revision o (
                                                            member_of o
                                                            Names.weather_gate_revision))
                                                          (λ weather_gate_revision.
                                                            and_then
                                                            (optional_ceiling_change o (
                                                            member_of o
                                                            Names.ceiling_changed_at_millis))
                                                            (λ ceiling_changed_at_millis.
                                                            decoded (record {
                                                            schema_version = to_int schema_version;
                                                            revision = pos_part (to_int revision);
                                                            state_changed_at_millis =
                                                            state_changed_at_millis;
                                                            instance_id = instance_id;
                                                            ceiling_start = ceiling_start;
                                                            ceiling_target = ceiling_target;
                                                            ceiling_fade_start_millis =
                                                            ceiling_fade_start_millis;
                                                            ceiling_fade_end_millis =
                                                            ceiling_fade_end_millis;
                                                            gain_start = gain_start;
                                                            gain_target = gain_target;
                                                            gain_fade_start_millis =
                                                            gain_fade_start_millis;
                                                            gain_fade_end_millis =
                                                            gain_fade_end_millis;
                                                            last_applied_ceiling =
                                                            last_applied_ceiling;
                                                            last_applied_gain = last_applied_gain;
                                                            persisted_at_millis =
                                                            persisted_at_millis;
                                                            weather_gate_closed =
                                                            weather_gate_closed;
                                                            weather_gate_revision =
                                                            weather_gate_revision;
                                                            ceiling_changed_at_millis =
                                                            ceiling_changed_at_millis;
                                                            })))))))))))))))))))

  unfoldable pub decode_value : Parsed (Value Num) → Decoded (BrightnessState Num)
  decode_value (failed problem rest) = undecoded (not_json problem rest)
  decode_value (ok (object_value o) rest) = decode_members o
  decode_value (ok value rest) = undecoded not_a_json_object
  decode_value out_of_fuel = undecoded not_a_json_object

  unfoldable pub decode_brightness_state : Bytes → Decoded (BrightnessState Num)
  decode_brightness_state text = decode_value (parse t text)
