-- ===== src/Route/WeatherGate.antt =====
-- native/src/weather_gate.cpp: the write and the read of the weather gate.
use showmesh_fpp_plugin.Base.{
  ℕ, ℤ, pos, pos_part, ltb, ◌==◌, Bool, true, false, not, ◌||◌, ◌+◌, if◌then◌else◌, length, Option,
  none, some, Bytes,
}
use showmesh_fpp_plugin.Fading.{Double, value_at}
use showmesh_fpp_plugin.Brightness.State.{BrightnessEngine, Digest, max_weather_gate_revision}
use showmesh_fpp_plugin.Brightness.Commands.{set_weather_gate, effective_percent_at}
use showmesh_fpp_plugin.Json.{
  Value, Members, bool_value, number_value, object_value, no_members, member_then, member_of,
  Parsed, ok, failed, out_of_fuel,
}
use showmesh_fpp_plugin.Json.Number.{NumberText}
use showmesh_fpp_plugin.Json.Parser.{parse}
use showmesh_fpp_plugin.Codec.{Conversions}
use showmesh_fpp_plugin.Route.{
  body_limit, body_too_large, not_a_json_object, not_json, not_two_keys, unknown_key,
  closed_not_a_boolean, revision_not_a_number, revision_out_of_range, Answer, refused, Checked,
  accept, refuse, to_int_32, render,
}
use showmesh_fpp_plugin.Route.Names

unfoldable pub size : {Num : Type 0} → Members Num → ℕ
size no_members = 0
size (member_then name v ms) = size ms + 1

module _ (d : Double) (digest : Digest d.Num) (t : NumberText d.Num) (r : Conversions d.Num) where
  open d use {Num, of_int, lround}

  unfoldable pub render_document : Bool → BrightnessEngine Num → ℤ → Answer
  render_document applied e now =
      let gain_now = number_value (of_int (to_int_32 (lround (value_at d e.gain now)))) in
      let effective = number_value (of_int (effective_percent_at d e now)) in
      render t r (
        member_then Names.schema_version (number_value (of_int (pos 1))) (
          member_then Names.applied (bool_value applied) (
            member_then Names.gain_start gain_now (
              member_then Names.gain_target gain_now (
                member_then Names.fade_seconds (number_value (of_int (pos 0))) (
                  member_then Names.ceiling
                    (number_value (of_int (to_int_32 (lround (value_at d e.ceiling now)))))
                    (member_then Names.effective_output effective (
                      member_then Names.weather_gate_closed (bool_value e.gate_closed) (
                        member_then Names.weather_gate_revision
                          (number_value (of_int (pos e.gate_revision)))
                          (member_then Names.effective_output_percent effective no_members))))))))))

  -- `closed` and the revision.
  unfoldable pub revision_of : Bool → Num → Checked (Bool × ℕ)
  revision_of closed n =
      if not (t.is_finite n)
        || r.lt n (of_int (pos 0))
        || not (t.eq n (r.floor n))
        || r.lt (of_int (pos max_weather_gate_revision)) n
      then refuse revision_out_of_range
      else accept (closed, pos_part (r.to_int n))

  unfoldable pub gate_of : Option (Value Num) → Option (Value Num) → Checked (Bool × ℕ)
  gate_of none revision = refuse unknown_key
  gate_of (some closed) none = refuse unknown_key
  gate_of (some (bool_value closed)) (some (number_value n)) = revision_of closed n
  gate_of (some (bool_value closed)) (some revision) = refuse revision_not_a_number
  gate_of (some closed) (some revision) = refuse closed_not_a_boolean

  unfoldable pub check_gate : Parsed (Value Num) → Checked (Bool × ℕ)
  check_gate (failed problem rest) = refuse (not_json problem rest)
  check_gate (ok (object_value o) rest) =
      if size o == 2
      then gate_of (member_of o Names.closed) (member_of o Names.revision)
      else refuse not_two_keys
  check_gate (ok value rest) = refuse not_a_json_object
  check_gate out_of_fuel = refuse not_a_json_object

  unfoldable pub check_gate_body : Bytes → Checked (Bool × ℕ)
  check_gate_body body =
      if ltb body_limit (length body) then refuse body_too_large else check_gate (parse t body)

  unfoldable pub apply_gate :
      BrightnessEngine Num → Checked (Bool × ℕ) → ℤ → Answer × BrightnessEngine Num
  apply_gate e (refuse reason) now = (refused reason, e)
  apply_gate e (accept gate) now =
      let changed = set_weather_gate d digest e gate.0 gate.1 now in
      (render_document true changed now, changed)

  unfoldable pub apply_weather_gate_request :
      BrightnessEngine Num → Bytes → ℤ → Answer × BrightnessEngine Num
  apply_weather_gate_request e body now = apply_gate e (check_gate_body body) now

  unfoldable pub render_weather_gate_state : BrightnessEngine Num → ℤ → Answer
  render_weather_gate_state e now = render_document false e now
