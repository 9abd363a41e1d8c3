-- ===== src/Codec/RoundTrip.antt =====
-- A state that is encoded is decoded as itself.
use showmesh_fpp_plugin.Base.{
  ℕ, ℤ, pos, Bool, true, false, ◌≡◌, refl, sym, ◌∙◌, ap, subst, [], some, Bytes, eq_bytes,
}
use showmesh_fpp_plugin.Brightness.State.{BrightnessState, max_weather_gate_revision}
use showmesh_fpp_plugin.Json.{
  Value, Members, bool_value, number_value, string_value, object_value, member_of, ok,
}
use showmesh_fpp_plugin.Json.Number.{NumberText}
use showmesh_fpp_plugin.Json.Parser.{parse}
use showmesh_fpp_plugin.Json.Text.{
  less_utf16, lt_units, to_utf16, utf16_step, following, lead_bits, gather, units_of,
}
use showmesh_fpp_plugin.Json.Writer.{sort_value, sort_members, insert_member, sort_inner}
use showmesh_fpp_plugin.Json.Canonical.{parse-canonicalize}
use showmesh_fpp_plugin.Codec.{
  Conversions, max_plausible_revision_value, max_plausible_schema_version_value, decoded, number_of,
  read_number, bool_of, read_optional_bool, string_of, read_string, read_millis, read_bounded_count,
  members_of, text_or_empty, encode_brightness_state, optional_gate_revision,
  optional_ceiling_change, decode_members, decode_value, decode_brightness_state,
}
use showmesh_fpp_plugin.Codec.Names
use showmesh_fpp_plugin.Codec.Exact.{
  ExactIntegers, IsTime, IsCount, millis_of-of_int, count_of-of_int,
}
use showmesh_fpp_plugin.Codec.Encodable.{IsEncodable, state-IsReadable}

module _ {Num : Type 0} (t : NumberText Num) (r : Conversions Num) (x : ExactIntegers t r) where
  open r use {of_int, to_int}

  sorted : BrightnessState Num → Members Num
  sorted s = sort_members (sort_inner (members_of t r s))

  -- Where a reader finds the members.
  unfoldable Finds : Members Num → Bytes → Value Num → Type 0
  Finds o name v = member_of o name ≡ some v

  number_field :
      (o : Members Num) (name : Bytes) (d : Num)
      → Finds o name (number_value d)
      → read_number o name ≡ decoded d
  unfolding read_number number_of Finds
  number_field o name d e = rw e refl

  millis_field :
      (o : Members Num) (name : Bytes) (z : ℤ)
      → Finds o name (number_value (of_int z))
      → IsTime t r x z
      → read_millis t r o name ≡ decoded z
  unfolding read_millis
  millis_field o name z e h =
      rw (number_field o name (of_int z) e) (millis_of-of_int t r x name z h)

  count_field :
      (o : Members Num) (name : Bytes) (max_value n : ℕ)
      → Finds o name (number_value (of_int (pos n)))
      → x.exact (pos max_value) ≡ true
      → IsCount t r x max_value n
      → read_bounded_count t r o name max_value ≡ decoded (of_int (pos n))
  unfolding read_bounded_count
  count_field o name max_value n e k h =
      rw (number_field o name (of_int (pos n)) e) (count_of-of_int t r x name max_value n k h)

  string_field :
      (o : Members Num) (name b : Bytes)
      → Finds o name (string_value b)
      → read_string o name ≡ decoded b
  unfolding read_string string_of Finds
  string_field o name b e = rw e refl

  bool_field :
      (o : Members Num) (name : Bytes) (b : Bool)
      → Finds o name (bool_value b)
      → read_optional_bool o name false ≡ decoded b
  unfolding read_optional_bool bool_of Finds
  bool_field o name b e = rw e refl

  gate_field :
      (o : Members Num) (n : ℕ)
      → Finds o Names.weather_gate_revision (number_value (of_int (pos n)))
      → IsCount t r x max_weather_gate_revision n
      → optional_gate_revision t r o (member_of o Names.weather_gate_revision) ≡ decoded n
  unfolding optional_gate_revision Finds
  gate_field o n e h =
      rw
        (
          e,
          count_field o Names.weather_gate_revision max_weather_gate_revision n (unfold Finds in e)
              x.exact-gate h,
          x.to_int-of_int (pos n) h.0,
        )
        refl

  change_field :
      (o : Members Num) (z : ℤ)
      → Finds o Names.ceiling_changed_at_millis (number_value (of_int z))
      → IsTime t r x z
      → optional_ceiling_change t r o (member_of o Names.ceiling_changed_at_millis) ≡ decoded z
  unfolding optional_ceiling_change Finds
  change_field o z e h = rw (e, millis_field o Names.ceiling_changed_at_millis z e h) refl

  -- In the text's order each member is still found under its name.
  sorted_members :
      (s : BrightnessState Num)
      → Finds (sorted s) Names.schema_version (number_value (of_int s.schema_version))
        × Finds (sorted s) Names.revision (number_value (of_int (pos s.revision)))
        × Finds
            (sorted s)
            Names.state_changed_at_millis
            (number_value (of_int s.state_changed_at_millis))
        × Finds (sorted s) Names.instance_id (string_value s.instance_id)
        × Finds (sorted s) Names.ceiling_start (number_value s.ceiling_start)
        × Finds (sorted s) Names.ceiling_target (number_value s.ceiling_target)
        × Finds
            (sorted s)
            Names.ceiling_fade_start_millis
            (number_value (of_int s.ceiling_fade_start_millis))
        × Finds
            (sorted s)
            Names.ceiling_fade_end_millis
            (number_value (of_int s.ceiling_fade_end_millis))
        × Finds (sorted s) Names.gain_start (number_value s.gain_start)
        × Finds (sorted s) Names.gain_target (number_value s.gain_target)
        × Finds
            (sorted s)
            Names.gain_fade_start_millis
            (number_value (of_int s.gain_fade_start_millis))
        × Finds (sorted s) Names.gain_fade_end_millis (number_value (of_int s.gain_fade_end_millis))
        × Finds (sorted s) Names.last_applied_ceiling (number_value s.last_applied_ceiling)
        × Finds (sorted s) Names.last_applied_gain (number_value s.last_applied_gain)
        × Finds (sorted s) Names.persisted_at_millis (number_value (of_int s.persisted_at_millis))
        × Finds (sorted s) Names.weather_gate_closed (bool_value s.weather_gate_closed)
        × Finds
            (sorted s)
            Names.weather_gate_revision
            (number_value (of_int (pos s.weather_gate_revision)))
        × Finds
            (sorted s)
            Names.ceiling_changed_at_millis
            (number_value (of_int s.ceiling_changed_at_millis))
  unfolding sorted Finds sort_members sort_value insert_member less_utf16 lt_units to_utf16
      utf16_step following lead_bits gather units_of member_of eq_bytes members_of
  sorted_members s = (
    refl, refl, refl, refl, refl, refl, refl, refl, refl, refl, refl, refl, refl, refl, refl, refl,
    refl, refl,
  )

  decode_members-sorted :
      (s : BrightnessState Num) → IsEncodable t r x s → decode_members t r (sorted s) ≡ decoded s
  unfolding decode_members
  decode_members-sorted s h =
      let o = sorted s in
      let f = sorted_members s in
      let n = h.schema_version.0 in
      let same = h.schema_version.1 in
      let schema : read_bounded_count t r o Names.schema_version max_plausible_schema_version_value
          ≡ decoded (of_int s.schema_version) =
        count_field o Names.schema_version max_plausible_schema_version_value n
          (subst (λ z. Finds o Names.schema_version (number_value (of_int z))) same f.0)
          x.exact-schema h.schema_version.2
        ∙ ap (λ z. decoded (of_int z)) (sym same) in
      let back : to_int (of_int s.schema_version) ≡ s.schema_version =
        x.to_int-of_int s.schema_version
          (subst (λ z. x.exact z ≡ true) (sym same) h.schema_version.2.0) in
      rw
        (
          schema,
          count_field o Names.revision max_plausible_revision_value s.revision f.1 x.exact-revision
              h.revision,
          millis_field o Names.state_changed_at_millis s.state_changed_at_millis f.2
              h.state_changed_at_millis,
          string_field o Names.instance_id s.instance_id f.3,
          number_field o Names.ceiling_start s.ceiling_start f.4,
          number_field o Names.ceiling_target s.ceiling_target f.5,
          millis_field o Names.ceiling_fade_start_millis s.ceiling_fade_start_millis f.6
              h.ceiling_fade_start_millis,
          millis_field o Names.ceiling_fade_end_millis s.ceiling_fade_end_millis f.7
              h.ceiling_fade_end_millis,
          number_field o Names.gain_start s.gain_start f.8,
          number_field o Names.gain_target s.gain_target f.9,
          millis_field o Names.gain_fade_start_millis s.gain_fade_start_millis f.10
              h.gain_fade_start_millis,
          millis_field o Names.gain_fade_end_millis s.gain_fade_end_millis f.11
              h.gain_fade_end_millis,
          number_field o Names.last_applied_ceiling s.last_applied_ceiling f.12,
          number_field o Names.last_applied_gain s.last_applied_gain f.13,
          millis_field o Names.persisted_at_millis s.persisted_at_millis f.14 h.persisted_at_millis,
          bool_field o Names.weather_gate_closed s.weather_gate_closed f.15,
          gate_field o s.weather_gate_revision f.16 h.weather_gate_revision,
          change_field o s.ceiling_changed_at_millis f.17 h.ceiling_changed_at_millis,
          back,
          x.to_int-of_int (pos s.revision) h.revision.0,
        )
        refl

  sorted_value :
      (s : BrightnessState Num)
      → sort_value (object_value (members_of t r s)) ≡ object_value (sorted s)
  unfolding sorted sort_value
  sorted_value s = refl

  -- A state whose instance id is UTF-8, whose times and counts are within the codec's bounds and exact as
  -- doubles, and whose numbers' texts are read back, is decoded from its encoded text as itself,
  -- every field.
  pub decode_brightness_state-encode_brightness_state :
      (s : BrightnessState Num)
      → IsEncodable t r x s
      → decode_brightness_state t r (encode_brightness_state t r s) ≡ decoded s
  unfolding decode_brightness_state encode_brightness_state decode_value
  decode_brightness_state-encode_brightness_state s h =
      let p = parse-canonicalize t (object_value (members_of t r s)) (state-IsReadable t r x s h) in
      ap (λ o. decode_value t r (parse t (text_or_empty o))) p.1
      ∙ ap (λ q. decode_value t r q) (p.2 ∙ ap (λ v. ok v []) (sorted_value s))
      ∙ decode_members-sorted s h
