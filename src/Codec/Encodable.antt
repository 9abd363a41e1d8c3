-- ===== src/Codec/Encodable.antt =====
-- The states that the codec encodes so that they are decoded.
use showmesh_fpp_plugin.Base.{ℕ, pos, ◌≡◌, refl, sym, subst, arith, eq_bytes}
use showmesh_fpp_plugin.Brightness.State.{BrightnessState, max_weather_gate_revision}
use showmesh_fpp_plugin.Json.{object_value}
use showmesh_fpp_plugin.Json.Number.{NumberText}
use showmesh_fpp_plugin.Json.Strings.{Utf8}
use showmesh_fpp_plugin.Json.Readable.{IsReadable, MembersReadable, IsReadBack}
use showmesh_fpp_plugin.Codec.{
  Conversions, max_plausible_revision_value, max_plausible_schema_version_value, members_of,
}
use showmesh_fpp_plugin.Codec.Names
use showmesh_fpp_plugin.Codec.Exact.{
  ExactIntegers, IsTime, IsCount, distinct-Distinct, is_ascii-Utf8,
}

module _ {Num : Type 0} (t : NumberText Num) (r : Conversions Num) (x : ExactIntegers t r) where
  open r use {of_int, to_int}

  -- What a state's members need: the instance id is UTF-8, the times and counts are within the codec's
  -- bounds and exact as doubles, and every number's text is read back.
  pub record IsEncodable (s : BrightnessState Num) : Type 0 where
    pub schema_version :
        (n : ℕ) × (s.schema_version ≡ pos n) × IsCount t r x max_plausible_schema_version_value n
    pub revision : IsCount t r x max_plausible_revision_value s.revision
    pub state_changed_at_millis : IsTime t r x s.state_changed_at_millis
    pub instance_id : Utf8 s.instance_id
    pub ceiling_start : IsReadBack t s.ceiling_start
    pub ceiling_target : IsReadBack t s.ceiling_target
    pub ceiling_fade_start_millis : IsTime t r x s.ceiling_fade_start_millis
    pub ceiling_fade_end_millis : IsTime t r x s.ceiling_fade_end_millis
    pub gain_start : IsReadBack t s.gain_start
    pub gain_target : IsReadBack t s.gain_target
    pub gain_fade_start_millis : IsTime t r x s.gain_fade_start_millis
    pub gain_fade_end_millis : IsTime t r x s.gain_fade_end_millis
    pub last_applied_ceiling : IsReadBack t s.last_applied_ceiling
    pub last_applied_gain : IsReadBack t s.last_applied_gain
    pub persisted_at_millis : IsTime t r x s.persisted_at_millis
    pub weather_gate_revision : IsCount t r x max_weather_gate_revision s.weather_gate_revision
    pub ceiling_changed_at_millis : IsTime t r x s.ceiling_changed_at_millis

  members_of-MembersReadable :
      (s : BrightnessState Num) → IsEncodable s → MembersReadable t 1 (members_of t r s)
  unfolding IsReadable members_of
  members_of-MembersReadable s h =
      let schema : IsReadBack t (of_int s.schema_version) =
        subst (λ z. IsReadBack t (of_int z)) (sym h.schema_version.1) h.schema_version.2.2 in
      (
        is_ascii-Utf8 Names.schema_version refl,
        schema,
        (
          is_ascii-Utf8 Names.revision refl,
          h.revision.2,
          (
            is_ascii-Utf8 Names.state_changed_at_millis refl,
            h.state_changed_at_millis.2,
            (
              is_ascii-Utf8 Names.instance_id refl,
              h.instance_id,
              (
                is_ascii-Utf8 Names.ceiling_start refl,
                h.ceiling_start,
                (
                  is_ascii-Utf8 Names.ceiling_target refl,
                  h.ceiling_target,
                  (
                    is_ascii-Utf8 Names.ceiling_fade_start_millis refl,
                    h.ceiling_fade_start_millis.2,
                    (
                      is_ascii-Utf8 Names.ceiling_fade_end_millis refl,
                      h.ceiling_fade_end_millis.2,
                      (
                        is_ascii-Utf8 Names.gain_start refl,
                        h.gain_start,
                        (
                          is_ascii-Utf8 Names.gain_target refl,
                          h.gain_target,
                          (
                            is_ascii-Utf8 Names.gain_fade_start_millis refl,
                            h.gain_fade_start_millis.2,
                            (
                              is_ascii-Utf8 Names.gain_fade_end_millis refl,
                              h.gain_fade_end_millis.2,
                              (
                                is_ascii-Utf8 Names.last_applied_ceiling refl,
                                h.last_applied_ceiling,
                                (
                                  is_ascii-Utf8 Names.last_applied_gain refl,
                                  h.last_applied_gain,
                                  (
                                    is_ascii-Utf8 Names.persisted_at_millis refl,
                                    h.persisted_at_millis.2,
                                    (
                                      is_ascii-Utf8 Names.weather_gate_closed refl,
                                      tt,
                                      (
                                        is_ascii-Utf8 Names.weather_gate_revision refl,
                                        h.weather_gate_revision.2,
                                        (
                                          is_ascii-Utf8 Names.ceiling_changed_at_millis refl,
                                          h.ceiling_changed_at_millis.2,
                                          tt,
                                        ),
                                      ),
                                    ),
                                  ),
                                ),
                              ),
                            ),
                          ),
                        ),
                      ),
                    ),
                  ),
                ),
              ),
            ),
          ),
        ),
      )

  pub state-IsReadable :
      (s : BrightnessState Num) → IsEncodable s → IsReadable t 0 (object_value (members_of t r s))
  unfolding IsReadable members_of eq_bytes
  state-IsReadable s h =
      (omega arith, distinct-Distinct (members_of t r s) refl, members_of-MembersReadable s h)
