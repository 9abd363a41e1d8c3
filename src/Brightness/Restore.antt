-- ===== src/Brightness/Restore.antt =====
-- restoreFromPersisted and settleSafeAfterUntrustedRestart of brightness.cpp: what a restart makes of
-- the state on disk.
use showmesh_fpp_plugin.Base.{
  ℕ, ℤ, pos, ltb_ℤ, leb_ℤ, eqb_ℤ, Bool, true, false, not, ◌&&◌, if◌then◌else◌,
}
use showmesh_fpp_plugin.Fading.{Double, FadingValue, settle, restore, value_at}
use showmesh_fpp_plugin.Brightness.State.{
  max_percent, brightness_state_schema_version, max_weather_gate_revision, min_ℕ, BrightnessState,
  BrightnessEngine, Digest, StateAdoption, adopted, rejected_unsupported_version,
  rejected_implausible_timestamp, timestamp_is_plausible, ordering_content_hash, bump_revision,
  clamp_percent,
}
use showmesh_fpp_plugin.Brightness.Adopt.{fade_window_is_plausible}

unfoldable pub fade_timing_is_trustworthy : ℤ → ℤ → ℤ → ℤ → Bool
fade_timing_is_trustworthy start_millis end_millis persisted_at now =
    if leb_ℤ end_millis start_millis
    then false
    else if ltb_ℤ now start_millis
    then false
    else if not (eqb_ℤ persisted_at (pos 0)) && ltb_ℤ now persisted_at
    then false
    else true

pub data FadeWindowShape : Type 0 where
  none_recorded implausible candidate : FadeWindowShape

unfoldable pub classify_fade_window : ℤ → ℤ → FadeWindowShape
classify_fade_window start_millis end_millis =
    if eqb_ℤ start_millis (pos 0) && eqb_ℤ end_millis (pos 0)
    then none_recorded
    else if not (fade_window_is_plausible start_millis end_millis)
    then implausible
    else candidate

module _ (d : Double) where
  open d use {Num, lt, of_int}

  -- std::min.
  unfoldable pub min_num : Num → Num → Num
  min_num a b = if lt b a then b else a

  -- One recorded fade: `applied` is the last applied value, all three percentages as recorded.
  -- The source writes this out once for the ceiling and once for the gain.
  unfoldable pub resume_fade : Num → Num → ℤ → ℤ → Num → ℤ → ℤ → FadingValue Num
  resume_fade start target start_millis end_millis applied persisted_at now =
      let safe = min_num (clamp_percent d applied) (clamp_percent d target) in
      let resumed =
        restore (clamp_percent d start) (clamp_percent d target) start_millis end_millis in
      elim (classify_fade_window start_millis end_millis) [
        | none_recorded ↦ settle (clamp_percent d target)
        | implausible ↦ settle safe
        | candidate ↦
            if fade_timing_is_trustworthy start_millis end_millis persisted_at now
            then (if lt (clamp_percent d applied) (value_at d resumed now)
                then (if ltb_ℤ now end_millis
                    then restore (clamp_percent d applied) (clamp_percent d target) now end_millis
                    else settle (clamp_percent d applied))
                else resumed)
            else settle safe
      ]

  -- The two early returns: both values settle at the darker number on file.
  unfoldable pub settle_darker : BrightnessEngine Num → BrightnessState Num → BrightnessEngine Num
  settle_darker e s =
      let safe_ceiling =
        min_num (clamp_percent d s.last_applied_ceiling) (clamp_percent d s.ceiling_target) in
      let safe_gain =
        min_num (clamp_percent d s.last_applied_gain) (clamp_percent d s.gain_target) in
      record e {
        ceiling = settle safe_ceiling;
        gain = settle safe_gain;
        last_applied_ceiling = safe_ceiling;
        last_applied_gain = safe_gain;
      }

  unfoldable pub resume_state :
      Digest Num → BrightnessEngine Num → BrightnessState Num → ℤ → BrightnessEngine Num
  resume_state digest e s now = record e {
    revision = s.revision;
    state_changed_at_millis = s.state_changed_at_millis;
    ceiling_changed_at_millis =
        if timestamp_is_plausible s.ceiling_changed_at_millis
        then s.ceiling_changed_at_millis
        else pos 0;
    instance_id = s.instance_id;
    ordering_instance_id = s.instance_id;
    ordering_hash = ordering_content_hash digest s;
    last_applied_ceiling = clamp_percent d s.last_applied_ceiling;
    last_applied_gain = clamp_percent d s.last_applied_gain;
    ceiling =
        resume_fade s.ceiling_start s.ceiling_target s.ceiling_fade_start_millis
          s.ceiling_fade_end_millis s.last_applied_ceiling s.persisted_at_millis now;
    gain =
        resume_fade s.gain_start s.gain_target s.gain_fade_start_millis s.gain_fade_end_millis
          s.last_applied_gain s.persisted_at_millis now;
  }

  -- The gate is taken from the record before anything else is looked at.
  unfoldable pub restore_gate : BrightnessEngine Num → BrightnessState Num → BrightnessEngine Num
  restore_gate e s = record e {
    gate_closed = s.weather_gate_closed;
    gate_revision = min_ℕ s.weather_gate_revision max_weather_gate_revision;
  }

  unfoldable pub restore_from_persisted :
      Digest Num
      → BrightnessEngine Num
      → BrightnessState Num
      → ℤ
      → StateAdoption × BrightnessEngine Num
  restore_from_persisted digest e s now =
      let e₁ = restore_gate e s in
      if not (eqb_ℤ s.schema_version brightness_state_schema_version)
      then (rejected_unsupported_version, settle_darker e₁ s)
      else if not (timestamp_is_plausible s.state_changed_at_millis)
      then (rejected_implausible_timestamp, settle_darker e₁ s)
      else (adopted, resume_state digest e₁ s now)

  unfoldable pub settle_safe_after_untrusted_restart :
      Digest Num → BrightnessEngine Num → ℤ → ℤ → Bool → ℕ → BrightnessEngine Num
  settle_safe_after_untrusted_restart digest e safe_ceiling_percent now closed revision =
      let safe_ceiling = clamp_percent d (of_int safe_ceiling_percent) in
      bump_revision digest
        (record e {
          ceiling = settle safe_ceiling;
          gain = settle (of_int max_percent);
          last_applied_ceiling = safe_ceiling;
          last_applied_gain = of_int max_percent;
          gate_closed = closed;
          gate_revision = min_ℕ revision max_weather_gate_revision;
        })
        now
