-- ===== src/Brightness/Commands.antt =====
-- The local operations of brightness.cpp: the validated writes, the weather gate, the composed
-- percentage and the frame.
use showmesh_fpp_plugin.Base.{
  ℕ, ◌+◌, ◌==◌, ℤ, pos, pos_part, ltb_ℤ, eqb_ℤ, max_ℤ, ◌-ℤ◌, ◌*ℤ◌, Bool, ◌||◌, if◌then◌else◌,
  Option, none, some, List, [], ◌∷◌, length,
}
use showmesh_fpp_plugin.Fading.{Double, value_at, fade_to, fade_between}
use showmesh_fpp_plugin.Ranges
use showmesh_fpp_plugin.Ranges.{RangeConfig, RangeError, validate_ranges, scale_spans}
use showmesh_fpp_plugin.Brightness.State.{
  max_percent, max_fade_seconds, max_weather_gate_revision, u64, min_ℕ, max_ℕ, BrightnessEngine,
  Digest, bump_revision, clamp_percent,
}

-- The failures of validateActionInput and setGainBetween, with the value that the message prints.
pub data ActionError : Type 0 where
  target_percent_out_of_range : ℤ → ActionError
  fade_seconds_out_of_range : ℤ → ActionError
  fade_too_long : ActionError

unfoldable pub validate_action_input : ℤ → ℤ → Option ActionError
validate_action_input target_percent fade_seconds =
    if ltb_ℤ target_percent (pos 0) || ltb_ℤ max_percent target_percent
    then some (target_percent_out_of_range target_percent)
    else if ltb_ℤ fade_seconds (pos 0) || ltb_ℤ max_fade_seconds fade_seconds
    then some (fade_seconds_out_of_range fade_seconds)
    else none

-- recomputeScaledSpans and configureRanges.
module _ {Num : Type 0} where
  unfoldable pub recompute_scaled_spans : BrightnessEngine Num → BrightnessEngine Num
  recompute_scaled_spans e = record e {
    scaled_spans = Ranges.scaled_spans e.ranges e.total_channels;
  }

  -- `if (scaledSpans_.empty()) recomputeScaledSpans();`
  unfoldable pub spans_ready : BrightnessEngine Num → BrightnessEngine Num
  spans_ready e = elim e.scaled_spans [ [] ↦ recompute_scaled_spans e | s ∷ ss ↦ e ]

  unfoldable pub configure_ranges :
      BrightnessEngine Num → RangeConfig → ℕ → Option RangeError × BrightnessEngine Num
  configure_ranges e config total = elim (validate_ranges config total) [
    | some err ↦ (some err, e)
    | none ↦ (none, recompute_scaled_spans (record e { ranges = config; total_channels = total }))
  ]

module _ (d : Double) (digest : Digest d.Num) where
  open d use {Num, of_int, mul, div, lround}

  unfoldable pub set_ceiling :
      BrightnessEngine Num → ℤ → ℤ → ℤ → Option ActionError × BrightnessEngine Num
  set_ceiling e target_percent fade_seconds now =
      elim (validate_action_input target_percent fade_seconds) [
        | some err ↦ (some err, e)
        | none ↦
            let e₁ =
              bump_revision digest
                (record e {
                  ceiling =
                      fade_to d e.ceiling (of_int target_percent) (fade_seconds *ℤ pos 1000) now;
                })
                now in
            (none, record e₁ { ceiling_changed_at_millis = e₁.state_changed_at_millis })
      ]

  unfoldable pub set_gain :
      BrightnessEngine Num → ℤ → ℤ → ℤ → Option ActionError × BrightnessEngine Num
  set_gain e target_percent fade_seconds now =
      elim (validate_action_input target_percent fade_seconds) [
        | some err ↦ (some err, e)
        | none ↦ (
          none,
          bump_revision digest
              (record e {
                gain = fade_to d e.gain (of_int target_percent) (fade_seconds *ℤ pos 1000) now;
              })
              now,
        )
      ]

  unfoldable pub set_gain_between :
      BrightnessEngine Num → ℤ → ℤ → ℤ → ℤ → Option ActionError × BrightnessEngine Num
  set_gain_between e target_percent start_millis end_millis now =
      elim (validate_action_input target_percent (pos 0)) [
        | some err ↦ (some err, e)
        | none ↦
            if ltb_ℤ (max_fade_seconds *ℤ pos 1000) (end_millis -ℤ max_ℤ start_millis now)
            then (some fade_too_long, e)
            else (
              none,
              bump_revision digest
                  (record e {
                    gain =
                        fade_between d e.gain (of_int target_percent) start_millis end_millis now;
                  })
                  now,
            )
      ]

  -- Always applies; the stored revision only grows, up to the largest one.
  unfoldable pub set_weather_gate : BrightnessEngine Num → Bool → ℕ → ℤ → BrightnessEngine Num
  set_weather_gate e closed revision now =
      let next = min_ℕ (u64 (e.gate_revision + 1)) max_weather_gate_revision in
      bump_revision digest
        (record e {
          gate_closed = closed;
          gate_revision = max_ℕ next (min_ℕ revision max_weather_gate_revision);
        })
        now

-- `std::fill(channelData, channelData + channelCount, 0)`
unfoldable pub fill_zero : List ℕ → List ℕ
fill_zero [] = []
fill_zero (b ∷ frame) = 0 ∷ fill_zero frame

module _ (d : Double) where
  open d use {Num, of_int, mul, div, lround}

  -- The result is a number: clampPercent keeps it from being negative.
  unfoldable pub effective_percent_at : BrightnessEngine Num → ℤ → ℤ
  effective_percent_at e now =
      if e.gate_closed
      then pos 0
      else lround (
          clamp_percent d
            (div (mul (value_at d e.ceiling now) (value_at d e.gain now)) (of_int (pos 100))))

  -- What applyToFrame does to the channel data once the gate is open and the buffer is not empty.
  unfoldable pub scale_frame : BrightnessEngine Num → List ℕ → ℤ → BrightnessEngine Num × List ℕ
  scale_frame e frame now =
      let percent = effective_percent_at e now in
      let e₁ = spans_ready e in
      if eqb_ℤ percent max_percent
      then (e, frame)
      else (e₁, scale_spans (pos_part percent) e₁.scaled_spans frame)

  -- `channelData == nullptr` is the empty frame.
  unfoldable pub apply_to_frame : BrightnessEngine Num → List ℕ → ℤ → BrightnessEngine Num × List ℕ
  apply_to_frame e frame now =
      let e₁ : BrightnessEngine Num = record e {
        last_applied_ceiling = value_at d e.ceiling now;
        last_applied_gain = value_at d e.gain now;
      } in
      if length frame == 0
      then (e₁, frame)
      else if e.gate_closed
      then (e₁, fill_zero frame)
      else scale_frame e₁ frame now
