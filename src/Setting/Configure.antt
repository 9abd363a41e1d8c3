-- ===== src/Setting/Configure.antt =====
-- configureChannelRangesFrom and configureApplyRanges of native/src/channel_ranges_setting.cpp: the
-- settings and the host's output ranges, put into the brightness engine.
use showmesh_fpp_plugin.Base.{
  ℕ, List, [], ◌∷◌, ◌++◌, if◌then◌else◌, Option, none, some, Bytes, eq_bytes,
}
use showmesh_fpp_plugin.Ranges.{ChannelRange, RangeError, validate_ranges}
use showmesh_fpp_plugin.Brightness.State.{BrightnessEngine}
use showmesh_fpp_plugin.Brightness.Commands.{configure_ranges}
use showmesh_fpp_plugin.Setting.{
  SettingError, ChannelRangesParse, parsed, rejected, not_valid, parse_channel_ranges_setting,
  parse_channel_ranges_setting_strict,
}

pub record ChannelRangeSources : Type 0 where
  pub apply_setting : Bytes
  pub exclude_setting : Bytes
  pub output_ranges : List ChannelRange

-- The lines of the log, by what they report.
pub data LogLine : Type 0 where
  exclude_rejected : SettingError → LogLine
  setting_rejected : RangeError → LogLine
  output_rejected : RangeError → LogLine

-- The setting that parses is then validated alone.
unfoldable pub validate_exclude : ℕ → ChannelRangesParse → ChannelRangesParse
validate_exclude total (rejected e) = rejected e
validate_exclude total (parsed ranges) =
    elim (validate_ranges (record { apply = []; exclude = ranges }) total) [
      | none ↦ parsed ranges
      | some e ↦ rejected (not_valid e)
    ]

module _ {Num : Type 0} where
  -- The channels of the whole buffer, whatever the engine answers.
  unfoldable pub use_all : BrightnessEngine Num → List ChannelRange → ℕ → BrightnessEngine Num
  use_all e exclude total =
      (configure_ranges e
        (record {
          apply = record { start_channel = 1; channel_count = total } ∷ [];
          exclude = exclude;
        })
        total).1

  -- One list of ranges tried on the engine: `none` when it is empty or refused.
  unfoldable pub try_apply :
      BrightnessEngine Num
      → List ChannelRange
      → List ChannelRange
      → ℕ
      → Option (Option RangeError × BrightnessEngine Num)
  try_apply e [] exclude total = none
  try_apply e (r ∷ rs) exclude total =
      some (configure_ranges e (record { apply = r ∷ rs; exclude = exclude }) total)

  unfoldable pub after_output :
      BrightnessEngine Num
      → List ChannelRange
      → ℕ
      → List LogLine
      → Option (Option RangeError × BrightnessEngine Num)
      → BrightnessEngine Num × List LogLine
  after_output e exclude total log none = (use_all e exclude total, log)
  after_output e exclude total log (some (none, e')) = (e', log)
  after_output e exclude total log (some (some err, e')) =
      (use_all e' exclude total, log ++ (output_rejected err ∷ []))

  unfoldable pub apply_output :
      BrightnessEngine Num
      → List ChannelRange
      → List ChannelRange
      → ℕ
      → List LogLine
      → BrightnessEngine Num × List LogLine
  apply_output e output_ranges exclude total log =
      after_output e exclude total log (try_apply e output_ranges exclude total)

  unfoldable pub after_setting :
      BrightnessEngine Num
      → List ChannelRange
      → List ChannelRange
      → ℕ
      → List LogLine
      → Option (Option RangeError × BrightnessEngine Num)
      → BrightnessEngine Num × List LogLine
  after_setting e output_ranges exclude total log none =
      apply_output e output_ranges exclude total log
  after_setting e output_ranges exclude total log (some (none, e')) = (e', log)
  after_setting e output_ranges exclude total log (some (some err, e')) =
      apply_output e' output_ranges exclude total (log ++ (setting_rejected err ∷ []))

  unfoldable pub configure_apply_ranges :
      BrightnessEngine Num
      → List ChannelRange
      → List ChannelRange
      → List ChannelRange
      → ℕ
      → List LogLine
      → BrightnessEngine Num × List LogLine
  configure_apply_ranges e setting output_ranges exclude total log =
      after_setting e output_ranges exclude total log (try_apply e setting exclude total)

  -- The exclusions in force, the last rejected setting, and the log.
  unfoldable pub choose_exclude :
      BrightnessEngine Num
      → Bytes
      → Bytes
      → ChannelRangesParse
      → List ChannelRange × Bytes × List LogLine
  choose_exclude e exclude_setting last_rejected (parsed ranges) = (ranges, [], [])
  choose_exclude e exclude_setting last_rejected (rejected err) =
      if eq_bytes last_rejected exclude_setting
      then (e.ranges.exclude, last_rejected, [])
      else (e.ranges.exclude, exclude_setting, exclude_rejected err ∷ [])

  unfoldable pub configure_channel_ranges_from :
      BrightnessEngine Num
      → ChannelRangeSources
      → ℕ
      → Bytes
      → BrightnessEngine Num × Bytes × List LogLine
  configure_channel_ranges_from e sources total last_rejected =
      let excluded =
        validate_exclude total (parse_channel_ranges_setting_strict sources.exclude_setting) in
      let (exclude, last, log) = choose_exclude e sources.exclude_setting last_rejected excluded in
      let (e', log') =
        configure_apply_ranges e (parse_channel_ranges_setting sources.apply_setting)
          sources.output_ranges exclude total log in
      (e', last, log')
