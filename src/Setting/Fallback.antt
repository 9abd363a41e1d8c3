-- ===== src/Setting/Fallback.antt =====
-- The order in which configureApplyRanges tries the ranges, and that the engine ends up configured.
use showmesh_fpp_plugin.Base.{
  ℕ, ◌+◌, ◌<◌, ◌^◌, ◌≡◌, ap, inl, inr, List, [], ◌∷◌, ◌++◌, Option, none, some, All, arith,
  Option-cases,
}
use showmesh_fpp_plugin.Ranges.{
  ChannelRange, RangeConfig, RangeError, apply_list, exclude_list, validate_one_list,
  validate_ranges,
}
use showmesh_fpp_plugin.Ranges.Order.{NoWrap}
use showmesh_fpp_plugin.Ranges.Selection.{whole_buffer, whole_buffer-valid}
use showmesh_fpp_plugin.Brightness.State.{BrightnessEngine}
use showmesh_fpp_plugin.Brightness.Commands.{configure_ranges}
use showmesh_fpp_plugin.Brightness.Output.{IsConfigured}
use showmesh_fpp_plugin.Brightness.Configure.{configure_ranges-IsConfigured}
use showmesh_fpp_plugin.Setting.Configure.{
  LogLine, setting_rejected, use_all, try_apply, after_output, apply_output, after_setting,
  configure_apply_ranges,
}

unfoldable pub unless_refused :
    List ChannelRange → List ChannelRange → Option RangeError → List ChannelRange
unless_refused ranges next none = ranges
unless_refused ranges next (some err) = next

-- The first list that is not empty and validates; the whole buffer where there is none.
unfoldable pub first_usable : ℕ → List (List ChannelRange) → List ChannelRange
first_usable total [] = whole_buffer total
first_usable total ([] ∷ rest) = first_usable total rest
first_usable total ((r ∷ rs) ∷ rest) =
    unless_refused (r ∷ rs) (first_usable total rest) (validate_one_list apply_list total (r ∷ rs))

-- The hypotheses that the parsers and the caller establish.
record Facts (exclude : List ChannelRange) (total : ℕ) : Type 0 where
  exclude_fits : All NoWrap exclude
  counted : 0 < total
  countable : total + 1 < 2 ^ 32
  exclude_valid : validate_one_list exclude_list total exclude ≡ none

module _ {Num : Type 0} (exclude : List ChannelRange) (total : ℕ) where
  abbrev Chosen : BrightnessEngine Num → List ChannelRange → Type 0
  Chosen e ranges = IsConfigured e × (e.ranges ≡ record { apply = ranges; exclude = exclude })

  accepted :
      (e : BrightnessEngine Num) (ranges : List ChannelRange)
      → validate_one_list exclude_list total exclude ≡ none
      → validate_one_list apply_list total ranges ≡ none
      → (configure_ranges e (record { apply = ranges; exclude = exclude }) total).0 ≡ none
  unfolding configure_ranges validate_ranges
  accepted e ranges v w = ground arith

  configure_ranges-valid :
      (e : BrightnessEngine Num) (ranges : List ChannelRange)
      → All NoWrap ranges
      → All NoWrap exclude
      → 0 < total
      → total + 1 < 2 ^ 32
      → validate_one_list exclude_list total exclude ≡ none
      → validate_one_list apply_list total ranges ≡ none
      → let r = configure_ranges e (record { apply = ranges; exclude = exclude }) total in
        (r.0 ≡ none) × Chosen r.1 ranges
  configure_ranges-valid e ranges n m p q v w =
      let config : RangeConfig = record { apply = ranges; exclude = exclude } in
      elim (configure_ranges-IsConfigured e config total
        (record { apply_fits = n; exclude_fits = m }) p q) [
          | inl refused ↦ absurd (refused.0 (accepted e ranges v w))
          | inr done ↦ (done.0, (done.2, done.1))
        ]

  configure_ranges-refused :
      (e : BrightnessEngine Num) (ranges : List ChannelRange) (err : RangeError)
      → validate_one_list apply_list total ranges ≡ some err
      → configure_ranges e (record { apply = ranges; exclude = exclude }) total ≡ (some err, e)
  unfolding configure_ranges validate_ranges
  configure_ranges-refused e ranges err h = ground arith

  use_all-Chosen :
      (e : BrightnessEngine Num)
      → Facts exclude total
      → Chosen (use_all e exclude total) (whole_buffer total)
  unfolding use_all
  use_all-Chosen e f =
      (configure_ranges-valid e (whole_buffer total) (fits f.countable, tt) f.exclude_fits f.counted
        f.countable f.exclude_valid (whole_buffer-valid total f.counted f.countable)).1
    where
      fits : total + 1 < 2 ^ 32 → 1 + total < 2 ^ 32
      fits h = omega arith

  -- The two answers of one list that is not empty.
  try_apply-none :
      (e : BrightnessEngine Num) (r : ChannelRange) (rs : List ChannelRange)
      → All NoWrap (r ∷ rs)
      → Facts exclude total
      → validate_one_list apply_list total (r ∷ rs) ≡ none
      → (e' : BrightnessEngine Num) × (try_apply e (r ∷ rs) exclude total ≡ some (none, e'))
        × Chosen e' (r ∷ rs)
  unfolding try_apply
  try_apply-none e r rs n f v =
      let (ok, chosen) =
        configure_ranges-valid e (r ∷ rs) n f.exclude_fits f.counted f.countable f.exclude_valid
          v in
      let e' = (configure_ranges e (record { apply = r ∷ rs; exclude = exclude }) total).1 in
      (e', ap (λ o. some (o, e')) ok, chosen)

  try_apply-some :
      (e : BrightnessEngine Num) (r : ChannelRange) (rs : List ChannelRange) (err : RangeError)
      → validate_one_list apply_list total (r ∷ rs) ≡ some err
      → try_apply e (r ∷ rs) exclude total ≡ some (some err, e)
  unfolding try_apply
  try_apply-some e r rs err v = ap some (configure_ranges-refused e (r ∷ rs) err v)

  apply_output-Chosen :
      (e : BrightnessEngine Num) (output_ranges : List ChannelRange) (log : List LogLine)
      → All NoWrap output_ranges
      → Facts exclude total
      → Chosen
          (apply_output e output_ranges exclude total log).0
          (first_usable total (output_ranges ∷ []))
  unfolding apply_output after_output first_usable unless_refused
  apply_output-Chosen e [] log n f = unfold try_apply in use_all-Chosen e f
  apply_output-Chosen e (r ∷ rs) log n f =
      elim (Option-cases (validate_one_list apply_list total (r ∷ rs))) [
        | inl v ↦ let (e', done, chosen) = try_apply-none e r rs n f v in rw (v, done) chosen
        | inr (err, v) ↦ rw (v, try_apply-some e r rs err v) (use_all-Chosen e f)
      ]

-- Over a channel count that is not zero and is less than 2^32 - 1, with exclusions that validate and
-- lists of ranges whose ends are 32-bit numbers, configureApplyRanges always leaves the engine
-- configured: its ranges are the setting's when they are not empty and validate, else the host's
-- output ranges under the same condition, else the whole channel buffer, with the exclusions given.
pub configure_apply_ranges-IsConfigured :
    {Num : Type 0} (e : BrightnessEngine Num) (setting output_ranges exclude : List ChannelRange)
    (total : ℕ) (log : List LogLine)
    → All NoWrap setting
    → All NoWrap output_ranges
    → All NoWrap exclude
    → 0 < total
    → total + 1 < 2 ^ 32
    → validate_one_list exclude_list total exclude ≡ none
    → let e' = (configure_apply_ranges e setting output_ranges exclude total log).0 in
      IsConfigured e'
      × (e'.ranges
          ≡ record { apply = first_usable total (setting ∷ output_ranges ∷ []); exclude = exclude })
unfolding configure_apply_ranges after_setting first_usable unless_refused
configure_apply_ranges-IsConfigured e [] output_ranges exclude total log n o m p q v =
    unfold try_apply in
    apply_output-Chosen exclude total e output_ranges log o
      (record { exclude_fits = m; counted = p; countable = q; exclude_valid = v })
configure_apply_ranges-IsConfigured e (r ∷ rs) output_ranges exclude total log n o m p q v =
    let f : Facts exclude total = record {
      exclude_fits = m;
      counted = p;
      countable = q;
      exclude_valid = v;
    } in
    elim (Option-cases (validate_one_list apply_list total (r ∷ rs))) [
      | inl w ↦
          let (e', done, chosen) = try_apply-none exclude total e r rs n f w in rw (w, done) chosen
      | inr (err, w) ↦
          rw (w, try_apply-some exclude total e r rs err w)
            (apply_output-Chosen exclude total e output_ranges (log ++ (setting_rejected err ∷ []))
              o f)
    ]
