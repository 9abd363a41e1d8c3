-- ===== src/Brightness/Configure.antt =====
-- configureRanges: what the engine holds afterwards, and that its spans scale what the ranges select.
use showmesh_fpp_plugin.Base.{
  ℕ, ◌+◌, ◌^◌, ◌<◌, inl, inr, ◌⊎◌, ◌≡◌, ◌≢◌, refl, sym, ◌∙◌, List, [], none, some, Option,
  if◌then◌else◌, get_or,
}
use showmesh_fpp_plugin.Ranges.{
  RangeConfig, RangeError, validate_ranges, scaled_spans, scale_spans, scale_byte,
}
use showmesh_fpp_plugin.Ranges.Selection.{selected, ConfigNoWrap, scaled_spans-selected}
use showmesh_fpp_plugin.Brightness.State.{BrightnessEngine}
use showmesh_fpp_plugin.Brightness.Commands.{recompute_scaled_spans, configure_ranges}
use showmesh_fpp_plugin.Brightness.Output.{IsConfigured}

-- The ranges have passed validateRanges over the channel count, and the spans, once they are computed,
-- are those of the ranges and the count.
pub record IsCurrent {Num : Type 0} (e : BrightnessEngine Num) : Type 0 where
  pub validated : validate_ranges e.ranges e.total_channels ≡ none
  pub current : (e.scaled_spans ≡ []) ⊎ (e.scaled_spans ≡ scaled_spans e.ranges e.total_channels)

module _ {Num : Type 0} where
  -- What configureRanges does with an error, or without one.
  abbrev configured :
      BrightnessEngine Num
      → RangeConfig
      → ℕ
      → Option RangeError
      → Option RangeError × BrightnessEngine Num
  configured e config total none =
      (none, recompute_scaled_spans (record e { ranges = config; total_channels = total }))
  configured e config total (some err) = (some err, e)

  -- The engine has the ranges, the count and the spans of the two.
  pub record Holds (e : BrightnessEngine Num) (config : RangeConfig) (total : ℕ) : Type 0 where
    pub ranges : e.ranges ≡ config
    pub count : e.total_channels ≡ total
    pub spans : e.scaled_spans ≡ scaled_spans config total

  -- For any ranges and any channel count.
  pub configure_ranges-Holds :
      (e : BrightnessEngine Num) (config : RangeConfig) (total : ℕ)
      → let (error, e') = configure_ranges e config total in
        (error ≡ validate_ranges config total)
        × (((error ≢ none) × (e' ≡ e)) ⊎ ((error ≡ none) × Holds e' config total × IsCurrent e'))
  unfolding configure_ranges recompute_scaled_spans
  configure_ranges-Holds e config total = chosen (validate_ranges config total) refl
    where
      chosen :
          (o : Option RangeError)
          → validate_ranges config total ≡ o
          → let r = configured e config total o in
            (r.0 ≡ o)
            × (((r.0 ≢ none) × (r.1 ≡ e)) ⊎ ((r.0 ≡ none) × Holds r.1 config total × IsCurrent r.1))
      chosen none h = (
        refl,
        inr (
          refl,
          record { ranges = refl; count = refl; spans = refl },
          record { validated = h; current = inr refl },
        ),
      )
      chosen (some err) h = (refl, inl (λ k. cc, refl))

  pub configure_ranges-IsConfigured :
      (e : BrightnessEngine Num) (config : RangeConfig) (total : ℕ)
      → ConfigNoWrap config
      → 0 < total
      → total + 1 < 2 ^ 32
      → let (error, e') = configure_ranges e config total in
        ((error ≢ none) × (e' ≡ e)) ⊎ ((error ≡ none) × (e'.ranges ≡ config) × IsConfigured e')
  configure_ranges-IsConfigured e config total n p q =
      elim (configure_ranges-Holds e config total).1 [
        | inl refused ↦ inl refused
        | inr (accepted, h, c) ↦ inr (
          accepted,
          h.ranges,
          record {
            fits = rw h.ranges n;
            counted = rw h.count p;
            countable = rw h.count q;
            validated = c.validated;
            current = c.current;
          },
        )
      ]

  -- Where no range's 32-bit end wraps and the channel count lies between 1 and 2^32 - 2: a
  -- configuration is either refused with the error that validateRanges finds, and the engine is as it
  -- was, or validateRanges finds none, and the engine has these ranges and this count, and its spans
  -- are already those that scale once each channel of a frame that these ranges select over this
  -- count, and no other byte.
  pub configure_ranges-selected :
      (e : BrightnessEngine Num) (config : RangeConfig) (total scale : ℕ) (frame : List ℕ) (i : ℕ)
      → ConfigNoWrap config
      → 0 < total
      → total + 1 < 2 ^ 32
      → let (error, e') = configure_ranges e config total in
        (error ≡ validate_ranges config total)
        × (((error ≢ none) × (e' ≡ e))
            ⊎ ((error ≡ none)
                × (e'.ranges ≡ config)
                × (e'.total_channels ≡ total)
                × (get_or (scale_spans scale e'.scaled_spans frame) i 0 ≡ (
                    if selected config total (i + 1)
                    then scale_byte scale (get_or frame i 0)
                    else get_or frame i 0))))
  configure_ranges-selected e config total scale frame i n p q =
      let (same, outcome) = configure_ranges-Holds e config total in
      (
        same,
        elim outcome [
          | inl refused ↦ inl refused
          | inr (accepted, h, c) ↦ inr (
            accepted,
            h.ranges,
            h.count,
            rw h.spans
                (scaled_spans-selected config total scale frame i n p q (sym same ∙ accepted)),
          )
        ],
      )
