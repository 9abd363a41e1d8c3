-- ===== src/Ranges/Selection.antt =====
-- The whole of the range code: a validated configuration scales exactly the channels that it selects.
use showmesh_fpp_plugin.Base.{
  ℕ, ◌+◌, ◌^◌, ◌≤◌, ◌<◌, leb, Bool, not, ◌&&◌, ◌≡◌, refl, ◌∙◌, if◌then◌else◌, none, List, [], ◌∷◌,
  All, get_or, arith,
}
use showmesh_fpp_plugin.Ranges.{
  ChannelRange, RangeConfig, ListName, apply_list, exclude_list, check_each, sort_ranges,
  validate_one_list, validate_ranges, carve_all, spans_of, scaled_spans, scale_byte, scale_spans,
  check_sorted, check_after, insert_range, end_exclusive,
}
use showmesh_fpp_plugin.Ranges.Order.{
  covers, Ascending, NoWrap, top, covers-sort_ranges, All-sort_ranges, validate_one_list-Ascending,
}
use showmesh_fpp_plugin.Ranges.Carve.{covers-carve_all, carve_all-Ascending}
use showmesh_fpp_plugin.Ranges.Frame.{scale_spans_lem}

-- An empty apply list selects every channel up to `total`; an exclusion always wins.
abbrev pub selected : RangeConfig → ℕ → ℕ → Bool
selected config total c =
    (elim config.apply [ [] ↦ leb 1 c && leb c total | r ∷ rs ↦ covers c (r ∷ rs) ])
    && not (covers c config.exclude)

-- Every range of a configuration has members whose sum fits std::uint32_t.
pub record ConfigNoWrap (config : RangeConfig) : Type 0 where
  pub apply_fits : All NoWrap config.apply
  pub exclude_fits : All NoWrap config.exclude

pub validate_parts :
    (config : RangeConfig) (total : ℕ)
    → validate_ranges config total ≡ none
    → (validate_one_list apply_list total config.apply ≡ none)
      × (validate_one_list exclude_list total config.exclude ≡ none)
unfolding validate_ranges
validate_parts config total h = ground arith

abbrev FromOne : ChannelRange → Type 0
FromOne r = 1 ≤ r.start_channel

check_each-FromOne :
    (name : ListName) (total : ℕ) (rs : List ChannelRange)
    → check_each name total rs ≡ none
    → All FromOne rs
unfolding check_each
check_each-FromOne name total [] h = tt
check_each-FromOne name total (r ∷ rs) h =
    (ground arith, check_each-FromOne name total rs (ground arith))

validate_one_list-FromOne :
    (name : ListName) (total : ℕ) (rs : List ChannelRange)
    → validate_one_list name total rs ≡ none
    → All FromOne rs
unfolding validate_one_list
validate_one_list-FromOne name total rs h = check_each-FromOne name total rs (ground arith)

FromOne-Ascending :
    (rs : List ChannelRange) → All FromOne rs → Ascending 0 top rs → Ascending 1 top rs
FromOne-Ascending [] a h = omega arith
FromOne-Ascending (r ∷ rs) a h = (a.0, h.1)

-- What the loop over the sorted spans needs, whether or not an apply range is configured.
record SpansFit (config : RangeConfig) (total : ℕ) : Type 0 where
  fits : All NoWrap (sort_ranges (spans_of config total))
  ordered : Ascending 1 top (sort_ranges (spans_of config total))
  chosen :
      (c : ℕ)
      → (covers c (spans_of config total) && not (covers c config.exclude))
        ≡ selected config total c

spans_of-SpansFit :
    (total : ℕ) (apply exclude : List ChannelRange)
    → 0 < total
    → total + 1 < 2 ^ 32
    → All NoWrap apply
    → validate_one_list apply_list total apply ≡ none
    → SpansFit (record { apply = apply; exclude = exclude }) total
unfolding spans_of sort_ranges
spans_of-SpansFit total [] exclude p q n h = record {
  fits = (ground arith, tt);
  ordered = (omega arith, ground arith);
  chosen = λ c. ground arith;
}
spans_of-SpansFit total (r ∷ rs) exclude p q n h = record {
  fits = All-sort_ranges NoWrap (r ∷ rs) n;
  ordered =
      FromOne-Ascending (sort_ranges (r ∷ rs))
        (All-sort_ranges FromOne (r ∷ rs) (validate_one_list-FromOne apply_list total (r ∷ rs) h))
        (validate_one_list-Ascending apply_list total (r ∷ rs) n h);
  chosen = λ c. refl;
}

scaled_spans_lem :
    (config : RangeConfig) (total scale : ℕ) (frame : List ℕ) (i : ℕ)
    → SpansFit config total
    → All NoWrap config.exclude
    → validate_one_list exclude_list total config.exclude ≡ none
    → get_or (scale_spans scale (scaled_spans config total) frame) i 0 ≡ (
        if selected config total (i + 1)
        then scale_byte scale (get_or frame i 0)
        else get_or frame i 0)
unfolding scaled_spans
scaled_spans_lem config total scale frame i s n h =
    let spans = sort_ranges (spans_of config total) in
    let excludes = sort_ranges config.exclude in
    let ordered = validate_one_list-Ascending exclude_list total config.exclude n h in
    scale_spans_lem scale (carve_all excludes spans) 1 top frame i (omega arith)
      (carve_all-Ascending excludes top (omega arith) ordered 1 top spans s.fits s.ordered)
    ∙ rw (
      covers-carve_all excludes top (omega arith) ordered (i + 1) spans s.fits,
      covers-sort_ranges (i + 1) (spans_of config total),
      covers-sort_ranges (i + 1) config.exclude,
      s.chosen (i + 1),
    )

-- A configuration that passes validateRanges over a channel count between 1 and 2^32 - 2, where no
-- range's 32-bit end, its start plus its count, wraps, scales each selected channel of the frame once
-- and leaves every other byte as it is.
pub scaled_spans-selected :
    (config : RangeConfig) (total scale : ℕ) (frame : List ℕ) (i : ℕ)
    → ConfigNoWrap config
    → 0 < total
    → total + 1 < 2 ^ 32
    → validate_ranges config total ≡ none
    → get_or (scale_spans scale (scaled_spans config total) frame) i 0 ≡ (
        if selected config total (i + 1)
        then scale_byte scale (get_or frame i 0)
        else get_or frame i 0)
scaled_spans-selected config total scale frame i n p q v =
    let (va, ve) = validate_parts config total v in
    scaled_spans_lem config total scale frame i
      (spans_of-SpansFit total config.apply config.exclude p q n.apply_fits va) n.exclude_fits ve

abbrev pub whole_buffer : ℕ → List ChannelRange
whole_buffer total = record { start_channel = 1; channel_count = total } ∷ []

-- The whole buffer is a list of ranges that validates.
pub whole_buffer-valid :
    (total : ℕ)
    → 0 < total
    → total + 1 < 2 ^ 32
    → validate_one_list apply_list total (whole_buffer total) ≡ none
unfolding validate_one_list check_each check_sorted check_after sort_ranges insert_range
    end_exclusive
whole_buffer-valid total h k = ground arith
