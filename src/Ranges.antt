-- ===== src/Ranges.antt =====
-- The channel ranges of native/src/brightness.cpp: ChannelRange, RangeConfig, validateRanges,
-- recomputeScaledSpans and the channel loop of applyToFrame. A std::uint32_t is a number below
-- 2 ^ 32, and its sums wrap.
pub mod Order
pub mod Carve
pub mod Frame
pub mod Selection
use showmesh_fpp_plugin.Base.{
  ℕ, zero, suc, ◌+◌, ◌-◌, ◌*◌, ◌/◌, ◌%◌, ◌^◌, ltb, leb, ◌==◌, Bool, true, false, not, ◌&&◌, ◌||◌,
  if◌then◌else◌, Option, none, some, List, [], ◌∷◌, ◌++◌, get_or, set, length,
}

pub record ChannelRange : Type 0 where
  pub start_channel : ℕ
  pub channel_count : ℕ

abbrev pub u32 : ℕ → ℕ
u32 n = n % 2 ^ 32

unfoldable pub end_exclusive : ChannelRange → ℕ
end_exclusive r = u32 (r.start_channel + r.channel_count)

pub record RangeConfig : Type 0 where
  pub apply : List ChannelRange
  pub exclude : List ChannelRange

-- The `listName` of a failure, and the four messages with the ranges that they describe.
pub data ListName : Type 0 where
  apply_list exclude_list : ListName

pub data RangeError : Type 0 where
  covers_no_channels : ListName → ChannelRange → RangeError
  below_channel_1 : ListName → ChannelRange → RangeError
  past_channel_count : ListName → ChannelRange → RangeError
  ranges_overlap : ListName → ChannelRange → ChannelRange → RangeError

-- The first loop of validateOneList.
unfoldable pub check_each : ListName → ℕ → List ChannelRange → Option RangeError
unfolding end_exclusive
check_each name total [] = none
check_each name total (r ∷ rs) =
    if r.channel_count == 0
    then some (covers_no_channels name r)
    else if r.start_channel == 0
    then some (below_channel_1 name r)
    else if not (total == 0) && ltb (u32 (total + 1)) (end_exclusive r)
    then some (past_channel_count name r)
    else check_each name total rs

-- std::sort by startChannel.
unfoldable pub insert_range : ChannelRange → List ChannelRange → List ChannelRange
insert_range r [] = r ∷ []
insert_range r (x ∷ xs) =
    if ltb x.start_channel r.start_channel then x ∷ insert_range r xs else r ∷ x ∷ xs

unfoldable pub sort_ranges : List ChannelRange → List ChannelRange
unfolding insert_range
sort_ranges [] = []
sort_ranges (r ∷ rs) = insert_range r (sort_ranges rs)

-- The second loop of validateOneList, at `sorted[i - 1]` and what follows it.
unfoldable pub check_after : ListName → ChannelRange → List ChannelRange → Option RangeError
unfolding end_exclusive
check_after name prev [] = none
check_after name prev (r ∷ rs) =
    if ltb r.start_channel (end_exclusive prev)
    then some (ranges_overlap name prev r)
    else check_after name r rs

unfoldable pub check_sorted : ListName → List ChannelRange → Option RangeError
unfolding check_after
check_sorted name [] = none
check_sorted name (r ∷ rs) = check_after name r rs

-- `none` is `ok`.
unfoldable pub validate_one_list : ListName → ℕ → List ChannelRange → Option RangeError
unfolding check_each check_sorted sort_ranges
validate_one_list name total ranges = elim (check_each name total ranges) [
  | some e ↦ some e
  | none ↦ check_sorted name (sort_ranges ranges)
]

unfoldable pub validate_ranges : RangeConfig → ℕ → Option RangeError
unfolding validate_one_list
validate_ranges config total = elim (validate_one_list apply_list total config.apply) [
  | some e ↦ some e
  | none ↦ validate_one_list exclude_list total config.exclude
]

-- What is left of a span once the exclusions that matter are cut out, and the loop over the sorted
-- exclusions. `continue` is the first test, the `break`s are the second and the last.
abbrev last_piece : ℕ → ℕ → List ChannelRange
last_piece cursor end =
    if ltb cursor end
    then record { start_channel = cursor; channel_count = end - cursor } ∷ []
    else []

abbrev piece_before : ℕ → ChannelRange → List ChannelRange
piece_before cursor ex =
    if ltb cursor ex.start_channel
    then record { start_channel = cursor; channel_count = ex.start_channel - cursor } ∷ []
    else []

-- `cursor = std::max(cursor, ex.endExclusive())`
pub advance : ℕ → ChannelRange → ℕ
unfolding end_exclusive
advance cursor ex = if ltb cursor (end_exclusive ex) then end_exclusive ex else cursor

pub carve : ℕ → ℕ → List ChannelRange → List ChannelRange
carve cursor end [] = last_piece cursor end
carve cursor end (ex ∷ exs) =
    let skipped = carve cursor end exs in
    let rest = carve (advance cursor ex) end exs in
    if leb (end_exclusive ex) cursor
    then skipped
    else if leb end ex.start_channel
    then last_piece cursor end
    else if leb end (advance cursor ex)
    then piece_before cursor ex ++ last_piece (advance cursor ex) end
    else piece_before cursor ex ++ rest

pub carve_all : List ChannelRange → List ChannelRange → List ChannelRange
unfolding carve advance
carve_all excludes [] = []
carve_all excludes (span ∷ spans) =
    carve span.start_channel (end_exclusive span) excludes ++ carve_all excludes spans

-- No apply range means the whole universe.
unfoldable pub spans_of : RangeConfig → ℕ → List ChannelRange
spans_of config total = elim config.apply [
  | [] ↦
      record { start_channel = 1; channel_count = if total == 0 then 0xFFFFFFFF - 1 else total }
      ∷ []
  | r ∷ rs ↦ r ∷ rs
]

unfoldable pub scaled_spans : RangeConfig → ℕ → List ChannelRange
unfolding spans_of carve_all sort_ranges
scaled_spans config total =
    carve_all (sort_ranges config.exclude) (sort_ranges (spans_of config total))

-- `channelData[i] = (uint8_t)((channelData[i] * scale + 50u) / 100u)`
unfoldable pub scale_byte : ℕ → ℕ → ℕ
scale_byte scale b = (b * scale + 50) / 100 % 256

-- `for (i = begin; i < end; ++i)` with `end - begin` rounds left.
pub scale_loop : ℕ → ℕ → ℕ → List ℕ → List ℕ
unfolding scale_byte
scale_loop scale zero i frame = frame
scale_loop scale (suc rounds) i frame =
    scale_loop scale rounds (suc i) (set frame i (scale_byte scale (get_or frame i 0)))

-- `if (end > channelCount) end = channelCount;`
pub clip : ℕ → ℕ → ℕ
clip count end = if ltb count end then count else end

unfoldable pub scale_span : ℕ → ChannelRange → List ℕ → List ℕ
unfolding scale_loop clip
scale_span scale span frame =
    let begin = span.start_channel - 1 in
    let end = begin + span.channel_count in
    let stop = clip (length frame) end in
    if span.start_channel == 0
    then frame
    else if leb (length frame) begin
    then frame
    else scale_loop scale (stop - begin) begin frame

unfoldable pub scale_spans : ℕ → List ChannelRange → List ℕ → List ℕ
unfolding scale_span
scale_spans scale [] frame = frame
scale_spans scale (span ∷ spans) frame = scale_spans scale spans (scale_span scale span frame)
