-- ===== src/Setting.antt =====
-- native/src/channel_ranges_setting.cpp and native/src/safe_ceiling_setting.cpp: the settings that an
-- operator writes as text.
pub mod RoundTrip
pub mod Bounds
pub mod Fallback
pub mod Configure
pub mod Ceiling
use showmesh_fpp_plugin.Base.{
  ℕ, suc, ◌+◌, ◌-◌, ◌%◌, ◌^◌, ◌==◌, ltb, leb, ℤ, pos, negsuc, leb_ℤ, Bool, true, false, not, ◌&&◌,
  ◌||◌, if◌then◌else◌, List, [], ◌∷◌, ◌++◌, length, null, Option, none, some, Bytes, eq_bytes,
}
use showmesh_fpp_plugin.Decimal.{is_digit, to_string, scan_digits, all_digits}
use showmesh_fpp_plugin.Ranges.{ChannelRange, RangeConfig, RangeError, ListName, validate_ranges}
use showmesh_fpp_plugin.Brightness.State.{BrightnessEngine}
use showmesh_fpp_plugin.Brightness.Commands.{configure_ranges}

abbrev pub max_channel : ℕ
max_channel = 4294967295

-- The text before the first such byte and the text after it.
unfoldable pub find_byte : ℕ → Bytes → Option (Bytes × Bytes)
find_byte b [] = none
find_byte b (c ∷ cs) =
    let rest = find_byte b cs in
    if c == b then some ([], cs) else elim rest [ none ↦ none | some r ↦ some (c ∷ r.0, r.1) ]

abbrev add_first : ℕ → List Bytes → List Bytes
add_first c [] = (c ∷ []) ∷ []
add_first c (t ∷ ts) = (c ∷ t) ∷ ts

-- The tokens that the loops over `find(',', pos)` visit. The lenient loop stops before an empty
-- last token, which names no range.
unfoldable pub tokens : Bytes → List Bytes
tokens [] = [] ∷ []
tokens (c ∷ cs) = let rest = tokens cs in if c == 44 then [] ∷ rest else add_first c rest

unfoldable pub is_blank : ℕ → Bool
is_blank c = (c == 32) || (c == 9) || (c == 13) || (c == 10)

unfoldable pub trim_start : Bytes → Bytes
trim_start [] = []
trim_start (c ∷ cs) = let rest = trim_start cs in if is_blank c then rest else c ∷ cs

unfoldable pub trim_end : Bytes → Bytes
trim_end [] = []
trim_end (c ∷ cs) = let rest = trim_end cs in if is_blank c && null rest then [] else c ∷ rest

unfoldable pub trimmed : Bytes → Bytes
trimmed text = trim_end (trim_start text)

unfoldable pub whole_number : Bytes → Option ℕ
whole_number text =
    if null text || ltb 10 (length text)
    then none
    else if all_digits text
    then some (scan_digits 0 text).0
    else none

unfoldable pub strict_pair : Option ℕ → Option ℕ → Option ChannelRange
strict_pair none count = none
strict_pair (some start) none = none
strict_pair (some start) (some count) =
    if (start == 0) || (count == 0) || ltb max_channel (start + count)
    then none
    else some (record { start_channel = start; channel_count = count })

unfoldable pub strict_parts : Option (Bytes × Bytes) → Option ChannelRange
strict_parts none = none
strict_parts (some parts) = strict_pair (whole_number parts.0) (whole_number parts.1)

unfoldable pub strict_token : Bytes → Option ChannelRange
strict_token token = strict_parts (find_byte 45 token)

-- strtoull in base 10 on what c_str() shows of a string: the number, and whether the text was read
-- to its end. Text that starts no number is left unread.
unfoldable pub c_string : Bytes → Bytes
c_string [] = []
c_string (c ∷ cs) = let rest = c_string cs in if c == 0 then [] else c ∷ rest

unfoldable pub is_space : ℕ → Bool
is_space c = (c == 32) || (leb 9 c && leb c 13)

unfoldable pub skip_space : Bytes → Bytes
skip_space [] = []
skip_space (c ∷ cs) = let rest = skip_space cs in if is_space c then rest else c ∷ cs

unfoldable pub strip_sign : Bytes → Bool × Bytes
strip_sign [] = (false, [])
strip_sign (c ∷ cs) =
    if c == 45 then (true, cs) else if c == 43 then (false, cs) else (false, c ∷ cs)

unfoldable pub starts_digit : Bytes → Bool
starts_digit [] = false
starts_digit (c ∷ cs) = is_digit c

unfoldable pub strtoull : Bytes → ℕ × Bool
strtoull text =
    let signed = strip_sign (skip_space (c_string text)) in
    let scanned = scan_digits 0 signed.1 in
    if not (starts_digit signed.1)
    then (0, null (c_string text))
    else if leb (2 ^ 64) scanned.0
    then (2 ^ 64 - 1, null scanned.1)
    else (if signed.0 then (2 ^ 64 - scanned.0) % 2 ^ 64 else scanned.0, null scanned.1)

unfoldable pub lenient_pair : Bytes → Bytes → Option ChannelRange
lenient_pair start_text count_text =
    let start = strtoull start_text in
    let count = strtoull count_text in
    let whole_token = not (null start_text) && start.1 && not (null count_text) && count.1 in
    let in_range =
      ltb 0 start.0
      && leb start.0 max_channel
      && ltb 0 count.0
      && leb count.0 max_channel
      && leb (start.0 + count.0) max_channel in
    if whole_token && in_range
    then some (record { start_channel = start.0; channel_count = count.0 })
    else none

unfoldable pub lenient_token : Bytes → Option ChannelRange
lenient_token token = elim (find_byte 45 token) [
  | none ↦ none
  | some parts ↦ lenient_pair parts.0 parts.1
]

unfoldable pub keep_some : Option ChannelRange → List ChannelRange → List ChannelRange
keep_some none rs = rs
keep_some (some r) rs = r ∷ rs

unfoldable pub parse_tokens : List Bytes → List ChannelRange
parse_tokens [] = []
parse_tokens (t ∷ ts) = keep_some (lenient_token t) (parse_tokens ts)

unfoldable pub parse_channel_ranges_setting : Bytes → List ChannelRange
parse_channel_ranges_setting value = parse_tokens (tokens value)

-- The reason a list of ranges was rejected: a token that is not a pair, or what validateRanges says.
pub data SettingError : Type 0 where
  not_a_pair : Bytes → SettingError
  not_valid : RangeError → SettingError

pub data ChannelRangesParse : Type 0 where
  parsed : List ChannelRange → ChannelRangesParse
  rejected : SettingError → ChannelRangesParse

unfoldable pub add_parsed : ChannelRange → ChannelRangesParse → ChannelRangesParse
add_parsed r (parsed rs) = parsed (r ∷ rs)
add_parsed r (rejected e) = rejected e

unfoldable pub strict_next : Bytes → Option ChannelRange → ChannelRangesParse → ChannelRangesParse
strict_next token none rest = rejected (not_a_pair token)
strict_next token (some r) rest = add_parsed r rest

unfoldable pub strict_tokens : List Bytes → ChannelRangesParse
strict_tokens [] = parsed []
strict_tokens (t ∷ ts) = strict_next (trimmed t) (strict_token (trimmed t)) (strict_tokens ts)

unfoldable pub parse_channel_ranges_setting_strict : Bytes → ChannelRangesParse
parse_channel_ranges_setting_strict value =
    if null (trimmed value) then parsed [] else strict_tokens (tokens value)

unfoldable pub format_range : ChannelRange → Bytes
format_range r = to_string r.start_channel ++ (45 ∷ to_string r.channel_count)

unfoldable pub format_channel_ranges_setting : List ChannelRange → Bytes
format_channel_ranges_setting [] = []
format_channel_ranges_setting (r ∷ []) = format_range r
format_channel_ranges_setting (r ∷ s ∷ rs) =
    format_range r ++ (44 ∷ format_channel_ranges_setting (s ∷ rs))
