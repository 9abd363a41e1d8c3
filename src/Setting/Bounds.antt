-- ===== src/Setting/Bounds.antt =====
-- What either parser lets through fits the program's 32-bit channel numbers.
use showmesh_fpp_plugin.Base.{
  ℕ, ◌+◌, ◌≤◌, ◌<◌, Bool, true, false, if◌then◌else◌, List, [], ◌∷◌, null, Option, none, some,
  Bytes, All, arith,
}
use showmesh_fpp_plugin.Ranges.{ChannelRange}
use showmesh_fpp_plugin.Setting.{
  max_channel, find_byte, tokens, trimmed, whole_number, strict_pair, strict_parts, strict_token,
  lenient_pair, lenient_token, keep_some, parse_tokens, parse_channel_ranges_setting,
  ChannelRangesParse, parsed, rejected, add_parsed, strict_next, strict_tokens,
  parse_channel_ranges_setting_strict,
}

-- A range of at least one channel, from channel 1 on, whose end is a 32-bit number.
abbrev pub IsUsable : ChannelRange → Type 0
IsUsable r =
    (0 < r.start_channel)
    × (0 < r.channel_count)
    × (r.start_channel + r.channel_count ≤ max_channel)

abbrev Each : Option ChannelRange → Type 0
Each none = Unit
Each (some r) = IsUsable r

strict_pair-IsUsable : (start count : Option ℕ) → Each (strict_pair start count)
unfolding strict_pair
strict_pair-IsUsable none count = tt
strict_pair-IsUsable (some start) none = tt
strict_pair-IsUsable (some start) (some count) = ground arith

strict_parts-IsUsable : (o : Option (Bytes × Bytes)) → Each (strict_parts o)
unfolding strict_parts
strict_parts-IsUsable none = tt
strict_parts-IsUsable (some parts) =
    strict_pair-IsUsable (whole_number parts.0) (whole_number parts.1)

strict_token-IsUsable : (token : Bytes) → Each (strict_token token)
unfolding strict_token
strict_token-IsUsable token = strict_parts-IsUsable (find_byte 45 token)

lenient_pair-IsUsable : (start_text count_text : Bytes) → Each (lenient_pair start_text count_text)
unfolding lenient_pair
lenient_pair-IsUsable start_text count_text = ground arith

lenient_token-IsUsable : (token : Bytes) → Each (lenient_token token)
unfolding lenient_token
lenient_token-IsUsable token =
    elim (find_byte 45 token)
      as (λ o. Each (elim o [ none ↦ none | some parts ↦ lenient_pair parts.0 parts.1 ])) [
        | none ↦ tt
        | some parts ↦ lenient_pair-IsUsable parts.0 parts.1
      ]

keep_some-IsUsable :
    (o : Option ChannelRange) (rs : List ChannelRange)
    → Each o
    → All IsUsable rs
    → All IsUsable (keep_some o rs)
unfolding keep_some
keep_some-IsUsable none rs h k = k
keep_some-IsUsable (some r) rs h k = (h, k)

parse_tokens-IsUsable : (ts : List Bytes) → All IsUsable (parse_tokens ts)
unfolding parse_tokens
parse_tokens-IsUsable [] = tt
parse_tokens-IsUsable (t ∷ ts) =
    keep_some-IsUsable (lenient_token t) (parse_tokens ts) (lenient_token-IsUsable t)
      (parse_tokens-IsUsable ts)

abbrev pub AllParsed : ChannelRangesParse → Type 0
AllParsed (parsed rs) = All IsUsable rs
AllParsed (rejected e) = Unit

add_parsed-AllParsed :
    (r : ChannelRange) (rest : ChannelRangesParse)
    → IsUsable r
    → AllParsed rest
    → AllParsed (add_parsed r rest)
unfolding add_parsed
add_parsed-AllParsed r (parsed rs) h k = (h, k)
add_parsed-AllParsed r (rejected e) h k = tt

strict_next-AllParsed :
    (token : Bytes) (o : Option ChannelRange) (rest : ChannelRangesParse)
    → Each o
    → AllParsed rest
    → AllParsed (strict_next token o rest)
unfolding strict_next
strict_next-AllParsed token none rest h k = tt
strict_next-AllParsed token (some r) rest h k = add_parsed-AllParsed r rest h k

strict_tokens-AllParsed : (ts : List Bytes) → AllParsed (strict_tokens ts)
unfolding strict_tokens
strict_tokens-AllParsed [] = tt
strict_tokens-AllParsed (t ∷ ts) =
    strict_next-AllParsed (trimmed t) (strict_token (trimmed t)) (strict_tokens ts)
      (strict_token-IsUsable (trimmed t)) (strict_tokens-AllParsed ts)

if-AllParsed :
    (b : Bool) (p : ChannelRangesParse) → AllParsed p → AllParsed (if b then parsed [] else p)
if-AllParsed true p h = tt
if-AllParsed false p h = h

-- For every text, each range that the lenient parser keeps, and each range of a list that the
-- strict parser accepts, starts at channel 1 or later, has a channel, and ends within 32 bits.
pub parse_channel_ranges_setting-IsUsable :
    (value : Bytes)
    → All IsUsable (parse_channel_ranges_setting value)
      × AllParsed (parse_channel_ranges_setting_strict value)
unfolding parse_channel_ranges_setting parse_channel_ranges_setting_strict
parse_channel_ranges_setting-IsUsable value = (
  parse_tokens-IsUsable (tokens value),
  if-AllParsed (null (trimmed value)) (strict_tokens (tokens value))
      (strict_tokens-AllParsed (tokens value)),
)
