-- ===== src/Setting/RoundTrip.antt =====
-- What formatChannelRangesSetting writes, parseChannelRangesSettingStrict reads back.
use showmesh_fpp_plugin.Base.{
  ℕ, ◌≤◌, ◌==◌, ltb, true, false, ◌≡◌, refl, ◌∙◌, ap, List, [], ◌∷◌, ◌++◌, length, null, some,
  Bytes, All, arith,
}
use showmesh_fpp_plugin.Decimal.{
  is_digit, to_string, show_fuel, all_digits, IsDigits, show-IsDigits, null-show, digits-all_digits,
  scan-to_string, length-show,
}
use showmesh_fpp_plugin.Ranges.{ChannelRange}
use showmesh_fpp_plugin.Setting.{
  max_channel, find_byte, tokens, is_blank, trim_start, trim_end, trimmed, whole_number,
  strict_pair, strict_parts, strict_token, ChannelRangesParse, parsed, add_parsed, strict_next,
  strict_tokens, parse_channel_ranges_setting_strict, format_range, format_channel_ranges_setting,
}
use showmesh_fpp_plugin.Setting.Bounds.{IsUsable}

abbrev NotBlank : Bytes → Type 0
NotBlank cs = All (λ c. is_blank c ≡ false) cs

abbrev NoComma : Bytes → Type 0
NoComma cs = All (λ c. (c == 44) ≡ false) cs

All-append : (P : ℕ → Type 0) (xs ys : Bytes) → All P xs → All P ys → All P (xs ++ ys)
All-append P [] ys h k = k
All-append P (x ∷ xs) ys h k = (h.0, All-append P xs ys h.1 k)

All-digits :
    (P : ℕ → Type 0) → ((c : ℕ) → is_digit c ≡ true → P c) → (cs : Bytes) → IsDigits cs → All P cs
All-digits P f [] h = tt
All-digits P f (c ∷ cs) h = (f c h.0, All-digits P f cs h.1)

to_string-All :
    (P : ℕ → Type 0) → ((c : ℕ) → is_digit c ≡ true → P c) → (n : ℕ) → All P (to_string n)
unfolding to_string
to_string-All P f n = All-digits P f (show_fuel 20 n) (show-IsDigits 20 n)

format_range-All :
    (P : ℕ → Type 0) (r : ChannelRange)
    → ((c : ℕ) → is_digit c ≡ true → P c)
    → P 45
    → All P (format_range r)
unfolding format_range
format_range-All P r f d =
    All-append P (to_string r.start_channel) (45 ∷ to_string r.channel_count)
      (to_string-All P f r.start_channel) (d, to_string-All P f r.channel_count)

digit-not_blank : (c : ℕ) → is_digit c ≡ true → is_blank c ≡ false
unfolding is_digit is_blank
digit-not_blank c h = ground arith

digit-not_comma : (c : ℕ) → is_digit c ≡ true → (c == 44) ≡ false
unfolding is_digit
digit-not_comma c h = ground arith

digit-not_dash : (c : ℕ) → is_digit c ≡ true → (c == 45) ≡ false
unfolding is_digit
digit-not_dash c h = ground arith

format_range-NotBlank : (r : ChannelRange) → NotBlank (format_range r)
unfolding is_blank
format_range-NotBlank r = format_range-All (λ c. is_blank c ≡ false) r digit-not_blank refl

format_range-NoComma : (r : ChannelRange) → NoComma (format_range r)
format_range-NoComma r = format_range-All (λ c. (c == 44) ≡ false) r digit-not_comma refl

tokens-last : (token : Bytes) → NoComma token → tokens token ≡ token ∷ []
unfolding tokens
tokens-last [] h = refl
tokens-last (c ∷ cs) h = rw (h.0, tokens-last cs h.1)

tokens-comma :
    (token rest : Bytes) → NoComma token → tokens (token ++ (44 ∷ rest)) ≡ token ∷ tokens rest
unfolding tokens
tokens-comma [] rest h = refl
tokens-comma (c ∷ cs) rest h = rw (h.0, tokens-comma cs rest h.1)

trim_start-NotBlank : (cs : Bytes) → NotBlank cs → trim_start cs ≡ cs
unfolding trim_start
trim_start-NotBlank [] h = refl
trim_start-NotBlank (c ∷ cs) h = rw h.0

trim_end-NotBlank : (cs : Bytes) → NotBlank cs → trim_end cs ≡ cs
unfolding trim_end
trim_end-NotBlank [] h = refl
trim_end-NotBlank (c ∷ cs) h = rw (h.0, trim_end-NotBlank cs h.1)

trimmed-NotBlank : (cs : Bytes) → NotBlank cs → trimmed cs ≡ cs
unfolding trimmed
trimmed-NotBlank cs h = ap trim_end (trim_start-NotBlank cs h) ∙ trim_end-NotBlank cs h

find_byte-dash :
    (cs rest : Bytes)
    → All (λ c. (c == 45) ≡ false) cs
    → find_byte 45 (cs ++ (45 ∷ rest)) ≡ some (cs, rest)
unfolding find_byte
find_byte-dash [] rest h = refl
find_byte-dash (c ∷ cs) rest h = rw (h.0, find_byte-dash cs rest h.1)

length-to_string : (n : ℕ) → n ≤ max_channel → ltb 10 (length (to_string n)) ≡ false
unfolding to_string
length-to_string n h = not_over (length (show_fuel 20 n)) (length-show 20 9 n (omega arith))
  where
    not_over : (m : ℕ) → m ≤ 10 → ltb 10 m ≡ false
    not_over m h = ground arith

null-to_string : (n : ℕ) → null (to_string n) ≡ false
unfolding to_string
null-to_string n = null-show 19 n

whole_number-to_string : (n : ℕ) → n ≤ max_channel → whole_number (to_string n) ≡ some n
unfolding whole_number
whole_number-to_string n h =
    rw (null-to_string n, length-to_string n h, all n, scan-to_string n (omega arith))
  where
    all : (n : ℕ) → all_digits (to_string n) ≡ true
    all n = digits-all_digits (to_string n) (to_string-All (λ c. is_digit c ≡ true) (λ c h. h) n)

strict_pair-IsUsable :
    (r : ChannelRange)
    → IsUsable r
    → strict_pair (some r.start_channel) (some r.channel_count) ≡ some r
unfolding strict_pair
strict_pair-IsUsable r h = ground arith

strict_parts-IsUsable :
    (r : ChannelRange)
    → IsUsable r
    → strict_parts (some (to_string r.start_channel, to_string r.channel_count)) ≡ some r
unfolding strict_parts
strict_parts-IsUsable r h =
    rw
      (
        whole_number-to_string r.start_channel (omega (arith, h.2)),
        whole_number-to_string r.channel_count (omega (arith, h.2)),
      )
      (strict_pair-IsUsable r h)

strict_token-format_range : (r : ChannelRange) → IsUsable r → strict_token (format_range r) ≡ some r
unfolding strict_token format_range
strict_token-format_range r h =
    ap strict_parts (
      find_byte-dash (to_string r.start_channel) (to_string r.channel_count)
        (to_string-All (λ c. (c == 45) ≡ false) digit-not_dash r.start_channel))
    ∙ strict_parts-IsUsable r h

-- One token of the text, in front of what the others parse to.
strict_next-format_range :
    (r : ChannelRange) (rest : ChannelRangesParse)
    → IsUsable r
    → strict_next (trimmed (format_range r)) (strict_token (trimmed (format_range r))) rest
      ≡ add_parsed r rest
unfolding strict_next
strict_next-format_range r rest h =
    rw (trimmed-NotBlank (format_range r) (format_range-NotBlank r), strict_token-format_range r h)

strict_tokens-format :
    (r : ChannelRange) (rs : List ChannelRange)
    → All IsUsable (r ∷ rs)
    → strict_tokens (tokens (format_channel_ranges_setting (r ∷ rs))) ≡ parsed (r ∷ rs)
unfolding format_channel_ranges_setting strict_tokens add_parsed
strict_tokens-format r [] h =
    ap strict_tokens (tokens-last (format_range r) (format_range-NoComma r))
    ∙ strict_next-format_range r (parsed []) h.0
strict_tokens-format r (s ∷ rs) h =
    ap strict_tokens (
      tokens-comma (format_range r) (format_channel_ranges_setting (s ∷ rs))
        (format_range-NoComma r))
    ∙ strict_next-format_range r (strict_tokens (tokens (format_channel_ranges_setting (s ∷ rs))))
        h.0
    ∙ ap (add_parsed r) (strict_tokens-format s rs h.1)

format-NotBlank :
    (r : ChannelRange) (rs : List ChannelRange) → NotBlank (format_channel_ranges_setting (r ∷ rs))
unfolding format_channel_ranges_setting is_blank
format-NotBlank r [] = format_range-NotBlank r
format-NotBlank r (s ∷ rs) =
    All-append (λ c. is_blank c ≡ false) (format_range r)
      (44 ∷ format_channel_ranges_setting (s ∷ rs)) (format_range-NotBlank r)
      (refl, format-NotBlank s rs)

null-append : (xs ys : Bytes) → null xs ≡ false → null (xs ++ ys) ≡ false
null-append [] ys h = absurd (ground arith)
null-append (x ∷ xs) ys h = refl

null-format :
    (r : ChannelRange) (rs : List ChannelRange)
    → null (format_channel_ranges_setting (r ∷ rs)) ≡ false
unfolding format_channel_ranges_setting format_range
null-format r [] = null-append (to_string r.start_channel) _ (null-to_string r.start_channel)
null-format r (s ∷ rs) =
    null-append (format_range r) _
      (null-append (to_string r.start_channel) _ (null-to_string r.start_channel))

-- Ranges of at least one channel, from channel 1 on, whose ends are 32-bit numbers are read back by
-- the strict parser exactly as they were formatted, the empty list included.
pub strict-format :
    (ranges : List ChannelRange)
    → All IsUsable ranges
    → parse_channel_ranges_setting_strict (format_channel_ranges_setting ranges) ≡ parsed ranges
unfolding parse_channel_ranges_setting_strict
strict-format [] h = unfold format_channel_ranges_setting trimmed trim_start trim_end in refl
strict-format (r ∷ rs) h =
    rw
      (
        trimmed-NotBlank (format_channel_ranges_setting (r ∷ rs)) (format-NotBlank r rs),
        null-format r rs,
      )
      (strict_tokens-format r rs h)
