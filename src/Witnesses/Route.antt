-- ===== src/Witnesses/Route.antt =====
-- The routes at concrete bodies of one-digit numbers.
use showmesh_fpp_plugin.Base.{
  ℕ, ◌+◌, ◌≤◌, ltb, ℤ, pos, negsuc, ltb_ℤ, ◌+ℤ◌, false, ◌≡◌, refl, ◌⊎◌, List, [], ◌∷◌, Bytes, All,
  arith, eq_bytes,
}
use showmesh_fpp_plugin.Decimal.{is_digit, scan_digits}
use showmesh_fpp_plugin.Ranges.{ChannelRange}
use showmesh_fpp_plugin.Json.Number.{
  span_digits, exponent_part, fraction_part, integer_part, number_literal, finite_number,
  parse_number, first_is_digit,
}
use showmesh_fpp_plugin.Json.Text.{parse_chars, string_step, utf8_char}
use showmesh_fpp_plugin.Json.Parser.{
  parse, finish, parse_value, after_item, parse_name, after_name, mem_name, parse_string,
  parse_scalar, skip_whitespace, is_whitespace,
}
use showmesh_fpp_plugin.Route.{accept}
use showmesh_fpp_plugin.Route.TransitionGain.{
  RouteState, apply_transition_gain_request, apply_transition_gain_request-repeat,
}
use showmesh_fpp_plugin.Route.WeatherGate.{size}
use showmesh_fpp_plugin.Route.ChannelRanges.{
  exclude_list, key_of, channel_number, find_items, number_under, range_of, item_range, item_ranges,
  list_of, check_ranges, parse_ranges_request,
}
use showmesh_fpp_plugin.Route.RangesFit.{SmallWholeDoubles, Fits, parse_ranges_request-Fits}
use showmesh_fpp_plugin.Witnesses.{whole, listed, node}
use showmesh_fpp_plugin.Witnesses.Numbers.{one_digit}
use showmesh_fpp_plugin.Witnesses.Codec.{whole_conversions}

-- {"schemaVersion":1,"requestId":"a","targetPercent":5,"fadeSeconds":2}
abbrev gain_body : Bytes
gain_body =
    123 ∷ 34 ∷ 115 ∷ 99 ∷ 104 ∷ 101 ∷ 109 ∷ 97 ∷ 86 ∷ 101 ∷ 114 ∷ 115 ∷ 105 ∷ 111 ∷ 110 ∷ 34 ∷ 58
    ∷ 49 ∷ 44 ∷ 34 ∷ 114 ∷ 101 ∷ 113 ∷ 117 ∷ 101 ∷ 115 ∷ 116 ∷ 73 ∷ 100 ∷ 34 ∷ 58 ∷ 34 ∷ 97 ∷ 34
    ∷ 44 ∷ 34 ∷ 116 ∷ 97 ∷ 114 ∷ 103 ∷ 101 ∷ 116 ∷ 80 ∷ 101 ∷ 114 ∷ 99 ∷ 101 ∷ 110 ∷ 116 ∷ 34 ∷ 58
    ∷ 53 ∷ 44 ∷ 34 ∷ 102 ∷ 97 ∷ 100 ∷ 101 ∷ 83 ∷ 101 ∷ 99 ∷ 111 ∷ 110 ∷ 100 ∷ 115 ∷ 34 ∷ 58 ∷ 50
    ∷ 125 ∷ []

abbrev gain_route : RouteState ℤ
gain_route = record { engine = node; last_request_id = [] }

abbrev after_gain : RouteState ℤ
after_gain =
    (apply_transition_gain_request whole listed one_digit whole_conversions gain_route gain_body
      (pos 978393700000)).1

apply_transition_gain_request-repeat_example :
    (after_gain ≡ gain_route)
    ⊎ ((apply_transition_gain_request whole listed one_digit whole_conversions after_gain gain_body
          (pos 978393900000)).1
        ≡ after_gain)
apply_transition_gain_request-repeat_example =
    apply_transition_gain_request-repeat whole listed one_digit whole_conversions gain_route
      gain_body (pos 978393700000) (pos 978393900000)

-- {"excludedRanges":[{"startChannel":2,"channelCount":3}]}
abbrev ranges_body : Bytes
ranges_body =
    123 ∷ 34 ∷ 101 ∷ 120 ∷ 99 ∷ 108 ∷ 117 ∷ 100 ∷ 101 ∷ 100 ∷ 82 ∷ 97 ∷ 110 ∷ 103 ∷ 101 ∷ 115 ∷ 34
    ∷ 58 ∷ 91 ∷ 123 ∷ 34 ∷ 115 ∷ 116 ∷ 97 ∷ 114 ∷ 116 ∷ 67 ∷ 104 ∷ 97 ∷ 110 ∷ 110 ∷ 101 ∷ 108 ∷ 34
    ∷ 58 ∷ 50 ∷ 44 ∷ 34 ∷ 99 ∷ 104 ∷ 97 ∷ 110 ∷ 110 ∷ 101 ∷ 108 ∷ 67 ∷ 111 ∷ 117 ∷ 110 ∷ 116 ∷ 34
    ∷ 58 ∷ 51 ∷ 125 ∷ 93 ∷ 125 ∷ []

abbrev two_to_four : List ChannelRange
two_to_four = record { start_channel = 2; channel_count = 3 } ∷ []

ℤ_is_whole :
    (z : ℤ)
    → ltb_ℤ z (pos 1) ≡ false
    → ltb_ℤ (pos 4294967294) z ≡ false
    → (n : ℕ) × (1 ≤ n) × (n ≤ 4294967294) × (z ≡ pos n)
ℤ_is_whole (pos n) h k = (n, ground arith, ground arith, refl)
ℤ_is_whole (negsuc n) h k = absurd (ground arith)

ℤ_add : (m n : ℕ) → pos m +ℤ pos n ≡ pos (m + n)
unfolding ◌+ℤ◌
ℤ_add m n = ground arith

ℤ_lt : (m n : ℕ) → ltb_ℤ (pos m) (pos n) ≡ ltb m n
ℤ_lt m n = ground arith

abbrev ℤ_small : SmallWholeDoubles one_digit whole_conversions ◌+ℤ◌
ℤ_small = record {
  is_whole = λ z a b h k. ℤ_is_whole z h k;
  to_int-of_int = λ n h. refl;
  add-of_int = λ m n h k. ℤ_add m n;
  lt-of_int = λ m n h k. ℤ_lt m n;
}

ranges_body-accepted :
    parse_ranges_request one_digit whole_conversions ◌+ℤ◌ exclude_list ranges_body
    ≡ accept two_to_four
unfolding parse_ranges_request check_ranges find_items item_ranges item_range range_of number_under
    channel_number key_of list_of size parse finish parse_value after_item parse_name after_name
    mem_name parse_string parse_chars string_step utf8_char skip_whitespace is_whitespace
    parse_scalar parse_number number_literal integer_part fraction_part exponent_part span_digits
    is_digit finite_number scan_digits eq_bytes first_is_digit ◌+ℤ◌
ranges_body-accepted = refl

parse_ranges_request-Fits_example : All Fits two_to_four
parse_ranges_request-Fits_example =
    parse_ranges_request-Fits one_digit whole_conversions ◌+ℤ◌ ℤ_small exclude_list ranges_body
      two_to_four ranges_body-accepted
