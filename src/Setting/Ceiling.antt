-- ===== src/Setting/Ceiling.antt =====
-- native/src/safe_ceiling_setting.cpp: the safe ceiling's setting.
use showmesh_fpp_plugin.Base.{
  ◌^◌, ◌-◌, ltb, ℤ, pos, ◌-ℤ◌, ltb_ℤ, Bool, not, ◌&&◌, ◌||◌, if◌then◌else◌, [], ◌∷◌, null, Option,
  none, some, Bytes,
}
use showmesh_fpp_plugin.Decimal.{scan_digits}
use showmesh_fpp_plugin.Brightness.State.{min_percent, max_percent}
use showmesh_fpp_plugin.Setting.{c_string, is_space, skip_space, strip_sign, starts_digit}

unfoldable pub trim_end_space : Bytes → Bytes
trim_end_space [] = []
trim_end_space (c ∷ cs) =
    let rest = trim_end_space cs in if is_space c && null rest then [] else c ∷ rest

-- strtoll in base 10: the number, unless it does not fit 64 bits (errno is set), and whether the
-- text was read to its end.
unfoldable pub strtoll : Bytes → Option ℤ × Bool
strtoll text =
    let signed = strip_sign (skip_space (c_string text)) in
    let scanned = scan_digits 0 signed.1 in
    let value = if signed.0 then pos 0 -ℤ pos scanned.0 else pos scanned.0 in
    if not (starts_digit signed.1)
    then (some (pos 0), null (c_string text))
    else if ltb (if signed.0 then 2 ^ 63 else 2 ^ 63 - 1) scanned.0
    then (none, null scanned.1)
    else (some value, null scanned.1)

unfoldable pub in_percent : Option ℤ × Bool → Option ℤ
in_percent (none, read) = none
in_percent (some parsed, read) =
    if not read || ltb_ℤ parsed min_percent || ltb_ℤ max_percent parsed then none else some parsed

-- `none` is the result false, with the percent left as it was.
unfoldable pub parse_safe_ceiling_setting : Bytes → Option ℤ
parse_safe_ceiling_setting value =
    let text = trim_end_space (skip_space value) in
    if null text then none else in_percent (strtoll text)

-- parseOutageSetting of native/adapters/shared/fallback_outage_detector.h; a `long` of 32 bits refuses
-- the same texts, since the bounds are ints.
unfoldable pub in_bounds : ℤ → ℤ → Option ℤ × Bool → Option ℤ
in_bounds minimum maximum (none, read) = none
in_bounds minimum maximum (some value, read) =
    if not read || ltb_ℤ value minimum || ltb_ℤ maximum value then none else some value

unfoldable pub parse_outage_setting : Bytes → ℤ → ℤ → Option ℤ
parse_outage_setting text minimum maximum =
    if null text then none else in_bounds minimum maximum (strtoll text)
