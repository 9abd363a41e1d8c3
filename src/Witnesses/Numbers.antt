-- ===== src/Witnesses/Numbers.antt =====
-- Numbers of one digit, for the witnesses.
use showmesh_fpp_plugin.Base.{ℤ, pos, pos_part, eqb_ℤ, ◌+ℤ◌, ◌-ℤ◌, refl, true, false, [], ◌∷◌, ◌++◌}
use showmesh_fpp_plugin.Decimal.{to_string, show_fuel, scan_digits, is_digit}
use showmesh_fpp_plugin.Json.Number.{
  NumberText, format_number, number_literal, body_of, place, strip_zeros, without_point, before_e,
  shortest, drop_zeros, atoi, after_e, zeros, integer_part, fraction_part, drop, exponent_digits,
  exponent_part, exponent_text, exponential, first_is_digit, fraction_digits, span_digits, take,
}
use showmesh_fpp_plugin.Json.Readable.{IsReadBack}

-- "7e+00" for 7, whatever the precision; strtod reads the digits in front.
abbrev pub one_digit : NumberText ℤ
one_digit = record {
  print_e = λ digits n. to_string (pos_part n) ++ (101 ∷ 43 ∷ 48 ∷ 48 ∷ []);
  strtod = λ text. pos (scan_digits 0 text).0;
  is_finite = λ n. true;
  eq = eqb_ℤ;
  is_zero = λ n. eqb_ℤ n (pos 0);
  is_negative = λ n. false;
  negate = λ n. n;
}

-- The digits are read back.
pub digits-IsReadBack :
    IsReadBack one_digit (pos 0)
    × IsReadBack one_digit (pos 1)
    × IsReadBack one_digit (pos 2)
    × IsReadBack one_digit (pos 3)
    × IsReadBack one_digit (pos 4)
    × IsReadBack one_digit (pos 5)
    × IsReadBack one_digit (pos 6)
    × IsReadBack one_digit (pos 7)
    × IsReadBack one_digit (pos 8)
    × IsReadBack one_digit (pos 9)
unfolding format_number number_literal body_of place strip_zeros without_point before_e shortest
    drop_zeros atoi after_e zeros integer_part fraction_part drop exponent_digits exponent_part
    exponent_text exponential first_is_digit fraction_digits span_digits take to_string show_fuel
    scan_digits is_digit ◌+ℤ◌ ◌-ℤ◌
digits-IsReadBack = (
  (48 ∷ [], refl, refl, refl),
  (49 ∷ [], refl, refl, refl),
  (50 ∷ [], refl, refl, refl),
  (51 ∷ [], refl, refl, refl),
  (52 ∷ [], refl, refl, refl),
  (53 ∷ [], refl, refl, refl),
  (54 ∷ [], refl, refl, refl),
  (55 ∷ [], refl, refl, refl),
  (56 ∷ [], refl, refl, refl),
  (57 ∷ [], refl, refl, refl),
)
