-- ===== src/Json/Number.antt =====
-- The numbers of json.cpp: parseNumber and formatNumber. The locale guard makes snprintf and strtod
-- those of the C locale, or the call fails; here it has succeeded.
use showmesh_fpp_plugin.Base.{
  ℕ, zero, suc, ◌+◌, ◌-◌, ◌==◌, ℤ, pos, negsuc, pos_part, neg_part, ◌+ℤ◌, ◌-ℤ◌, ltb_ℤ, leb_ℤ, Bool,
  false, not, ◌&&◌, ◌||◌, if◌then◌else◌, [], ◌∷◌, ◌++◌, length, Option, none, some, Bytes,
}
use showmesh_fpp_plugin.Decimal.{is_digit, scan_digits, to_string}
use showmesh_fpp_plugin.Json.{
  Parsed, ok, failed, bind, starts, tail, truncated_number, expected_value, truncated_fraction,
  truncated_exponent, number_out_of_range,
}

-- What the source takes from the C library about doubles: snprintf with "%.*e", strtod, std::isfinite,
-- comparison and negation.
pub record NumberText (Num : Type 0) : Type 0 where
  pub print_e : ℕ → Num → Bytes
  pub strtod : Bytes → Num
  pub is_finite : Num → Bool
  pub eq : Num → Num → Bool
  pub is_zero : Num → Bool
  pub is_negative : Num → Bool
  pub negate : Num → Num

unfoldable pub first_is_digit : Bytes → Bool
first_is_digit [] = false
first_is_digit (c ∷ cs) = is_digit c

-- The digits at the front of a text, and what follows them.
unfoldable pub span_digits : Bytes → Bytes × Bytes
span_digits [] = ([], [])
span_digits (c ∷ cs) =
    let rest = span_digits cs in if is_digit c then (c ∷ rest.0, rest.1) else ([], c ∷ cs)

-- The exponent, after 'e' or 'E'.
unfoldable pub exponent_digits : Bytes → Bytes → Parsed Bytes
exponent_digits front cs =
    if first_is_digit cs
    then ok (front ++ (span_digits cs).0) (span_digits cs).1
    else failed truncated_exponent cs

unfoldable pub exponent_part : Bytes → Bytes → Parsed Bytes
exponent_part front [] = ok front []
exponent_part front (c ∷ cs) =
    if (c == 101) || (c == 69)
    then (if starts 43 cs || starts 45 cs
        then elim cs [
          | [] ↦ failed truncated_exponent []
          | s ∷ ds ↦ exponent_digits (front ++ (c ∷ s ∷ [])) ds
        ]
        else exponent_digits (front ++ (c ∷ [])) cs)
    else ok front (c ∷ cs)

unfoldable pub fraction_digits : Bytes → Bytes → Parsed Bytes
fraction_digits front cs =
    if first_is_digit cs
    then exponent_part (front ++ (46 ∷ (span_digits cs).0)) (span_digits cs).1
    else failed truncated_fraction cs

unfoldable pub fraction_part : Bytes → Bytes → Parsed Bytes
fraction_part front [] = ok front []
fraction_part front (c ∷ cs) =
    if c == 46 then fraction_digits front cs else exponent_part front (c ∷ cs)

unfoldable pub integer_part : Bytes → Bytes → Parsed Bytes
integer_part front [] = failed truncated_number []
integer_part front (c ∷ cs) =
    if c == 48
    then fraction_part (front ++ (48 ∷ [])) cs
    else if is_digit c
    then fraction_part (front ++ (span_digits (c ∷ cs)).0) (span_digits (c ∷ cs)).1
    else failed expected_value (c ∷ cs)

-- The text of a number at the front.
unfoldable pub number_literal : Bytes → Parsed Bytes
number_literal text =
    if starts 45 text then integer_part (45 ∷ []) (tail text) else integer_part [] text

unfoldable pub drop_zeros : Bytes → Bytes
drop_zeros [] = []
drop_zeros (c ∷ cs) =
    let rest = drop_zeros cs in if (c == 48) && (length rest == 0) then [] else c ∷ rest

-- `while (digits.size() > 1 && digits.back() == '0') digits.pop_back();`
unfoldable pub strip_zeros : Bytes → Bytes
strip_zeros [] = []
strip_zeros (c ∷ cs) = c ∷ drop_zeros cs

unfoldable pub before_e : Bytes → Bytes
before_e [] = []
before_e (c ∷ cs) = let rest = before_e cs in if c == 101 then [] else c ∷ rest

unfoldable pub after_e : Bytes → Bytes
after_e [] = []
after_e (c ∷ cs) = let rest = after_e cs in if c == 101 then cs else rest

unfoldable pub without_point : Bytes → Bytes
without_point [] = []
without_point (c ∷ cs) = let rest = without_point cs in if c == 46 then rest else c ∷ rest

-- std::atoi on a sign and digits.
unfoldable pub atoi : Bytes → ℤ
atoi [] = pos 0
atoi (c ∷ cs) =
    if c == 45
    then pos 0 -ℤ pos (scan_digits 0 cs).0
    else if c == 43
    then pos (scan_digits 0 cs).0
    else pos (scan_digits 0 (c ∷ cs)).0

unfoldable pub zeros : ℕ → Bytes
zeros zero = []
zeros (suc n) = 48 ∷ zeros n

unfoldable pub take : ℕ → Bytes → Bytes
take zero cs = []
take (suc n) [] = []
take (suc n) (c ∷ cs) = c ∷ take n cs

unfoldable pub drop : ℕ → Bytes → Bytes
drop zero cs = cs
drop (suc n) [] = []
drop (suc n) (c ∷ cs) = drop n cs

unfoldable pub exponent_text : ℤ → Bytes
exponent_text (pos e) = 101 ∷ 43 ∷ to_string e
exponent_text (negsuc e) = 101 ∷ 45 ∷ to_string (suc e)

unfoldable pub exponential : Bytes → ℤ → Bytes
exponential digits e =
    if length digits == 1
    then digits ++ exponent_text e
    else take 1 digits ++ (46 ∷ (drop 1 digits ++ exponent_text e))

-- The placement of `digits` for the value 0.<digits> * 10^n.
unfoldable pub place : Bytes → ℤ → Bytes
place digits n =
    let k = length digits in
    if leb_ℤ (pos k) n && leb_ℤ n (pos 21)
    then digits ++ zeros (pos_part n - k)
    else if ltb_ℤ (pos 0) n && leb_ℤ n (pos 21)
    then take (pos_part n) digits ++ (46 ∷ drop (pos_part n) digits)
    else if ltb_ℤ (negsuc 5) n && leb_ℤ n (pos 0)
    then 48 ∷ 46 ∷ (zeros (neg_part n) ++ digits)
    else exponential digits (n -ℤ pos 1)

module _ {Num : Type 0} (t : NumberText Num) where
  open t use {print_e, strtod, is_finite, eq, is_zero, is_negative, negate}

  unfoldable pub finite_number : Bytes → Bytes → Parsed Num
  finite_number literal rest =
      if is_finite (strtod literal)
      then ok (strtod literal) rest
      else failed number_out_of_range rest

  unfoldable pub parse_number : Bytes → Parsed Num
  parse_number text = bind (number_literal text) (λ literal rest. finite_number literal rest)

  -- The loop over the precision, with `rounds` of it left.
  unfoldable pub shortest : ℕ → ℕ → Num → Bytes
  shortest zero digits v = print_e 16 v
  shortest (suc rounds) digits v =
      let longer = shortest rounds (digits + 1) v in
      if eq (strtod (print_e digits v)) v then print_e digits v else longer

  unfoldable pub body_of : Bytes → Bytes
  body_of text = place (strip_zeros (without_point (before_e text))) (atoi (after_e text) +ℤ pos 1)

  -- `none` is `false`.
  unfoldable pub format_number : Num → Option Bytes
  format_number value =
      let v = if is_negative value then negate value else value in
      let body = body_of (shortest 17 0 v) in
      if not (is_finite value)
      then none
      else if is_zero value
      then some (48 ∷ [])
      else some (if is_negative value then 45 ∷ body else body)
