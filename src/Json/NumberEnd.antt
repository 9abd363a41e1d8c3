-- ===== src/Json/NumberEnd.antt =====
-- A number is read to its end: what follows it, if it is no part of a number, changes nothing.
use showmesh_fpp_plugin.Base.{
  ℕ, ◌==◌, Bool, true, false, ◌||◌, ◌≡◌, refl, subst, if◌then◌else◌, [], ◌∷◌, ◌++◌, Bytes, arith,
  inl, inr, Bool-cases,
}
use showmesh_fpp_plugin.Decimal.{is_digit}
use showmesh_fpp_plugin.Json.{Parsed, ok, failed, out_of_fuel}
use showmesh_fpp_plugin.Json.Number.{
  first_is_digit, span_digits, exponent_digits, exponent_part, fraction_digits, fraction_part,
  integer_part, number_literal,
}

-- The bytes that end a number in a text of the writer: a comma and the closing brackets.
abbrev pub ends : ℕ → Bool
ends c = (c == 44) || (c == 93) || (c == 125)

abbrev pub ends_number : Bytes → Bool
ends_number [] = true
ends_number (c ∷ cs) = ends c

first_is_digit-end : (rest : Bytes) → ends_number rest ≡ true → first_is_digit rest ≡ false
unfolding first_is_digit is_digit
first_is_digit-end [] h = refl
first_is_digit-end (c ∷ cs) h = ground arith

first_is_digit-append :
    (cs rest : Bytes) → first_is_digit cs ≡ true → first_is_digit (cs ++ rest) ≡ true
unfolding first_is_digit
first_is_digit-append [] rest h = cc
first_is_digit-append (c ∷ cs) rest h = h

span_digits-append :
    (cs rest : Bytes)
    → ends_number rest ≡ true
    → span_digits (cs ++ rest) ≡ ((span_digits cs).0, (span_digits cs).1 ++ rest)
unfolding span_digits is_digit
span_digits-append [] [] h = refl
span_digits-append [] (c ∷ cs) h = ground arith
span_digits-append (c ∷ cs) rest h = rw (span_digits-append cs rest h) (ground arith)

-- What a text is read to, where it is read, is what it is read to before `rest`.
abbrev pub Extends : {A : Type 0} → Bytes → Parsed A → Parsed A → Type 0
Extends rest (ok a left) r = r ≡ ok a (left ++ rest)
Extends rest (failed problem left) r = Unit
Extends rest out_of_fuel r = Unit

Extends-if :
    {A : Type 0} (rest : Bytes) (b : Bool) (r r' s s' : Parsed A)
    → Extends rest r r'
    → Extends rest s s'
    → Extends rest (if b then r else s) (if b then r' else s')
Extends-if rest true r r' s s' h k = h
Extends-if rest false r r' s s' h k = k

exponent_digits-Extends :
    (front cs rest : Bytes)
    → ends_number rest ≡ true
    → Extends rest (exponent_digits front cs) (exponent_digits front (cs ++ rest))
unfolding exponent_digits
exponent_digits-Extends front cs rest e = elim (Bool-cases (first_is_digit cs)) [
  | inl d ↦ rw (d, first_is_digit-append cs rest d, span_digits-append cs rest e) refl
  | inr d ↦ rw d tt
]

exponent_part-Extends :
    (front cs rest : Bytes)
    → ends_number rest ≡ true
    → Extends rest (exponent_part front cs) (exponent_part front (cs ++ rest))
unfolding exponent_part exponent_digits first_is_digit
exponent_part-Extends front [] [] e = refl
exponent_part-Extends front [] (c ∷ cs) e = ground arith
exponent_part-Extends front (c ∷ []) rest e =
    Extends-if rest ((c == 101) || (c == 69)) _ _ _ _ tt refl
exponent_part-Extends front (c ∷ s ∷ ds) rest e =
    Extends-if rest ((c == 101) || (c == 69)) _ _ _ _
      (Extends-if rest ((s == 43) || (s == 45)) _ _ _ _
        (exponent_digits-Extends (front ++ (c ∷ s ∷ [])) ds rest e)
        (exponent_digits-Extends (front ++ (c ∷ [])) (s ∷ ds) rest e))
      refl

fraction_digits-Extends :
    (front cs rest : Bytes)
    → ends_number rest ≡ true
    → Extends rest (fraction_digits front cs) (fraction_digits front (cs ++ rest))
unfolding fraction_digits
fraction_digits-Extends front cs rest e = elim (Bool-cases (first_is_digit cs)) [
  | inl d ↦
      rw (d, first_is_digit-append cs rest d, span_digits-append cs rest e)
        (exponent_part-Extends (front ++ (46 ∷ (span_digits cs).0)) (span_digits cs).1 rest e)
  | inr d ↦ rw d tt
]

fraction_part-Extends :
    (front cs rest : Bytes)
    → ends_number rest ≡ true
    → Extends rest (fraction_part front cs) (fraction_part front (cs ++ rest))
unfolding fraction_part
fraction_part-Extends front [] [] e = refl
fraction_part-Extends front [] (c ∷ cs) e = unfold exponent_part in ground arith
fraction_part-Extends front (c ∷ cs) rest e =
    Extends-if rest (c == 46) _ _ _ _ (fraction_digits-Extends front cs rest e)
      (exponent_part-Extends front (c ∷ cs) rest e)

integer_part-Extends :
    (front cs rest : Bytes)
    → ends_number rest ≡ true
    → Extends rest (integer_part front cs) (integer_part front (cs ++ rest))
unfolding integer_part
integer_part-Extends front [] rest e = tt
integer_part-Extends front (c ∷ cs) rest e =
    Extends-if rest (c == 48) _ _ _ _ (fraction_part-Extends (front ++ (48 ∷ [])) cs rest e) (
      Extends-if rest (is_digit c) _ _ _ _
        (rw (span_digits-append (c ∷ cs) rest e) (
          fraction_part-Extends (front ++ (span_digits (c ∷ cs)).0) (span_digits (c ∷ cs)).1 rest
            e))
        tt)

number_literal-Extends :
    (text rest : Bytes)
    → ends_number rest ≡ true
    → Extends rest (number_literal text) (number_literal (text ++ rest))
unfolding number_literal
number_literal-Extends [] rest e = unfold integer_part in tt
number_literal-Extends (c ∷ cs) rest e =
    Extends-if rest (c == 45) _ _ _ _ (integer_part-Extends (45 ∷ []) cs rest e)
      (integer_part-Extends [] (c ∷ cs) rest e)

-- A number's text is read as the same number before anything that ends a number.
pub number_literal-append :
    (text rest : Bytes)
    → number_literal text ≡ ok text []
    → ends_number rest ≡ true
    → number_literal (text ++ rest) ≡ ok text rest
number_literal-append text rest h e =
    subst (λ r. Extends rest r (number_literal (text ++ rest))) h
      (number_literal-Extends text rest e)
