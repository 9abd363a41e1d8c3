-- ===== src/Json/Total.antt =====
-- The fuel of the parser suffices: each call leaves less text, and no call runs out.
use showmesh_fpp_plugin.Base.{
  ℕ, zero, suc, ◌+◌, ◌*◌, ◌≤◌, ◌<◌, ◌==◌, ltb, true, false, ◌≡◌, ◌≢◌, refl, if◌then◌else◌, List, [],
  ◌∷◌, length, Option, none, some, Bytes, arith, ◌⊎◌, inl, inr, Bool-cases,
}
use showmesh_fpp_plugin.Json.{
  Value, number_value, string_value, Parsed, ok, failed, out_of_fuel, bind, starts, tail, Problem,
  null_value, bool_value,
}
use showmesh_fpp_plugin.Json.Number.{NumberText, number_literal, finite_number, parse_number}
use showmesh_fpp_plugin.Json.Parser.{
  skip_whitespace, strip_word, parse_string, literal, literal_result, parse_scalar, after_name,
  parse_name, after_item, parse_value, parse_array, parse_items, parse_object, parse_members,
  finish, parse,
}
use showmesh_fpp_plugin.Json.Within.{
  Within, Within-bind, Within-if, Within-le, number_literal-Within, skip_whitespace-le, tail-lt,
  parse_string-Within, strip_word-le, closed-Within,
}

module _ {Num : Type 0} (t : NumberText Num) where
  literal-Within :
      (w : ℕ) (ws : Bytes) (value : Value Num) (text : Bytes)
      → Within (length text) (literal t (w ∷ ws) value text)
  unfolding literal literal_result
  literal-Within w ws value text = result (strip_word (w ∷ ws) text) (strip_word-le (w ∷ ws) text)
    where
      result :
          (o : Option Bytes)
          → ((rest : Bytes) → o ≡ some rest → length rest + length (w ∷ ws) ≤ length text)
          → Within (length text) (literal_result t value text o)
      result none h = tt
      result (some rest) h = omega (arith, h rest refl)

  parse_scalar-Within : (text : Bytes) → Within (length text) (parse_scalar t text)
  unfolding parse_scalar parse_number finite_number
  parse_scalar-Within [] = tt
  parse_scalar-Within (c ∷ cs) =
      Within-if n (c == 110) _ _ (literal-Within _ _ null_value (c ∷ cs)) (
        Within-if n (c == 116) _ _ (literal-Within _ _ (bool_value true) (c ∷ cs)) (
          Within-if n (c == 102) _ _ (literal-Within _ _ (bool_value false) (c ∷ cs))
            (string_or_number (Bool-cases (c == 34)))))
    where
      n : ℕ
      n = suc (length cs)

      number :
          Within n (bind (number_literal (c ∷ cs)) (λ literal rest. finite_number t literal rest))
      number =
          Within-bind n n (number_literal (c ∷ cs)) _ (number_literal-Within (c ∷ cs))
            (λ literal rest h. ground arith)

      string_or_number :
          ((c == 34) ≡ true) ⊎ ((c == 34) ≡ false)
          → Within n (
              if c == 34
              then bind (parse_string (c ∷ cs)) (λ s rest. ok (string_value s) rest)
              else bind (parse_number t (c ∷ cs)) (λ m rest. ok (number_value m) rest))
      string_or_number (inl h) = rw h (
          Within-bind n n (parse_string (c ∷ cs)) _ (parse_string-Within (c ∷ cs) h)
            (λ s rest k. k))
      string_or_number (inr h) =
          rw h (Within-bind n n (parse_number t (c ∷ cs)) _ number (λ m rest k. k))

  after_name-Within :
      (seen : List Bytes) (name rest : Bytes) → Within (length rest) (after_name t seen name rest)
  unfolding after_name
  after_name-Within seen name rest = elim (Bool-cases (starts 58 (skip_whitespace rest))) [
    | inl h ↦
        let shorter : length (skip_whitespace (tail (skip_whitespace rest))) < length rest = omega (
          arith,
          skip_whitespace-le rest,
          tail-lt 58 (skip_whitespace rest) h,
          skip_whitespace-le (tail (skip_whitespace rest)),
        ) in
        rw h (ground (arith, shorter))
    | inr h ↦ rw h (ground arith)
  ]

  parse_name-Within :
      (seen : List Bytes) (text : Bytes) → Within (length text) (parse_name t seen text)
  unfolding parse_name
  parse_name-Within seen text = elim (Bool-cases (starts 34 text)) [
    | inl h ↦ rw h (
        Within-bind (length text) (length text) (parse_string text) _ (parse_string-Within text h)
          (λ name rest k.
            Within-le (length rest) (length text) _ (omega arith)
              (after_name-Within seen name rest)))
    | inr h ↦ rw h tt
  ]

  after_item-Within :
      {A : Type 0} (close : ℕ) (p q : Problem) (last : A) (more : Bytes → Parsed A) (text : Bytes)
      → ((cs : Bytes) → length cs < length text → Within (length cs) (more cs))
      → Within (length text) (after_item t close p q last more text)
  unfolding after_item
  after_item-Within close p q last more [] h = tt
  after_item-Within close p q last more (c ∷ cs) h =
      Within-if (suc (length cs)) (c == 44) (more cs) _
        (Within-le (length cs) _ (more cs) (omega arith) (h cs (omega arith)))
        (Within-if (suc (length cs)) (c == close) (ok last cs) (failed q _) (omega arith) tt)

  mutual
    unfolding parse_value

    value-Within :
        (fuel depth : ℕ) (text : Bytes)
        → 3 * length text < fuel
        → Within (length text) (parse_value t fuel depth text)
    value-Within zero depth text h = absurd (omega arith)
    value-Within (suc fuel) depth [] h = parse_scalar-Within []
    value-Within (suc fuel) depth (c ∷ cs) h =
        Within-if (suc (length cs)) (c == 91) _ _
          (Within-le (length cs) _ _ (omega arith) (array-Within fuel (suc depth) cs (omega arith)))
          (Within-if (suc (length cs)) (c == 123) _ _
            (Within-le (length cs) _ _ (omega arith)
              (object-Within fuel (suc depth) cs (omega arith)))
            (parse_scalar-Within (c ∷ cs)))

    array-Within :
        (fuel depth : ℕ) (text : Bytes)
        → 3 * length text + 2 < fuel
        → Within (length text) (parse_array t fuel depth text)
    array-Within zero depth text h = absurd (omega arith)
    array-Within (suc fuel) depth text h =
        let shorter : length (skip_whitespace text) ≤ length text = skip_whitespace-le text in
        Within-if (length text) (ltb _ depth) _ _ tt (
          closed-Within 93 text _ _ (Bool-cases (starts 93 (skip_whitespace text))) (
            Within-bind (length (skip_whitespace text)) (length text) _ _
              (items-Within fuel depth (skip_whitespace text) (omega arith))
              (λ vs rest k. omega arith)))

    items-Within :
        (fuel depth : ℕ) (text : Bytes)
        → 3 * length text + 1 < fuel
        → Within (length text) (parse_items t fuel depth text)
    items-Within zero depth text h = absurd (omega arith)
    items-Within (suc fuel) depth text h =
        let shorter : length (skip_whitespace text) ≤ length text = skip_whitespace-le text in
        Within-bind (length (skip_whitespace text)) (length text) _ _
          (value-Within fuel depth (skip_whitespace text) (omega arith))
          (λ v rest k.
            Within-le (length (skip_whitespace rest)) (length text) _
              (omega (arith, skip_whitespace-le rest))
              (after_item-Within 93 _ _ _ _ (skip_whitespace rest) (λ cs k'.
                Within-bind (length cs) (length cs) _ _
                  (items-Within fuel depth cs (omega (arith, skip_whitespace-le rest)))
                  (λ vs rest' k''. k''))))

    object-Within :
        (fuel depth : ℕ) (text : Bytes)
        → 3 * length text + 2 < fuel
        → Within (length text) (parse_object t fuel depth text)
    object-Within zero depth text h = absurd (omega arith)
    object-Within (suc fuel) depth text h =
        let shorter : length (skip_whitespace text) ≤ length text = skip_whitespace-le text in
        Within-if (length text) (ltb _ depth) _ _ tt (
          closed-Within 125 text _ _ (Bool-cases (starts 125 (skip_whitespace text))) (
            Within-bind (length (skip_whitespace text)) (length text) _ _
              (members-Within fuel depth [] (skip_whitespace text) (omega arith))
              (λ ms rest k. omega arith)))

    members-Within :
        (fuel depth : ℕ) (seen : List Bytes) (text : Bytes)
        → 3 * length text + 1 < fuel
        → Within (length text) (parse_members t fuel depth seen text)
    members-Within zero depth seen text h = absurd (omega arith)
    members-Within (suc fuel) depth seen text h =
        let shorter : length (skip_whitespace text) ≤ length text = skip_whitespace-le text in
        Within-bind (length (skip_whitespace text)) (length text) _ _
          (parse_name-Within seen (skip_whitespace text))
          (λ name rest k.
            Within-bind (length rest) (length text) _ _ (value-Within fuel depth rest (omega arith))
              (λ v rest' k'.
                Within-le (length (skip_whitespace rest')) (length text) _
                  (omega (arith, skip_whitespace-le rest'))
                  (after_item-Within 125 _ _ _ _ (skip_whitespace rest') (λ cs j.
                    Within-bind (length cs) (length cs) _ _
                      (members-Within fuel depth (name ∷ seen) cs
                        (omega (arith, skip_whitespace-le rest')))
                      (λ ms rest'' j'. j')))))

  parse-Within : (text : Bytes) → Within (suc (length text)) (parse t text)
  unfolding parse finish
  parse-Within text =
      Within-bind (length (skip_whitespace text)) (suc (length text)) _ _
        (value-Within (3 * length text + 1) 0 (skip_whitespace text)
          (omega (arith, skip_whitespace-le text)))
        (λ v rest h. finished v (skip_whitespace rest))
    where
      finished : (v : Value Num) (rest : Bytes) → Within (suc (length text)) (finish t v rest)
      finished v [] = omega arith
      finished v (c ∷ cs) = tt

-- Whatever a Parsed is within, it is not the end of the fuel.
Within-in_fuel : {A : Type 0} (n : ℕ) (r : Parsed A) → Within n r → r ≢ out_of_fuel
Within-in_fuel n (ok a rest) h = λ e. cc
Within-in_fuel n (failed problem rest) h = λ e. cc
Within-in_fuel n out_of_fuel h = absurd h

-- The parser ends on every text, however deep its nesting: the fuel that it is given is never used up.
pub parse-ne-out_of_fuel :
    {Num : Type 0} (t : NumberText Num) (text : Bytes) → parse t text ≢ out_of_fuel
parse-ne-out_of_fuel t text =
    Within-in_fuel (suc (length text)) (parse t text) (parse-Within t text)
