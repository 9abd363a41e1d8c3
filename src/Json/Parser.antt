-- ===== src/Json/Parser.antt =====
-- The parser of json.cpp: Parser and json::parse. A call of parseValue or a turn of the loops of
-- parseArray and parseObject takes a unit of fuel, since what a call leaves of the text is no part of
-- it by its form.
use showmesh_fpp_plugin.Base.{
  ℕ, zero, suc, ◌+◌, ◌*◌, ◌==◌, ltb, Bool, true, false, ◌||◌, if◌then◌else◌, List, [], ◌∷◌, length,
  Option, none, some, Bytes, eq_bytes,
}
use showmesh_fpp_plugin.Json.{
  Value, Values, Members, null_value, bool_value, number_value, string_value, array_value,
  object_value, no_values, value_then, no_members, member_then, Parsed, ok, failed, out_of_fuel,
  bind, starts, tail, trailing_content, unrecognized_literal, unexpected_end, nesting_too_deep,
  unterminated_array, expected_comma_or_bracket, expected_member_name, duplicate_member_name,
  expected_colon, unterminated_object, expected_comma_or_brace, Problem,
}
use showmesh_fpp_plugin.Json.Text.{parse_chars}
use showmesh_fpp_plugin.Json.Number.{NumberText, parse_number}

abbrev pub max_depth : ℕ
max_depth = 200

unfoldable pub is_whitespace : ℕ → Bool
is_whitespace c = (c == 32) || (c == 9) || (c == 10) || (c == 13)

unfoldable pub skip_whitespace : Bytes → Bytes
skip_whitespace [] = []
skip_whitespace (c ∷ cs) = let rest = skip_whitespace cs in if is_whitespace c then rest else c ∷ cs

-- `text_.compare(pos_, n, word) == 0`, with what follows the word.
unfoldable pub strip_word : Bytes → Bytes → Option Bytes
strip_word [] text = some text
strip_word (w ∷ ws) [] = none
strip_word (w ∷ ws) (c ∷ cs) = let rest = strip_word ws cs in if w == c then rest else none

unfoldable pub mem_name : Bytes → List Bytes → Bool
mem_name name [] = false
mem_name name (n ∷ ns) = eq_bytes n name || mem_name name ns

-- parseString at the opening quote.
unfoldable pub parse_string : Bytes → Parsed Bytes
parse_string text = parse_chars (length text) (tail text)

module _ {Num : Type 0} (t : NumberText Num) where
  unfoldable pub literal_result : Value Num → Bytes → Option Bytes → Parsed (Value Num)
  literal_result value text none = failed unrecognized_literal text
  literal_result value text (some rest) = ok value rest

  unfoldable pub literal : Bytes → Value Num → Bytes → Parsed (Value Num)
  literal word value text = literal_result value text (strip_word word text)

  -- The values that are not arrays or objects.
  unfoldable pub parse_scalar : Bytes → Parsed (Value Num)
  parse_scalar [] = failed unexpected_end []
  parse_scalar (c ∷ cs) =
      if c == 110
      then literal (110 ∷ 117 ∷ 108 ∷ 108 ∷ []) null_value (c ∷ cs)
      else if c == 116
      then literal (116 ∷ 114 ∷ 117 ∷ 101 ∷ []) (bool_value true) (c ∷ cs)
      else if c == 102
      then literal (102 ∷ 97 ∷ 108 ∷ 115 ∷ 101 ∷ []) (bool_value false) (c ∷ cs)
      else if c == 34
      then bind (parse_string (c ∷ cs)) (λ s rest. ok (string_value s) rest)
      else bind (parse_number t (c ∷ cs)) (λ n rest. ok (number_value n) rest)

  -- The name of a member that has not stood before, up to its colon.
  unfoldable pub after_name : List Bytes → Bytes → Bytes → Parsed Bytes
  after_name seen name rest =
      if mem_name name seen
      then failed duplicate_member_name rest
      else if starts 58 (skip_whitespace rest)
      then ok name (skip_whitespace (tail (skip_whitespace rest)))
      else failed expected_colon (skip_whitespace rest)

  unfoldable pub parse_name : List Bytes → Bytes → Parsed Bytes
  parse_name seen text =
      if starts 34 text
      then bind (parse_string text) (λ name rest. after_name seen name rest)
      else failed expected_member_name text

  -- What follows an item or a member: `sep` continues, `close` ends.
  unfoldable pub after_item :
      {A : Type 0} → ℕ → Problem → Problem → A → (Bytes → Parsed A) → Bytes → Parsed A
  after_item close unterminated expected last more [] = failed unterminated []
  after_item close unterminated expected last more (c ∷ cs) =
      if c == 44 then more cs else if c == close then ok last cs else failed expected (c ∷ cs)

  unfoldable mutual
    pub parse_value : ℕ → ℕ → Bytes → Parsed (Value Num)
    parse_value zero depth text = out_of_fuel
    parse_value (suc fuel) depth text =
        let in_array = parse_array fuel (suc depth) (tail text) in
        let in_object = parse_object fuel (suc depth) (tail text) in
        if starts 91 text
        then in_array
        else if starts 123 text
        then in_object
        else parse_scalar text

    pub parse_array : ℕ → ℕ → Bytes → Parsed (Value Num)
    parse_array zero depth text = out_of_fuel
    parse_array (suc fuel) depth text =
        let items =
          bind (parse_items fuel depth (skip_whitespace text))
            (λ vs rest. ok (array_value vs) rest) in
        if ltb max_depth depth
        then failed nesting_too_deep text
        else if starts 93 (skip_whitespace text)
        then ok (array_value no_values) (tail (skip_whitespace text))
        else items

    pub parse_items : ℕ → ℕ → Bytes → Parsed (Values Num)
    parse_items zero depth text = out_of_fuel
    parse_items (suc fuel) depth text =
        bind (parse_value fuel depth (skip_whitespace text)) (λ v rest.
          after_item 93 unterminated_array expected_comma_or_bracket (value_then v no_values)
            (λ text'. bind (parse_items fuel depth text') (λ vs rest'. ok (value_then v vs) rest'))
            (skip_whitespace rest))

    pub parse_object : ℕ → ℕ → Bytes → Parsed (Value Num)
    parse_object zero depth text = out_of_fuel
    parse_object (suc fuel) depth text =
        let others =
          bind (parse_members fuel depth [] (skip_whitespace text))
            (λ ms rest. ok (object_value ms) rest) in
        if ltb max_depth depth
        then failed nesting_too_deep text
        else if starts 125 (skip_whitespace text)
        then ok (object_value no_members) (tail (skip_whitespace text))
        else others

    pub parse_members : ℕ → ℕ → List Bytes → Bytes → Parsed (Members Num)
    parse_members zero depth seen text = out_of_fuel
    parse_members (suc fuel) depth seen text =
        bind (parse_name seen (skip_whitespace text)) (λ name rest.
          bind (parse_value fuel depth rest) (λ v rest'.
            after_item 125 unterminated_object expected_comma_or_brace
              (member_then name v no_members)
              (λ text'.
                bind (parse_members fuel depth (name ∷ seen) text')
                  (λ ms rest''. ok (member_then name v ms) rest''))
              (skip_whitespace rest')))

  unfoldable pub finish : Value Num → Bytes → Parsed (Value Num)
  finish v [] = ok v []
  finish v (c ∷ cs) = failed trailing_content (c ∷ cs)

  -- json::parse.
  unfoldable pub parse : Bytes → Parsed (Value Num)
  parse text =
      bind (parse_value (3 * length text + 1) 0 (skip_whitespace text))
        (λ v rest. finish v (skip_whitespace rest))
