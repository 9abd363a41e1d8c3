-- ===== src/Json/Readable.antt =====
-- What a value needs to be read back from its text, and the parser's steps on such a text.
use showmesh_fpp_plugin.Base.{
  ℕ, suc, ◌<◌, ◌==◌, ltb, Bool, true, false, not, ◌&&◌, ◌||◌, ◌≡◌, ◌≢◌, refl, sym, ◌∙◌, ap, [], ◌∷◌,
  ◌++◌, Option, some, Bytes, arith,
}
use showmesh_fpp_plugin.Decimal.{is_digit}
use showmesh_fpp_plugin.Json.{
  Value, Values, Members, null_value, bool_value, number_value, string_value, array_value,
  object_value, no_values, value_then, no_members, member_then, ok, bind,
}
use showmesh_fpp_plugin.Json.Number.{
  NumberText, number_literal, integer_part, finite_number, parse_number, format_number,
}
use showmesh_fpp_plugin.Json.NumberEnd.{ends_number, number_literal-append}
use showmesh_fpp_plugin.Json.Text.{escaped}
use showmesh_fpp_plugin.Json.Strings.{Utf8, parse_string-escaped}
use showmesh_fpp_plugin.Json.Parser.{
  max_depth, is_whitespace, skip_whitespace, parse_scalar, literal, literal_result, strip_word,
  after_item, parse_value, parse_items,
}

-- No later member has the name.
abbrev pub Absent : {Num : Type 0} → Bytes → Members Num → Type 0
Absent name no_members = Unit
Absent name (member_then n v ms) = (name ≢ n) × Absent name ms

abbrev pub Distinct : {Num : Type 0} → Members Num → Type 0
Distinct no_members = Unit
Distinct (member_then name v ms) = Absent name ms × Distinct ms

module _ {Num : Type 0} (t : NumberText Num) where
  open t use {strtod, is_finite}

  -- The number has a text, which is a JSON number, and strtod reads it as that number.
  abbrev pub IsReadBack : Num → Type 0
  IsReadBack n =
      (text : Bytes) × (format_number t n ≡ some text)
      × (number_literal text ≡ ok text [])
      × (strtod text ≡ n)

  -- Inside `depth` arrays and objects: strings of UTF-8, names that occur once, numbers that are read
  -- back, and no nesting beyond the parser's bound.
  unfoldable mutual
    pub IsReadable : ℕ → Value Num → Type 0
    IsReadable depth null_value = Unit
    IsReadable depth (bool_value b) = Unit
    IsReadable depth (number_value n) = IsReadBack n
    IsReadable depth (string_value s) = Utf8 s
    IsReadable depth (array_value vs) = (depth < max_depth) × AreReadable (suc depth) vs
    IsReadable depth (object_value ms) =
        (depth < max_depth) × Distinct ms × MembersReadable (suc depth) ms

    pub AreReadable : ℕ → Values Num → Type 0
    AreReadable depth no_values = Unit
    AreReadable depth (value_then v vs) = IsReadable depth v × AreReadable depth vs

    pub MembersReadable : ℕ → Members Num → Type 0
    MembersReadable depth no_members = Unit
    MembersReadable depth (member_then name v ms) =
        Utf8 name × IsReadable depth v × MembersReadable depth ms

pub some-injective : {a b : Bytes} → Option.some a ≡ some b → a ≡ b
some-injective h = cc

-- The first byte of a value's text.
abbrev pub opens : ℕ → Bool
opens c = not (is_whitespace c) && not (c == 93) && not (c == 125)

abbrev pub begins : Bytes → Bool
begins [] = false
begins (c ∷ cs) = opens c

pub begins-append : (text rest : Bytes) → begins text ≡ true → begins (text ++ rest) ≡ true
begins-append [] rest h = cc
begins-append (c ∷ cs) rest h = h

pub skip_whitespace-begins : (text : Bytes) → begins text ≡ true → skip_whitespace text ≡ text
unfolding skip_whitespace is_whitespace
skip_whitespace-begins [] h = refl
skip_whitespace-begins (c ∷ cs) h = ground arith

number_first :
    (c : ℕ) (cs text left : Bytes)
    → number_literal (c ∷ cs) ≡ ok text left
    → ((c == 45) || is_digit c) ≡ true
unfolding number_literal integer_part is_digit
number_first c cs text left h = ground arith

no_number : (text : Bytes) → number_literal [] ≢ ok text []
unfolding number_literal integer_part
no_number text h = cc

-- A text that begins as a number does is a scalar, and parsed as a number.
number_scalar :
    {Num : Type 0} (t : NumberText Num) (c : ℕ) (cs : Bytes)
    → ((c == 45) || is_digit c) ≡ true
    → parse_scalar t (c ∷ cs) ≡ bind (parse_number t (c ∷ cs)) (λ n rest. ok (number_value n) rest)
unfolding parse_scalar is_digit
number_scalar t c cs h = ground arith

module _ {Num : Type 0} (t : NumberText Num) where
  open t use {strtod, is_finite}

  read_back :
      (n : Num) (text : Bytes)
      → IsReadBack t n
      → format_number t n ≡ some text
      → (number_literal text ≡ ok text []) × (strtod text ≡ n)
  read_back n text h k =
      let same : h.0 ≡ text = some-injective (sym h.1 ∙ k) in
      (ap number_literal (sym same) ∙ h.2 ∙ ap (λ x. ok x []) same, ap strtod (sym same) ∙ h.3)

  finite_text : (n : Num) (text : Bytes) → format_number t n ≡ some text → is_finite n ≡ true
  unfolding format_number
  finite_text n text h = ground arith

  scalar_value :
      (fuel depth c : ℕ) (cs : Bytes)
      → (c == 91) ≡ false
      → (c == 123) ≡ false
      → parse_value t (suc fuel) depth (c ∷ cs) ≡ parse_scalar t (c ∷ cs)
  unfolding parse_value
  scalar_value fuel depth c cs h k = rw (h, k) refl

  parse_number-read_back :
      (n : Num) (text rest : Bytes)
      → IsReadBack t n
      → format_number t n ≡ some text
      → ends_number rest ≡ true
      → parse_number t (text ++ rest) ≡ ok n rest
  unfolding parse_number finite_number
  parse_number-read_back n text rest h k e =
      rw
        (
          number_literal-append text rest (read_back n text h k).0 e,
          (read_back n text h k).1,
          finite_text n text k,
        )
        refl

  pub number-text :
      (n : Num) (text rest : Bytes) (fuel depth : ℕ)
      → IsReadBack t n
      → format_number t n ≡ some text
      → ends_number rest ≡ true
      → parse_value t (suc fuel) depth (text ++ rest) ≡ ok (number_value n) rest
  number-text n [] rest fuel depth h k e = absurd (no_number [] (read_back n [] h k).0)
  number-text n (c ∷ cs) rest fuel depth h k e =
      let first = number_first c cs (c ∷ cs) [] (read_back n (c ∷ cs) h k).0 in
      scalar_value fuel depth c (cs ++ rest) (unfold is_digit in ground (arith, first))
        (unfold is_digit in ground (arith, first))
      ∙ number_scalar t c (cs ++ rest) first
      ∙ ap (λ r. bind r (λ m left. ok (number_value m) left))
          (parse_number-read_back n (c ∷ cs) rest h k e)

  pub number-begins :
      (n : Num) (text : Bytes) → IsReadBack t n → format_number t n ≡ some text → begins text ≡ true
  unfolding is_whitespace
  number-begins n [] h k = absurd (no_number [] (read_back n [] h k).0)
  number-begins n (c ∷ cs) h k =
      let first = number_first c cs (c ∷ cs) [] (read_back n (c ∷ cs) h k).0 in
      unfold is_digit in ground (arith, first)

  pub null-text :
      (rest : Bytes) (fuel depth : ℕ)
      → parse_value t (suc fuel) depth (110 ∷ 117 ∷ 108 ∷ 108 ∷ rest) ≡ ok null_value rest
  unfolding parse_value parse_scalar literal literal_result strip_word
  null-text rest fuel depth = refl

  pub true-text :
      (rest : Bytes) (fuel depth : ℕ)
      → parse_value t (suc fuel) depth (116 ∷ 114 ∷ 117 ∷ 101 ∷ rest) ≡ ok (bool_value true) rest
  unfolding parse_value parse_scalar literal literal_result strip_word
  true-text rest fuel depth = refl

  pub false-text :
      (rest : Bytes) (fuel depth : ℕ)
      → parse_value t (suc fuel) depth (102 ∷ 97 ∷ 108 ∷ 115 ∷ 101 ∷ rest)
        ≡ ok (bool_value false) rest
  unfolding parse_value parse_scalar literal literal_result strip_word
  false-text rest fuel depth = refl

  pub string-text :
      (s rest : Bytes) (fuel depth : ℕ)
      → Utf8 s
      → parse_value t (suc fuel) depth (escaped s ++ rest) ≡ ok (string_value s) rest
  unfolding parse_value parse_scalar escaped
  string-text s rest fuel depth u =
      ap (λ r. bind r (λ s' left. ok (string_value s') left)) (parse_string-escaped s rest u)

  -- The brackets around the items.
  pub empty-array :
      (rest : Bytes) (fuel depth : ℕ)
      → depth < max_depth
      → parse_value t (suc (suc fuel)) depth (91 ∷ 93 ∷ rest) ≡ ok (array_value no_values) rest
  unfolding parse_value skip_whitespace is_whitespace
  empty-array rest fuel depth h = ground arith

  pub array-step :
      (vs : Values Num) (body rest : Bytes) (fuel depth : ℕ)
      → depth < max_depth
      → begins body ≡ true
      → parse_items t fuel (suc depth) (body ++ (93 ∷ rest)) ≡ ok vs rest
      → parse_value t (suc (suc fuel)) depth (91 ∷ (body ++ (93 ∷ rest))) ≡ ok (array_value vs) rest
  unfolding parse_value
  array-step vs [] rest fuel depth h b e = cc
  array-step vs (c ∷ cs) rest fuel depth h b e =
      let deep : ltb max_depth (suc depth) ≡ false = ground arith in
      let open_item : (c == 93) ≡ false = ground arith in
      rw (deep, skip_whitespace-begins (c ∷ (cs ++ (93 ∷ rest))) b, open_item, e) refl

  pub last-item :
      (v : Value Num) (text rest : Bytes) (fuel depth : ℕ)
      → begins text ≡ true
      → parse_value t fuel depth (text ++ (93 ∷ rest)) ≡ ok v (93 ∷ rest)
      → parse_items t (suc fuel) depth (text ++ (93 ∷ rest)) ≡ ok (value_then v no_values) rest
  unfolding parse_value after_item skip_whitespace is_whitespace
  last-item v text rest fuel depth b e =
      rw (skip_whitespace-begins (text ++ (93 ∷ rest)) (begins-append text (93 ∷ rest) b), e) refl

  pub next-item :
      (v : Value Num) (vs : Values Num) (text more rest : Bytes) (fuel depth : ℕ)
      → begins text ≡ true
      → parse_value t fuel depth (text ++ (44 ∷ more)) ≡ ok v (44 ∷ more)
      → parse_items t fuel depth more ≡ ok vs rest
      → parse_items t (suc fuel) depth (text ++ (44 ∷ more)) ≡ ok (value_then v vs) rest
  unfolding parse_value after_item skip_whitespace is_whitespace
  next-item v vs text more rest fuel depth b e k =
      rw (skip_whitespace-begins (text ++ (44 ∷ more)) (begins-append text (44 ∷ more) b), e)
        (rw k refl)
