-- ===== src/Json/Within.antt =====
-- What each reader of strings and numbers leaves of the text.
use showmesh_fpp_plugin.Base.{
  ℕ, zero, suc, ◌+◌, ◌≤◌, ◌<◌, ◌==◌, Bool, true, false, ◌≡◌, if◌then◌else◌, [], ◌∷◌, ◌++◌, length,
  Option, none, some, Bytes, arith, ◌⊎◌, inl, inr, Bool-cases,
}
use showmesh_fpp_plugin.Decimal.{is_digit}
use showmesh_fpp_plugin.Json.{Parsed, ok, failed, out_of_fuel, bind, starts, tail}
use showmesh_fpp_plugin.Json.Text.{
  hex_result, hex_digit, hex_value, parse_hex4, pair_low, parse_low, unicode_value, parse_escape,
  two_bytes, three_bytes, four_bytes, utf8_char, string_step, parse_chars,
}
use showmesh_fpp_plugin.Json.Number.{
  span_digits, exponent_digits, exponent_part, fraction_digits, fraction_part, integer_part,
  number_literal,
}
use showmesh_fpp_plugin.Json.Parser.{skip_whitespace, strip_word, parse_string}

-- The result leaves less than `n` bytes, or the text is refused.
abbrev pub Within : {A : Type 0} → ℕ → Parsed A → Type 0
Within n (ok a rest) = length rest < n
Within n (failed problem rest) = Unit
Within n out_of_fuel = ⊥

pub Within-bind :
    {A B : Type 0} (m n : ℕ) (r : Parsed A) (f : A → Bytes → Parsed B)
    → Within m r
    → ((a : A) (rest : Bytes) → length rest < m → Within n (f a rest))
    → Within n (bind r f)
Within-bind m n (ok a rest) f h k = k a rest h
Within-bind m n (failed problem rest) f h k = tt
Within-bind m n out_of_fuel f h k = h

pub Within-if :
    {A : Type 0} (n : ℕ) (b : Bool) (r s : Parsed A)
    → Within n r
    → Within n s
    → Within n (if b then r else s)
Within-if n true r s h k = h
Within-if n false r s h k = k

pub Within-le : {A : Type 0} (m n : ℕ) (r : Parsed A) → m ≤ n → Within m r → Within n r
Within-le m n (ok a rest) h k = omega arith
Within-le m n (failed problem rest) h k = tt
Within-le m n out_of_fuel h k = k

parse_hex4-Within : (text : Bytes) → Within (length text) (parse_hex4 text)
unfolding parse_hex4 hex_result
parse_hex4-Within [] = tt
parse_hex4-Within (a ∷ []) = tt
parse_hex4-Within (a ∷ b ∷ []) = tt
parse_hex4-Within (a ∷ b ∷ c ∷ []) = tt
parse_hex4-Within (a ∷ b ∷ c ∷ d ∷ rest) =
    hex (hex_value (hex_value (hex_value (hex_digit a) (hex_digit b)) (hex_digit c)) (hex_digit d))
  where
    hex :
        (o : Option ℕ)
        → Within (length (a ∷ b ∷ c ∷ d ∷ rest)) (hex_result o (a ∷ b ∷ c ∷ d ∷ rest) rest)
    hex none = tt
    hex (some v) = omega arith

pair_low-Within :
    (high low : ℕ) (rest : Bytes) → Within (suc (length rest)) (pair_low high low rest)
unfolding pair_low
pair_low-Within high low rest =
    Within-if (suc (length rest)) _ (failed _ rest) (ok _ rest) tt (omega arith)

parse_low-Within : (high : ℕ) (text : Bytes) → Within (suc (length text)) (parse_low high text)
unfolding parse_low
parse_low-Within high [] = tt
parse_low-Within high (x ∷ []) = tt
parse_low-Within high (x ∷ y ∷ rest) =
    Within-if (suc (suc (suc (length rest)))) _ _ (failed _ _)
      (Within-bind (length rest) _ (parse_hex4 rest) _ (parse_hex4-Within rest) (λ low rest' h.
        Within-le (suc (length rest')) _ (pair_low high low rest') (omega arith)
          (pair_low-Within high low rest')))
      tt

unicode_value-Within : (cp : ℕ) (rest : Bytes) → Within (suc (length rest)) (unicode_value cp rest)
unfolding unicode_value
unicode_value-Within cp rest = ground (arith, parse_low-Within cp rest)

unicode-Within :
    (cs : Bytes)
    → Within (suc (suc (length cs))) (bind (parse_hex4 cs) (λ cp rest. unicode_value cp rest))
unicode-Within cs =
    Within-bind (length cs) (suc (suc (length cs))) (parse_hex4 cs) _ (parse_hex4-Within cs)
      (λ cp rest h.
        Within-le (suc (length rest)) _ (unicode_value cp rest) (omega arith)
          (unicode_value-Within cp rest))

parse_escape-Within : (text : Bytes) → Within (suc (length text)) (parse_escape text)
unfolding parse_escape
parse_escape-Within [] = tt
parse_escape-Within (e ∷ cs) = ground (arith, unicode-Within cs)

utf8_char-Within : (c : ℕ) (cs : Bytes) → Within (suc (length cs)) (utf8_char c cs)
unfolding utf8_char two_bytes three_bytes four_bytes
utf8_char-Within c [] = ground arith
utf8_char-Within c (b ∷ []) = ground arith
utf8_char-Within c (b ∷ b₂ ∷ []) = ground arith
utf8_char-Within c (b ∷ b₂ ∷ b₃ ∷ cs) = ground arith

string_step-Within : (c : ℕ) (cs : Bytes) → Within (suc (length cs)) (string_step c cs)
unfolding string_step
string_step-Within c cs = ground (arith, parse_escape-Within cs, utf8_char-Within c cs)

parse_chars-Within :
    (fuel : ℕ) (text : Bytes) → length text < fuel → Within (length text) (parse_chars fuel text)
unfolding parse_chars
parse_chars-Within zero text h = absurd (omega arith)
parse_chars-Within (suc fuel) [] h = tt
parse_chars-Within (suc fuel) (c ∷ cs) h =
    Within-if (suc (length cs)) (c == 34) (ok [] cs) _ (omega arith) (
      Within-bind (suc (length cs)) _ (string_step c cs) _ (string_step-Within c cs) (λ unit rest k.
        Within-bind (length rest) _ (parse_chars fuel rest) _
          (parse_chars-Within fuel rest (omega arith)) (λ more rest' k'. omega arith)))

span_digits-le : (cs : Bytes) → length (span_digits cs).1 ≤ length cs
unfolding span_digits
span_digits-le [] = omega arith
span_digits-le (c ∷ cs) = ground (arith, span_digits-le cs)

exponent_digits-Within : (front cs : Bytes) → Within (suc (length cs)) (exponent_digits front cs)
unfolding exponent_digits
exponent_digits-Within front cs = ground (arith, span_digits-le cs)

exponent_part-Within : (front cs : Bytes) → Within (suc (length cs)) (exponent_part front cs)
unfolding exponent_part
exponent_part-Within front [] = omega arith
exponent_part-Within front (c ∷ []) = ground (arith, exponent_digits-Within (front ++ (c ∷ [])) [])
exponent_part-Within front (c ∷ s ∷ ds) = ground (
  arith,
  Within-le _ (suc (suc (suc (length ds)))) _ (omega arith)
      (exponent_digits-Within (front ++ (c ∷ s ∷ [])) ds),
  Within-le _ (suc (suc (suc (length ds)))) _ (omega arith)
      (exponent_digits-Within (front ++ (c ∷ [])) (s ∷ ds)),
)

fraction_part-Within : (front cs : Bytes) → Within (suc (length cs)) (fraction_part front cs)
unfolding fraction_part fraction_digits
fraction_part-Within front [] = omega arith
fraction_part-Within front (c ∷ cs) =
    let more : Within (suc (suc (length cs)))
        (exponent_part (front ++ (46 ∷ (span_digits cs).0)) (span_digits cs).1) =
      Within-le (suc (length (span_digits cs).1)) _ _ (omega (arith, span_digits-le cs))
        (exponent_part-Within (front ++ (46 ∷ (span_digits cs).0)) (span_digits cs).1) in
    ground (arith, more, exponent_part-Within front (c ∷ cs))

integer_part-Within : (front cs : Bytes) → Within (length cs) (integer_part front cs)
unfolding integer_part
integer_part-Within front [] = tt
integer_part-Within front (c ∷ cs) = elim (Bool-cases (is_digit c)) [
  | inl h ↦
      let some_digits : length (span_digits (c ∷ cs)).1 ≤ length cs =
        unfold span_digits in rw h (span_digits-le cs) in
      let more : Within (suc (length cs))
          (fraction_part (front ++ (span_digits (c ∷ cs)).0) (span_digits (c ∷ cs)).1) =
        Within-le (suc (length (span_digits (c ∷ cs)).1)) _ _ (omega (arith, some_digits))
          (fraction_part-Within (front ++ (span_digits (c ∷ cs)).0) (span_digits (c ∷ cs)).1) in
      ground (arith, more, fraction_part-Within (front ++ (48 ∷ [])) cs)
  | inr h ↦ rw h (ground (arith, fraction_part-Within (front ++ (48 ∷ [])) cs))
]

pub number_literal-Within : (text : Bytes) → Within (length text) (number_literal text)
unfolding number_literal
number_literal-Within [] = unfold integer_part in tt
number_literal-Within (c ∷ cs) =
    Within-if (suc (length cs)) (c == 45) _ _
      (Within-le (length cs) _ _ (omega arith) (integer_part-Within (45 ∷ []) cs))
      (integer_part-Within [] (c ∷ cs))

pub skip_whitespace-le : (text : Bytes) → length (skip_whitespace text) ≤ length text
unfolding skip_whitespace
skip_whitespace-le [] = omega arith
skip_whitespace-le (c ∷ cs) = ground (arith, skip_whitespace-le cs)

tail-le : (text : Bytes) → length (tail text) ≤ length text
tail-le [] = omega arith
tail-le (c ∷ cs) = omega arith

pub tail-lt : (b : ℕ) (text : Bytes) → starts b text ≡ true → length (tail text) < length text
tail-lt b [] h = cc
tail-lt b (c ∷ cs) h = omega arith

pub parse_string-Within :
    (text : Bytes) → starts 34 text ≡ true → Within (length text) (parse_string text)
unfolding parse_string
parse_string-Within [] h = cc
parse_string-Within (c ∷ cs) h =
    Within-le (length cs) _ (parse_chars (suc (length cs)) cs) (omega arith)
      (parse_chars-Within (suc (length cs)) cs (omega arith))

pub strip_word-le :
    (word text rest : Bytes)
    → strip_word word text ≡ some rest
    → length rest + length word ≤ length text
unfolding strip_word
strip_word-le [] text rest h = ground arith
strip_word-le (w ∷ ws) [] rest h = cc
strip_word-le (w ∷ ws) (c ∷ cs) rest h = ground (arith, strip_word-le ws cs rest)

-- A list that is closed at once, or goes on.
pub closed-Within :
    {A : Type 0} (close : ℕ) (text : Bytes) (a : A) (r : Parsed A)
    → (starts close (skip_whitespace text) ≡ true) ⊎ (starts close (skip_whitespace text) ≡ false)
    → Within (length text) r
    → Within
        (length text)
        (if starts close (skip_whitespace text) then ok a (tail (skip_whitespace text)) else r)
closed-Within close text a r (inl e) k =
    let shorter : length (tail (skip_whitespace text)) < length text =
      omega (arith, skip_whitespace-le text, tail-lt close (skip_whitespace text) e) in
    rw e shorter
closed-Within close text a r (inr e) k = rw e k
