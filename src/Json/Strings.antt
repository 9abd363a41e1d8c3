-- ===== src/Json/Strings.antt =====
-- A string of valid UTF-8 is read back from its escaped text.
use showmesh_fpp_plugin.Base.{
  ℕ, zero, suc, ◌+◌, ◌*◌, ◌/◌, ◌%◌, ◌≤◌, ◌<◌, ◌==◌, ==_iff, ltb, Bool, true, false, ◌≡◌, refl, sym,
  ap, if◌then◌else◌, [], ◌∷◌, ◌++◌, length, some, Bytes, arith, ltb→lt, ltb-false, length-append,
}
use mathlib.Core.List.{append_assoc}
use showmesh_fpp_plugin.Json.{ok, bind}
use showmesh_fpp_plugin.Json.Text.{
  hex_char, escape_byte, escape_bytes, escaped, code_point, hex_digit, hex_value, hex_result,
  parse_hex4, unicode_value, parse_escape, low_bound, continues, follows, two_bytes, three_bytes,
  four_bytes, utf8_char, string_step, parse_chars,
}
use showmesh_fpp_plugin.Json.Parser.{parse_string}

-- Well-formed UTF-8, as Unicode's table of byte sequences has it: the byte after the lead byte is
-- bounded more narrowly after E0, ED, F0 and F4.
pub data Utf8 : Bytes → Type 0 where
  no_bytes : Utf8 []
  one_byte : (c : ℕ) (cs : Bytes) → c < 128 → Utf8 cs → Utf8 (c ∷ cs)
  two_bytes_long :
      (c b : ℕ) (cs : Bytes) → 194 ≤ c → c ≤ 223 → follows c b ≡ true → Utf8 cs → Utf8 (c ∷ b ∷ cs)
  three_bytes_long :
      (c b b₂ : ℕ) (cs : Bytes)
      → 224 ≤ c
      → c ≤ 239
      → follows c b ≡ true
      → continues b₂ ≡ true
      → Utf8 cs
      → Utf8 (c ∷ b ∷ b₂ ∷ cs)
  four_bytes_long :
      (c b b₂ b₃ : ℕ) (cs : Bytes)
      → 240 ≤ c
      → c ≤ 244
      → follows c b ≡ true
      → continues b₂ ≡ true
      → continues b₃ ≡ true
      → Utf8 cs
      → Utf8 (c ∷ b ∷ b₂ ∷ b₃ ∷ cs)

hex_digit-hex_char : (d : ℕ) → d < 16 → hex_digit (hex_char d) ≡ some d
unfolding hex_digit hex_char
hex_digit-hex_char d h = ground arith

-- The loop after a first character was read.
abbrev Reads : Bytes → Bytes → Bytes → Type 0
Reads unit text escape =
    (fuel : ℕ)
    → parse_chars (suc fuel) (escape ++ text)
      ≡ bind (parse_chars fuel text) (λ more rest. ok (unit ++ more) rest)

-- An escape that stands for one byte.
special :
    (c k e : ℕ) (text : Bytes)
    → parse_escape (e ∷ text) ≡ ok (k ∷ []) text
    → (c == k) ≡ true
    → Reads (c ∷ []) text (92 ∷ e ∷ [])
unfolding parse_chars string_step
special c k e text p h fuel = rw p (
    ap (λ m. bind (parse_chars fuel text) (λ more rest. ok (m ∷ more) rest))
      (sym ((==_iff c k).0 h)))

choose :
    (b : Bool) (unit text x y : Bytes)
    → (b ≡ true → Reads unit text x)
    → (b ≡ false → Reads unit text y)
    → Reads unit text (if b then x else y)
choose true unit text x y f g = f refl
choose false unit text x y f g = g refl

-- The digits of "\\u00XX".
digits-value :
    (c : ℕ)
    → c < 32
    → hex_value
        (hex_value (hex_value (hex_digit 48) (hex_digit 48)) (hex_digit (hex_char (c / 16))))
        (hex_digit (hex_char (c % 16)))
      ≡ some c
unfolding hex_value
digits-value c h =
    let zero_digit : hex_digit 48 ≡ some 0 = unfold hex_digit in refl in
    let high : hex_digit (hex_char (c / 16)) ≡ some (c / 16) =
      hex_digit-hex_char (c / 16) (omega arith) in
    let low : hex_digit (hex_char (c % 16)) ≡ some (c % 16) =
      hex_digit-hex_char (c % 16) (omega arith) in
    let same : (0 + c / 16) * 16 + c % 16 ≡ c = omega arith in
    rw (zero_digit, high, low) (ap some same)

plain_value : (c : ℕ) (text : Bytes) → c < 32 → unicode_value c text ≡ ok (c ∷ []) text
unfolding unicode_value code_point
plain_value c text h = ground arith

control_text :
    (c : ℕ) (text : Bytes)
    → c < 32
    → Reads (c ∷ []) text (92 ∷ 117 ∷ 48 ∷ 48 ∷ hex_char (c / 16) ∷ hex_char (c % 16) ∷ [])
unfolding parse_chars string_step parse_escape parse_hex4 hex_result
control_text c text h fuel = rw (digits-value c h) (rw (plain_value c text h) refl)

-- A byte that is written as it is.
plain_text :
    (c : ℕ) (text : Bytes)
    → (c == 34) ≡ false
    → (c == 92) ≡ false
    → 32 ≤ c
    → c < 128
    → Reads (c ∷ []) text (c ∷ [])
unfolding parse_chars
plain_text c text quote slash low high fuel =
    let step : string_step c text ≡ ok (c ∷ []) text =
      unfold string_step utf8_char in ground arith in
    rw (quote, step) refl

escape_byte-Reads : (c : ℕ) (text : Bytes) → c < 128 → Reads (c ∷ []) text (escape_byte c)
unfolding escape_byte
escape_byte-Reads c text h =
    let unit = c ∷ [] in
    choose (c == 34) unit text _ _ (special c 34 34 text (unfold parse_escape in refl)) (λ quote.
      choose (c == 92) unit text _ _ (special c 92 92 text (unfold parse_escape in refl)) (λ slash.
        choose (c == 8) unit text _ _ (special c 8 98 text (unfold parse_escape in refl)) (λ _.
          choose (c == 12) unit text _ _ (special c 12 102 text (unfold parse_escape in refl)) (λ _.
            choose (c == 10) unit text _ _ (special c 10 110 text (unfold parse_escape in refl))
              (λ _.
                choose (c == 13) unit text _ _ (special c 13 114 text (unfold parse_escape in refl))
                  (λ _.
                    choose (c == 9) unit text _ _
                      (special c 9 116 text (unfold parse_escape in refl))
                      (λ _.
                        choose (ltb c 32) unit text _ _ (λ e. control_text c text (ltb→lt c 32 e))
                          (λ e. plain_text c text quote slash (ltb-false c 32 e) h))))))))

-- Bytes of longer characters have no escape.
escape_byte-high : (c : ℕ) → 128 ≤ c → escape_byte c ≡ c ∷ []
unfolding escape_byte
escape_byte-high c h = ground arith

continues-high : (b : ℕ) → continues b ≡ true → 128 ≤ b
unfolding continues
continues-high b h = ground arith

follows-high : (c b : ℕ) → follows c b ≡ true → 128 ≤ b
unfolding follows low_bound
follows-high c b h = ground arith

-- A character of several bytes is read as one.
character_text :
    (c : ℕ) (text : Bytes) (unit rest : Bytes)
    → 128 ≤ c
    → utf8_char c text ≡ ok unit rest
    → (fuel : ℕ)
    → parse_chars (suc fuel) (c ∷ text)
      ≡ bind (parse_chars fuel rest) (λ more rest'. ok (unit ++ more) rest')
unfolding parse_chars
character_text c text unit rest h e fuel =
    let step : string_step c text ≡ ok unit rest = unfold string_step in ground (arith, e) in
    let quote : (c == 34) ≡ false = ground arith in rw (quote, step) refl

two_bytes_text :
    (c b : ℕ) (text : Bytes)
    → 194 ≤ c
    → c ≤ 223
    → follows c b ≡ true
    → utf8_char c (b ∷ text) ≡ ok (c ∷ b ∷ []) text
unfolding utf8_char two_bytes
two_bytes_text c b text low high h = ground arith

three_bytes_text :
    (c b b₂ : ℕ) (text : Bytes)
    → 224 ≤ c
    → c ≤ 239
    → follows c b ≡ true
    → continues b₂ ≡ true
    → utf8_char c (b ∷ b₂ ∷ text) ≡ ok (c ∷ b ∷ b₂ ∷ []) text
unfolding utf8_char three_bytes
three_bytes_text c b b₂ text low high h h₂ = ground arith

four_bytes_text :
    (c b b₂ b₃ : ℕ) (text : Bytes)
    → 240 ≤ c
    → c ≤ 244
    → follows c b ≡ true
    → continues b₂ ≡ true
    → continues b₃ ≡ true
    → utf8_char c (b ∷ b₂ ∷ b₃ ∷ text) ≡ ok (c ∷ b ∷ b₂ ∷ b₃ ∷ []) text
unfolding utf8_char four_bytes
four_bytes_text c b b₂ b₃ text low high h h₂ h₃ = ground arith

high-escape_bytes : (c : ℕ) (cs : Bytes) → 128 ≤ c → escape_bytes (c ∷ cs) ≡ c ∷ escape_bytes cs
unfolding escape_bytes
high-escape_bytes c cs h = ap (λ e. e ++ escape_bytes cs) (escape_byte-high c h)

cons-escape_bytes :
    (c : ℕ) (cs rest : Bytes)
    → escape_bytes (c ∷ cs) ++ rest ≡ escape_byte c ++ (escape_bytes cs ++ rest)
unfolding escape_bytes
cons-escape_bytes c cs rest = append_assoc (escape_byte c) (escape_bytes cs) rest

chars-escape_bytes :
    (s rest : Bytes) (fuel : ℕ)
    → Utf8 s
    → length s < fuel
    → parse_chars fuel (escape_bytes s ++ (34 ∷ rest)) ≡ ok s rest
chars-escape_bytes s rest zero u h = absurd (omega arith)
chars-escape_bytes _ rest (suc fuel) no_bytes h = unfold parse_chars escape_bytes in refl
chars-escape_bytes _ rest (suc fuel) (one_byte c cs k u) h =
    let more : parse_chars fuel (escape_bytes cs ++ (34 ∷ rest)) ≡ ok cs rest =
      chars-escape_bytes cs rest fuel u (omega arith) in
    rw
      (
        cons-escape_bytes c cs (34 ∷ rest),
        escape_byte-Reads c (escape_bytes cs ++ (34 ∷ rest)) k fuel,
        more,
      )
      refl
chars-escape_bytes _ rest (suc fuel) (two_bytes_long c b cs low high k u) h =
    let more : parse_chars fuel (escape_bytes cs ++ (34 ∷ rest)) ≡ ok cs rest =
      chars-escape_bytes cs rest fuel u (omega arith) in
    rw
      (
        high-escape_bytes c (b ∷ cs) (omega arith),
        high-escape_bytes b cs (follows-high c b k),
        character_text c _ _ _ (omega arith)
            (two_bytes_text c b (escape_bytes cs ++ (34 ∷ rest)) low high k) fuel,
        more,
      )
      refl
chars-escape_bytes _ rest (suc fuel) (three_bytes_long c b b₂ cs low high k k₂ u) h =
    let more : parse_chars fuel (escape_bytes cs ++ (34 ∷ rest)) ≡ ok cs rest =
      chars-escape_bytes cs rest fuel u (omega arith) in
    rw
      (
        high-escape_bytes c (b ∷ b₂ ∷ cs) (omega arith),
        high-escape_bytes b (b₂ ∷ cs) (follows-high c b k),
        high-escape_bytes b₂ cs (continues-high b₂ k₂),
        character_text c _ _ _ (omega arith)
            (three_bytes_text c b b₂ (escape_bytes cs ++ (34 ∷ rest)) low high k k₂) fuel,
        more,
      )
      refl
chars-escape_bytes _ rest (suc fuel) (four_bytes_long c b b₂ b₃ cs low high k k₂ k₃ u) h =
    let more : parse_chars fuel (escape_bytes cs ++ (34 ∷ rest)) ≡ ok cs rest =
      chars-escape_bytes cs rest fuel u (omega arith) in
    rw
      (
        high-escape_bytes c (b ∷ b₂ ∷ b₃ ∷ cs) (omega arith),
        high-escape_bytes b (b₂ ∷ b₃ ∷ cs) (follows-high c b k),
        high-escape_bytes b₂ (b₃ ∷ cs) (continues-high b₂ k₂),
        high-escape_bytes b₃ cs (continues-high b₃ k₃),
        character_text c _ _ _ (omega arith)
            (four_bytes_text c b b₂ b₃ (escape_bytes cs ++ (34 ∷ rest)) low high k k₂ k₃) fuel,
        more,
      )
      refl

length-escape_byte : (c : ℕ) → 1 ≤ length (escape_byte c)
unfolding escape_byte
length-escape_byte c = ground arith

length-escape_bytes : (s : Bytes) → length s ≤ length (escape_bytes s)
unfolding escape_bytes
length-escape_bytes [] = omega arith
length-escape_bytes (c ∷ cs) = omega (
  arith,
  length-append (escape_byte c) (escape_bytes cs),
  length-escape_byte c,
  length-escape_bytes cs,
)

-- A string of valid UTF-8, written with its escapes, is read back as it was, and what follows it is left.
pub parse_string-escaped : (s rest : Bytes) → Utf8 s → parse_string (escaped s ++ rest) ≡ ok s rest
unfolding parse_string escaped
parse_string-escaped s rest u = rw (append_assoc (escape_bytes s) (34 ∷ []) rest) (
    chars-escape_bytes s rest (suc (length (escape_bytes s ++ (34 ∷ rest)))) u
      (omega (arith, length-append (escape_bytes s) (34 ∷ rest), length-escape_bytes s)))
