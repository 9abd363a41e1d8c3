-- ===== src/Json/Text.antt =====
-- The strings of json.cpp: toUtf16, appendEscaped, parseString and what it calls. The bit operations
-- are written as arithmetic on the ranges where they are applied.
use showmesh_fpp_plugin.Base.{
  ℕ, zero, suc, ◌+◌, ◌-◌, ◌*◌, ◌/◌, ◌%◌, ◌==◌, ltb, leb, Bool, true, false, ◌&&◌, ◌||◌,
  if◌then◌else◌, List, [], ◌∷◌, ◌++◌, Option, none, some, Bytes,
}
use showmesh_fpp_plugin.Json.{
  Parsed, ok, failed, out_of_fuel, bind, truncated_escape, invalid_escape, invalid_byte,
  truncated_sequence, invalid_continuation, unterminated_string, control_character,
  unterminated_escape, invalid_low_surrogate, unpaired_high_surrogate, unpaired_low_surrogate,
  unrecognized_escape,
}

-- How many bytes follow a lead byte, by its high bits; a byte that is no lead byte stands alone.
unfoldable pub following : ℕ → ℕ
following c =
    if ltb c 192
    then 0
    else if ltb c 224
    then 1
    else if ltb c 240
    then 2
    else if ltb c 248
    then 3
    else 0

-- The bits of a lead byte, and the six bits of each byte after it.
unfoldable pub lead_bits : ℕ → ℕ
lead_bits c = if ltb c 224 then c % 32 else if ltb c 240 then c % 16 else c % 8

unfoldable pub gather : ℕ → ℕ → Bytes → Option ℕ
gather cp zero cs = some cp
gather cp (suc k) [] = none
gather cp (suc k) (c ∷ cs) = gather (cp * 64 + c % 64) k cs

unfoldable pub units_of : ℕ → List ℕ
units_of cp =
    if leb 0x10000 cp
    then (0xD800 + (cp - 0x10000) / 1024) ∷ (0xDC00 + (cp - 0x10000) % 1024) ∷ []
    else cp ∷ []

-- One step of toUtf16 at byte `c`: the code units, and how many further bytes they took.
unfoldable pub utf16_step : ℕ → Bytes → List ℕ × ℕ
utf16_step c cs =
    if following c == 0 then (c ∷ [], 0) else elim (gather (lead_bits c) (following c) cs) [
      | none ↦ (c ∷ [], 0)
      | some cp ↦ (units_of cp, following c)
    ]

-- toUtf16, with the number of bytes of the last step that are still to be passed over.
unfoldable pub to_utf16 : ℕ → Bytes → List ℕ
to_utf16 k [] = []
to_utf16 zero (c ∷ cs) = (utf16_step c cs).0 ++ to_utf16 (utf16_step c cs).1 cs
to_utf16 (suc k) (c ∷ cs) = to_utf16 k cs

unfoldable pub lt_units : List ℕ → List ℕ → Bool
lt_units [] [] = false
lt_units [] (y ∷ ys) = true
lt_units (x ∷ xs) [] = false
lt_units (x ∷ xs) (y ∷ ys) = ltb x y || ((x == y) && lt_units xs ys)

unfoldable pub less_utf16 : Bytes → Bytes → Bool
less_utf16 a b = lt_units (to_utf16 0 a) (to_utf16 0 b)

-- A digit of "%04x".
unfoldable pub hex_char : ℕ → ℕ
hex_char d = if ltb d 10 then 48 + d else 87 + d

unfoldable pub escape_byte : ℕ → Bytes
escape_byte c =
    if c == 34
    then 92 ∷ 34 ∷ []
    else if c == 92
    then 92 ∷ 92 ∷ []
    else if c == 8
    then 92 ∷ 98 ∷ []
    else if c == 12
    then 92 ∷ 102 ∷ []
    else if c == 10
    then 92 ∷ 110 ∷ []
    else if c == 13
    then 92 ∷ 114 ∷ []
    else if c == 9
    then 92 ∷ 116 ∷ []
    else if ltb c 32
    then 92 ∷ 117 ∷ 48 ∷ 48 ∷ hex_char (c / 16) ∷ hex_char (c % 16) ∷ []
    else c ∷ []

unfoldable pub escape_bytes : Bytes → Bytes
escape_bytes [] = []
escape_bytes (c ∷ cs) = escape_byte c ++ escape_bytes cs

unfoldable pub escaped : Bytes → Bytes
escaped s = 34 ∷ (escape_bytes s ++ (34 ∷ []))

-- appendCodePoint, for a code point of at most 0x10FFFF.
unfoldable pub code_point : ℕ → Bytes
code_point cp =
    if ltb cp 0x80
    then cp ∷ []
    else if ltb cp 0x800
    then (192 + cp / 64) ∷ (128 + cp % 64) ∷ []
    else if ltb cp 0x10000
    then (224 + cp / 4096) ∷ (128 + cp / 64 % 64) ∷ (128 + cp % 64) ∷ []
    else (240 + cp / 262144) ∷ (128 + cp / 4096 % 64) ∷ (128 + cp / 64 % 64) ∷ (128 + cp % 64) ∷ []

unfoldable pub hex_digit : ℕ → Option ℕ
hex_digit c =
    if leb 48 c && leb c 57
    then some (c - 48)
    else if leb 97 c && leb c 102
    then some (c - 87)
    else if leb 65 c && leb c 70
    then some (c - 55)
    else none

unfoldable pub hex_value : Option ℕ → Option ℕ → Option ℕ
hex_value (some v) (some d) = some (v * 16 + d)
hex_value _ _ = none

unfoldable pub hex_result : Option ℕ → Bytes → Bytes → Parsed ℕ
hex_result none text rest = failed invalid_escape text
hex_result (some v) text rest = ok v rest

unfoldable pub parse_hex4 : Bytes → Parsed ℕ
parse_hex4 (a ∷ b ∷ c ∷ d ∷ rest) =
    hex_result
      (hex_value (hex_value (hex_value (hex_digit a) (hex_digit b)) (hex_digit c)) (hex_digit d))
      (a ∷ b ∷ c ∷ d ∷ rest) rest
parse_hex4 text = failed truncated_escape text

-- The second half of a surrogate pair.
unfoldable pub pair_low : ℕ → ℕ → Bytes → Parsed Bytes
pair_low high low rest =
    if ltb low 0xDC00 || ltb 0xDFFF low
    then failed invalid_low_surrogate rest
    else ok (code_point (0x10000 + (high - 0xD800) * 1024 + (low - 0xDC00))) rest

unfoldable pub parse_low : ℕ → Bytes → Parsed Bytes
parse_low high (x ∷ y ∷ rest) =
    if (x == 92) && (y == 117)
    then bind (parse_hex4 rest) (λ low rest'. pair_low high low rest')
    else failed unpaired_high_surrogate (x ∷ y ∷ rest)
parse_low high text = failed unpaired_high_surrogate text

unfoldable pub unicode_value : ℕ → Bytes → Parsed Bytes
unicode_value cp rest =
    if leb 0xD800 cp && leb cp 0xDBFF
    then parse_low cp rest
    else if leb 0xDC00 cp && leb cp 0xDFFF
    then failed unpaired_low_surrogate rest
    else ok (code_point cp) rest

unfoldable pub parse_escape : Bytes → Parsed Bytes
parse_escape [] = failed unterminated_escape []
parse_escape (e ∷ cs) =
    if e == 34
    then ok (34 ∷ []) cs
    else if e == 92
    then ok (92 ∷ []) cs
    else if e == 47
    then ok (47 ∷ []) cs
    else if e == 98
    then ok (8 ∷ []) cs
    else if e == 102
    then ok (12 ∷ []) cs
    else if e == 110
    then ok (10 ∷ []) cs
    else if e == 114
    then ok (13 ∷ []) cs
    else if e == 116
    then ok (9 ∷ []) cs
    else if e == 117
    then bind (parse_hex4 cs) (λ cp rest. unicode_value cp rest)
    else failed unrecognized_escape cs

-- appendValidUtf8Char: the bounds of the byte after the lead byte, then one function for each length.
unfoldable pub low_bound : ℕ → ℕ
low_bound c = if c == 224 then 160 else if c == 240 then 144 else 128

unfoldable pub high_bound : ℕ → ℕ
high_bound c = if c == 237 then 159 else if c == 244 then 143 else 191

unfoldable pub continues : ℕ → Bool
continues b = leb 128 b && leb b 191

unfoldable pub follows : ℕ → ℕ → Bool
follows c b = leb (low_bound c) b && leb b (high_bound c)

unfoldable pub two_bytes : ℕ → Bytes → Parsed Bytes
two_bytes c (b ∷ cs) =
    if follows c b then ok (c ∷ b ∷ []) cs else failed invalid_continuation (c ∷ b ∷ cs)
two_bytes c [] = failed truncated_sequence (c ∷ [])

unfoldable pub three_bytes : ℕ → Bytes → Parsed Bytes
three_bytes c (b ∷ b₂ ∷ cs) =
    if follows c b && continues b₂
    then ok (c ∷ b ∷ b₂ ∷ []) cs
    else failed invalid_continuation (c ∷ b ∷ b₂ ∷ cs)
three_bytes c cs = failed truncated_sequence (c ∷ cs)

unfoldable pub four_bytes : ℕ → Bytes → Parsed Bytes
four_bytes c (b ∷ b₂ ∷ b₃ ∷ cs) =
    if follows c b && continues b₂ && continues b₃
    then ok (c ∷ b ∷ b₂ ∷ b₃ ∷ []) cs
    else failed invalid_continuation (c ∷ b ∷ b₂ ∷ b₃ ∷ cs)
four_bytes c cs = failed truncated_sequence (c ∷ cs)

unfoldable pub utf8_char : ℕ → Bytes → Parsed Bytes
utf8_char c cs =
    if leb c 127
    then ok (c ∷ []) cs
    else if leb 194 c && leb c 223
    then two_bytes c cs
    else if leb 224 c && leb c 239
    then three_bytes c cs
    else if leb 240 c && leb c 244
    then four_bytes c cs
    else failed invalid_byte (c ∷ cs)

-- One turn of parseString at a byte that is not the closing quote.
unfoldable pub string_step : ℕ → Bytes → Parsed Bytes
string_step c cs =
    if ltb c 32
    then failed control_character (c ∷ cs)
    else if c == 92
    then parse_escape cs
    else utf8_char c cs

-- What parseString reads after the opening quote. Each turn takes a unit of fuel.
unfoldable pub parse_chars : ℕ → Bytes → Parsed Bytes
parse_chars zero text = out_of_fuel
parse_chars (suc fuel) [] = failed unterminated_string []
parse_chars (suc fuel) (c ∷ cs) =
    let turn =
      bind (string_step c cs)
        (λ unit rest. bind (parse_chars fuel rest) (λ more rest'. ok (unit ++ more) rest')) in
    if c == 34 then ok [] cs else turn
