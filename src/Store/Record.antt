-- ===== src/Store/Record.antt =====
-- The round trip of a store's record: what was encoded is what is read back.
use showmesh_fpp_plugin.Base.{
  ℕ, ◌^◌, ◌<◌, ◌==◌, leb, true, false, ◌≡◌, refl, ◌∙◌, ap, [], ◌∷◌, ◌++◌, some, Bytes,
  eq_bytes_refl, null, All, arith,
}
use showmesh_fpp_plugin.Decimal.{
  is_digit, digits-all_digits, scan-to_string, to_string, show-IsDigits, IsDigits, null-show,
}
use showmesh_fpp_plugin.Store.{line_of, getline, no_trailing, second_line, two_lines, record_text}
use showmesh_fpp_plugin.Store.Sequence.{
  value_of_line, encode_record, parse_record, parse_lines, valid,
}

-- A text without a newline.
abbrev pub IsLine : Bytes → Type 0
IsLine cs = All (λ c. (c == 10) ≡ false) cs

line_of-IsLine : (line rest : Bytes) → IsLine line → line_of (line ++ (10 ∷ rest)) ≡ (line, rest)
unfolding line_of
line_of-IsLine [] rest h = refl
line_of-IsLine (c ∷ cs) rest h = rw (h.0, line_of-IsLine cs rest h.1)

getline-line_of :
    (line rest : Bytes) → getline (line ++ (10 ∷ rest)) ≡ some (line_of (line ++ (10 ∷ rest)))
unfolding getline
getline-line_of [] rest = refl
getline-line_of (c ∷ cs) rest = refl

getline-IsLine :
    (line rest : Bytes) → IsLine line → getline (line ++ (10 ∷ rest)) ≡ some (line, rest)
getline-IsLine line rest h = getline-line_of line rest ∙ ap some (line_of-IsLine line rest h)

pub two_lines-record_text :
    (sha256_hex : Bytes → Bytes) (line : Bytes)
    → IsLine line
    → IsLine (sha256_hex line)
    → two_lines (record_text sha256_hex line) ≡ some (line, sha256_hex line)
unfolding two_lines record_text second_line no_trailing getline
two_lines-record_text sha256_hex line h k =
    ap second_line (getline-IsLine line (sha256_hex line ++ (10 ∷ [])) h)
    ∙ ap (no_trailing line) (getline-IsLine (sha256_hex line) [] k)

digit-not_newline : (c : ℕ) → is_digit c ≡ true → (c == 10) ≡ false
unfolding is_digit
digit-not_newline c h = ground arith

digits-IsLine : (cs : Bytes) → IsDigits cs → IsLine cs
digits-IsLine [] h = tt
digits-IsLine (c ∷ cs) h = (digit-not_newline c h.0, digits-IsLine cs h.1)

null-to_string : (value : ℕ) → null (to_string value) ≡ false
unfolding to_string
null-to_string value = null-show 19 value

leb_out : (m n : ℕ) → n < m → leb m n ≡ false
leb_out m n h = ground arith

value_of_line-to_string :
    (value : ℕ) → value < 2 ^ 64 → value_of_line (to_string value) ≡ some value
unfolding value_of_line
value_of_line-to_string value h = rw (
  null-to_string value,
  digits-all_digits (to_string value) (unfold to_string in show-IsDigits 20 value),
  scan-to_string value h,
  leb_out (2 ^ 64) value h,
)

-- For every hash whose text holds no newline, the record written for a number of 64 bits is read
-- back as that number, and as valid.
pub parse_record-encode_record :
    (sha256_hex : Bytes → Bytes) (value : ℕ)
    → value < 2 ^ 64
    → IsLine (sha256_hex (to_string value))
    → parse_record sha256_hex (some (encode_record sha256_hex value))
      ≡ record { value = value; ok = true; present = true }
unfolding parse_record encode_record parse_lines valid
parse_record-encode_record sha256_hex value h k =
    ap (parse_lines sha256_hex) (
      two_lines-record_text sha256_hex (to_string value)
        (digits-IsLine (to_string value) (unfold to_string in show-IsDigits 20 value)) k)
    ∙ rw (eq_bytes_refl (sha256_hex (to_string value)), value_of_line-to_string value h)
