-- ===== src/Witnesses/Json.antt =====
-- The JSON module and the hash at concrete inputs.
use showmesh_fpp_plugin.Base.{
  ℤ, pos, true, ◌≡◌, ◌≢◌, refl, [], ◌∷◌, ◌++◌, length, eq_bytes, eq_bytes_iff, some, Bytes, arith,
  All,
}
use showmesh_fpp_plugin.Json.{
  Value, null_value, number_value, string_value, array_value, object_value, no_values, value_then,
  no_members, member_then, ok, out_of_fuel,
}
use showmesh_fpp_plugin.Json.Text.{hex_char, escaped, follows, low_bound, high_bound}
use showmesh_fpp_plugin.Json.Strings.{
  Utf8, no_bytes, one_byte, two_bytes_long, parse_string-escaped,
}
use showmesh_fpp_plugin.Json.Parser.{parse, parse_string}
use showmesh_fpp_plugin.Json.Writer.{canonicalize, canonicalize_text}
use showmesh_fpp_plugin.Json.Total.{parse-ne-out_of_fuel}
use showmesh_fpp_plugin.Json.Number.{take, drop}
use showmesh_fpp_plugin.Json.Readable.{IsReadable}
use showmesh_fpp_plugin.Json.Ordered.{IsOrdered, Rearranged, parse-canonicalize-IsOrdered}
use showmesh_fpp_plugin.Json.SortedOnce.{canonicalize_text-canonicalize}
use showmesh_fpp_plugin.Sha256.{
  reset, sha256_hex, hex_of, finish, output, word_bytes, finished, update, absorb, settle, compress,
  add_words, rounds_of, schedule, block_words, extend, next_word, reverse_onto, round, add_32, rotr,
  xor_3, pad, length_bytes,
}
use showmesh_fpp_plugin.Sha256.Stream.{update-append}
use showmesh_fpp_plugin.Sha256.Hex.{sha256_hex-is_hex, is_hex}
use showmesh_fpp_plugin.Witnesses.Numbers.{one_digit, digits-IsReadBack}

-- "[7"
abbrev cut_off : Bytes
cut_off = 91 ∷ 55 ∷ []

parse-ne-out_of_fuel_example : parse one_digit cut_off ≢ out_of_fuel
parse-ne-out_of_fuel_example = parse-ne-out_of_fuel one_digit cut_off

-- An e with an acute accent, and a newline.
abbrev accent : Bytes
accent = 195 ∷ 169 ∷ 10 ∷ []

accent_follows : follows 195 169 ≡ true
unfolding follows low_bound high_bound
accent_follows = refl

accent-Utf8 : Utf8 accent
accent-Utf8 =
    two_bytes_long 195 169 (10 ∷ []) (omega arith) (omega arith) accent_follows
      (one_byte 10 [] (omega arith) no_bytes)

parse_string-escaped_example : parse_string (escaped accent ++ (44 ∷ [])) ≡ ok accent (44 ∷ [])
parse_string-escaped_example = parse_string-escaped accent (44 ∷ []) accent-Utf8

-- {"b":[7,null],"a":...} with that string.
abbrev tree : Value ℤ
tree = object_value (
    member_then (98 ∷ [])
      (array_value (value_then (number_value (pos 7)) (value_then null_value no_values)))
      (member_then (97 ∷ []) (string_value accent) no_members))

abbrev b_name : Bytes
b_name = 98 ∷ []

abbrev a_name : Bytes
a_name = 97 ∷ []

other_name : b_name ≢ a_name
unfolding eq_bytes
other_name e = let same : eq_bytes b_name a_name ≡ true = (eq_bytes_iff b_name a_name).1 e in cc

tree-IsReadable : IsReadable one_digit 0 tree
unfolding IsReadable
tree-IsReadable = (
  omega arith,
  ((other_name, tt), (tt, tt)),
  (
    one_byte 98 [] (omega arith) no_bytes,
    (omega arith, (digits-IsReadBack.7, (tt, tt))),
    (one_byte 97 [] (omega arith) no_bytes, accent-Utf8, tt),
  ),
)

parse-canonicalize-IsOrdered_example :
    (text : Bytes) × (w : Value ℤ) × (canonicalize one_digit tree ≡ some text)
    × (parse one_digit text ≡ ok w [])
    × IsOrdered w
    × Rearranged tree w
parse-canonicalize-IsOrdered_example = parse-canonicalize-IsOrdered one_digit tree tree-IsReadable

canonicalize_text-canonicalize_example :
    (text : Bytes) × (canonicalize one_digit tree ≡ some text)
    × (canonicalize_text one_digit text ≡ some text)
canonicalize_text-canonicalize_example =
    canonicalize_text-canonicalize one_digit tree tree-IsReadable

update-append_example :
    update (update reset (97 ∷ [])) (98 ∷ 99 ∷ []) ≡ update reset (97 ∷ 98 ∷ 99 ∷ [])
update-append_example = update-append reset (97 ∷ []) (98 ∷ 99 ∷ []) (omega arith)

sha256_hex-is_hex_example :
    (length (sha256_hex (97 ∷ [])) ≡ 64) × All (λ c. is_hex c ≡ true) (sha256_hex (97 ∷ []))
sha256_hex-is_hex_example = sha256_hex-is_hex (97 ∷ [])

-- The published test vector for "abc".
sha256_hex_abc :
    sha256_hex (97 ∷ 98 ∷ 99 ∷ [])
    ≡ 98 ∷ 97 ∷ 55 ∷ 56 ∷ 49 ∷ 54 ∷ 98 ∷ 102 ∷ 56 ∷ 102 ∷ 48 ∷ 49 ∷ 99 ∷ 102 ∷ 101 ∷ 97 ∷ 52 ∷ 49
      ∷ 52 ∷ 49 ∷ 52 ∷ 48 ∷ 100 ∷ 101 ∷ 53 ∷ 100 ∷ 97 ∷ 101 ∷ 50 ∷ 50 ∷ 50 ∷ 51 ∷ 98 ∷ 48 ∷ 48 ∷ 51
      ∷ 54 ∷ 49 ∷ 97 ∷ 51 ∷ 57 ∷ 54 ∷ 49 ∷ 55 ∷ 55 ∷ 97 ∷ 57 ∷ 99 ∷ 98 ∷ 52 ∷ 49 ∷ 48 ∷ 102 ∷ 102
      ∷ 54 ∷ 49 ∷ 102 ∷ 50 ∷ 48 ∷ 48 ∷ 49 ∷ 53 ∷ 97 ∷ 100 ∷ []
unfolding sha256_hex hex_of finish output word_bytes hex_char finished update absorb settle compress
    add_words rounds_of schedule block_words extend next_word reverse_onto round add_32 rotr xor_3
    pad length_bytes take drop
sha256_hex_abc = refl
