-- ===== src/Sha256/Hex.antt =====
-- The text of a digest.
use showmesh_fpp_plugin.Base.{
  ℕ, ◌+◌, ◌*◌, ◌/◌, ◌%◌, ◌<◌, leb, Bool, true, ◌&&◌, ◌||◌, ◌≡◌, refl, [], ◌∷◌, ◌++◌, length,
  length-append, Bytes, arith, All,
}
use showmesh_fpp_plugin.Json.Text.{hex_char}
use showmesh_fpp_plugin.Sha256.{Words, word_bytes, output, finish, hex_of, sha256_hex}

abbrev pub is_hex : ℕ → Bool
is_hex c = (leb 48 c && leb c 57) || (leb 97 c && leb c 102)

abbrev AreBytes : Bytes → Type 0
AreBytes cs = All (λ c. c < 256) cs

bytes-append : (xs ys : Bytes) → AreBytes xs → AreBytes ys → AreBytes (xs ++ ys)
bytes-append [] ys h k = k
bytes-append (x ∷ xs) ys h k = (h.0, bytes-append xs ys h.1 k)

word_bytes-AreBytes : (x : ℕ) → AreBytes (word_bytes x)
unfolding word_bytes
word_bytes-AreBytes x = (omega arith, (omega arith, (omega arith, (omega arith, tt))))

-- A word's four bytes in front of others.
abbrev Four : ℕ → Bytes → Type 0
Four n cs = (length cs ≡ n) × AreBytes cs

Four-more : (n x : ℕ) (cs : Bytes) → Four n cs → Four (4 + n) (word_bytes x ++ cs)
Four-more n x cs h =
    let four : length (word_bytes x) ≡ 4 = unfold word_bytes in refl in
    (
      omega (arith, length-append (word_bytes x) cs, h.0),
      bytes-append (word_bytes x) cs (word_bytes-AreBytes x) h.1,
    )

output-Four : (s : Words) → Four 32 (output s)
unfolding output
output-Four s =
    let last : Four 4 (word_bytes s.h) = (unfold word_bytes in refl, word_bytes-AreBytes s.h) in
    Four-more 28 s.a _ (
      Four-more 24 s.b _ (
        Four-more 20 s.c _
          (Four-more 16 s.d _ (Four-more 12 s.e _ (Four-more 8 s.f _ (Four-more 4 s.g _ last))))))

hex_char-is_hex : (d : ℕ) → d < 16 → is_hex (hex_char d) ≡ true
unfolding hex_char
hex_char-is_hex d h = ground arith

length-hex_of : (cs : Bytes) → length (hex_of cs) ≡ 2 * length cs
unfolding hex_of
length-hex_of [] = refl
length-hex_of (x ∷ xs) = omega (arith, length-hex_of xs)

hex_of-is_hex : (cs : Bytes) → AreBytes cs → All (λ c. is_hex c ≡ true) (hex_of cs)
unfolding hex_of
hex_of-is_hex [] h = tt
hex_of-is_hex (x ∷ xs) h =
    let small = h.0 in
    (
      hex_char-is_hex (x / 16) (omega arith),
      (hex_char-is_hex (x % 16) (omega arith), hex_of-is_hex xs h.1),
    )

-- The hash of every text is 64 characters, each a digit or one of the letters a to f.
pub sha256_hex-is_hex :
    (bytes : Bytes)
    → (length (sha256_hex bytes) ≡ 64) × All (λ c. is_hex c ≡ true) (sha256_hex bytes)
unfolding sha256_hex finish
sha256_hex-is_hex bytes = digits (output _) (output-Four _)
  where
    digits :
        (cs : Bytes)
        → Four 32 cs
        → (length (hex_of cs) ≡ 64) × All (λ c. is_hex c ≡ true) (hex_of cs)
    digits cs h = (omega (arith, length-hex_of cs, h.0), hex_of-is_hex cs h.1)
