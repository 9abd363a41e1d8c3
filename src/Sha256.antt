-- ===== src/Sha256.antt =====
-- native/src/sha256.cpp and native/include/showmesh/sha256.h: SHA-256, fed in pieces. The numbers are
-- 32 bits wide and wrap; a list of at most 64 bytes stands for buffer_ up to bufferLength_, beyond
-- which the program never reads.
pub mod Stream
pub mod Padding
pub mod Hex
use Prim.Native.Nat.{bit_and, bit_or, bit_xor}
use showmesh_fpp_plugin.Base.{
  ℕ, zero, suc, ◌+◌, ◌-◌, ◌*◌, ◌/◌, ◌%◌, ◌^◌, ◌==◌, Bool, true, false, if◌then◌else◌, List, [], ◌∷◌,
  ◌++◌, length, get_or, Bytes,
}
use showmesh_fpp_plugin.Json.Number.{take, drop}
use showmesh_fpp_plugin.Json.Text.{hex_char}

abbrev pub round_constants : List ℕ
round_constants =
    0x428a2f98 ∷ 0x71374491 ∷ 0xb5c0fbcf ∷ 0xe9b5dba5 ∷ 0x3956c25b ∷ 0x59f111f1 ∷ 0x923f82a4
    ∷ 0xab1c5ed5 ∷ 0xd807aa98 ∷ 0x12835b01 ∷ 0x243185be ∷ 0x550c7dc3 ∷ 0x72be5d74 ∷ 0x80deb1fe
    ∷ 0x9bdc06a7 ∷ 0xc19bf174 ∷ 0xe49b69c1 ∷ 0xefbe4786 ∷ 0x0fc19dc6 ∷ 0x240ca1cc ∷ 0x2de92c6f
    ∷ 0x4a7484aa ∷ 0x5cb0a9dc ∷ 0x76f988da ∷ 0x983e5152 ∷ 0xa831c66d ∷ 0xb00327c8 ∷ 0xbf597fc7
    ∷ 0xc6e00bf3 ∷ 0xd5a79147 ∷ 0x06ca6351 ∷ 0x14292967 ∷ 0x27b70a85 ∷ 0x2e1b2138 ∷ 0x4d2c6dfc
    ∷ 0x53380d13 ∷ 0x650a7354 ∷ 0x766a0abb ∷ 0x81c2c92e ∷ 0x92722c85 ∷ 0xa2bfe8a1 ∷ 0xa81a664b
    ∷ 0xc24b8b70 ∷ 0xc76c51a3 ∷ 0xd192e819 ∷ 0xd6990624 ∷ 0xf40e3585 ∷ 0x106aa070 ∷ 0x19a4c116
    ∷ 0x1e376c08 ∷ 0x2748774c ∷ 0x34b0bcb5 ∷ 0x391c0cb3 ∷ 0x4ed8aa4a ∷ 0x5b9cca4f ∷ 0x682e6ff3
    ∷ 0x748f82ee ∷ 0x78a5636f ∷ 0x84c87814 ∷ 0x8cc70208 ∷ 0x90befffa ∷ 0xa4506ceb ∷ 0xbef9a3f7
    ∷ 0xc67178f2 ∷ []

pub record Words : Type 0 where
  pub a : ℕ
  pub b : ℕ
  pub c : ℕ
  pub d : ℕ
  pub e : ℕ
  pub f : ℕ
  pub g : ℕ
  pub h : ℕ

pub record Sha256 : Type 0 where
  pub state : Words
  pub buffer : Bytes
  pub total_bits : ℕ

abbrev pub block_length : ℕ
block_length = 64

unfoldable pub add_32 : ℕ → ℕ → ℕ
add_32 x y = (x + y) % 2 ^ 32

unfoldable pub rotr : ℕ → ℕ → ℕ
rotr x n = bit_or (x / 2 ^ n) (x * 2 ^ (32 - n) % 2 ^ 32)

unfoldable pub xor_3 : ℕ → ℕ → ℕ → ℕ
xor_3 x y z = bit_xor (bit_xor x y) z

abbrev pub initial : Words
initial = record {
  a = 0x6a09e667;
  b = 0xbb67ae85;
  c = 0x3c6ef372;
  d = 0xa54ff53a;
  e = 0x510e527f;
  f = 0x9b05688c;
  g = 0x1f83d9ab;
  h = 0x5be0cd19;
}

abbrev pub reset : Sha256
reset = record { state = initial; buffer = []; total_bits = 0 }

-- The first sixteen words of the schedule, the last first: four bytes each, the most significant first.
unfoldable pub block_words : List ℕ → Bytes → List ℕ
block_words w (x ∷ y ∷ z ∷ v ∷ rest) =
    block_words (bit_or (bit_or (bit_or (x * 2 ^ 24) (y * 2 ^ 16)) (z * 2 ^ 8)) v ∷ w) rest
block_words w rest = w

unfoldable pub next_word : List ℕ → ℕ
next_word w =
    let w15 = get_or w 14 0 in
    let w2 = get_or w 1 0 in
    let s0 = xor_3 (rotr w15 7) (rotr w15 18) (w15 / 2 ^ 3) in
    let s1 = xor_3 (rotr w2 17) (rotr w2 19) (w2 / 2 ^ 10) in
    add_32 (add_32 (add_32 (get_or w 15 0) s0) (get_or w 6 0)) s1

-- The other words, `rounds` of them.
unfoldable pub extend : ℕ → List ℕ → List ℕ
extend zero w = w
extend (suc rounds) w = extend rounds (next_word w ∷ w)

unfoldable pub reverse_onto : List ℕ → List ℕ → List ℕ
reverse_onto done [] = done
reverse_onto done (x ∷ xs) = reverse_onto (x ∷ done) xs

unfoldable pub schedule : Bytes → List ℕ
schedule block = reverse_onto [] (extend 48 (block_words [] block))

unfoldable pub round : ℕ → ℕ → Words → Words
round k w v =
    let s1 = xor_3 (rotr v.e 6) (rotr v.e 11) (rotr v.e 25) in
    let ch = bit_xor (bit_and v.e v.f) (bit_and (bit_xor v.e 0xffffffff) v.g) in
    let temp1 = add_32 (add_32 (add_32 (add_32 v.h s1) ch) k) w in
    let s0 = xor_3 (rotr v.a 2) (rotr v.a 13) (rotr v.a 22) in
    let maj = xor_3 (bit_and v.a v.b) (bit_and v.a v.c) (bit_and v.b v.c) in
    let temp2 = add_32 s0 maj in
    record {
      a = add_32 temp1 temp2;
      b = v.a;
      c = v.b;
      d = v.c;
      e = add_32 v.d temp1;
      f = v.e;
      g = v.f;
      h = v.g;
    }

unfoldable pub rounds_of : List ℕ → List ℕ → Words → Words
rounds_of (k ∷ ks) (w ∷ ws) v = rounds_of ks ws (round k w v)
rounds_of ks ws v = v

unfoldable pub add_words : Words → Words → Words
add_words s v = record {
  a = add_32 s.a v.a;
  b = add_32 s.b v.b;
  c = add_32 s.c v.c;
  d = add_32 s.d v.d;
  e = add_32 s.e v.e;
  f = add_32 s.f v.f;
  g = add_32 s.g v.g;
  h = add_32 s.h v.h;
}

unfoldable pub compress : Words → Bytes → Words
compress s block = add_words s (rounds_of round_constants (schedule block) s)

-- The end of a turn of update's loop, with the bytes that the buffer has now.
unfoldable pub settle : Sha256 → Bytes → Sha256
settle s bytes =
    if length bytes == block_length
    then record s { state = compress s.state bytes; buffer = [] }
    else record s { buffer = bytes }

-- update's loop; a turn takes at least one byte, so the length of the data is fuel enough.
unfoldable pub absorb : ℕ → Sha256 → Bytes → Sha256
absorb zero s bytes = s
absorb (suc fuel) s [] = s
absorb (suc fuel) s (x ∷ xs) =
    let room = block_length - length s.buffer in
    absorb fuel (settle s (s.buffer ++ take room (x ∷ xs))) (drop room (x ∷ xs))

unfoldable pub update : Sha256 → Bytes → Sha256
update s bytes =
    absorb (length bytes) (record s { total_bits = (s.total_bits + length bytes * 8) % 2 ^ 64 })
      bytes

-- `while (bufferLength_ != 56) update(&pad, 1)`.
unfoldable pub pad : ℕ → Sha256 → Sha256
pad zero s = s
pad (suc fuel) s =
    let padded = pad fuel (update s (0 ∷ [])) in if length s.buffer == 56 then s else padded

unfoldable pub length_bytes : ℕ → Bytes
length_bytes bits =
    (bits / 2 ^ 56 % 256)
    ∷ (bits / 2 ^ 48 % 256)
    ∷ (bits / 2 ^ 40 % 256)
    ∷ (bits / 2 ^ 32 % 256)
    ∷ (bits / 2 ^ 24 % 256)
    ∷ (bits / 2 ^ 16 % 256)
    ∷ (bits / 2 ^ 8 % 256)
    ∷ (bits % 256)
    ∷ []

unfoldable pub word_bytes : ℕ → Bytes
word_bytes x = (x / 2 ^ 24 % 256) ∷ (x / 2 ^ 16 % 256) ∷ (x / 2 ^ 8 % 256) ∷ (x % 256) ∷ []

unfoldable pub output : Words → Bytes
output s =
    word_bytes s.a
    ++ (word_bytes s.b
        ++ (word_bytes s.c
            ++ (word_bytes s.d
                ++ (word_bytes s.e ++ (word_bytes s.f ++ (word_bytes s.g ++ word_bytes s.h))))))

-- The state when the padding and the length have been taken in. A byte at a time fills a buffer of
-- less than 64 to 56 in at most 64 turns.
unfoldable pub finished : Sha256 → Sha256
finished s =
    let padded = pad 64 (update s (0x80 ∷ [])) in
    record (update padded (length_bytes s.total_bits)) { total_bits = padded.total_bits }

unfoldable pub finish : Sha256 → Bytes
finish s = output (finished s).state

unfoldable pub hex_of : Bytes → Bytes
hex_of [] = []
hex_of (x ∷ xs) = hex_char (x / 16) ∷ hex_char (x % 16) ∷ hex_of xs

unfoldable pub sha256_hex : Bytes → Bytes
sha256_hex bytes = hex_of (finish (update reset bytes))
