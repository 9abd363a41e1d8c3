-- ===== src/Codec/Exact.antt =====
-- The integers that a double holds exactly, as the codec's readers take them; names that differ and are
-- UTF-8, by a test.
use showmesh_fpp_plugin.Base.{
  ℕ, ℤ, pos, negsuc, ltb_ℤ, ltb, leb_ℤ, ◌≤◌, Bool, true, false, not, ◌&&◌, ◌≡◌, refl, [], ◌∷◌,
  Bytes, arith, eq_bytes, eq_bytes_iff,
}
use showmesh_fpp_plugin.Brightness.State.{max_weather_gate_revision}
use showmesh_fpp_plugin.Json.{Members, no_members, member_then}
use showmesh_fpp_plugin.Json.Number.{NumberText}
use showmesh_fpp_plugin.Json.Strings.{Utf8, no_bytes, one_byte}
use showmesh_fpp_plugin.Json.Readable.{IsReadBack, Absent, Distinct}
use showmesh_fpp_plugin.Codec.{
  Conversions, int_64_safe_magnitude, max_plausible_revision_value,
  max_plausible_schema_version_value, decoded, millis_of, count_of,
}

-- What C++ and IEEE 754 say of the integers that a double holds exactly: they are finite, whole, come back
-- from the conversion, and compare as they did. The codec's bounds are among them.
pub record ExactIntegers {Num : Type 0} (t : NumberText Num) (r : Conversions Num) : Type 0 where
  pub exact : ℤ → Bool
  pub finite-of_int : (z : ℤ) → exact z ≡ true → t.is_finite (r.of_int z) ≡ true
  pub floor-of_int : (z : ℤ) → exact z ≡ true → t.eq (r.of_int z) (r.floor (r.of_int z)) ≡ true
  pub to_int-of_int : (z : ℤ) → exact z ≡ true → r.to_int (r.of_int z) ≡ z
  pub lt-of_int :
      (a b : ℤ) → exact a ≡ true → exact b ≡ true → r.lt (r.of_int a) (r.of_int b) ≡ ltb_ℤ a b
  pub exact-zero : exact (pos 0) ≡ true
  pub exact-schema : exact (pos max_plausible_schema_version_value) ≡ true
  pub exact-revision : exact (pos max_plausible_revision_value) ≡ true
  pub exact-gate : exact (pos max_weather_gate_revision) ≡ true
  pub exact-least : exact (negsuc 3999999999999999999) ≡ true
  pub exact-most : exact (pos int_64_safe_magnitude) ≡ true

-- Names by a test.
abbrev pub absent : {Num : Type 0} → Bytes → Members Num → Bool
absent name no_members = true
absent name (member_then n v ms) = not (eq_bytes name n) && absent name ms

abbrev pub distinct : {Num : Type 0} → Members Num → Bool
distinct no_members = true
distinct (member_then name v ms) = absent name ms && distinct ms

absent-Absent :
    {Num : Type 0} (name : Bytes) (ms : Members Num) → absent name ms ≡ true → Absent name ms
absent-Absent name no_members h = tt
absent-Absent name (member_then n v ms) h =
    (λ e. different n e (ground arith), absent-Absent name ms (ground arith))
  where
    different : (n : Bytes) → name ≡ n → eq_bytes name n ≡ false → ⊥
    different n e k = let same = (eq_bytes_iff name n).1 e in cc

pub distinct-Distinct : {Num : Type 0} (ms : Members Num) → distinct ms ≡ true → Distinct ms
distinct-Distinct no_members h = tt
distinct-Distinct (member_then name v ms) h =
    (absent-Absent name ms (ground arith), distinct-Distinct ms (ground arith))

abbrev pub is_ascii : Bytes → Bool
is_ascii [] = true
is_ascii (c ∷ cs) = ltb c 128 && is_ascii cs

pub is_ascii-Utf8 : (cs : Bytes) → is_ascii cs ≡ true → Utf8 cs
is_ascii-Utf8 [] h = no_bytes
is_ascii-Utf8 (c ∷ cs) h = one_byte c cs (ground arith) (is_ascii-Utf8 cs (ground arith))

module _ {Num : Type 0} (t : NumberText Num) (r : Conversions Num) (x : ExactIntegers t r) where
  open t use {is_finite, eq}
  open r use {lt, of_int, floor, to_int}

  -- A time that the codec takes, and a count of at most `max_value`.
  abbrev pub IsTime : ℤ → Type 0
  IsTime z =
      (x.exact z ≡ true)
      × (leb_ℤ (negsuc 3999999999999999999) z && leb_ℤ z (pos int_64_safe_magnitude) ≡ true)
      × IsReadBack t (of_int z)

  abbrev pub IsCount : ℕ → ℕ → Type 0
  IsCount max_value n = (x.exact (pos n) ≡ true) × (n ≤ max_value) × IsReadBack t (of_int (pos n))

  pub millis_of-of_int :
      (name : Bytes) (z : ℤ) → IsTime z → millis_of t r name (of_int z) ≡ decoded z
  unfolding millis_of
  millis_of-of_int name z h =
      let low : ltb_ℤ z (negsuc 3999999999999999999) ≡ false = ground (arith, h.1) in
      let high : ltb_ℤ (pos int_64_safe_magnitude) z ≡ false = ground (arith, h.1) in
      rw
        (
          x.finite-of_int z h.0,
          x.lt-of_int z _ h.0 x.exact-least,
          low,
          x.lt-of_int _ z x.exact-most h.0,
          high,
          x.floor-of_int z h.0,
          x.to_int-of_int z h.0,
        )
        refl

  pub count_of-of_int :
      (name : Bytes) (max_value n : ℕ)
      → x.exact (pos max_value) ≡ true
      → IsCount max_value n
      → count_of t r name max_value (of_int (pos n)) ≡ decoded (of_int (pos n))
  unfolding count_of
  count_of-of_int name max_value n e h =
      let low : ltb_ℤ (pos n) (pos 0) ≡ false = ground arith in
      let high : ltb_ℤ (pos max_value) (pos n) ≡ false = ground (arith, h.1) in
      rw
        (
          x.finite-of_int (pos n) h.0,
          x.lt-of_int (pos n) (pos 0) h.0 x.exact-zero,
          low,
          x.lt-of_int (pos max_value) (pos n) e h.0,
          high,
          x.floor-of_int (pos n) h.0,
        )
        refl
