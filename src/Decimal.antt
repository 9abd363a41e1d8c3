-- ===== src/Decimal.antt =====
-- The numbers in text: std::to_string and the digit loop of strtoull.
use showmesh_fpp_plugin.Base.{
  inl, inr, ℕ, zero, suc, ◌+◌, ◌-◌, ◌*◌, ◌/◌, ◌%◌, ◌^◌, ◌≤◌, ◌<◌, ltb, leb, Bool, true, false, ◌&&◌,
  ◌≡◌, refl, sym, ◌∙◌, ap, subst, if◌then◌else◌, List, [], ◌∷◌, ◌++◌, Bytes, All, null, length,
  arith, Bool-cases, ltb→lt, ltb-false,
}

unfoldable pub is_digit : ℕ → Bool
is_digit c = leb 48 c && leb c 57

unfoldable pub all_digits : Bytes → Bool
all_digits [] = true
all_digits (c ∷ cs) = is_digit c && all_digits cs

unfoldable pub show_fuel : ℕ → ℕ → Bytes
show_fuel zero n = []
show_fuel (suc fuel) n =
    let rest = show_fuel fuel (n / 10) in
    if ltb n 10 then (48 + n) ∷ [] else rest ++ ((48 + n % 10) ∷ [])

-- A 64-bit number has at most twenty digits.
unfoldable pub to_string : ℕ → Bytes
to_string n = show_fuel 20 n

-- The number the leading digits spell, after `acc`, and the text that follows them.
unfoldable pub scan_digits : ℕ → Bytes → ℕ × Bytes
scan_digits acc [] = (acc, [])
scan_digits acc (c ∷ cs) =
    let rest = scan_digits (acc * 10 + (c - 48)) cs in if is_digit c then rest else (acc, c ∷ cs)

append_assoc : {A : Type 0} (xs ys zs : List A) → (xs ++ ys) ++ zs ≡ xs ++ (ys ++ zs)
append_assoc [] ys zs = refl
append_assoc (x ∷ xs) ys zs = ap (λ t. x ∷ t) (append_assoc xs ys zs)

digit_code : (d : ℕ) → d < 10 → is_digit (48 + d) ≡ true
unfolding is_digit
digit_code d h = ground arith

scan-digit :
    (acc d : ℕ) (rest : Bytes)
    → d < 10
    → scan_digits acc ((48 + d) ∷ rest) ≡ scan_digits (acc * 10 + d) rest
unfolding scan_digits
scan-digit acc d rest h = rw (digit_code d h, sub d)
  where
    sub : (d : ℕ) → (48 + d) - 48 ≡ d
    sub d = omega arith

div_lt : (n x : ℕ) → n < 10 * x → n / 10 < x
div_lt n x h = omega arith

mod_lt : (n : ℕ) → n % 10 < 10
mod_lt n = omega arith

div_mod : (n : ℕ) → n / 10 * 10 + n % 10 ≡ n
div_mod n = omega arith

zero_times : (n : ℕ) → 0 * 10 + n ≡ n
zero_times n = omega arith

null-append : (xs : Bytes) (c : ℕ) → null (xs ++ (c ∷ [])) ≡ false
null-append [] c = refl
null-append (x ∷ xs) c = refl

show-digit : (fuel n : ℕ) → n < 10 → show_fuel (suc fuel) n ≡ (48 + n) ∷ []
unfolding show_fuel
show-digit fuel n h = ground arith

show-digits :
    (fuel n : ℕ) → 10 ≤ n → show_fuel (suc fuel) n ≡ show_fuel fuel (n / 10) ++ ((48 + n % 10) ∷ [])
unfolding show_fuel
show-digits fuel n h = ground arith

pub scan-show :
    (fuel n : ℕ) (rest : Bytes)
    → n < 10 ^ fuel
    → scan_digits 0 (show_fuel fuel n ++ rest) ≡ scan_digits n rest
scan-show zero n rest h = unfold show_fuel in ap (λ k. scan_digits k rest) (omega arith)
scan-show (suc fuel) n rest h = elim (Bool-cases (ltb n 10)) [
  | inl small ↦
      subst (λ t. scan_digits 0 (t ++ rest) ≡ scan_digits n rest)
        (sym (show-digit fuel n (ltb→lt n 10 small)))
        (scan-digit 0 n rest (ltb→lt n 10 small) ∙ ap (λ k. scan_digits k rest) (zero_times n))
  | inr large ↦
      subst (λ t. scan_digits 0 (t ++ rest) ≡ scan_digits n rest)
        (sym (show-digits fuel n (ltb-false n 10 large)))
        (ap (scan_digits 0) (append_assoc (show_fuel fuel (n / 10)) ((48 + n % 10) ∷ []) rest)
          ∙ scan-show fuel (n / 10) ((48 + n % 10) ∷ rest) (div_lt n (10 ^ fuel) (omega arith))
          ∙ scan-digit (n / 10) (n % 10) rest (mod_lt n)
          ∙ ap (λ k. scan_digits k rest) (div_mod n))
]

abbrev pub IsDigits : Bytes → Type 0
IsDigits cs = All (λ c. is_digit c ≡ true) cs

IsDigits-append : (xs ys : Bytes) → IsDigits xs → IsDigits ys → IsDigits (xs ++ ys)
IsDigits-append [] ys h k = k
IsDigits-append (x ∷ xs) ys h k = (h.0, IsDigits-append xs ys h.1 k)

pub show-IsDigits : (fuel n : ℕ) → IsDigits (show_fuel fuel n)
show-IsDigits zero n = unfold show_fuel in tt
show-IsDigits (suc fuel) n = elim (Bool-cases (ltb n 10)) [
  | inl small ↦
      subst IsDigits (sym (show-digit fuel n (ltb→lt n 10 small)))
        (digit_code n (ltb→lt n 10 small), tt)
  | inr large ↦ subst IsDigits (sym (show-digits fuel n (ltb-false n 10 large))) (
      IsDigits-append (show_fuel fuel (n / 10)) ((48 + n % 10) ∷ []) (show-IsDigits fuel (n / 10))
        (digit_code (n % 10) (mod_lt n), tt))
]

pub null-show : (fuel n : ℕ) → null (show_fuel (suc fuel) n) ≡ false
null-show fuel n = elim (Bool-cases (ltb n 10)) [
  | inl small ↦ ap null (show-digit fuel n (ltb→lt n 10 small))
  | inr large ↦
      ap null (show-digits fuel n (ltb-false n 10 large))
      ∙ null-append (show_fuel fuel (n / 10)) (48 + n % 10)
]

pub digits-all_digits : (cs : Bytes) → IsDigits cs → all_digits cs ≡ true
unfolding all_digits
digits-all_digits [] h = refl
digits-all_digits (c ∷ cs) h = rw (h.0, digits-all_digits cs h.1)

append_nil : (cs : Bytes) → cs ++ [] ≡ cs
append_nil [] = refl
append_nil (c ∷ cs) = ap (λ t. c ∷ t) (append_nil cs)

pub scan-to_string : (value : ℕ) → value < 2 ^ 64 → scan_digits 0 (to_string value) ≡ (value, [])
unfolding to_string scan_digits
scan-to_string value h =
    ap (scan_digits 0) (sym (append_nil (to_string value))) ∙ scan-show 20 value [] (omega arith)

length-snoc : (xs : Bytes) (c : ℕ) → length (xs ++ (c ∷ [])) ≡ suc (length xs)
length-snoc [] c = refl
length-snoc (x ∷ xs) c = ap suc (length-snoc xs c)

pub length-show : (fuel digits n : ℕ) → n < 10 ^ suc digits → length (show_fuel fuel n) ≤ suc digits
length-show zero digits n h = unfold show_fuel in omega arith
length-show (suc fuel) zero n h =
    subst (λ t. length t ≤ 1) (sym (show-digit fuel n (omega arith))) (omega arith)
length-show (suc fuel) (suc digits) n h = elim (Bool-cases (ltb n 10)) [
  | inl small ↦
      subst (λ t. length t ≤ suc (suc digits)) (sym (show-digit fuel n (ltb→lt n 10 small)))
        (omega arith)
  | inr large ↦
      subst (λ m. m ≤ suc (suc digits))
        (sym (
          ap length (show-digits fuel n (ltb-false n 10 large))
          ∙ length-snoc (show_fuel fuel (n / 10)) (48 + n % 10)))
        (suc_le (length-show fuel digits (n / 10) (div_lt n (10 ^ suc digits) (omega arith))))
]
  where
    suc_le : {m n : ℕ} → m ≤ n → suc m ≤ suc n
    suc_le h = omega arith
