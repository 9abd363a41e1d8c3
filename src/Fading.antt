-- ===== src/Fading.antt =====
-- native/include/showmesh/fading_value.h: one percentage with an optional linear fade.
-- A C++ double is a value of an abstract type `Num` of finite doubles; `Double` lists the
-- operations that the source applies to it and the documented behaviour that the proofs use.
-- TimeMillis (std::int64_t) is ℤ.
pub mod Laws
use showmesh_fpp_plugin.Base.{
  ℤ, pos, ltb_ℤ, leb_ℤ, ◌+ℤ◌, ◌≤ℤ◌, Bool, true, false, ◌&&◌, ◌||◌, ◌≡◌, if◌then◌else◌, not,
}

abbrev pub IsPercent : ℤ → Type 0
IsPercent z = (pos 0 ≤ℤ z) × (z ≤ℤ pos 100)

-- Finite doubles: the comparison `<`, conversion from an integer, `+ - * /`, and `std::lround`.
pub record Double : Type 1 where
  pub Num : Type 0
  pub lt : Num → Num → Bool
  pub of_int : ℤ → Num
  pub add : Num → Num → Num
  pub sub : Num → Num → Num
  pub mul : Num → Num → Num
  pub div : Num → Num → Num
  pub lround : Num → ℤ
  -- `<` is a strict order on finite doubles.
  pub lt_irrefl : (a : Num) → lt a a ≡ false
  pub lt_asymm : (a b : Num) → lt a b ≡ true → lt b a ≡ false
  -- The integers from 0 to 100 are doubles: the conversion is exact, so it keeps their order and
  -- rounding gives them back.
  pub lt-of_int : (y z : ℤ) → IsPercent y → IsPercent z → lt (of_int y) (of_int z) ≡ ltb_ℤ y z
  pub lround-of_int : (z : ℤ) → IsPercent z → lround (of_int z) ≡ z
  -- Rounding keeps the order of the doubles from 0 to 100.
  pub lround_mono :
      (a b : Num)
      → lt a (of_int (pos 0)) ≡ false
      → lt b a ≡ false
      → lt (of_int (pos 100)) b ≡ false
      → lround a ≤ℤ lround b

-- The members of FadingValue.
pub record FadingValue (Num : Type 0) : Type 0 where
  pub start : Num
  pub target : Num
  pub start_millis : ℤ
  pub end_millis : ℤ

module _ {Num : Type 0} where
  unfoldable pub fading : FadingValue Num → Bool
  fading v = ltb_ℤ v.start_millis v.end_millis

  unfoldable pub fading_at : FadingValue Num → ℤ → Bool
  unfolding fading
  fading_at v now = fading v && ltb_ℤ now v.end_millis

  -- Also the constructor from one value.
  unfoldable pub settle : Num → FadingValue Num
  settle x = record { start = x; target = x; start_millis = pos 0; end_millis = pos 0 }

  unfoldable pub restore : Num → Num → ℤ → ℤ → FadingValue Num
  restore s t from till = record { start = s; target = t; start_millis = from; end_millis = till }

module _ (d : Double) where
  open d use {Num, of_int, add, sub, mul, div}

  -- start + (target - start) * (elapsed / span)
  unfoldable pub interpolate : FadingValue Num → ℤ → Num
  interpolate v now =
      let elapsed = sub (of_int now) (of_int v.start_millis) in
      let span = sub (of_int v.end_millis) (of_int v.start_millis) in
      add v.start (mul (sub v.target v.start) (div elapsed span))

  unfoldable pub value_at : FadingValue Num → ℤ → Num
  unfolding fading
  value_at v now =
      if not (fading v)
      then v.target
      else if leb_ℤ now v.start_millis
      then v.start
      else if leb_ℤ v.end_millis now
      then v.target
      else interpolate v now

  unfoldable pub fade_to : FadingValue Num → Num → ℤ → ℤ → FadingValue Num
  unfolding settle
  fade_to v target duration_millis now =
      let from = value_at v now in
      if leb_ℤ duration_millis (pos 0) then settle target else record {
        start = from;
        target = target;
        start_millis = now;
        end_millis = now +ℤ duration_millis;
      }

  unfoldable pub fade_between : FadingValue Num → Num → ℤ → ℤ → ℤ → FadingValue Num
  unfolding fade_to
  fade_between v target start_millis end_millis now =
      if leb_ℤ end_millis now || leb_ℤ end_millis start_millis
      then fade_to v target (pos 0) now
      else record {
        start = value_at v now;
        target = target;
        start_millis = if ltb_ℤ start_millis now then now else start_millis;
        end_millis = end_millis;
      }
