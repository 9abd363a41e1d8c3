-- ===== src/Json/SortedOnce.antt =====
-- Members that are in order stay as they are: sorting twice is sorting once.
use showmesh_fpp_plugin.Base.{
  ℕ, true, false, ◌≡◌, refl, ◌∙◌, ap, ap₂, List, [], ◌∷◌, some, Bytes, inl, inr, Bool-cases, arith,
}
use showmesh_fpp_plugin.Json.{
  Value, Values, Members, null_value, bool_value, number_value, string_value, array_value,
  object_value, no_values, value_then, no_members, member_then,
}
use showmesh_fpp_plugin.Json.Number.{NumberText}
use showmesh_fpp_plugin.Json.Text.{lt_units, less_utf16, to_utf16}
use showmesh_fpp_plugin.Json.Writer.{
  insert_member, sort_members, sort_value, sort_values, sort_inner, canonicalize, canonicalize_text,
  canonical_of, write_sorted,
}
use showmesh_fpp_plugin.Json.Readable.{IsReadable}
use showmesh_fpp_plugin.Json.Canonical.{parse-canonicalize}

lt_units_asym : (xs ys : List ℕ) → lt_units xs ys ≡ true → lt_units ys xs ≡ false
unfolding lt_units
lt_units_asym [] [] h = refl
lt_units_asym [] (y ∷ ys) h = refl
lt_units_asym (x ∷ xs) [] h = cc
lt_units_asym (x ∷ xs) (y ∷ ys) h =
    let rest : (lt_units xs ys ≡ true) → lt_units ys xs ≡ false = lt_units_asym xs ys in
    ground (arith, rest)

less_utf16_asym : (a b : Bytes) → less_utf16 a b ≡ true → less_utf16 b a ≡ false
unfolding less_utf16
less_utf16_asym a b h = lt_units_asym (to_utf16 0 a) (to_utf16 0 b) h

module _ {Num : Type 0} where
  -- No member comes before one that is smaller, of those next to each other.
  abbrev AtMost : Bytes → Members Num → Type 0
  AtMost name no_members = Unit
  AtMost name (member_then n v ms) = less_utf16 n name ≡ false

  abbrev InOrder : Members Num → Type 0
  InOrder no_members = Unit
  InOrder (member_then name v ms) = AtMost name ms × InOrder ms

  AtMost-insert_member :
      (first name : Bytes) (v : Value Num) (ms : Members Num)
      → less_utf16 first name ≡ true
      → AtMost first ms
      → AtMost first (insert_member name v ms)
  unfolding insert_member
  AtMost-insert_member first name v no_members h k = less_utf16_asym first name h
  AtMost-insert_member first name v (member_then n w ms) h k =
      elim (Bool-cases (less_utf16 n name)) [
        | inl e ↦ rw e k
        | inr e ↦ rw e (less_utf16_asym first name h)
      ]

  insert_member-InOrder :
      (name : Bytes) (v : Value Num) (ms : Members Num)
      → InOrder ms
      → InOrder (insert_member name v ms)
  unfolding insert_member
  insert_member-InOrder name v no_members h = (tt, tt)
  insert_member-InOrder name v (member_then n w ms) h =
      let later = insert_member-InOrder name v ms h.1 in
      elim (Bool-cases (less_utf16 n name)) [
        | inl e ↦ rw e (AtMost-insert_member n name v ms e h.0, later)
        | inr e ↦ rw e (e, h)
      ]

  sort_members-InOrder : (ms : Members Num) → InOrder (sort_members ms)
  unfolding sort_members
  sort_members-InOrder no_members = tt
  sort_members-InOrder (member_then name v ms) =
      insert_member-InOrder name v (sort_members ms) (sort_members-InOrder ms)

  insert_member_first :
      (name : Bytes) (v : Value Num) (ms : Members Num)
      → AtMost name ms
      → insert_member name v ms ≡ member_then name v ms
  unfolding insert_member
  insert_member_first name v no_members h = refl
  insert_member_first name v (member_then n w ms) h = rw h refl

  sort_members_fixed : (ms : Members Num) → InOrder ms → sort_members ms ≡ ms
  unfolding sort_members
  sort_members_fixed no_members h = refl
  sort_members_fixed (member_then name v ms) h =
      rw (sort_members_fixed ms h.1) (insert_member_first name v ms h.0)

  sort_inner-insert_member :
      (name : Bytes) (v : Value Num) (ms : Members Num)
      → sort_inner (insert_member name v ms) ≡ insert_member name (sort_value v) (sort_inner ms)
  unfolding insert_member sort_value
  sort_inner-insert_member name v no_members = refl
  sort_inner-insert_member name v (member_then n w ms) =
      let later = sort_inner-insert_member name v ms in
      elim (Bool-cases (less_utf16 n name)) [
        | inl e ↦ rw e (ap (λ x. member_then n (sort_value w) x) later)
        | inr e ↦ rw e refl
      ]

  sort_inner-sort_members :
      (ms : Members Num) → sort_inner (sort_members ms) ≡ sort_members (sort_inner ms)
  unfolding sort_members sort_value
  sort_inner-sort_members no_members = refl
  sort_inner-sort_members (member_then name v ms) =
      sort_inner-insert_member name v (sort_members ms)
      ∙ ap (λ x. insert_member name (sort_value v) x) (sort_inner-sort_members ms)

  mutual
    unfolding sort_value

    sort_value-sort_value : (v : Value Num) → sort_value (sort_value v) ≡ sort_value v
    sort_value-sort_value null_value = refl
    sort_value-sort_value (bool_value b) = refl
    sort_value-sort_value (number_value n) = refl
    sort_value-sort_value (string_value s) = refl
    sort_value-sort_value (array_value vs) = ap array_value (sort_values-sort_values vs)
    sort_value-sort_value (object_value ms) = ap object_value (
        ap sort_members (sort_inner-sort_members (sort_inner ms))
        ∙ ap (λ x. sort_members (sort_members x)) (sort_inner-sort_inner ms)
        ∙ sort_members_fixed (sort_members (sort_inner ms)) (sort_members-InOrder (sort_inner ms)))

    sort_values-sort_values : (vs : Values Num) → sort_values (sort_values vs) ≡ sort_values vs
    sort_values-sort_values no_values = refl
    sort_values-sort_values (value_then v vs) =
        ap₂ value_then (sort_value-sort_value v) (sort_values-sort_values vs)

    sort_inner-sort_inner : (ms : Members Num) → sort_inner (sort_inner ms) ≡ sort_inner ms
    sort_inner-sort_inner no_members = refl
    sort_inner-sort_inner (member_then name v ms) =
        ap₂ (λ w x. member_then name w x) (sort_value-sort_value v) (sort_inner-sort_inner ms)

module _ {Num : Type 0} (t : NumberText Num) where
  -- The canonical text of such a value is its own canonical text, so a definition that is stored in
  -- canonical form, read and written again keeps its bytes and its hash.
  pub canonicalize_text-canonicalize :
      (v : Value Num)
      → IsReadable t 0 v
      → (text : Bytes) × (canonicalize t v ≡ some text) × (canonicalize_text t text ≡ some text)
  unfolding canonicalize canonicalize_text canonical_of
  canonicalize_text-canonicalize v r =
      let p = parse-canonicalize t v r in
      (
        p.0,
        p.1,
        ap (λ x. canonical_of t x) p.2 ∙ ap (λ w. write_sorted t w) (sort_value-sort_value v) ∙ p.1,
      )
