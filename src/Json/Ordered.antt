-- ===== src/Json/Ordered.antt =====
-- The order of the canonical text, described apart from its sort: RFC 8785's order of the UTF-16 code
-- units as a relation, values whose objects' members are in it, and values that differ only in the
-- order of their members.
use showmesh_fpp_plugin.Base.{
  ℕ, ◌<◌, true, false, ◌≡◌, refl, ap, ◌⊎◌, inl, inr, Bool-cases, List, [], ◌∷◌, some, Bytes, arith,
}
use showmesh_fpp_plugin.Json.{
  Value, Values, Members, null_value, bool_value, number_value, string_value, array_value,
  object_value, no_values, value_then, no_members, member_then, ok,
}
use showmesh_fpp_plugin.Json.Number.{NumberText}
use showmesh_fpp_plugin.Json.Text.{lt_units, less_utf16, to_utf16}
use showmesh_fpp_plugin.Json.Parser.{parse}
use showmesh_fpp_plugin.Json.Writer.{
  insert_member, sort_members, sort_value, sort_values, sort_inner, canonicalize,
}
use showmesh_fpp_plugin.Json.Readable.{IsReadable}
use showmesh_fpp_plugin.Json.Canonical.{parse-canonicalize}

-- The strict lexicographic order of sequences of code units.
pub data Precedes : List ℕ → List ℕ → Type 0 where
  shorter : {y : ℕ} {ys : List ℕ} → Precedes [] (y ∷ ys)
  smaller : {x y : ℕ} {xs ys : List ℕ} → x < y → Precedes (x ∷ xs) (y ∷ ys)
  later : {x : ℕ} {xs ys : List ℕ} → Precedes xs ys → Precedes (x ∷ xs) (x ∷ ys)

-- The name's code units precede those of the other, or are the same.
abbrev pub AtMost : Bytes → Bytes → Type 0
AtMost a b = Precedes (to_utf16 0 a) (to_utf16 0 b) ⊎ (to_utf16 0 a ≡ to_utf16 0 b)

abbrev pub AtMostFirst : {Num : Type 0} → Bytes → Members Num → Type 0
AtMostFirst name no_members = Unit
AtMostFirst name (member_then n v ms) = AtMost name n

-- Each name is at most the next one.
abbrev pub IsAscending : {Num : Type 0} → Members Num → Type 0
IsAscending no_members = Unit
IsAscending (member_then name v ms) = AtMostFirst name ms × IsAscending ms

-- The members of every object, at any depth, are in ascending order.
unfoldable mutual
  pub IsOrdered : {Num : Type 0} → Value Num → Type 0
  IsOrdered null_value = Unit
  IsOrdered (bool_value b) = Unit
  IsOrdered (number_value n) = Unit
  IsOrdered (string_value s) = Unit
  IsOrdered (array_value vs) = AreOrdered vs
  IsOrdered (object_value ms) = IsAscending ms × MembersOrdered ms

  pub AreOrdered : {Num : Type 0} → Values Num → Type 0
  AreOrdered no_values = Unit
  AreOrdered (value_then v vs) = IsOrdered v × AreOrdered vs

  pub MembersOrdered : {Num : Type 0} → Members Num → Type 0
  MembersOrdered no_members = Unit
  MembersOrdered (member_then name v ms) = IsOrdered v × MembersOrdered ms

-- The same value but for the order of the members of its objects.
mutual
  pub data Rearranged {Num : Type 0} : Value Num → Value Num → Type 0 where
    same : {v : Value Num} → Rearranged v v
    arrays : {vs ws : Values Num} → Pointwise vs ws → Rearranged (array_value vs) (array_value ws)
    objects :
        {ms ns : Members Num} → Permuted ms ns → Rearranged (object_value ms) (object_value ns)

  pub data Pointwise {Num : Type 0} : Values Num → Values Num → Type 0 where
    nil : Pointwise no_values no_values
    cons :
        {v w : Value Num} {vs ws : Values Num}
        → Rearranged v w
        → Pointwise vs ws
        → Pointwise (value_then v vs) (value_then w ws)

  pub data Permuted {Num : Type 0} : Members Num → Members Num → Type 0 where
    still : {ms : Members Num} → Permuted ms ms
    keep :
        {name : Bytes} {v w : Value Num} {ms ns : Members Num}
        → Rearranged v w
        → Permuted ms ns
        → Permuted (member_then name v ms) (member_then name w ns)
    swap :
        {a b : Bytes} {v w : Value Num} {ms : Members Num}
        → Permuted (member_then a v (member_then b w ms)) (member_then b w (member_then a v ms))
    trans : {ls ms ns : Members Num} → Permuted ls ms → Permuted ms ns → Permuted ls ns

lt_units-cases :
    (x y : ℕ) (xs ys : List ℕ)
    → lt_units (x ∷ xs) (y ∷ ys) ≡ true
    → (x < y) ⊎ ((x ≡ y) × (lt_units xs ys ≡ true))
unfolding lt_units
lt_units-cases x y xs ys h = ground arith

not_lt_units-cases :
    (x y : ℕ) (xs ys : List ℕ)
    → lt_units (y ∷ ys) (x ∷ xs) ≡ false
    → (x < y) ⊎ ((x ≡ y) × (lt_units ys xs ≡ false))
unfolding lt_units
not_lt_units-cases x y xs ys h = ground arith

lt_units-Precedes : (xs ys : List ℕ) → lt_units xs ys ≡ true → Precedes xs ys
unfolding lt_units
lt_units-Precedes [] [] h = absurd (ground arith)
lt_units-Precedes [] (y ∷ ys) h = shorter
lt_units-Precedes (x ∷ xs) [] h = absurd (ground arith)
lt_units-Precedes (x ∷ xs) (y ∷ ys) h = elim (lt_units-cases x y xs ys h) [
  | inl k ↦ smaller k
  | inr k ↦ rw k.0 (later (lt_units-Precedes xs ys k.1))
]

not_lt_units-AtMost : (xs ys : List ℕ) → lt_units ys xs ≡ false → Precedes xs ys ⊎ (xs ≡ ys)
unfolding lt_units
not_lt_units-AtMost [] [] h = inr refl
not_lt_units-AtMost [] (y ∷ ys) h = inl shorter
not_lt_units-AtMost (x ∷ xs) [] h = absurd (ground arith)
not_lt_units-AtMost (x ∷ xs) (y ∷ ys) h = elim (not_lt_units-cases x y xs ys h) [
  | inl k ↦ inl (smaller k)
  | inr k ↦ rw k.0 (elim (not_lt_units-AtMost xs ys k.1) [
    | inl m ↦ inl (later m)
    | inr m ↦ inr (ap (λ zs. y ∷ zs) m)
  ])
]

less_utf16-AtMost : (a b : Bytes) → less_utf16 a b ≡ true → AtMost a b
unfolding less_utf16
less_utf16-AtMost a b h = inl (lt_units-Precedes (to_utf16 0 a) (to_utf16 0 b) h)

not_less_utf16-AtMost : (a b : Bytes) → less_utf16 b a ≡ false → AtMost a b
unfolding less_utf16
not_less_utf16-AtMost a b h = not_lt_units-AtMost (to_utf16 0 a) (to_utf16 0 b) h

module _ {Num : Type 0} where
  AtMostFirst-insert_member :
      (first name : Bytes) (v : Value Num) (ms : Members Num)
      → AtMost first name
      → AtMostFirst first ms
      → AtMostFirst first (insert_member name v ms)
  unfolding insert_member
  AtMostFirst-insert_member first name v no_members h k = h
  AtMostFirst-insert_member first name v (member_then n w ms) h k =
      elim (Bool-cases (less_utf16 n name)) [ inl e ↦ rw e k | inr e ↦ rw e h ]

  insert_member-IsAscending :
      (name : Bytes) (v : Value Num) (ms : Members Num)
      → IsAscending ms
      → IsAscending (insert_member name v ms)
  unfolding insert_member
  insert_member-IsAscending name v no_members h = (tt, tt)
  insert_member-IsAscending name v (member_then n w ms) h =
      let later = insert_member-IsAscending name v ms h.1 in
      elim (Bool-cases (less_utf16 n name)) [
        | inl e ↦
            rw e (AtMostFirst-insert_member n name v ms (less_utf16-AtMost n name e) h.0, later)
        | inr e ↦ rw e (not_less_utf16-AtMost name n e, h)
      ]

  sort_members-IsAscending : (ms : Members Num) → IsAscending (sort_members ms)
  unfolding sort_members
  sort_members-IsAscending no_members = tt
  sort_members-IsAscending (member_then name v ms) =
      insert_member-IsAscending name v (sort_members ms) (sort_members-IsAscending ms)

  insert_member-MembersOrdered :
      (name : Bytes) (v : Value Num) (ms : Members Num)
      → IsOrdered v
      → MembersOrdered ms
      → MembersOrdered (insert_member name v ms)
  unfolding insert_member IsOrdered
  insert_member-MembersOrdered name v no_members h k = (h, tt)
  insert_member-MembersOrdered name v (member_then n w ms) h k =
      let later = insert_member-MembersOrdered name v ms h k.1 in
      elim (Bool-cases (less_utf16 n name)) [ inl e ↦ rw e (k.0, later) | inr e ↦ rw e (h, k) ]

  sort_members-MembersOrdered :
      (ms : Members Num) → MembersOrdered ms → MembersOrdered (sort_members ms)
  unfolding sort_members IsOrdered
  sort_members-MembersOrdered no_members h = tt
  sort_members-MembersOrdered (member_then name v ms) h =
      insert_member-MembersOrdered name v (sort_members ms) h.0 (sort_members-MembersOrdered ms h.1)

  mutual
    unfolding sort_value IsOrdered

    sort_value-IsOrdered : (v : Value Num) → IsOrdered (sort_value v)
    sort_value-IsOrdered null_value = tt
    sort_value-IsOrdered (bool_value b) = tt
    sort_value-IsOrdered (number_value n) = tt
    sort_value-IsOrdered (string_value s) = tt
    sort_value-IsOrdered (array_value vs) = sort_values-AreOrdered vs
    sort_value-IsOrdered (object_value ms) = (
      sort_members-IsAscending (sort_inner ms),
      sort_members-MembersOrdered (sort_inner ms) (sort_inner-MembersOrdered ms),
    )

    sort_values-AreOrdered : (vs : Values Num) → AreOrdered (sort_values vs)
    sort_values-AreOrdered no_values = tt
    sort_values-AreOrdered (value_then v vs) = (sort_value-IsOrdered v, sort_values-AreOrdered vs)

    sort_inner-MembersOrdered : (ms : Members Num) → MembersOrdered (sort_inner ms)
    sort_inner-MembersOrdered no_members = tt
    sort_inner-MembersOrdered (member_then name v ms) =
        (sort_value-IsOrdered v, sort_inner-MembersOrdered ms)

  insert_member-Permuted :
      (name : Bytes) (v : Value Num) (ms : Members Num)
      → Permuted (member_then name v ms) (insert_member name v ms)
  unfolding insert_member
  insert_member-Permuted name v no_members = still
  insert_member-Permuted name v (member_then n w ms) =
      let deeper = insert_member-Permuted name v ms in
      elim (Bool-cases (less_utf16 n name)) [
        | inl e ↦ rw e (trans swap (keep same deeper))
        | inr e ↦ rw e still
      ]

  sort_members-Permuted : (ms : Members Num) → Permuted ms (sort_members ms)
  unfolding sort_members
  sort_members-Permuted no_members = still
  sort_members-Permuted (member_then name v ms) =
      trans (keep same (sort_members-Permuted ms)) (insert_member-Permuted name v (sort_members ms))

  mutual
    unfolding sort_value

    sort_value-Rearranged : (v : Value Num) → Rearranged v (sort_value v)
    sort_value-Rearranged null_value = same
    sort_value-Rearranged (bool_value b) = same
    sort_value-Rearranged (number_value n) = same
    sort_value-Rearranged (string_value s) = same
    sort_value-Rearranged (array_value vs) = arrays (sort_values-Pointwise vs)
    sort_value-Rearranged (object_value ms) =
        objects (trans (sort_inner-Permuted ms) (sort_members-Permuted (sort_inner ms)))

    sort_values-Pointwise : (vs : Values Num) → Pointwise vs (sort_values vs)
    sort_values-Pointwise no_values = nil
    sort_values-Pointwise (value_then v vs) =
        cons (sort_value-Rearranged v) (sort_values-Pointwise vs)

    sort_inner-Permuted : (ms : Members Num) → Permuted ms (sort_inner ms)
    sort_inner-Permuted no_members = still
    sort_inner-Permuted (member_then name v ms) =
        keep (sort_value-Rearranged v) (sort_inner-Permuted ms)

module _ {Num : Type 0} (t : NumberText Num) where
  -- A value of UTF-8 strings, of distinct member names, of a nesting of at most 200 and of numbers
  -- whose text strtod reads back, has a canonical text, and that text is parsed to its end, to the
  -- value with the members of its objects rearranged: at every depth each name's UTF-16 code units
  -- precede, lexicographically, those of the next name or are the same, and no member is lost, added or
  -- changed otherwise.
  pub parse-canonicalize-IsOrdered :
      (v : Value Num)
      → IsReadable t 0 v
      → (text : Bytes) × (w : Value Num) × (canonicalize t v ≡ some text)
        × (parse t text ≡ ok w [])
        × IsOrdered w
        × Rearranged v w
  parse-canonicalize-IsOrdered v r =
      let p = parse-canonicalize t v r in
      (p.0, sort_value v, p.1, p.2, sort_value-IsOrdered v, sort_value-Rearranged v)
