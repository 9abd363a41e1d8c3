-- ===== src/Json/Canonical.antt =====
-- The canonical text: its objects' members are in order, and it is parsed to the value in that order.
use showmesh_fpp_plugin.Base.{ℕ, suc, ◌≡◌, ◌≢◌, sym, [], some, Bytes, inl, inr, Bool-cases}
use showmesh_fpp_plugin.Json.{
  Value, Values, Members, null_value, bool_value, number_value, string_value, array_value,
  object_value, no_values, value_then, no_members, member_then, ok,
}
use showmesh_fpp_plugin.Json.Number.{NumberText}
use showmesh_fpp_plugin.Json.Text.{less_utf16}
use showmesh_fpp_plugin.Json.Strings.{Utf8}
use showmesh_fpp_plugin.Json.Parser.{parse}
use showmesh_fpp_plugin.Json.Writer.{
  insert_member, sort_members, sort_value, sort_values, sort_inner, canonicalize,
}
use showmesh_fpp_plugin.Json.Readable.{IsReadable, AreReadable, MembersReadable, Absent, Distinct}
use showmesh_fpp_plugin.Json.RoundTrip.{parse-write_sorted, write_sorted-some}

module _ {Num : Type 0} where
  Absent-insert_member :
      (other name : Bytes) (v : Value Num) (ms : Members Num)
      → other ≢ name
      → Absent other ms
      → Absent other (insert_member name v ms)
  unfolding insert_member
  Absent-insert_member other name v no_members h k = (h, tt)
  Absent-insert_member other name v (member_then n w ms) h k =
      let later = Absent-insert_member other name v ms h k.1 in
      elim (Bool-cases (less_utf16 n name)) [ inl e ↦ rw e (k.0, later) | inr e ↦ rw e (h, k) ]

  Distinct-insert_member :
      (name : Bytes) (v : Value Num) (ms : Members Num)
      → Absent name ms
      → Distinct ms
      → Distinct (insert_member name v ms)
  unfolding insert_member
  Distinct-insert_member name v no_members h k = (tt, tt)
  Distinct-insert_member name v (member_then n w ms) h k =
      let later = Distinct-insert_member name v ms h.1 k.1 in
      elim (Bool-cases (less_utf16 n name)) [
        | inl e ↦ rw e (Absent-insert_member n name v ms (λ p. h.0 (sym p)) k.0, later)
        | inr e ↦ rw e (h, k)
      ]

  Absent-sort_members :
      (other : Bytes) (ms : Members Num) → Absent other ms → Absent other (sort_members ms)
  unfolding sort_members
  Absent-sort_members other no_members h = tt
  Absent-sort_members other (member_then name v ms) h =
      Absent-insert_member other name v (sort_members ms) h.0 (Absent-sort_members other ms h.1)

  Distinct-sort_members : (ms : Members Num) → Distinct ms → Distinct (sort_members ms)
  unfolding sort_members
  Distinct-sort_members no_members h = tt
  Distinct-sort_members (member_then name v ms) h =
      Distinct-insert_member name v (sort_members ms) (Absent-sort_members name ms h.0)
        (Distinct-sort_members ms h.1)

  Absent-sort_inner :
      (other : Bytes) (ms : Members Num) → Absent other ms → Absent other (sort_inner ms)
  unfolding sort_value
  Absent-sort_inner other no_members h = tt
  Absent-sort_inner other (member_then name v ms) h = (h.0, Absent-sort_inner other ms h.1)

  Distinct-sort_inner : (ms : Members Num) → Distinct ms → Distinct (sort_inner ms)
  unfolding sort_value
  Distinct-sort_inner no_members h = tt
  Distinct-sort_inner (member_then name v ms) h =
      (Absent-sort_inner name ms h.0, Distinct-sort_inner ms h.1)

module _ {Num : Type 0} (t : NumberText Num) where
  MembersReadable-insert_member :
      (depth : ℕ) (name : Bytes) (v : Value Num) (ms : Members Num)
      → Utf8 name
      → IsReadable t depth v
      → MembersReadable t depth ms
      → MembersReadable t depth (insert_member name v ms)
  unfolding insert_member IsReadable
  MembersReadable-insert_member depth name v no_members u r rs = (u, r, tt)
  MembersReadable-insert_member depth name v (member_then n w ms) u r rs =
      let later = MembersReadable-insert_member depth name v ms u r rs.2 in
      elim (Bool-cases (less_utf16 n name)) [
        | inl e ↦ rw e (rs.0, rs.1, later)
        | inr e ↦ rw e (u, r, rs)
      ]

  MembersReadable-sort_members :
      (depth : ℕ) (ms : Members Num)
      → MembersReadable t depth ms
      → MembersReadable t depth (sort_members ms)
  unfolding sort_members IsReadable
  MembersReadable-sort_members depth no_members rs = tt
  MembersReadable-sort_members depth (member_then name v ms) rs =
      MembersReadable-insert_member depth name v (sort_members ms) rs.0 rs.1
        (MembersReadable-sort_members depth ms rs.2)

  mutual
    unfolding sort_value IsReadable

    pub IsReadable-sort_value :
        (depth : ℕ) (v : Value Num) → IsReadable t depth v → IsReadable t depth (sort_value v)
    IsReadable-sort_value depth null_value r = r
    IsReadable-sort_value depth (bool_value b) r = r
    IsReadable-sort_value depth (number_value n) r = r
    IsReadable-sort_value depth (string_value s) r = r
    IsReadable-sort_value depth (array_value vs) r =
        (r.0, AreReadable-sort_values (suc depth) vs r.1)
    IsReadable-sort_value depth (object_value ms) r = (
      r.0,
      Distinct-sort_members (sort_inner ms) (Distinct-sort_inner ms r.1),
      MembersReadable-sort_members (suc depth) (sort_inner ms)
          (MembersReadable-sort_inner (suc depth) ms r.2),
    )

    AreReadable-sort_values :
        (depth : ℕ) (vs : Values Num)
        → AreReadable t depth vs
        → AreReadable t depth (sort_values vs)
    AreReadable-sort_values depth no_values r = tt
    AreReadable-sort_values depth (value_then v vs) r =
        (IsReadable-sort_value depth v r.0, AreReadable-sort_values depth vs r.1)

    MembersReadable-sort_inner :
        (depth : ℕ) (ms : Members Num)
        → MembersReadable t depth ms
        → MembersReadable t depth (sort_inner ms)
    MembersReadable-sort_inner depth no_members r = tt
    MembersReadable-sort_inner depth (member_then name v ms) r =
        (r.0, IsReadable-sort_value depth v r.1, MembersReadable-sort_inner depth ms r.2)

  -- A value of UTF-8 strings, of distinct member names, of a nesting of at most 200 and of numbers
  -- whose text strtod reads back, has a canonical text, and that text is parsed to its end, to the
  -- value with each object's members in the canonical order.
  pub parse-canonicalize :
      (v : Value Num)
      → IsReadable t 0 v
      → (text : Bytes) × (canonicalize t v ≡ some text) × (parse t text ≡ ok (sort_value v) [])
  unfolding canonicalize
  parse-canonicalize v r =
      let sorted = IsReadable-sort_value 0 v r in
      let text = write_sorted-some t 0 (sort_value v) sorted in
      (text.0, text.1, parse-write_sorted t (sort_value v) text.0 sorted text.1)
