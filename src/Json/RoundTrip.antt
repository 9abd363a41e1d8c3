-- ===== src/Json/RoundTrip.antt =====
-- A value's text is parsed to the value.
use showmesh_fpp_plugin.Base.{
  ℕ, zero, suc, ◌+◌, ◌*◌, ◌<◌, Bool, true, false, ◌≡◌, refl, sym, ◌∙◌, ap, ap₂, if◌then◌else◌, List,
  [], ◌∷◌, ◌++◌, length, some, Bytes, arith,
}
use mathlib.Core.List.{append_assoc, append-nil}
use showmesh_fpp_plugin.Json.{
  Value, Values, Members, null_value, bool_value, number_value, string_value, array_value,
  object_value, no_values, value_then, no_members, member_then, ok,
}
use showmesh_fpp_plugin.Json.Number.{NumberText}
use showmesh_fpp_plugin.Json.NumberEnd.{ends_number}
use showmesh_fpp_plugin.Json.Text.{escaped}
use showmesh_fpp_plugin.Json.Strings.{Utf8}
use showmesh_fpp_plugin.Json.Parser.{
  mem_name, parse_value, parse_items, parse_members, skip_whitespace, parse, finish,
}
use showmesh_fpp_plugin.Json.Writer.{join, enclose, write_sorted, write_items, write_members}
use showmesh_fpp_plugin.Json.Readable.{
  IsReadable, AreReadable, MembersReadable, Absent, Distinct, begins, begins-append,
  skip_whitespace-begins, some-injective, number-text, null-text, true-text, false-text,
  string-text, empty-array, array-step, last-item, next-item,
}
use showmesh_fpp_plugin.Json.ReadMembers.{
  Fresh, Fresh-nil, Fresh-cons, empty-object, object-step, last-member, next-member,
}
use showmesh_fpp_plugin.Json.WrittenText.{
  join-some, join-nil, enclose-some, length_pair, none_seen, string_begins, items-comma,
  members-comma, first-item, first-member, value-begins, length-around, length-parts, length-member,
  member-append, begins-join,
}

module _ {Num : Type 0} (t : NumberText Num) where
  mutual
    unfolding write_sorted IsReadable

    value-text :
        (v : Value Num) (fuel depth : ℕ) (text rest : Bytes)
        → IsReadable t depth v
        → write_sorted t v ≡ some text
        → ends_number rest ≡ true
        → 3 * length text < fuel
        → parse_value t fuel depth (text ++ rest) ≡ ok v rest
    value-text v zero depth text rest r h e k = absurd (omega arith)
    value-text null_value (suc fuel) depth text rest r h e k =
        rw (sym (some-injective h)) (null-text t rest fuel depth)
    value-text (bool_value true) (suc fuel) depth text rest r h e k =
        rw (sym (some-injective h)) (true-text t rest fuel depth)
    value-text (bool_value false) (suc fuel) depth text rest r h e k =
        rw (sym (some-injective h)) (false-text t rest fuel depth)
    value-text (number_value n) (suc fuel) depth text rest r h e k =
        number-text t n text rest fuel depth r h e
    value-text (string_value s) (suc fuel) depth text rest r h e k =
        rw (sym (some-injective h)) (string-text t s rest fuel depth r)
    value-text (array_value no_values) (suc zero) depth text rest r h e k =
        let q = length_pair text 91 93 (sym (some-injective h)) in absurd (omega arith)
    value-text (array_value no_values) (suc (suc fuel)) depth text rest r h e k =
        rw (sym (some-injective h)) (empty-array t rest fuel depth r.0)
    value-text (array_value (value_then v vs)) (suc zero) depth text rest r h e k =
        let p = enclose-some 91 93 (write_items t true (value_then v vs)) text h in
        let q = length-around t text p.0 (93 ∷ []) 91 p.2 in absurd (omega arith)
    value-text (array_value (value_then v vs)) (suc (suc fuel)) depth text rest r h e k =
        let p = enclose-some 91 93 (write_items t true (value_then v vs)) text h in
        let q = length-around t text p.0 (93 ∷ []) 91 p.2 in
        let items =
          items-text v vs fuel (suc depth) p.0 rest r.1.0 r.1.1 (first-item t v vs p.0 p.1)
            (omega arith) in
        let starts_well = begins-join t v vs p.0 (suc depth) r.1.0 (first-item t v vs p.0 p.1) in
        rw (p.2, append_assoc p.0 (93 ∷ []) rest)
          (array-step t (value_then v vs) p.0 rest fuel depth r.0 starts_well items)
    value-text (object_value no_members) (suc zero) depth text rest r h e k =
        let q = length_pair text 123 125 (sym (some-injective h)) in absurd (omega arith)
    value-text (object_value no_members) (suc (suc fuel)) depth text rest r h e k =
        rw (sym (some-injective h)) (empty-object t rest fuel depth r.0)
    value-text (object_value (member_then name v ms)) (suc zero) depth text rest r h e k =
        let p = enclose-some 123 125 (write_members t true (member_then name v ms)) text h in
        let q = length-around t text p.0 (125 ∷ []) 123 p.2 in absurd (omega arith)
    value-text (object_value (member_then name v ms)) (suc (suc fuel)) depth text rest r h e k =
        let p = enclose-some 123 125 (write_members t true (member_then name v ms)) text h in
        let f = first-member t name v ms p.0 p.1 in
        let q = length-around t text p.0 (125 ∷ []) 123 p.2 in
        let q₂ = length-member t p.0 name f.0 f.2 in
        let members =
          members-text [] name v ms fuel (suc depth) f.0 rest r.2.0 (none_seen name) r.1.0 r.1.1
            (Fresh-nil ms) r.2.1 r.2.2 f.1 (omega arith) in
        let starts_well : begins p.0 ≡ true =
          rw f.2 (begins-append (escaped name) (58 ∷ f.0) (string_begins name)) in
        let same = member-append t p.0 name f.0 (125 ∷ rest) f.2 in
        rw (p.2, append_assoc p.0 (125 ∷ []) rest)
          (object-step t (member_then name v ms) p.0 rest fuel depth r.0 starts_well
            (ap (λ x. parse_members t fuel (suc depth) [] x) same ∙ members))

    items-text :
        (v : Value Num) (vs : Values Num) (fuel depth : ℕ) (text rest : Bytes)
        → IsReadable t depth v
        → AreReadable t depth vs
        → join (write_sorted t v) (write_items t false vs) ≡ some text
        → 3 * length text + 1 < fuel
        → parse_items t fuel depth (text ++ (93 ∷ rest)) ≡ ok (value_then v vs) rest
    items-text v vs zero depth text rest r rs h k = absurd (omega arith)
    items-text v no_values (suc fuel) depth text rest r rs h k =
        let alone = join-nil (write_sorted t v) text h in
        last-item t v text rest fuel depth (value-begins t v depth text r alone)
          (value-text v fuel depth text (93 ∷ rest) r alone refl (omega arith))
    items-text v (value_then w vs) (suc fuel) depth text rest r rs h k =
        let p = join-some (write_sorted t v) (write_items t false (value_then w vs)) text h in
        let c = items-comma t w vs p.1 p.3 in
        let whole : text ≡ p.0 ++ (44 ∷ c.0) = p.4 ∙ ap (λ y. p.0 ++ y) c.2 in
        let q = length-parts t text p.0 (44 ∷ c.0) whole in
        let head =
          value-text v fuel depth p.0 (44 ∷ (c.0 ++ (93 ∷ rest))) r p.2 refl (omega arith) in
        let others = items-text w vs fuel depth c.0 rest rs.0 rs.1 c.1 (omega arith) in
        rw (whole, append_assoc p.0 (44 ∷ c.0) (93 ∷ rest))
          (next-item t v (value_then w vs) p.0 (c.0 ++ (93 ∷ rest)) rest fuel depth
            (value-begins t v depth p.0 r p.2) head others)

    members-text :
        (seen : List Bytes) (name : Bytes) (v : Value Num) (ms : Members Num) (fuel depth : ℕ)
        (text rest : Bytes)
        → Utf8 name
        → mem_name name seen ≡ false
        → Absent name ms
        → Distinct ms
        → Fresh seen ms
        → IsReadable t depth v
        → MembersReadable t depth ms
        → join (write_sorted t v) (write_members t false ms) ≡ some text
        → 3 * length text + 1 < fuel
        → parse_members t fuel depth seen (escaped name ++ (58 ∷ (text ++ (125 ∷ rest))))
          ≡ ok (member_then name v ms) rest
    members-text seen name v ms zero depth text rest u m a d fr r rs h k = absurd (omega arith)
    members-text seen name v no_members (suc fuel) depth text rest u m a d fr r rs h k =
        let alone = join-nil (write_sorted t v) text h in
        last-member t seen name v text rest fuel depth u m (value-begins t v depth text r alone)
          (value-text v fuel depth text (125 ∷ rest) r alone refl (omega arith))
    members-text seen name v (member_then n w ms) (suc fuel) depth text rest u m a d fr r rs h k =
        let p = join-some (write_sorted t v) (write_members t false (member_then n w ms)) text h in
        let c = members-comma t n w ms p.1 p.3 in
        let whole : text ≡ p.0 ++ (44 ∷ (escaped n ++ (58 ∷ c.0))) = p.4 ∙ ap (λ y. p.0 ++ y) c.2 in
        let q = length-parts t text p.0 (44 ∷ (escaped n ++ (58 ∷ c.0))) whole in
        let q₂ = length-member t (escaped n ++ (58 ∷ c.0)) n c.0 refl in
        let after = escaped n ++ (58 ∷ (c.0 ++ (125 ∷ rest))) in
        let head = value-text v fuel depth p.0 (44 ∷ after) r p.2 refl (omega arith) in
        let fresh = Fresh-cons seen name (member_then n w ms) a fr in
        let others =
          members-text (name ∷ seen) n w ms fuel depth c.0 rest rs.0 fresh.0 d.0 d.1 fresh.1 rs.1
            rs.2 c.1 (omega arith) in
        rw
          (
            whole,
            append_assoc p.0 (44 ∷ (escaped n ++ (58 ∷ c.0))) (125 ∷ rest),
            append_assoc (escaped n) (58 ∷ c.0) (125 ∷ rest),
          )
          (next-member t seen name v (member_then n w ms) p.0 after rest fuel depth u m
            (value-begins t v depth p.0 r p.2) head others)

  -- The text of a readable value, alone in its text, is parsed to the value.
  pub parse-write_sorted :
      (v : Value Num) (text : Bytes)
      → IsReadable t 0 v
      → write_sorted t v ≡ some text
      → parse t text ≡ ok v []
  unfolding parse finish
  parse-write_sorted v text r h =
      let whole : parse_value t (3 * length text + 1) 0 (text ++ []) ≡ ok v [] =
        value-text v (3 * length text + 1) 0 text [] r h refl (omega arith) in
      let value : parse_value t (3 * length text + 1) 0 text ≡ ok v [] =
        ap (λ x. parse_value t (3 * length text + 1) 0 x) (sym (append-nil text)) ∙ whole in
      rw (skip_whitespace-begins text (value-begins t v 0 text r h), value)
        (unfold skip_whitespace in refl)

  -- A readable value has a text.
  mutual
    unfolding write_sorted IsReadable

    pub write_sorted-some :
        (depth : ℕ) (v : Value Num)
        → IsReadable t depth v
        → (text : Bytes) × (write_sorted t v ≡ some text)
    write_sorted-some depth null_value r = (_, refl)
    write_sorted-some depth (bool_value true) r = (_, refl)
    write_sorted-some depth (bool_value false) r = (_, refl)
    write_sorted-some depth (number_value n) r = (r.0, r.1)
    write_sorted-some depth (string_value s) r = (_, refl)
    write_sorted-some depth (array_value vs) r =
        let items = write_items-some (suc depth) true vs r.1 in
        (_, ap (λ o. enclose 91 93 o) items.1)
    write_sorted-some depth (object_value ms) r =
        let members = write_members-some (suc depth) true ms r.2 in
        (_, ap (λ o. enclose 123 125 o) members.1)

    write_items-some :
        (depth : ℕ) (first : Bool) (vs : Values Num)
        → AreReadable t depth vs
        → (text : Bytes) × (write_items t first vs ≡ some text)
    write_items-some depth first no_values r = (_, refl)
    write_items-some depth first (value_then v vs) r =
        let value = write_sorted-some depth v r.0 in
        let others = write_items-some depth false vs r.1 in
        (_, ap₂ (λ a b. join (some (if first then [] else 44 ∷ [])) (join a b)) value.1 others.1)

    write_members-some :
        (depth : ℕ) (first : Bool) (ms : Members Num)
        → MembersReadable t depth ms
        → (text : Bytes) × (write_members t first ms ≡ some text)
    write_members-some depth first no_members r = (_, refl)
    write_members-some depth first (member_then name v ms) r =
        let value = write_sorted-some depth v r.1 in
        let others = write_members-some depth false ms r.2 in
        (
          _,
          ap₂
              (λ a b.
                join
                  (some
                    (if first then escaped name ++ (58 ∷ []) else 44 ∷ (escaped name ++ (58 ∷ []))))
                  (join a b))
              value.1 others.1,
        )
