-- ===== src/Json/WrittenText.antt =====
-- The parts of a value's text.
use showmesh_fpp_plugin.Base.{
  ℕ, suc, ◌+◌, true, false, ◌≡◌, refl, sym, ◌∙◌, ap, [], ◌∷◌, ◌++◌, length, Option, none, some,
  Bytes, length-append,
}
use mathlib.Core.List.{append_assoc, append-nil}
use showmesh_fpp_plugin.Json.{
  Value, Values, Members, null_value, bool_value, number_value, string_value, array_value,
  object_value, value_then, member_then,
}
use showmesh_fpp_plugin.Json.Number.{NumberText}
use showmesh_fpp_plugin.Json.Text.{escaped}
use showmesh_fpp_plugin.Json.Parser.{mem_name, is_whitespace}
use showmesh_fpp_plugin.Json.Writer.{join, enclose, write_sorted, write_items, write_members}
use showmesh_fpp_plugin.Json.Readable.{
  IsReadable, begins, begins-append, some-injective, number-begins,
}

pub join-some :
    (a b : Option Bytes) (text : Bytes)
    → join a b ≡ some text
    → (x : Bytes) × (y : Bytes) × (a ≡ some x) × (b ≡ some y) × (text ≡ x ++ y)
join-some (some x) (some y) text h = (x, y, refl, refl, sym (some-injective h))
join-some (some x) none text h = cc
join-some none b text h = cc

-- The end of a list adds nothing.
pub join-nil : (o : Option Bytes) (text : Bytes) → join o (some []) ≡ some text → o ≡ some text
join-nil (some x) text h = ap some (sym (append-nil x)) ∙ h
join-nil none text h = cc

pub enclose-some :
    (p q : ℕ) (a : Option Bytes) (text : Bytes)
    → enclose p q a ≡ some text
    → (x : Bytes) × (a ≡ some x) × (text ≡ p ∷ (x ++ (q ∷ [])))
enclose-some p q (some x) text h = (x, refl, sym (some-injective h))
enclose-some p q none text h = cc

pub length_pair : (text : Bytes) (p q : ℕ) → text ≡ p ∷ q ∷ [] → length text ≡ 2
length_pair text p q h = rw h refl

pub none_seen : (name : Bytes) → mem_name name [] ≡ false
unfolding mem_name
none_seen name = refl

pub string_begins : (s : Bytes) → begins (escaped s) ≡ true
unfolding escaped is_whitespace
string_begins s = refl

module _ {Num : Type 0} (t : NumberText Num) where
  -- The text of a list that goes on is a comma and the text of its rest.
  pub items-comma :
      (v : Value Num) (vs : Values Num) (text : Bytes)
      → write_items t false (value_then v vs) ≡ some text
      → (more : Bytes) × (join (write_sorted t v) (write_items t false vs) ≡ some more)
        × (text ≡ 44 ∷ more)
  unfolding write_sorted
  items-comma v vs text h =
      let p =
        join-some (some (44 ∷ [])) (join (write_sorted t v) (write_items t false vs)) text h in
      (p.1, p.3, p.4 ∙ ap (λ x. x ++ p.1) (sym (some-injective p.2)))

  pub members-comma :
      (name : Bytes) (v : Value Num) (ms : Members Num) (text : Bytes)
      → write_members t false (member_then name v ms) ≡ some text
      → (more : Bytes) × (join (write_sorted t v) (write_members t false ms) ≡ some more)
        × (text ≡ 44 ∷ (escaped name ++ (58 ∷ more)))
  unfolding write_sorted
  members-comma name v ms text h =
      let p =
        join-some (some (44 ∷ (escaped name ++ (58 ∷ []))))
          (join (write_sorted t v) (write_members t false ms)) text h in
      (
        p.1,
        p.3,
        p.4
            ∙ ap (λ x. x ++ p.1) (sym (some-injective p.2))
            ∙ ap (λ x. 44 ∷ x) (append_assoc (escaped name) (58 ∷ []) p.1),
      )

  pub first-item :
      (v : Value Num) (vs : Values Num) (text : Bytes)
      → write_items t true (value_then v vs) ≡ some text
      → join (write_sorted t v) (write_items t false vs) ≡ some text
  unfolding write_sorted
  first-item v vs text h =
      let p = join-some (some []) (join (write_sorted t v) (write_items t false vs)) text h in
      p.3 ∙ ap some (sym (p.4 ∙ ap (λ x. x ++ p.1) (sym (some-injective p.2))))

  pub first-member :
      (name : Bytes) (v : Value Num) (ms : Members Num) (text : Bytes)
      → write_members t true (member_then name v ms) ≡ some text
      → (more : Bytes) × (join (write_sorted t v) (write_members t false ms) ≡ some more)
        × (text ≡ escaped name ++ (58 ∷ more))
  unfolding write_sorted
  first-member name v ms text h =
      let p =
        join-some (some (escaped name ++ (58 ∷ [])))
          (join (write_sorted t v) (write_members t false ms)) text h in
      (
        p.1,
        p.3,
        p.4
            ∙ ap (λ x. x ++ p.1) (sym (some-injective p.2))
            ∙ append_assoc (escaped name) (58 ∷ []) p.1,
      )

  pub value-begins :
      (v : Value Num) (depth : ℕ) (text : Bytes)
      → IsReadable t depth v
      → write_sorted t v ≡ some text
      → begins text ≡ true
  unfolding write_sorted is_whitespace IsReadable
  value-begins null_value depth text r h = rw (sym (some-injective h)) refl
  value-begins (bool_value true) depth text r h = rw (sym (some-injective h)) refl
  value-begins (bool_value false) depth text r h = rw (sym (some-injective h)) refl
  value-begins (number_value n) depth text r h = number-begins t n text r h
  value-begins (string_value s) depth text r h = rw (sym (some-injective h)) (string_begins s)
  value-begins (array_value vs) depth text r h =
      rw ((enclose-some 91 93 (write_items t true vs) text h).2) refl
  value-begins (object_value ms) depth text r h =
      rw ((enclose-some 123 125 (write_members t true ms) text h).2) refl

  pub length-around :
      (text x y : Bytes) (c : ℕ) → text ≡ c ∷ (x ++ y) → length text ≡ suc (length x + length y)
  length-around text x y c h = rw h (ap suc (length-append x y))

  pub length-parts : (text x y : Bytes) → text ≡ x ++ y → length text ≡ length x + length y
  length-parts text x y h = rw h (length-append x y)

  pub length-member :
      (text name x : Bytes)
      → text ≡ escaped name ++ (58 ∷ x)
      → length text ≡ length (escaped name) + suc (length x)
  length-member text name x h = rw h (length-append (escaped name) (58 ∷ x))

  pub member-append :
      (text name x rest : Bytes)
      → text ≡ escaped name ++ (58 ∷ x)
      → text ++ rest ≡ escaped name ++ (58 ∷ (x ++ rest))
  member-append text name x rest h = rw h (append_assoc (escaped name) (58 ∷ x) rest)

  pub begins-join :
      (v : Value Num) (vs : Values Num) (text : Bytes) (depth : ℕ)
      → IsReadable t depth v
      → join (write_sorted t v) (write_items t false vs) ≡ some text
      → begins text ≡ true
  begins-join v vs text depth r h =
      let p = join-some (write_sorted t v) (write_items t false vs) text h in
      rw p.4 (begins-append p.0 p.1 (value-begins v depth p.0 r p.2))
