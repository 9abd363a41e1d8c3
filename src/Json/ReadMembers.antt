-- ===== src/Json/ReadMembers.antt =====
-- The parser's steps on the text of an object's members.
use showmesh_fpp_plugin.Base.{
  ℕ, suc, ◌<◌, ◌==◌, ltb, true, false, ◌≡◌, ◌≢◌, refl, List, [], ◌∷◌, ◌++◌, Bytes, arith, eq_bytes,
  eq_bytes→eq, inl, inr, Bool-cases,
}
use showmesh_fpp_plugin.Json.{Value, Members, object_value, no_members, member_then, ok, starts}
use showmesh_fpp_plugin.Json.Number.{NumberText}
use showmesh_fpp_plugin.Json.Text.{escaped}
use showmesh_fpp_plugin.Json.Strings.{Utf8, parse_string-escaped}
use showmesh_fpp_plugin.Json.Parser.{
  max_depth, is_whitespace, skip_whitespace, mem_name, after_name, parse_name, after_item,
  parse_value, parse_members,
}
use showmesh_fpp_plugin.Json.Readable.{Absent, begins, begins-append, skip_whitespace-begins}

-- No member has a name that has been read.
abbrev pub Fresh : {Num : Type 0} → List Bytes → Members Num → Type 0
Fresh seen no_members = Unit
Fresh seen (member_then name v ms) = (mem_name name seen ≡ false) × Fresh seen ms

pub Fresh-nil : {Num : Type 0} (ms : Members Num) → Fresh [] ms
unfolding mem_name
Fresh-nil no_members = tt
Fresh-nil (member_then name v ms) = (refl, Fresh-nil ms)

eq_bytes-ne : (a b : Bytes) → a ≢ b → eq_bytes a b ≡ false
eq_bytes-ne a b h = elim (Bool-cases (eq_bytes a b)) [
  | inl e ↦ absurd (h (eq_bytes→eq a b e))
  | inr e ↦ e
]

pub Fresh-cons :
    {Num : Type 0} (seen : List Bytes) (name : Bytes) (ms : Members Num)
    → Absent name ms
    → Fresh seen ms
    → Fresh (name ∷ seen) ms
unfolding mem_name
Fresh-cons seen name no_members h k = tt
Fresh-cons seen name (member_then n v ms) h k =
    (rw (eq_bytes-ne name n h.0, k.0) refl, Fresh-cons seen name ms h.1 k.1)

quoted : (name rest : Bytes) → starts 34 (escaped name ++ rest) ≡ true
unfolding escaped
quoted name rest = refl

quote_first : (name rest : Bytes) → skip_whitespace (escaped name ++ rest) ≡ escaped name ++ rest
unfolding escaped skip_whitespace is_whitespace
quote_first name rest = refl

colon : (text : Bytes) → skip_whitespace (58 ∷ text) ≡ 58 ∷ text
unfolding skip_whitespace is_whitespace
colon text = refl

module _ {Num : Type 0} (t : NumberText Num) where
  -- A name and its colon.
  name-text :
      (seen : List Bytes) (name text : Bytes)
      → Utf8 name
      → mem_name name seen ≡ false
      → begins text ≡ true
      → parse_name t seen (escaped name ++ (58 ∷ text)) ≡ ok name text
  unfolding parse_name after_name
  name-text seen name text u h b =
      rw
        (
          quoted name (58 ∷ text),
          parse_string-escaped name (58 ∷ text) u,
          h,
          colon text,
          skip_whitespace-begins text b,
        )
        refl

  pub empty-object :
      (rest : Bytes) (fuel depth : ℕ)
      → depth < max_depth
      → parse_value t (suc (suc fuel)) depth (123 ∷ 125 ∷ rest) ≡ ok (object_value no_members) rest
  unfolding parse_value skip_whitespace is_whitespace
  empty-object rest fuel depth h = ground arith

  pub object-step :
      (ms : Members Num) (body rest : Bytes) (fuel depth : ℕ)
      → depth < max_depth
      → begins body ≡ true
      → parse_members t fuel (suc depth) [] (body ++ (125 ∷ rest)) ≡ ok ms rest
      → parse_value t (suc (suc fuel)) depth (123 ∷ (body ++ (125 ∷ rest)))
        ≡ ok (object_value ms) rest
  unfolding parse_value
  object-step ms [] rest fuel depth h b e = cc
  object-step ms (c ∷ cs) rest fuel depth h b e =
      let deep : ltb max_depth (suc depth) ≡ false = ground arith in
      let open_member : (c == 125) ≡ false = ground arith in
      rw (deep, skip_whitespace-begins (c ∷ (cs ++ (125 ∷ rest))) b, open_member, e) refl

  pub last-member :
      (seen : List Bytes) (name : Bytes) (v : Value Num) (text rest : Bytes) (fuel depth : ℕ)
      → Utf8 name
      → mem_name name seen ≡ false
      → begins text ≡ true
      → parse_value t fuel depth (text ++ (125 ∷ rest)) ≡ ok v (125 ∷ rest)
      → parse_members t (suc fuel) depth seen (escaped name ++ (58 ∷ (text ++ (125 ∷ rest))))
        ≡ ok (member_then name v no_members) rest
  unfolding parse_value after_item skip_whitespace is_whitespace
  last-member seen name v text rest fuel depth u h b e =
      rw
        (
          quote_first name (58 ∷ (text ++ (125 ∷ rest))),
          name-text seen name (text ++ (125 ∷ rest)) u h (begins-append text (125 ∷ rest) b),
          e,
        )
        refl

  pub next-member :
      (seen : List Bytes) (name : Bytes) (v : Value Num) (ms : Members Num) (text more rest : Bytes)
      (fuel depth : ℕ)
      → Utf8 name
      → mem_name name seen ≡ false
      → begins text ≡ true
      → parse_value t fuel depth (text ++ (44 ∷ more)) ≡ ok v (44 ∷ more)
      → parse_members t fuel depth (name ∷ seen) more ≡ ok ms rest
      → parse_members t (suc fuel) depth seen (escaped name ++ (58 ∷ (text ++ (44 ∷ more))))
        ≡ ok (member_then name v ms) rest
  unfolding parse_value after_item skip_whitespace is_whitespace
  next-member seen name v ms text more rest fuel depth u h b e k =
      rw
        (
          quote_first name (58 ∷ (text ++ (44 ∷ more))),
          name-text seen name (text ++ (44 ∷ more)) u h (begins-append text (44 ∷ more) b),
          e,
        )
        (rw k refl)
