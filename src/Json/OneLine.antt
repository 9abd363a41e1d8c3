-- ===== src/Json/OneLine.antt =====
-- The text of a value holds no newline.
use showmesh_fpp_plugin.Base.{
  ℕ, suc, ◌/◌, ◌%◌, ◌==◌, ltb, leb, Bool, true, false, ◌&&◌, ◌||◌, ◌≡◌, refl, sym, subst,
  if◌then◌else◌, [], ◌∷◌, ◌++◌, Option, none, some, Bytes, arith, Bool-cases, inl, inr,
}
use showmesh_fpp_plugin.Decimal.{is_digit}
use showmesh_fpp_plugin.Json.{
  Value, Values, Members, null_value, bool_value, number_value, string_value, array_value,
  object_value, no_values, value_then, no_members, member_then, Parsed, ok, failed, out_of_fuel,
  starts, tail,
}
use showmesh_fpp_plugin.Json.Number.{
  NumberText, first_is_digit, span_digits, exponent_digits, exponent_part, fraction_digits,
  fraction_part, integer_part, number_literal,
}
use showmesh_fpp_plugin.Json.Text.{hex_char, escape_byte, escape_bytes, escaped}
use showmesh_fpp_plugin.Json.Writer.{
  join, enclose, write_sorted, write_items, write_members, canonicalize, sort_value,
}
use showmesh_fpp_plugin.Json.Readable.{IsReadable, AreReadable, MembersReadable}
use showmesh_fpp_plugin.Store.Record.{IsLine}

append-IsLine : (xs ys : Bytes) → IsLine xs → IsLine ys → IsLine (xs ++ ys)
append-IsLine [] ys h k = k
append-IsLine (x ∷ xs) ys h k = (h.0, append-IsLine xs ys h.1 k)

if-IsLine :
    (b : Bool) (xs ys : Bytes) → IsLine xs → (b ≡ false → IsLine ys) → IsLine (if b then xs else ys)
if-IsLine true xs ys h k = h
if-IsLine false xs ys h k = k refl

hex_char-line : (d : ℕ) → (hex_char d == 10) ≡ false
unfolding hex_char
hex_char-line d = ground arith

escape_byte-IsLine : (c : ℕ) → IsLine (escape_byte c)
unfolding escape_byte
escape_byte-IsLine c =
    if-IsLine (c == 34) _ _ (refl, (refl, tt))
      (λ _.
        if-IsLine (c == 92) _ _ (refl, (refl, tt))
          (λ _.
            if-IsLine (c == 8) _ _ (refl, (refl, tt))
              (λ _.
                if-IsLine (c == 12) _ _ (refl, (refl, tt))
                  (λ _.
                    if-IsLine (c == 10) _ _ (refl, (refl, tt))
                      (λ newline.
                        if-IsLine (c == 13) _ _ (refl, (refl, tt))
                          (λ _.
                            if-IsLine (c == 9) _ _ (refl, (refl, tt))
                              (λ _.
                                if-IsLine (ltb c 32) _ _
                                  (
                                    refl,
                                    (
                                      refl,
                                      (
                                        refl,
                                        (
                                          refl,
                                          (hex_char-line (c / 16), (hex_char-line (c % 16), tt)),
                                        ),
                                      ),
                                    ),
                                  )
                                  (λ _. (newline, tt)))))))))

escape_bytes-IsLine : (s : Bytes) → IsLine (escape_bytes s)
unfolding escape_bytes
escape_bytes-IsLine [] = tt
escape_bytes-IsLine (c ∷ cs) =
    append-IsLine (escape_byte c) (escape_bytes cs) (escape_byte-IsLine c) (escape_bytes-IsLine cs)

escaped-IsLine : (s : Bytes) → IsLine (escaped s)
unfolding escaped
escaped-IsLine s =
    (refl, append-IsLine (escape_bytes s) (34 ∷ []) (escape_bytes-IsLine s) (refl, tt))

-- What a text is read as is on one line.
abbrev Lines : Parsed Bytes → Type 0
Lines (ok a rest) = IsLine a
Lines (failed problem rest) = Unit
Lines out_of_fuel = Unit

Lines-if :
    (b : Bool) (r s : Parsed Bytes) → (b ≡ true → Lines r) → Lines s → Lines (if b then r else s)
Lines-if true r s h k = h refl
Lines-if false r s h k = k

span_digits-IsLine : (cs : Bytes) → IsLine (span_digits cs).0
unfolding span_digits is_digit
span_digits-IsLine [] = tt
span_digits-IsLine (c ∷ cs) =
    let others = span_digits-IsLine cs in
    elim (Bool-cases (leb 48 c && leb c 57)) [
      | inl h ↦ rw h (ground arith, others)
      | inr h ↦ rw h tt
    ]

snoc-IsLine :
    (front : Bytes) (c : ℕ) → IsLine front → (c == 10) ≡ false → IsLine (front ++ (c ∷ []))
snoc-IsLine front c h k = append-IsLine front (c ∷ []) h (k, tt)

exponent_digits-Lines : (front cs : Bytes) → IsLine front → Lines (exponent_digits front cs)
unfolding exponent_digits
exponent_digits-Lines front cs h =
    Lines-if (first_is_digit cs) _ _
      (λ _. append-IsLine front (span_digits cs).0 h (span_digits-IsLine cs)) tt

exponent_part-Lines : (front cs : Bytes) → IsLine front → Lines (exponent_part front cs)
unfolding exponent_part
exponent_part-Lines front [] h = h
exponent_part-Lines front (c ∷ []) h =
    Lines-if ((c == 101) || (c == 69)) _ _
      (λ e. exponent_digits-Lines (front ++ (c ∷ [])) [] (snoc-IsLine front c h (ground arith))) h
exponent_part-Lines front (c ∷ s ∷ ds) h =
    Lines-if ((c == 101) || (c == 69)) _ _
      (λ e.
        Lines-if ((s == 43) || (s == 45)) _ _
          (λ k.
            exponent_digits-Lines (front ++ (c ∷ s ∷ [])) ds
              (append-IsLine front (c ∷ s ∷ []) h (ground arith, (ground arith, tt))))
          (exponent_digits-Lines (front ++ (c ∷ [])) (s ∷ ds)
            (snoc-IsLine front c h (ground arith))))
      h

fraction_part-Lines : (front cs : Bytes) → IsLine front → Lines (fraction_part front cs)
unfolding fraction_part fraction_digits
fraction_part-Lines front [] h = h
fraction_part-Lines front (c ∷ cs) h =
    Lines-if (c == 46) _ _
      (λ _.
        Lines-if (first_is_digit cs) _ _
          (λ _.
            exponent_part-Lines (front ++ (46 ∷ (span_digits cs).0)) (span_digits cs).1
              (append-IsLine front (46 ∷ (span_digits cs).0) h (refl, span_digits-IsLine cs)))
          tt)
      (exponent_part-Lines front (c ∷ cs) h)

integer_part-Lines : (front cs : Bytes) → IsLine front → Lines (integer_part front cs)
unfolding integer_part
integer_part-Lines front [] h = tt
integer_part-Lines front (c ∷ cs) h =
    Lines-if (c == 48) _ _
      (λ _. fraction_part-Lines (front ++ (48 ∷ [])) cs (snoc-IsLine front 48 h refl))
      (Lines-if (is_digit c) _ _
        (λ _.
          fraction_part-Lines (front ++ (span_digits (c ∷ cs)).0) (span_digits (c ∷ cs)).1
            (append-IsLine front (span_digits (c ∷ cs)).0 h (span_digits-IsLine (c ∷ cs))))
        tt)

number_literal-IsLine : (text rest : Bytes) → number_literal text ≡ ok text rest → IsLine text
unfolding number_literal
number_literal-IsLine text rest h = subst Lines h (
    Lines-if (starts 45 text) _ _ (λ _. integer_part-Lines (45 ∷ []) (tail text) (refl, tt))
      (integer_part-Lines [] text tt))

abbrev OneLine : Option Bytes → Type 0
OneLine none = Unit
OneLine (some text) = IsLine text

join-OneLine : (a b : Option Bytes) → OneLine a → OneLine b → OneLine (join a b)
join-OneLine (some x) (some y) h k = append-IsLine x y h k
join-OneLine (some x) none h k = tt
join-OneLine none b h k = tt

enclose-OneLine :
    (p q : ℕ) (o : Option Bytes)
    → (p == 10) ≡ false
    → (q == 10) ≡ false
    → OneLine o
    → OneLine (enclose p q o)
enclose-OneLine p q none h k l = tt
enclose-OneLine p q (some text) h k l = (h, append-IsLine text (q ∷ []) l (k, tt))

separated-IsLine :
    (first : Bool) (xs ys : Bytes) → IsLine xs → IsLine ys → IsLine (if first then xs else ys)
separated-IsLine true xs ys h k = h
separated-IsLine false xs ys h k = k

name-IsLine : (name : Bytes) → IsLine (escaped name ++ (58 ∷ []))
name-IsLine name = append-IsLine (escaped name) (58 ∷ []) (escaped-IsLine name) (refl, tt)

module _ {Num : Type 0} (t : NumberText Num) where
  mutual
    unfolding write_sorted IsReadable

    write_sorted-OneLine :
        (depth : ℕ) (v : Value Num) → IsReadable t depth v → OneLine (write_sorted t v)
    write_sorted-OneLine depth null_value r = (refl, (refl, (refl, (refl, tt))))
    write_sorted-OneLine depth (bool_value true) r = (refl, (refl, (refl, (refl, tt))))
    write_sorted-OneLine depth (bool_value false) r = (refl, (refl, (refl, (refl, (refl, tt)))))
    write_sorted-OneLine depth (number_value n) r =
        subst OneLine (sym r.1) (number_literal-IsLine r.0 [] r.2)
    write_sorted-OneLine depth (string_value s) r = escaped-IsLine s
    write_sorted-OneLine depth (array_value vs) r =
        enclose-OneLine 91 93 (write_items t true vs) refl refl
          (write_items-OneLine (suc depth) true vs r.1)
    write_sorted-OneLine depth (object_value ms) r =
        enclose-OneLine 123 125 (write_members t true ms) refl refl
          (write_members-OneLine (suc depth) true ms r.2)

    write_items-OneLine :
        (depth : ℕ) (first : Bool) (vs : Values Num)
        → AreReadable t depth vs
        → OneLine (write_items t first vs)
    write_items-OneLine depth first no_values r = tt
    write_items-OneLine depth first (value_then v vs) r =
        join-OneLine (some _) _ (separated-IsLine first [] (44 ∷ []) tt (refl, tt)) (
          join-OneLine (write_sorted t v) (write_items t false vs)
            (write_sorted-OneLine depth v r.0) (write_items-OneLine depth false vs r.1))

    write_members-OneLine :
        (depth : ℕ) (first : Bool) (ms : Members Num)
        → MembersReadable t depth ms
        → OneLine (write_members t first ms)
    write_members-OneLine depth first no_members r = tt
    write_members-OneLine depth first (member_then name v ms) r =
        join-OneLine (some _) _
          (separated-IsLine first _ _ (name-IsLine name) (refl, name-IsLine name))
          (join-OneLine (write_sorted t v) (write_members t false ms)
            (write_sorted-OneLine depth v r.1) (write_members-OneLine depth false ms r.2))

  pub canonicalize-IsLine :
      (v : Value Num) (text : Bytes)
      → IsReadable t 0 (sort_value v)
      → canonicalize t v ≡ some text
      → IsLine text
  unfolding canonicalize
  canonicalize-IsLine v text r h = subst OneLine h (write_sorted-OneLine 0 (sort_value v) r)
