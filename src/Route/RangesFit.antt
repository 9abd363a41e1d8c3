-- ===== src/Route/RangesFit.antt =====
-- The ranges that the routes accept fit into 32 bits.
use showmesh_fpp_plugin.Base.{
  ℕ, ◌+◌, ◌^◌, ◌≤◌, ◌==◌, ltb, ltb-false, pos, Bool, true, false, not, ◌||◌, ◌≡◌, refl, sym, ◌∙◌,
  ap, subst, if◌then◌else◌, List, ◌∷◌, length, Option, none, some, Bytes, eq_bytes, All, arith,
}
use showmesh_fpp_plugin.Ranges.{ChannelRange, end_exclusive}
use showmesh_fpp_plugin.Json.{
  Value, Values, Members, null_value, bool_value, number_value, string_value, array_value,
  object_value, no_values, value_then, no_members, member_then, Parsed, ok, failed, out_of_fuel,
}
use showmesh_fpp_plugin.Json.Number.{NumberText}
use showmesh_fpp_plugin.Json.Parser.{parse}
use showmesh_fpp_plugin.Codec.{Conversions}
use showmesh_fpp_plugin.Route.{
  body_limit, body_too_large, Checked, accept, refuse, and_then, not_two_members,
}
use showmesh_fpp_plugin.Route.WeatherGate.{size}
use showmesh_fpp_plugin.Route.ChannelRanges.{
  RangeList, key_of, channel_number, find_items, number_under, range_of, item_range, item_ranges,
  list_of, check_ranges, parse_ranges_request,
}
use showmesh_fpp_plugin.Route.Names

-- What IEEE 754 says of small whole doubles: one from 1 to 4294967294 is a natural number of that
-- range, which the conversion gives back; sums of two such are exact, and are compared as numbers.
pub record SmallWholeDoubles {Num : Type 0} (t : NumberText Num) (r : Conversions Num)
    (add : Num → Num → Num) : Type 0 where
  pub is_whole :
      (d : Num)
      → t.is_finite d ≡ true
      → t.eq d (r.floor d) ≡ true
      → r.lt d (r.of_int (pos 1)) ≡ false
      → r.lt (r.of_int (pos 4294967294)) d ≡ false
      → (n : ℕ) × (1 ≤ n) × (n ≤ 4294967294) × (d ≡ r.of_int (pos n))
  pub to_int-of_int : (n : ℕ) → n ≤ 4294967294 → r.to_int (r.of_int (pos n)) ≡ pos n
  pub add-of_int :
      (m n : ℕ)
      → m ≤ 4294967294
      → n ≤ 4294967294
      → add (r.of_int (pos m)) (r.of_int (pos n)) ≡ r.of_int (pos (m + n))
  pub lt-of_int :
      (m n : ℕ) → m ≤ 2 ^ 33 → n ≤ 2 ^ 33 → r.lt (r.of_int (pos m)) (r.of_int (pos n)) ≡ ltb m n

-- A range of at least one channel, from channel 1 on, whose 32-bit end is its end.
abbrev pub Fits : ChannelRange → Type 0
Fits g =
    (1 ≤ g.start_channel)
    × (1 ≤ g.channel_count)
    × (end_exclusive g ≡ g.start_channel + g.channel_count)

abbrev InRange : Option ℕ → Type 0
InRange none = Unit
InRange (some n) = (1 ≤ n) × (n ≤ 4294967294)

abbrev Fit : Checked (List ChannelRange) → Type 0
Fit (accept ranges) = All Fits ranges
Fit (refuse reason) = Unit

abbrev FitsOne : Checked ChannelRange → Type 0
FitsOne (accept g) = Fits g
FitsOne (refuse reason) = Unit

InRange-if :
    (b : Bool) (o p : Option ℕ)
    → (b ≡ true → InRange o)
    → (b ≡ false → InRange p)
    → InRange (if b then o else p)
InRange-if true o p h k = h refl
InRange-if false o p h k = k refl

Fit-if : (b : Bool) (o p : Checked (List ChannelRange)) → Fit o → Fit p → Fit (if b then o else p)
Fit-if true o p h k = h
Fit-if false o p h k = k

FitsOne-if :
    (b : Bool) (o p : Checked ChannelRange)
    → FitsOne o
    → (b ≡ false → FitsOne p)
    → FitsOne (if b then o else p)
FitsOne-if true o p h k = h
FitsOne-if false o p h k = k refl

module _ {Num : Type 0} (t : NumberText Num) (r : Conversions Num) (add : Num → Num → Num)
    (s : SmallWholeDoubles t r add) where
  open r use {lt, of_int, floor, to_int}

  channel_number-InRange : (v : Value Num) → InRange (channel_number t r add v)
  unfolding channel_number
  channel_number-InRange null_value = tt
  channel_number-InRange (bool_value b) = tt
  channel_number-InRange (string_value b) = tt
  channel_number-InRange (array_value vs) = tt
  channel_number-InRange (object_value ms) = tt
  channel_number-InRange (number_value d) =
      InRange-if
        (not (t.is_finite d)
          || not (t.eq d (floor d))
          || lt d (of_int (pos 1))
          || lt (of_int (pos 4294967294)) d)
        _ _ (λ _. tt)
        (λ h.
          let n = s.is_whole d (ground arith) (ground arith) (ground arith) (ground arith) in
          let back : to_int d ≡ pos n.0 = ap to_int n.3 ∙ s.to_int-of_int n.0 n.2 in
          rw back (n.1, n.2))

  number_under-InRange :
      (key : Bytes) (ms : Members Num) (o : Option ℕ)
      → InRange o
      → InRange (number_under t r add key ms o)
  unfolding number_under
  number_under-InRange key no_members o h = h
  number_under-InRange key (member_then name v ms) o h =
      let read =
        number_under-InRange key ms (channel_number t r add v) (channel_number-InRange v) in
      let kept = number_under-InRange key ms o h in
      InRange-if (eq_bytes name key) _ _ (λ _. read) (λ _. kept)

  range_of-FitsOne :
      (index : ℕ) (a b : Option ℕ) → InRange a → InRange b → FitsOne (range_of t r add index a b)
  unfolding range_of end_exclusive
  range_of-FitsOne index none b h k = tt
  range_of-FitsOne index (some m) none h k = tt
  range_of-FitsOne index (some m) (some n) h k =
      FitsOne-if (lt (of_int (pos 4294967295)) (add (of_int (pos m)) (of_int (pos n)))) _ _ tt (λ e.
        let sum : ltb 4294967295 (m + n) ≡ false =
          sym (
            ap (λ x. lt (of_int (pos 4294967295)) x) (s.add-of_int m n h.1 k.1)
            ∙ s.lt-of_int 4294967295 (m + n) (omega arith) (omega (arith, h.1, k.1)))
          ∙ e in
        (h.0, k.0, omega (arith, ltb-false 4294967295 (m + n) sum)))

  item_range-FitsOne : (index : ℕ) (v : Value Num) → FitsOne (item_range t r add index v)
  unfolding item_range
  item_range-FitsOne index null_value = tt
  item_range-FitsOne index (bool_value b) = tt
  item_range-FitsOne index (string_value b) = tt
  item_range-FitsOne index (array_value vs) = tt
  item_range-FitsOne index (number_value d) = tt
  item_range-FitsOne index (object_value ms) = two (size ms == 2)
    where
      two :
          (b : Bool)
          → FitsOne (
              if b
              then range_of t r add index
                  (number_under t r add Names.start_channel ms none)
                  (number_under t r add Names.channel_count ms none)
              else refuse (not_two_members index))
      two true =
          range_of-FitsOne index _ _ (number_under-InRange Names.start_channel ms none tt)
            (number_under-InRange Names.channel_count ms none tt)
      two false = tt

  and_then-Fit :
      (a : Checked ChannelRange) (b : Checked (List ChannelRange))
      → FitsOne a
      → Fit b
      → Fit (and_then a (λ range. and_then b (λ ranges. accept (range ∷ ranges))))
  and_then-Fit (accept g) (accept gs) h k = (h, k)
  and_then-Fit (accept g) (refuse reason) h k = tt
  and_then-Fit (refuse reason) b h k = tt

  item_ranges-Fit : (index : ℕ) (vs : Values Num) → Fit (item_ranges t r add index vs)
  unfolding item_ranges
  item_ranges-Fit index no_values = tt
  item_ranges-Fit index (value_then v vs) =
      and_then-Fit (item_range t r add index v) (item_ranges t r add (index + 1) vs)
        (item_range-FitsOne index v) (item_ranges-Fit (index + 1) vs)

  list_of-Fit : (o : Option (Value Num)) → Fit (list_of t r add o)
  unfolding list_of
  list_of-Fit none = tt
  list_of-Fit (some null_value) = tt
  list_of-Fit (some (bool_value b)) = tt
  list_of-Fit (some (string_value b)) = tt
  list_of-Fit (some (number_value d)) = tt
  list_of-Fit (some (object_value ms)) = tt
  list_of-Fit (some (array_value vs)) = item_ranges-Fit 0 vs

  found-Fit : (c : Checked (Option (Value Num))) → Fit (and_then c (λ items. list_of t r add items))
  found-Fit (accept items) = list_of-Fit items
  found-Fit (refuse reason) = tt

  check_ranges-Fit : (list : RangeList) (p : Parsed (Value Num)) → Fit (check_ranges t r add list p)
  unfolding check_ranges
  check_ranges-Fit list (failed problem rest) = tt
  check_ranges-Fit list out_of_fuel = tt
  check_ranges-Fit list (ok null_value rest) = tt
  check_ranges-Fit list (ok (bool_value b) rest) = tt
  check_ranges-Fit list (ok (string_value b) rest) = tt
  check_ranges-Fit list (ok (number_value d) rest) = tt
  check_ranges-Fit list (ok (array_value vs) rest) = tt
  check_ranges-Fit list (ok (object_value ms) rest) =
      found-Fit (find_items t r add (key_of list) ms none)

  -- Each range of a body that the routes accept has a first channel and a count of at least 1, and its
  -- end, which the engine computes in 32 bits, does not wrap.
  pub parse_ranges_request-Fits :
      (list : RangeList) (body : Bytes) (ranges : List ChannelRange)
      → parse_ranges_request t r add list body ≡ accept ranges
      → All Fits ranges
  unfolding parse_ranges_request
  parse_ranges_request-Fits list body ranges h = subst Fit h (
      Fit-if (ltb body_limit (length body)) (refuse body_too_large)
        (check_ranges t r add list (parse t body)) tt (check_ranges-Fit list (parse t body)))
