-- ===== src/Route/ChannelRanges.antt =====
-- native/src/excluded_ranges.cpp: the two channel lists as JSON. `add` is the addition of two doubles.
use showmesh_fpp_plugin.Base.{
  ℕ, ◌+◌, ◌==◌, ltb, pos, pos_part, not, ◌||◌, if◌then◌else◌, List, [], ◌∷◌, length, Option, none,
  some, Bytes, eq_bytes,
}
use showmesh_fpp_plugin.Ranges.{ChannelRange}
use showmesh_fpp_plugin.Json.{
  Value, Values, Members, number_value, array_value, object_value, no_values, value_then,
  no_members, member_then, Parsed, ok,
}
use showmesh_fpp_plugin.Json.Number.{NumberText}
use showmesh_fpp_plugin.Json.Parser.{parse}
use showmesh_fpp_plugin.Codec.{Conversions}
use showmesh_fpp_plugin.Route.{
  body_limit, body_too_large, not_a_json_object, unknown_member, not_a_list, not_two_members,
  not_channel_numbers, past_last_channel, Answer, Checked, accept, refuse, and_then, render,
}
use showmesh_fpp_plugin.Route.WeatherGate.{size}
use showmesh_fpp_plugin.Route.Names

pub data RangeList : Type 0 where
  apply_list exclude_list : RangeList

unfoldable pub key_of : RangeList → Bytes
key_of apply_list = Names.channel_ranges
key_of exclude_list = Names.excluded_ranges

module _ {Num : Type 0} (t : NumberText Num) (r : Conversions Num) (add : Num → Num → Num) where
  open r use {lt, of_int, floor, to_int}

  unfoldable pub channel_number : Value Num → Option ℕ
  channel_number (number_value d) =
      if not (t.is_finite d)
        || not (t.eq d (floor d))
        || lt d (of_int (pos 1))
        || lt (of_int (pos 4294967294)) d
      then none
      else some (pos_part (to_int d))
  channel_number value = none

  unfoldable pub ranges_value : List ChannelRange → Values Num
  ranges_value [] = no_values
  ranges_value (g ∷ gs) =
      value_then
        (object_value (
          member_then Names.start_channel (number_value (of_int (pos g.start_channel))) (
            member_then Names.channel_count (number_value (of_int (pos g.channel_count)))
              no_members)))
        (ranges_value gs)

  unfoldable pub render_ranges : RangeList → List ChannelRange → Answer
  render_ranges list ranges = render t r (
      member_then Names.schema_version (number_value (of_int (pos 1)))
        (member_then (key_of list) (array_value (ranges_value ranges)) no_members))

  -- The loop over the members of the body; `items` is the one found so far.
  unfoldable pub find_items :
      Bytes → Members Num → Option (Value Num) → Checked (Option (Value Num))
  find_items key no_members items = accept items
  find_items key (member_then name v ms) items =
      let found = find_items key ms (some v) in
      let passed = find_items key ms items in
      if eq_bytes name key
      then found
      else if eq_bytes name Names.schema_version
      then passed
      else refuse (unknown_member name)

  -- The loop over an item's members: the number of the last member of the name.
  unfoldable pub number_under : Bytes → Members Num → Option ℕ → Option ℕ
  number_under key no_members number = number
  number_under key (member_then name v ms) number =
      let read = number_under key ms (channel_number v) in
      let kept = number_under key ms number in if eq_bytes name key then read else kept

  unfoldable pub range_of : ℕ → Option ℕ → Option ℕ → Checked ChannelRange
  range_of index (some start) (some count) =
      if lt (of_int (pos 4294967295)) (add (of_int (pos start)) (of_int (pos count)))
      then refuse (past_last_channel index)
      else accept (record { start_channel = start; channel_count = count })
  range_of index start count = refuse (not_channel_numbers index)

  unfoldable pub item_range : ℕ → Value Num → Checked ChannelRange
  item_range index (object_value ms) =
      if size ms == 2
      then range_of index (number_under Names.start_channel ms none)
          (number_under Names.channel_count ms none)
      else refuse (not_two_members index)
  item_range index value = refuse (not_two_members index)

  unfoldable pub item_ranges : ℕ → Values Num → Checked (List ChannelRange)
  item_ranges index no_values = accept []
  item_ranges index (value_then v vs) =
      let others = item_ranges (index + 1) vs in
      and_then (item_range index v) (λ range. and_then others (λ ranges. accept (range ∷ ranges)))

  unfoldable pub list_of : Option (Value Num) → Checked (List ChannelRange)
  list_of (some (array_value vs)) = item_ranges 0 vs
  list_of items = refuse not_a_list

  unfoldable pub check_ranges : RangeList → Parsed (Value Num) → Checked (List ChannelRange)
  check_ranges list (ok (object_value ms) rest) =
      and_then (find_items (key_of list) ms none) (λ items. list_of items)
  check_ranges list result = refuse not_a_json_object

  unfoldable pub parse_ranges_request : RangeList → Bytes → Checked (List ChannelRange)
  parse_ranges_request list body =
      if ltb body_limit (length body)
      then refuse body_too_large
      else check_ranges list (parse t body)
