-- ===== src/Witnesses/Text.antt =====
-- The settings and the sequence store.
use showmesh_fpp_plugin.Base.{
  ◌≤◌, true, false, ◌≡◌, refl, none, some, List, [], ◌∷◌, Bytes, All, arith, if◌then◌else◌,
}
use showmesh_fpp_plugin.Ranges.{
  ChannelRange, validate_one_list, exclude_list, check_each, check_sorted, check_after, sort_ranges,
  insert_range, end_exclusive,
}
use showmesh_fpp_plugin.Brightness.Output.{IsConfigured}
use showmesh_fpp_plugin.Setting.{
  parsed, parse_channel_ranges_setting, parse_channel_ranges_setting_strict,
  format_channel_ranges_setting,
}
use showmesh_fpp_plugin.Setting.Bounds.{IsUsable, AllParsed, parse_channel_ranges_setting-IsUsable}
use showmesh_fpp_plugin.Setting.RoundTrip.{strict-format}
use showmesh_fpp_plugin.Setting.Configure.{configure_apply_ranges}
use showmesh_fpp_plugin.Setting.Fallback.{first_usable, configure_apply_ranges-IsConfigured}
use showmesh_fpp_plugin.Decimal.{to_string}
use showmesh_fpp_plugin.Store.{Files, FileCalls, all_open}
use showmesh_fpp_plugin.Store.Sequence.{encode_record, parse_record, load, store}
use showmesh_fpp_plugin.Store.Record.{IsLine, parse_record-encode_record}
use showmesh_fpp_plugin.Store.Monotone.{IsOrdered, store-load}
use showmesh_fpp_plugin.Witnesses.{node, apply_one, exclude_one}

strict-format_example :
    parse_channel_ranges_setting_strict (
      format_channel_ranges_setting
        (record { start_channel = 1; channel_count = 512 } ∷ exclude_one))
    ≡ parsed (record { start_channel = 1; channel_count = 512 } ∷ exclude_one)
strict-format_example =
    strict-format (record { start_channel = 1; channel_count = 512 } ∷ exclude_one)
      ((omega arith, omega arith, omega arith), ((omega arith, omega arith, omega arith), tt))

-- "5-2, x".
abbrev setting_text : Bytes
setting_text = 53 ∷ 45 ∷ 50 ∷ 44 ∷ 32 ∷ 120 ∷ []

parse_channel_ranges_setting-IsUsable_example :
    All IsUsable (parse_channel_ranges_setting setting_text)
    × AllParsed (parse_channel_ranges_setting_strict setting_text)
parse_channel_ranges_setting-IsUsable_example = parse_channel_ranges_setting-IsUsable setting_text

-- A range past the last channel, which falls back to the output ranges.
abbrev too_far : List ChannelRange
too_far = record { start_channel = 7; channel_count = 3 } ∷ []

exclude_one-valid : validate_one_list exclude_list 8 exclude_one ≡ none
unfolding validate_one_list check_each check_sorted check_after sort_ranges insert_range
    end_exclusive
exclude_one-valid = refl

configure_apply_ranges-IsConfigured_example :
    let e' = (configure_apply_ranges node too_far apply_one exclude_one 8 []).0 in
    IsConfigured e'
    × (e'.ranges
        ≡ record { apply = first_usable 8 (too_far ∷ apply_one ∷ []); exclude = exclude_one })
configure_apply_ranges-IsConfigured_example =
    configure_apply_ranges-IsConfigured node too_far apply_one exclude_one 8 [] (omega arith, tt)
      (omega arith, tt) (omega arith, tt) (omega arith) (omega arith) exclude_one-valid

-- A hash that is the text's own first byte, as a letter.
abbrev letter : Bytes → Bytes
letter [] = 97 ∷ []
letter (c ∷ cs) = 98 ∷ []

letter-IsLine : (text : Bytes) → IsLine (letter text)
letter-IsLine [] = (refl, tt)
letter-IsLine (c ∷ cs) = (refl, tt)

parse_record-encode_record_example :
    parse_record letter (some (encode_record letter 1729))
    ≡ record { value = 1729; ok = true; present = true }
parse_record-encode_record_example =
    parse_record-encode_record letter 1729 (omega arith) (letter-IsLine (to_string 1729))

abbrev empty : Files
empty = record { primary = none; backup = none; temporary = none }

-- The check of the primary, and the rename of the temporary file, fail.
abbrev calls : FileCalls
calls = record {
  reads = all_open;
  checks = false;
  rotates = true;
  opens = true;
  writes = true;
  written = [];
  syncs = true;
  renames = false;
}

empty-IsOrdered : IsOrdered letter empty
unfolding parse_record
empty-IsOrdered = tt

store-load_example :
    IsOrdered letter (store letter empty calls 1729).1
    × (load letter (store letter empty calls 1729).1 all_open
        ≡ (if (store letter empty calls 1729).0 then 1729 else load letter empty all_open))
    × (load letter empty all_open ≤ load letter (store letter empty calls 1729).1 all_open)
store-load_example =
    store-load letter empty calls 1729 refl (omega arith) (letter-IsLine (to_string 1729))
      empty-IsOrdered
