-- ===== src/VirtualFunc.antt =====
-- vf.go: virtual functions, which statements call and sequel replaces by the driver's own SQL.
pub mod Args
pub mod Scan
pub mod Pairs
pub mod Dates
pub mod JsonField
pub mod TextSearch
use sequel.Base.Int.{format_int, digits_value, parse_digits, parse_int}
use sequel.Base.{
  [], ◌∷◌, codes, equal, upper_byte, to_upper, trim_left, trim_right, trim_space, itoa_onto, itoa,
}
use sequel.Lex.{lexing}
use sequel.VirtualFunc.Args.{find_close, find_balanced_close, last_comma, last_top_level_comma}
use sequel.VirtualFunc.Dates.{
  now_utc_precision, now_utc_at, vf_now_utc, is_coarse_now_utc, mssql_date_add,
  mssql_date_add_millis, date_add_at, vf_date_add_millis,
}
use sequel.VirtualFunc.JsonField.{
  is_identifier, member_run, trim_root, with_dot, path_elems, parse_json_path, render_elems,
  join_keys, json_field_at, unquoted, vf_json_field,
}
use sequel.VirtualFunc.Pairs.{
  two_args, date_diff_at, vf_date_diff_millis, limit_offset_at, vf_limit_offset,
}
use sequel.VirtualFunc.Scan.{
  Registry, find_handler, register, unregister, advance, replace, call_at, ident_at, round,
  scan_from, expand_once, expand_virtual_funcs,
}
use sequel.VirtualFunc.TextSearch.{
  split_commas, trimmed_columns, join_commas, concatenated, text_search_at, vf_regexp_text_search,
}

-- The registry that `init` stores.
abbrev pub built_in : Registry
built_in =
    (codes "NOW_UTC", vf_now_utc)
    ∷ (codes "REGEXP_TEXT_SEARCH", vf_regexp_text_search)
    ∷ (codes "DATE_ADD_MILLIS", vf_date_add_millis)
    ∷ (codes "DATE_DIFF_MILLIS", vf_date_diff_millis)
    ∷ (codes "LIMIT_OFFSET", vf_limit_offset)
    ∷ (codes "JSON_FIELD", vf_json_field)
    ∷ []

-- Opens the expansion and what it calls, for evaluation at concrete inputs.
unfoldable pub expanding : Unit {0}
unfolding lexing equal upper_byte to_upper trim_left trim_right trim_space itoa_onto itoa format_int
    digits_value parse_digits parse_int find_close find_balanced_close last_comma
    last_top_level_comma now_utc_precision now_utc_at vf_now_utc is_coarse_now_utc mssql_date_add
    mssql_date_add_millis date_add_at vf_date_add_millis is_identifier member_run trim_root with_dot
    path_elems parse_json_path render_elems join_keys json_field_at unquoted vf_json_field two_args
    date_diff_at vf_date_diff_millis limit_offset_at vf_limit_offset find_handler register
    unregister advance replace call_at ident_at round scan_from expand_once expand_virtual_funcs
    split_commas trimmed_columns join_commas concatenated text_search_at vf_regexp_text_search
expanding = tt
