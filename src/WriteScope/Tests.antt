-- ===== src/WriteScope/Tests.antt =====
-- A write in a checkout where every file exists, no link leads away and nothing is ignored.
use ypi.Prelude.{
  ◌≡◌, refl, Bool, true, false, Option, some, [], ◌∷◌, codes, Text, text_eq, starts_with,
}
use ypi.Posix.{
  normalize, split, join, resolve, resolve_all, climb, print, ends_with_slash, absolute_segments,
  resolve_root, climb_root, resolve_path, relative, strip_common,
}
use ypi.ImplementScope.{
  normalize_repository_relative_path, is_unbounded, escapes, covers, path_is_within_implement_scope,
}
use ypi.WriteScope.{
  Policy, Ignore, not_ignored, is_within, is_submodule_path, nearest_existing_path,
  canonical_candidate, decide_path, resolve_implement_path,
}
use ypi.WriteScope.Gate.{
  FileCall, is_implement_tool, is_reading_tool, is_writing_tool, requested_path, apply_policy,
  check_implement_write_path, on_tool_call,
}
use ypi.WriteScope.Confined.{IsConfined, on_tool_call-IsConfined}

abbrev everywhere : Text → Bool
everywhere t = true

abbrev no_links : Text → Option Text
no_links t = some t

abbrev nothing_ignored : Bool → Text → Ignore
nothing_ignored baseline t = not_ignored

abbrev sources : Policy
sources = record {
  external_read_files = [];
  scope = codes "src" ∷ [];
  submodule_paths = codes "vendor" ∷ [];
}

abbrev edit : FileCall
edit = record { tool = codes "edit"; path = some (codes "../w/src/a"); path_missing = false }

on_tool_call-IsConfined_example :
    (p : Policy) × (relative_path : Text) × (some sources ≡ some p)
    × (true ≡ true)
    × (some (codes "src/a") ≡ some relative_path)
    × IsConfined everywhere no_links nothing_ignored
        (codes "/w")
        (codes "/w")
        edit.path
        p
        relative_path
unfolding on_tool_call is_implement_tool is_reading_tool is_writing_tool requested_path
    check_implement_write_path apply_policy resolve_implement_path decide_path canonical_candidate
    nearest_existing_path is_within is_submodule_path path_is_within_implement_scope
    normalize_repository_relative_path is_unbounded escapes covers normalize split join resolve
    resolve_all climb print ends_with_slash absolute_segments resolve_root climb_root resolve_path
    relative strip_common text_eq starts_with
on_tool_call-IsConfined_example =
    on_tool_call-IsConfined everywhere no_links nothing_ignored (codes "/w") (codes "/w")
      (some sources) true edit (some (codes "src/a")) refl refl
