-- ===== src/WriteScope.antt =====
-- extensions/ypi/internal/write-scope.ts: which paths an implementing child may read and write.
-- The file system is the parameters `exists` and `realpath` (`none` where it throws), and
-- `git check-ignore` is `check_ignored`, whose flag tells the baseline's ignore files from the
-- checkout's own.
pub mod Gate
pub mod Below
pub mod Leads
pub mod Confined
mod Tests
use ypi.Prelude.{
  Bool, true, false, Option, none, some, List, [], ◌∷◌, ◌++◌, Text, text_eq, starts_with,
  is_absolute, any, if◌then◌else◌, not, ◌&&◌, ◌||◌, ◌==◌,
}
use mathlib.Core.List.{reverse}
use ypi.Posix.{slash, dotdot, split, join, absolute_segments, resolve_path, relative}
use ypi.ImplementScope.{git}

pub data Denial : Type 0 where
  invalid_path no_root ancestry_unverified ancestry_unresolved outside metadata : Denial
  submodule out_of_scope ignore_failed ignored : Denial
  tool_not_allowed no_policy not_audited : Denial

-- `WriteScopeDecision`: an allowed path may lie outside of the checkout, and then has no relative path.
pub data Decision : Type 0 where
  denied : Denial → Decision
  allowed : Text → Option Text → Decision

pub data Ignore : Type 0 where
  is_ignored not_ignored check_failed : Ignore

pub data Access : Type 0 where
  reads writes : Access

pub record Policy : Type 0 where
  pub external_read_files : List Text
  pub scope : List Text
  pub submodule_paths : List Text

-- `isWithin`.
unfoldable pub is_within : Text → Text → Bool
is_within root candidate =
    let r = relative root candidate in
    text_eq r []
    || (not (starts_with (dotdot ++ slash ∷ []) r) && not (text_eq r dotdot) && not (is_absolute r))

abbrev pub path_of : List Text → Text
path_of stack = slash ∷ join (reverse stack)

unfoldable pub is_submodule_path : Text → List Text → Bool
is_submodule_path relative_path submodule_paths =
    any
      (λ candidate.
        text_eq relative_path candidate || starts_with (candidate ++ slash ∷ []) relative_path)
      submodule_paths

abbrev is_valid_request : Text → Bool
is_valid_request [] = false
is_valid_request (c ∷ cs) = not (any (λ d. d == 0) (c ∷ cs))

abbrev may_read_outside : Access → Bool
may_read_outside reads = true
may_read_outside writes = false

module _ (exists : Text → Bool) (realpath : Text → Option Text) where
  -- `nearestExistingPath`, over the segments of the path, the last one first.
  unfoldable pub nearest_existing_path : List Text → Option Text
  nearest_existing_path [] = if exists (path_of []) then some (path_of []) else none
  nearest_existing_path (s ∷ stack) =
      let parent = nearest_existing_path stack in
      if exists (path_of (s ∷ stack)) then some (path_of (s ∷ stack)) else parent

  -- The real path that the requested one would have: that of its nearest existing ancestor, and the rest.
  unfoldable pub canonical_candidate : Text → Text → Option Text
  canonical_candidate existing absolute_path = elim (realpath existing) [
    | none ↦ none
    | some real_existing ↦ some (resolve_path real_existing (relative existing absolute_path))
  ]

  abbrev is_real_path : Text → Option Text → Bool
  is_real_path candidate none = false
  is_real_path candidate (some t) = text_eq t candidate

  -- The part after the real path is known.
  unfoldable pub decide_path : Text → Text → Text → Access → List Text → Decision
  decide_path root absolute_path candidate access external_read_files =
      if is_within root candidate
      then (if any (text_eq git) (split (relative root candidate))
          then denied metadata
          else allowed absolute_path (some (relative root candidate)))
      else if may_read_outside access
          && any (λ file. is_real_path candidate (realpath file)) external_read_files
      then allowed candidate none
      else denied outside

  unfoldable pub resolve_implement_path : Text → Text → Option Text → Access → List Text → Decision
  resolve_implement_path root cwd requested_path access external_read_files = elim requested_path [
    | none ↦ denied invalid_path
    | some requested ↦
        if is_valid_request requested
        then elim (realpath root) [
          | none ↦ denied no_root
          | some canonical_root ↦
              let absolute_path = resolve_path cwd requested in
              elim (nearest_existing_path (reverse (absolute_segments absolute_path))) [
                | none ↦ denied ancestry_unverified
                | some existing ↦ elim (canonical_candidate existing absolute_path) [
                  | none ↦ denied ancestry_unresolved
                  | some candidate ↦
                      decide_path canonical_root absolute_path candidate access external_read_files
                ]
              ]
        ]
        else denied invalid_path
  ]
