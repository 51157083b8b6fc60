-- ===== src/WriteScope/Gate.antt =====
-- `checkImplementReadPath`, `checkImplementWritePath` and the handler of
-- `registerImplementWriteScope` of extensions/ypi/internal/write-scope.ts.
use ypi.Prelude.{
  Bool, true, false, Option, none, some, List, [], ◌∷◌, Text, codes, text_eq, any, if◌then◌else◌,
  not, ◌&&◌,
}
use ypi.ImplementScope.{path_is_within_implement_scope}
use ypi.Posix.{dot}
use ypi.WriteScope.{
  Denial, submodule, out_of_scope, ignore_failed, ignored, tool_not_allowed, no_policy, not_audited,
  Decision, denied, allowed, Ignore, is_ignored, not_ignored, check_failed, reads, writes, Policy,
  is_submodule_path, resolve_implement_path,
}

-- A call of one of the file tools: its name and its path argument, if that is a text, and whether
-- the argument is missing altogether.
pub record FileCall : Type 0 where
  pub tool : Text
  pub path : Option Text
  pub path_missing : Bool

abbrev one_of : List Text → Text → Bool
one_of names t = any (text_eq t) names

-- `IMPLEMENT_TOOL_ALLOWLIST` of child-config.ts.
unfoldable pub is_implement_tool : Text → Bool
is_implement_tool = one_of (
    codes "read"
    ∷ codes "grep"
    ∷ codes "find"
    ∷ codes "ls"
    ∷ codes "edit"
    ∷ codes "write"
    ∷ codes "rlm_query"
    ∷ [])

unfoldable pub is_reading_tool : Text → Bool
is_reading_tool = one_of (codes "read" ∷ codes "grep" ∷ codes "find" ∷ codes "ls" ∷ [])

unfoldable pub is_writing_tool : Text → Bool
is_writing_tool = one_of (codes "write" ∷ codes "edit" ∷ [])

-- `event.input.path`, or `event.input.path ?? "."` for the tools that search.
unfoldable pub requested_path : FileCall → Option Text
requested_path call =
    if call.path_missing && not (text_eq call.tool (codes "read")) then some dot else call.path

-- The answer to a tool call: it goes on, with what is written to the audit file, or it is blocked.
pub data Answer : Type 0 where
  proceed : Option Text → Answer
  block : Denial → Answer

abbrev after_ignore : Ignore → Decision → Decision
after_ignore check_failed next = denied ignore_failed
after_ignore is_ignored next = denied ignored
after_ignore not_ignored next = next

module _ (exists : Text → Bool) (realpath : Text → Option Text)
    (check_ignored : Bool → Text → Ignore) where
  unfoldable pub check_implement_read_path : Text → Text → Option Text → Option Policy → Decision
  check_implement_read_path root cwd requested none =
      resolve_implement_path exists realpath root cwd requested reads []
  check_implement_read_path root cwd requested (some policy) =
      elim (resolve_implement_path exists realpath root cwd requested reads
        policy.external_read_files) [
          | denied d ↦ denied d
          | allowed absolute_path none ↦ allowed absolute_path none
          | allowed absolute_path (some relative_path) ↦
              if is_submodule_path relative_path policy.submodule_paths
              then denied submodule
              else allowed absolute_path (some relative_path)
        ]

  -- The checks on the relative path, in their order.
  unfoldable pub apply_policy : Policy → Text → Text → Decision
  apply_policy policy absolute_path relative_path =
      if path_is_within_implement_scope relative_path policy.scope
      then (if is_submodule_path relative_path policy.submodule_paths
          then denied submodule
          else after_ignore (check_ignored true relative_path) (
              after_ignore (check_ignored false relative_path)
                (allowed absolute_path (some relative_path))))
      else denied out_of_scope

  unfoldable pub check_implement_write_path : Text → Text → Option Text → Option Policy → Decision
  check_implement_write_path root cwd requested none =
      resolve_implement_path exists realpath root cwd requested writes []
  check_implement_write_path root cwd requested (some policy) =
      elim (resolve_implement_path exists realpath root cwd requested writes []) [
        | denied d ↦ denied d
        | allowed absolute_path none ↦ allowed absolute_path none
        | allowed absolute_path (some relative_path) ↦
            apply_policy policy absolute_path relative_path
      ]

  abbrev answer_read : Decision → Answer
  answer_read (denied d) = block d
  answer_read (allowed absolute_path relative_path) = proceed none

  -- An allowed write is recorded, and blocked where that fails.
  abbrev answer_write : Bool → Decision → Answer
  answer_write audited (denied d) = block d
  answer_write audited (allowed absolute_path relative_path) =
      if audited then proceed relative_path else block not_audited

  -- The handler of "tool_call"; `audited` says whether the audit file can be written.
  unfoldable pub on_tool_call : Text → Text → Option Policy → Bool → FileCall → Answer
  on_tool_call root cwd policy audited call =
      if is_implement_tool call.tool
      then elim policy [
        | none ↦ block no_policy
        | some p ↦
            if is_reading_tool call.tool
            then answer_read (check_implement_read_path root cwd (requested_path call) (some p))
            else if is_writing_tool call.tool
            then answer_write audited (check_implement_write_path root cwd call.path (some p))
            else proceed none
      ]
      else block tool_not_allowed
