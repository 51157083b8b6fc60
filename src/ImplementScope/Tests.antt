-- ===== src/ImplementScope/Tests.antt =====
-- Runs of the scope functions at the inputs of tests/parallel_workspace_harness.ts.
use ypi.Prelude.{
  ◌≡◌, refl, false, some, [], ◌∷◌, ◌++◌, codes, Text, All, is_absolute, map, if◌then◌else◌, ◌==◌,
}
use ypi.Posix.{normalize}
use ypi.ImplementScope.{
  ok, err, escaping, normalize_implement_scope, path_is_within_implement_scope,
  normalize_repository_relative_path, scopes_overlap, is_unbounded, escapes, normalize_all, covers,
  unique, sort, insert_sorted, precedes, code_points, reduce,
}
use ypi.Prelude.{text_eq, starts_with}
use ypi.Posix.Normal.{normalize_idempotent}
use ypi.ImplementScope.Overlap.{Folds, scopes_disjoint}
use ypi.ImplementScope.Paths.{trailing_slash_owner}
use ypi.ImplementScope.Inside.{IsInside, accepted-IsInside}
use ypi.ImplementScope.Reduction.{Irredundant, IsKept}
use ypi.ImplementScope.Reduction.Entries.{IsDeclared, normalize_implement_scope-Irredundant}
use ypi.Posix.{split, join, resolve, resolve_all, climb, print, ends_with_slash}

normalized :
    normalize_implement_scope (some (codes "./src/a.ts" ∷ codes "src/a.ts" ∷ codes "docs" ∷ []))
    ≡ ok (codes "docs" ∷ codes "src/a.ts" ∷ [])
unfolding normalize_implement_scope normalize_all normalize_repository_relative_path is_unbounded
    escapes normalize split join resolve resolve_all climb print ends_with_slash text_eq starts_with
    unique sort insert_sorted precedes code_points reduce path_is_within_implement_scope covers
normalized = refl

climbing : normalize_repository_relative_path (codes "a/../../b") ≡ err escaping
unfolding normalize_repository_relative_path is_unbounded escapes normalize split join resolve
    resolve_all climb print ends_with_slash text_eq starts_with
climbing = refl

abbrev same : Text → Text
same t = t

same-Folds : Folds same
same-Folds = record { fold_slash = λ a b. refl; fold_dot = refl }

scopes_disjoint_example :
    path_is_within_implement_scope (codes "src/a.ts") (codes "docs" ∷ []) ≡ false
unfolding scopes_overlap normalize_repository_relative_path is_unbounded escapes normalize split
    join resolve resolve_all climb print ends_with_slash text_eq starts_with
    path_is_within_implement_scope covers
scopes_disjoint_example =
    scopes_disjoint same same-Folds (codes "src" ∷ []) (codes "docs" ∷ []) (refl, tt) (refl, tt)
      (codes "src/a.ts") refl refl

trailing_slash_stays : normalize_repository_relative_path (codes "src/") ≡ ok (codes "src/")
unfolding normalize_repository_relative_path is_unbounded escapes normalize split join resolve
    resolve_all climb print ends_with_slash text_eq starts_with path_is_within_implement_scope
    covers
trailing_slash_stays = trailing_slash_owner (codes "src/") (codes "src") refl

accepted-IsInside_example :
    (is_absolute (codes "src/a.ts") ≡ false) × All IsInside (split (codes "src/a.ts"))
unfolding normalize_repository_relative_path is_unbounded escapes normalize split join resolve
    resolve_all climb print ends_with_slash text_eq starts_with
accepted-IsInside_example = accepted-IsInside (codes "src/./a.ts") (codes "src/a.ts") refl

normalize_implement_scope-Irredundant_example :
    Irredundant [] (codes "src" ∷ [])
    × All (IsDeclared (codes "src/a.ts" ∷ codes "src" ∷ [])) (codes "src" ∷ [])
    × All
        (λ e.
          (t : Text) × (normalize_repository_relative_path e ≡ ok t) × IsKept t (codes "src" ∷ []))
        (codes "src/a.ts" ∷ codes "src" ∷ [])
unfolding normalize_implement_scope normalize_all normalize_repository_relative_path is_unbounded
    escapes normalize split join resolve resolve_all climb print ends_with_slash text_eq starts_with
    unique sort insert_sorted precedes code_points reduce path_is_within_implement_scope covers
normalize_implement_scope-Irredundant_example =
    normalize_implement_scope-Irredundant (codes "src/a.ts" ∷ codes "src" ∷ []) (codes "src" ∷ [])
      refl

-- NFKC makes a backslash of the full-width one.
abbrev narrow : Text → Text
narrow t = map (λ c. if c == 65340 then 92 else c) t

abbrev wide : Text
wide = codes "a" ++ 65340 ∷ codes "b"

overlap_missed : scopes_overlap narrow (wide ∷ []) (wide ∷ []) ≡ false
unfolding scopes_overlap path_is_within_implement_scope normalize_repository_relative_path
    is_unbounded
overlap_missed = refl

normalize_idempotent_example :
    normalize (normalize (codes "a/../b/./c/")) ≡ normalize (codes "a/../b/./c/")
normalize_idempotent_example = normalize_idempotent (codes "a/../b/./c/")

-- Sorting puts "-a" in front of ".", which covers it; both stay.
dot_kept :
    normalize_implement_scope (some (codes "-a" ∷ codes "." ∷ []))
    ≡ ok (codes "-a" ∷ codes "." ∷ [])
unfolding normalize_implement_scope normalize_all normalize_repository_relative_path is_unbounded
    escapes normalize split join resolve resolve_all climb print ends_with_slash text_eq starts_with
    unique sort insert_sorted precedes code_points reduce path_is_within_implement_scope covers
dot_kept = refl
