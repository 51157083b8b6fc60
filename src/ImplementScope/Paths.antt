-- ===== src/ImplementScope/Paths.antt =====
-- The segments of an accepted repository path, and what an owner with a trailing slash covers.
use ypi.Prelude.{
  ℕ, ◌≡◌, refl, sym, ap, ◌∙◌, inl, inr, ◌≢◌, Bool, true, false, List, [], ◌∷◌, ◌++◌, Text, All,
  text_eq, eq_of_text_eq, split_of_starts_with, any, ◌==◌, if◌then◌else◌, arith, Bool-cases,
}
use mathlib.Core.List.{reverse, append_assoc}
use ypi.Posix.{slash, dot, push_head, split, resolve_all, print, ends_with_slash, normalize}
use ypi.Posix.Segments.{IsPiece, split-join_ne, split-join-slash_ne, NoSlash-of_IsPiece}
use ypi.Posix.Normal.{Resolved, Resolved-IsPiece, All-reverse, reverse_ne, resolved}
use ypi.ImplementScope.{
  ok, escapes, git, normalize_repository_relative_path, covers, path_is_within_implement_scope,
}
use ypi.ImplementScope.Overlap.{Checked-cases}

-- What acceptance has checked.
pub accepted :
    (v t : Text)
    → normalize_repository_relative_path v ≡ ok t
    → (t ≡ normalize v) × (escapes t ≡ false) × (any (λ s. text_eq s git) (split t) ≡ false)
unfolding normalize_repository_relative_path
accepted v t h = ground arith

-- The segments of a normal path: non-empty ones, and an empty one last for a trailing slash.
pub data Segmented (t : Text) : Type 0 where
  closed : (l : List Text) → split t ≡ l → All IsPiece l → Segmented t
  trailing : (l : List Text) → split t ≡ l ++ [] ∷ [] → All IsPiece l → Segmented t

print-Segmented : (st : List Text) (b : Bool) → Resolved st → Segmented (print st b)
unfolding print split
print-Segmented [] true r = trailing (dot ∷ []) refl (((λ e. cc), (ground arith, tt)), tt)
print-Segmented [] false r = closed (dot ∷ []) refl (((λ e. cc), (ground arith, tt)), tt)
print-Segmented (s ∷ st) true r =
    let pieces = All-reverse IsPiece (s ∷ st) (Resolved-IsPiece (s ∷ st) r) in
    trailing (reverse (s ∷ st))
      (split-join-slash_ne _ (reverse_ne s st) (NoSlash-of_IsPiece _ pieces)) pieces
print-Segmented (s ∷ st) false r =
    let pieces = All-reverse IsPiece (s ∷ st) (Resolved-IsPiece (s ∷ st) r) in
    closed (reverse (s ∷ st)) (split-join_ne _ (reverse_ne s st) (NoSlash-of_IsPiece _ pieces))
      pieces

pub normalize-Segmented : (v : Text) → Segmented (normalize v)
unfolding normalize
normalize-Segmented v = print-Segmented (resolve_all [] (split v)) (ends_with_slash v) (resolved v)

push_head-append : (c : ℕ) (l m : List Text) → l ≢ [] → push_head c (l ++ m) ≡ push_head c l ++ m
push_head-append c [] m n = absurd (n refl)
push_head-append c (s ∷ l) m n = refl

pub split_ne : (t : Text) → split t ≢ []
unfolding split
split_ne [] = λ e. cc
split_ne (c ∷ t) = λ e. nonempty (split t) (ground arith)
  where
    nonempty : (l : List Text) → (if c == slash then [] ∷ l else push_head c l) ≡ [] → ⊥
    nonempty [] e = ground arith
    nonempty (s ∷ l) e = ground arith

-- A slash separates the segments before it from those after it.
split-append : (a b : Text) → split (a ++ slash ∷ b) ≡ split a ++ split b
unfolding split
split-append [] b = refl
split-append (c ∷ a) b =
    ground (arith, split-append a b, push_head-append c (split a) (split b) (split_ne a))

no_empty_inside : (l xs ys : List Text) → All IsPiece l → l ≡ xs ++ [] ∷ ys → ⊥
no_empty_inside [] [] ys h e = cc
no_empty_inside [] (x ∷ xs) ys h e = cc
no_empty_inside (s ∷ l) [] ys ((n, _), h) e = n (ground arith)
no_empty_inside (s ∷ l) (x ∷ xs) ys (_, h) e = no_empty_inside l xs ys h (ground arith)

no_empty_before : (l xs ys : List Text) → All IsPiece l → ys ≢ [] → l ++ [] ∷ [] ≡ xs ++ [] ∷ ys → ⊥
no_empty_before [] [] ys h n e = n (ground arith)
no_empty_before [] (x ∷ []) ys h n e = cc
no_empty_before [] (x ∷ y ∷ xs) ys h n e = cc
no_empty_before (s ∷ l) [] ys ((k, _), h) n e = k (ground arith)
no_empty_before (s ∷ l) (x ∷ xs) ys (_, h) n e = no_empty_before l xs ys h n (ground arith)

-- No normal path has two slashes in a row.
no_double_slash : (v a b : Text) → normalize v ≡ a ++ slash ∷ slash ∷ b → ⊥
unfolding split
no_double_slash v a b e = go (normalize-Segmented v)
  where
    parts : split (normalize v) ≡ split a ++ [] ∷ split b
    parts = ap split e ∙ split-append a (slash ∷ b) ∙ ap (λ l. split a ++ l) (split-append [] b)

    go : Segmented (normalize v) → ⊥
    go (closed l s h) = no_empty_inside l (split a) (split b) h (sym s ∙ parts)
    go (trailing l s h) = no_empty_before l (split a) (split b) h (split_ne b) (sym s ∙ parts)

slash_ne_dot : (o : Text) → o ++ slash ∷ [] ≢ dot
slash_ne_dot [] = λ e. ground arith
slash_ne_dot (x ∷ []) = λ e. ground arith
slash_ne_dot (x ∷ y ∷ o) = λ e. ground arith

covered_by_slash :
    (p c o : Text) → c ≡ normalize p → covers c (o ++ slash ∷ []) ≡ true → c ≡ o ++ slash ∷ []
unfolding covers
covered_by_slash p c o n h = elim (Bool-cases (text_eq (o ++ slash ∷ []) dot)) [
  | inl here ↦ absurd (slash_ne_dot o (eq_of_text_eq _ dot here))
  | inr deep ↦ elim (Bool-cases (text_eq c (o ++ slash ∷ []))) [
    | inl same ↦ eq_of_text_eq c (o ++ slash ∷ []) same
    | inr other ↦
        let (r, e) = split_of_starts_with ((o ++ slash ∷ []) ++ slash ∷ []) c (ground arith) in
        absurd (
          no_double_slash p o r (
            sym n
            ∙ e
            ∙ ap (λ t. t ++ r) (append_assoc o (slash ∷ []) (slash ∷ []))
            ∙ append_assoc o (slash ∷ slash ∷ []) r))
  ]
]

-- An owner that ends in a slash covers one path only, the one spelled like it: a directory declared
-- as "src/" lets nothing inside the directory be written.
pub trailing_slash_owner :
    (p o : Text)
    → path_is_within_implement_scope p ((o ++ slash ∷ []) ∷ []) ≡ true
    → normalize_repository_relative_path p ≡ ok (o ++ slash ∷ [])
unfolding path_is_within_implement_scope
trailing_slash_owner p o h = elim (Checked-cases (normalize_repository_relative_path p)) [
  | inr (x, e) ↦ absurd (cc (rw (e, path_is_within_implement_scope) at h))
  | inl (c, e) ↦
      e
      ∙ ap ok (
          covered_by_slash p c o (accepted p c e).0
            (ground (arith, rw (e, path_is_within_implement_scope) at h)))
]
