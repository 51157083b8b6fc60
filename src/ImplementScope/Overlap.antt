-- ===== src/ImplementScope/Overlap.antt =====
-- When two declared scopes are disjoint: the check that lets implementers run side by side.
use ypi.Prelude.{
  ◌≡◌, refl, sym, ap, subst, ◌∙◌, ◌⊎◌, inl, inr, true, false, List, [], ◌∷◌, ◌++◌, Text, All,
  text_eq, eq_of_text_eq, text_eq_refl, text_eq_of_eq, starts_with, split_of_starts_with,
  starts_with_append, map, ◌||◌, arith, Elem, any_elim, any_intro, All_elem, Elem-map, Bool-cases,
}
use mathlib.Core.List.{append_assoc}
use ypi.Posix.{slash, dot}
use ypi.ImplementScope.{
  PathError, Checked, ok, err, normalize_repository_relative_path, covers,
  path_is_within_implement_scope, scopes_overlap,
}

pub Checked-cases {ℓ} :
    {A : Type ℓ} (r : Checked A) → ((a : A) × (r ≡ ok a)) ⊎ ((e : PathError) × (r ≡ err e))
Checked-cases (ok a) = inl (a, refl)
Checked-cases (err e) = inr (e, refl)

-- Two texts, each followed by a slash, that begin the same text: one begins the other.
common_owner :
    (a b t : Text)
    → starts_with (a ++ slash ∷ []) t ≡ true
    → starts_with (b ++ slash ∷ []) t ≡ true
    → (a ≡ b)
      ⊎ ((starts_with (a ++ slash ∷ []) b ≡ true) ⊎ (starts_with (b ++ slash ∷ []) a ≡ true))
unfolding starts_with
common_owner [] [] t h k = inl refl
common_owner [] (y ∷ b) [] h k = absurd (cc)
common_owner [] (y ∷ b) (z ∷ t) h k = inr (inl (ground arith))
common_owner (x ∷ a) [] [] h k = absurd (cc)
common_owner (x ∷ a) [] (z ∷ t) h k = inr (inr (ground arith))
common_owner (x ∷ a) (y ∷ b) [] h k = absurd (cc)
common_owner (x ∷ a) (y ∷ b) (z ∷ t) h k = ground (arith, common_owner a b t)

-- Owners of a common path are comparable.
comparable :
    (c a b : Text)
    → covers c a ≡ true
    → covers c b ≡ true
    → (covers a b ≡ true) ⊎ (covers b a ≡ true)
unfolding covers
comparable c a b h k =
    ground (arith, text_eq_refl a, eq_of_text_eq c a, eq_of_text_eq c b, common_owner a b c)

-- What the safety of the check needs of the case folding: it works between slashes, and keeps ".".
pub record Folds (fold : Text → Text) : Type 0 where
  pub fold_slash : (a b : Text) → fold (a ++ slash ∷ b) ≡ fold a ++ slash ∷ fold b
  pub fold_dot : fold dot ≡ dot

-- An owner whose folded form is still accepted, and normal.
abbrev pub FoldsWell : (Text → Text) → Text → Type 0
FoldsWell fold o = normalize_repository_relative_path (fold o) ≡ ok (fold o)

module _ (fold : Text → Text) (f : Folds fold) where
  covers-fold : (a b : Text) → covers a b ≡ true → covers (fold a) (fold b) ≡ true
  unfolding covers
  covers-fold a b h = elim (Bool-cases (text_eq b dot)) [
    | inl here ↦
        ground (arith, text_eq_of_eq (fold b) dot (ap fold (eq_of_text_eq b dot here) ∙ f.fold_dot))
    | inr deep ↦ elim (Bool-cases (text_eq a b)) [
      | inl same ↦
          ground (arith, text_eq_of_eq (fold a) (fold b) (ap fold (eq_of_text_eq a b same)))
      | inr other ↦ below (split_of_starts_with (b ++ slash ∷ []) a (ground arith))
    ]
  ]
    where
      below :
          (r : Text) × (a ≡ (b ++ slash ∷ []) ++ r)
          → (text_eq (fold b) dot
              || text_eq (fold a) (fold b)
              || starts_with (fold b ++ slash ∷ []) (fold a))
            ≡ true
      below (r, e) =
          let shape : fold a ≡ (fold b ++ slash ∷ []) ++ fold r =
            ap fold (e ∙ append_assoc b (slash ∷ []) r)
            ∙ f.fold_slash b r
            ∙ sym (append_assoc (fold b) (slash ∷ []) (fold r)) in
          ground (
            arith,
            subst (λ t. starts_with (fold b ++ slash ∷ []) t ≡ true) (sym shape)
                (starts_with_append (fold b ++ slash ∷ []) (fold r)),
          )

  -- An owner that another list's owner covers is found by the check.
  overlap_found :
      (o k : Text) (owners : List Text)
      → FoldsWell fold o
      → Elem k owners
      → covers o k ≡ true
      → path_is_within_implement_scope (fold o) (map fold owners) ≡ true
  unfolding path_is_within_implement_scope
  overlap_found o k owners well m h =
      rw (well, path_is_within_implement_scope)
        (any_intro (covers (fold o)) (map fold owners) (fold k) (Elem-map fold owners k m)
          (covers-fold o k h))

  within_owner :
      (p : Text) (scope : List Text)
      → path_is_within_implement_scope p scope ≡ true
      → (c : Text) × (o : Text) × (normalize_repository_relative_path p ≡ ok c)
        × Elem o scope
        × (covers c o ≡ true)
  unfolding path_is_within_implement_scope
  within_owner p scope h = elim (Checked-cases (normalize_repository_relative_path p)) [
    | inl (c, e) ↦
        let (o, m, k) = any_elim (covers c) scope (rw (e, path_is_within_implement_scope) at h) in
        (c, o, e, m, k)
    | inr (x, e) ↦ absurd (cc (rw (e, path_is_within_implement_scope) at h))
  ]

  module _ (left right : List Text) (wells_left : All (FoldsWell fold) left)
      (wells_right : All (FoldsWell fold) right) where
    common_path_overlaps :
        (p : Text)
        → path_is_within_implement_scope p left ≡ true
        → path_is_within_implement_scope p right ≡ true
        → scopes_overlap fold left right ≡ true
    unfolding scopes_overlap
    common_path_overlaps p h k =
        let (c, a, e, m, x) = within_owner p left h in
        let (d, b, e', n, y) = within_owner p right k in
        let same : d ≡ c = ground (arith, sym e' ∙ e) in
        elim (comparable c a b x (subst (λ t. covers t b ≡ true) same y)) [
          | inl under ↦ ground (
            arith,
            any_intro (λ t. path_is_within_implement_scope t (map fold right)) (map fold left)
                (fold a) (Elem-map fold left a m)
                (overlap_found a b right (All_elem (FoldsWell fold) left a wells_left m) n under),
          )
          | inr over ↦ ground (
            arith,
            any_intro (λ t. path_is_within_implement_scope t (map fold left)) (map fold right)
                (fold b) (Elem-map fold right b n)
                (overlap_found b a left (All_elem (FoldsWell fold) right b wells_right n) m over),
          )
        ]

    -- Two scopes that the check finds disjoint have no path in common, as long as folding treats the
    -- texts around a slash apart and keeps ".", and the folded owners are themselves acceptable normal
    -- paths: what one implementer may write the other may not.
    pub scopes_disjoint :
        (p : Text)
        → scopes_overlap fold left right ≡ false
        → path_is_within_implement_scope p left ≡ true
        → path_is_within_implement_scope p right ≡ false
    scopes_disjoint p apart h = elim (Bool-cases (path_is_within_implement_scope p right)) [
      | inl k ↦ absurd (cc (sym apart ∙ common_path_overlaps p h k))
      | inr k ↦ k
    ]
