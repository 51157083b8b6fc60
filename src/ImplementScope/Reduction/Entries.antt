-- ===== src/ImplementScope/Reduction/Entries.antt =====
-- What `normalizeImplementScope` returns for the entries of a declaration.
use ypi.Prelude.{◌≡◌, refl, subst, ◌⊎◌, inl, inr, some, List, [], ◌∷◌, Text, All, Elem, arith}
use ypi.ImplementScope.{
  PathError, ok, err, normalize_repository_relative_path, normalize_all, sort, unique, reduce,
  normalize_implement_scope,
}
use ypi.ImplementScope.Overlap.{Checked-cases}
use ypi.ImplementScope.Reduction.{
  Irredundant, IsKept, reduce-Irredundant, sort-All, unique-All, reduce-All, sort-Elem, unique-Elem,
  reduce-IsKept,
}

-- Every entry has a normal form, and it stands in the list.
abbrev Normalized : List Text → List Text → Type 0
Normalized entries ts =
    All (λ e. (t : Text) × (normalize_repository_relative_path e ≡ ok t) × Elem t ts) entries

Normalized-longer :
    (u : Text) (ts entries : List Text) → Normalized entries ts → Normalized entries (u ∷ ts)
Normalized-longer u ts [] h = tt
Normalized-longer u ts (e ∷ es) ((t, x, m), h) = ((t, x, inr m), Normalized-longer u ts es h)

-- What a list of entries that normalizes is made of.
normalize_all_cons :
    (entry : Text) (entries ts : List Text)
    → normalize_all (entry ∷ entries) ≡ ok ts
    → (t : Text) × (us : List Text) × (normalize_repository_relative_path entry ≡ ok t)
      × (normalize_all entries ≡ ok us)
      × (t ∷ us ≡ ts)
unfolding normalize_all
normalize_all_cons entry entries ts h =
    joined (Checked-cases (normalize_repository_relative_path entry))
      (Checked-cases (normalize_all entries))
  where
    joined :
        ((t : Text) × (normalize_repository_relative_path entry ≡ ok t))
          ⊎ ((e : PathError) × (normalize_repository_relative_path entry ≡ err e))
        → ((us : List Text) × (normalize_all entries ≡ ok us))
          ⊎ ((e : PathError) × (normalize_all entries ≡ err e))
        → (t : Text) × (us : List Text) × (normalize_repository_relative_path entry ≡ ok t)
          × (normalize_all entries ≡ ok us)
          × (t ∷ us ≡ ts)
    joined (inr (e, x)) rest = absurd (cc (rw (x, normalize_all) at h))
    joined (inl (t, x)) (inr (e, y)) = absurd (cc (rw (x, y, normalize_all) at h))
    joined (inl (t, x)) (inl (us, y)) = (t, us, x, y, ground (arith, rw (x, y, normalize_all) at h))

normalize_all-Elem :
    (entries ts : List Text) → normalize_all entries ≡ ok ts → Normalized entries ts
unfolding normalize_all
normalize_all-Elem [] ts h = tt
normalize_all-Elem (entry ∷ entries) ts h =
    joined (normalize_all-Elem entries) (normalize_all_cons entry entries ts h)
  where
    joined :
        ((us : List Text) → normalize_all entries ≡ ok us → Normalized entries us)
        → ((t : Text) × (us : List Text) × (normalize_repository_relative_path entry ≡ ok t)
            × (normalize_all entries ≡ ok us)
            × (t ∷ us ≡ ts))
        → Normalized (entry ∷ entries) ts
    joined ih (t, us, x, y, e) =
        subst (Normalized (entry ∷ entries)) e
          ((t, x, inl refl), Normalized-longer t us entries (ih us y))

Normalized-IsKept :
    (scope ts entries : List Text)
    → ((t : Text) → Elem t ts → IsKept t scope)
    → Normalized entries ts
    → All (λ e. (t : Text) × (normalize_repository_relative_path e ≡ ok t) × IsKept t scope) entries
Normalized-IsKept scope ts [] k h = tt
Normalized-IsKept scope ts (e ∷ es) k ((t, x, m), h) =
    ((t, x, k t m), Normalized-IsKept scope ts es k h)

-- An owner comes from an entry of the declared scope.
abbrev pub IsDeclared : List Text → Text → Type 0
IsDeclared entries t = (e : Text) × Elem e entries × (normalize_repository_relative_path e ≡ ok t)

normalize_all-IsDeclared :
    (entries ts : List Text) → normalize_all entries ≡ ok ts → All (IsDeclared entries) ts
unfolding normalize_all
normalize_all-IsDeclared [] ts h = nothing (ground (arith, h))
  where
    nothing : [] ≡ ts → All (IsDeclared []) ts
    nothing e = subst (All (IsDeclared [])) e tt
normalize_all-IsDeclared (entry ∷ entries) ts h =
    joined (normalize_all-IsDeclared entries) (normalize_all_cons entry entries ts h)
  where
    wider : (us : List Text) → All (IsDeclared entries) us → All (IsDeclared (entry ∷ entries)) us
    wider [] d = tt
    wider (u ∷ us) ((e, m, x), d) = ((e, inr m, x), wider us d)

    joined :
        ((us : List Text) → normalize_all entries ≡ ok us → All (IsDeclared entries) us)
        → ((t : Text) × (us : List Text) × (normalize_repository_relative_path entry ≡ ok t)
            × (normalize_all entries ≡ ok us)
            × (t ∷ us ≡ ts))
        → All (IsDeclared (entry ∷ entries)) ts
    joined ih (t, us, x, y, e) =
        subst (All (IsDeclared (entry ∷ entries))) e ((entry, inl refl, x), wider us (ih us y))

-- How a declaration that is accepted was handled.
accepted_entries :
    (entries scope : List Text)
    → normalize_implement_scope (some entries) ≡ ok scope
    → (us : List Text) × (normalize_all entries ≡ ok us) × (reduce [] (sort (unique [] us)) ≡ scope)
unfolding normalize_implement_scope
accepted_entries [] scope h = absurd (cc)
accepted_entries (entry ∷ entries) scope h =
    handled (Checked-cases (normalize_all (entry ∷ entries)))
  where
    handled :
        ((us : List Text) × (normalize_all (entry ∷ entries) ≡ ok us))
          ⊎ ((e : PathError) × (normalize_all (entry ∷ entries) ≡ err e))
        → (us : List Text) × (normalize_all (entry ∷ entries) ≡ ok us)
          × (reduce [] (sort (unique [] us)) ≡ scope)
    handled (inr (e, x)) = absurd (ground (arith, rw (x, normalize_implement_scope) at h))
    handled (inl (us, x)) = (us, x, ground (arith, rw (x, normalize_implement_scope) at h))

-- The normal scope of a declaration that is accepted: no owner is covered by one before it, each
-- owner is the normal form of a declared entry, and the normal form of each declared entry is an
-- owner or covered by one.
pub normalize_implement_scope-Irredundant :
    (entries scope : List Text)
    → normalize_implement_scope (some entries) ≡ ok scope
    → Irredundant [] scope
      × All (IsDeclared entries) scope
      × All
          (λ e. (t : Text) × (normalize_repository_relative_path e ≡ ok t) × IsKept t scope)
          entries
normalize_implement_scope-Irredundant entries scope h =
    let (us, x, e) = accepted_entries entries scope h in
    (
      subst (Irredundant []) e (reduce-Irredundant [] (sort (unique [] us)) tt),
      subst (All (IsDeclared entries)) e (
          reduce-All (IsDeclared entries) [] _ tt (
            sort-All (IsDeclared entries) _
              (unique-All (IsDeclared entries) [] us (normalize_all-IsDeclared entries us x)))),
      Normalized-IsKept scope us entries
          (λ t m.
            subst (IsKept t) e
              (reduce-IsKept t [] _ (inr (sort-Elem t _ (not_seen _ t (unique-Elem t [] us m))))))
          (normalize_all-Elem entries us x),
    )
  where
    not_seen : (us : List Text) (t : Text) → Elem t us ⊎ ⊥ → Elem t us
    not_seen us t (inl m) = m
    not_seen us t (inr b) = absurd b
