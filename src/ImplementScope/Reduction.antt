-- ===== src/ImplementScope/Reduction.antt =====
-- The steps of `normalizeImplementScope` after its entries are normal: duplicates, order, cover.
pub mod Entries
use ypi.Prelude.{
  ◌≡◌, refl, sym, subst, ◌∙◌, ◌⊎◌, inl, inr, true, false, List, [], ◌∷◌, ◌++◌, Text, All,
  All-append, any, Elem, any_elim, eq_of_text_eq, text_eq, arith, Bool-cases,
}
use mathlib.Core.List.{append_assoc, append-nil}
use ypi.ImplementScope.{
  path_is_within_implement_scope, insert_sorted, sort, unique, reduce, precedes, code_points,
}

-- No entry is covered by one before it.
abbrev pub Irredundant : List Text → List Text → Type 0
Irredundant before [] = Unit {0}
Irredundant before (t ∷ ts) =
    (any (λ owner. path_is_within_implement_scope t (owner ∷ [])) before ≡ false)
    × Irredundant (before ++ t ∷ []) ts

Irredundant-snoc :
    (before l : List Text) (t : Text)
    → Irredundant before l
    → any (λ owner. path_is_within_implement_scope t (owner ∷ [])) (before ++ l) ≡ false
    → Irredundant before (l ++ t ∷ [])
Irredundant-snoc before [] t h k = (
  subst (λ l. any (λ owner. path_is_within_implement_scope t (owner ∷ [])) l ≡ false)
      (append-nil before) k,
  tt,
)
Irredundant-snoc before (x ∷ l) t (p, h) k = (
  p,
  Irredundant-snoc (before ++ x ∷ []) l t h (
      subst (λ m. any (λ owner. path_is_within_implement_scope t (owner ∷ [])) m ≡ false)
        (sym (append_assoc before (x ∷ []) l)) k),
)

pub reduce-Irredundant :
    (reduced candidates : List Text)
    → Irredundant [] reduced
    → Irredundant [] (reduce reduced candidates)
unfolding reduce
reduce-Irredundant reduced [] h = h
reduce-Irredundant reduced (c ∷ cs) h =
    elim (Bool-cases (any (λ owner. path_is_within_implement_scope c (owner ∷ [])) reduced)) [
      | inl covered ↦ rw covered (reduce-Irredundant reduced cs h)
      | inr bare ↦
          rw bare (reduce-Irredundant (reduced ++ c ∷ []) cs (Irredundant-snoc [] reduced c h bare))
    ]

-- Sharing a property through the list functions.
module _ (P : Text → Type 0) where
  pub insert_sorted-All : (t : Text) (ts : List Text) → P t → All P ts → All P (insert_sorted t ts)
  unfolding insert_sorted
  insert_sorted-All t [] p h = (p, tt)
  insert_sorted-All t (u ∷ us) p (q, h) =
      elim (Bool-cases (precedes (code_points t) (code_points u))) [
        | inl first ↦ rw first (p, (q, h))
        | inr later ↦ rw later (q, insert_sorted-All t us p h)
      ]

  pub sort-All : (ts : List Text) → All P ts → All P (sort ts)
  unfolding sort
  sort-All [] h = tt
  sort-All (t ∷ ts) (p, h) = insert_sorted-All t (sort ts) p (sort-All ts h)

  pub unique-All : (seen ts : List Text) → All P ts → All P (unique seen ts)
  unfolding unique
  unique-All seen [] h = tt
  unique-All seen (t ∷ ts) (p, h) = elim (Bool-cases (any (text_eq t) seen)) [
    | inl again ↦ rw again (unique-All seen ts h)
    | inr fresh ↦ rw fresh (p, unique-All (t ∷ seen) ts h)
  ]

  pub reduce-All : (reduced ts : List Text) → All P reduced → All P ts → All P (reduce reduced ts)
  unfolding reduce
  reduce-All reduced [] h k = h
  reduce-All reduced (t ∷ ts) h (p, k) =
      elim (Bool-cases (any (λ owner. path_is_within_implement_scope t (owner ∷ [])) reduced)) [
        | inl covered ↦ rw covered (reduce-All reduced ts h k)
        | inr bare ↦
            rw bare (reduce-All (reduced ++ t ∷ []) ts (All-append P reduced (t ∷ []) h (p, tt)) k)
      ]

insert_sorted-Elem : (x t : Text) (ts : List Text) → Elem x (t ∷ ts) → Elem x (insert_sorted t ts)
unfolding insert_sorted
insert_sorted-Elem x t [] m = m
insert_sorted-Elem x t (u ∷ us) m = elim (Bool-cases (precedes (code_points t) (code_points u))) [
  | inl first ↦ rw first m
  | inr later ↦ rw later (behind (insert_sorted-Elem x t us) m)
]
  where
    behind :
        (Elem x (t ∷ us) → Elem x (insert_sorted t us))
        → Elem x (t ∷ u ∷ us)
        → Elem x (u ∷ insert_sorted t us)
    behind ih (inl e) = inr (ih (inl e))
    behind ih (inr (inl e)) = inl e
    behind ih (inr (inr m)) = inr (ih (inr m))

pub sort-Elem : (x : Text) (ts : List Text) → Elem x ts → Elem x (sort ts)
unfolding sort
sort-Elem x [] m = m
sort-Elem x (t ∷ ts) (inl e) = insert_sorted-Elem x t (sort ts) (inl e)
sort-Elem x (t ∷ ts) (inr m) = insert_sorted-Elem x t (sort ts) (inr (sort-Elem x ts m))

pub unique-Elem :
    (x : Text) (seen ts : List Text) → Elem x ts → Elem x (unique seen ts) ⊎ Elem x seen
unfolding unique
unique-Elem x seen (t ∷ ts) m = elim (Bool-cases (any (text_eq t) seen)) [
  | inl again ↦ rw again (old (any_elim (text_eq t) seen again) (unique-Elem x seen ts) m)
  | inr fresh ↦ rw fresh (new (unique-Elem x (t ∷ seen) ts) m)
]
  where
    old :
        (y : Text) × Elem y seen × (text_eq t y ≡ true)
        → (Elem x ts → Elem x (unique seen ts) ⊎ Elem x seen)
        → Elem x (t ∷ ts)
        → Elem x (unique seen ts) ⊎ Elem x seen
    old (y, n, e) ih (inl k) = inr (subst (λ z. Elem z seen) (sym (k ∙ eq_of_text_eq t y e)) n)
    old found ih (inr m) = ih m

    new :
        (Elem x ts → Elem x (unique (t ∷ seen) ts) ⊎ Elem x (t ∷ seen))
        → Elem x (t ∷ ts)
        → Elem x (t ∷ unique (t ∷ seen) ts) ⊎ Elem x seen
    new ih (inl k) = inl (inl k)
    new ih (inr m) = elim (ih m) [
      | inl k ↦ inl (inr k)
      | inr (inl k) ↦ inl (inl k)
      | inr (inr k) ↦ inr k
    ]
unique-Elem x seen [] m = absurd m

-- The path is an owner of the scope, or one of its owners covers it.
abbrev pub IsKept : Text → List Text → Type 0
IsKept t scope =
    Elem t scope ⊎ (any (λ owner. path_is_within_implement_scope t (owner ∷ [])) scope ≡ true)

IsKept-snoc : (t u : Text) (scope : List Text) → IsKept t scope → IsKept t (scope ++ u ∷ [])
IsKept-snoc t u scope (inl m) = inl (there scope m)
  where
    there : (l : List Text) → Elem t l → Elem t (l ++ u ∷ [])
    there (x ∷ l) (inl e) = inl e
    there (x ∷ l) (inr m) = inr (there l m)
    there [] m = absurd m
IsKept-snoc t u scope (inr h) = inr (longer scope h)
  where
    longer :
        (l : List Text)
        → any (λ owner. path_is_within_implement_scope t (owner ∷ [])) l ≡ true
        → any (λ owner. path_is_within_implement_scope t (owner ∷ [])) (l ++ u ∷ []) ≡ true
    longer [] h = absurd (cc)
    longer (x ∷ l) h = ground (arith, longer l)

Elem-last : (t : Text) (l : List Text) → Elem t (l ++ t ∷ [])
Elem-last t [] = inl refl
Elem-last t (x ∷ l) = inr (Elem-last t l)

pub reduce-IsKept :
    (t : Text) (reduced ts : List Text)
    → IsKept t reduced ⊎ Elem t ts
    → IsKept t (reduce reduced ts)
unfolding reduce
reduce-IsKept t reduced [] (inl k) = k
reduce-IsKept t reduced [] (inr m) = absurd m
reduce-IsKept t reduced (u ∷ us) h =
    elim (Bool-cases (any (λ owner. path_is_within_implement_scope u (owner ∷ [])) reduced)) [
      | inl covered ↦ rw covered (reduce-IsKept t reduced us (kept covered h))
      | inr bare ↦ rw bare (reduce-IsKept t (reduced ++ u ∷ []) us (pushed h))
    ]
  where
    kept :
        any (λ owner. path_is_within_implement_scope u (owner ∷ [])) reduced ≡ true
        → IsKept t reduced ⊎ Elem t (u ∷ us)
        → IsKept t reduced ⊎ Elem t us
    kept c (inl k) = inl k
    kept c (inr (inl e)) = inl (
        inr (
          subst (λ x. any (λ owner. path_is_within_implement_scope x (owner ∷ [])) reduced ≡ true)
            (sym e) c))
    kept c (inr (inr m)) = inr m

    pushed : IsKept t reduced ⊎ Elem t (u ∷ us) → IsKept t (reduced ++ u ∷ []) ⊎ Elem t us
    pushed (inl k) = inl (IsKept-snoc t u reduced k)
    pushed (inr (inl e)) =
        inl (inl (subst (λ x. Elem x (reduced ++ u ∷ [])) (sym e) (Elem-last u reduced)))
    pushed (inr (inr m)) = inr m
