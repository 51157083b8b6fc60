-- ===== src/WriteScope/Below.antt =====
-- What `isWithin` of extensions/ypi/internal/write-scope.ts says of the segments of two paths.
use ypi.Prelude.{
  ◌≡◌, refl, ap, ◌∙◌, sym, subst, ◌⊎◌, inl, inr, Bool, true, List, [], ◌∷◌, ◌++◌, Text, text_eq,
  eq_of_text_eq, starts_with, not, ◌&&◌, ◌||◌, arith, Bool-cases, is_absolute,
}
use mathlib.Core.List.{append-nil}
use ypi.Posix.{slash, dotdot, join, absolute_segments, strip_common, climbing, relative}
use ypi.WriteScope.{is_within}

strip_common_lem :
    (ss ts : List Text)
    → (common : List Text) × (ss ≡ common ++ (strip_common ss ts).0)
      × (ts ≡ common ++ (strip_common ss ts).1)
unfolding strip_common
strip_common_lem [] ts = ([], refl, refl)
strip_common_lem (s ∷ ss) [] = ([], refl, refl)
strip_common_lem (s ∷ ss) (t ∷ ts) = elim (Bool-cases (text_eq s t)) [
  | inr other ↦ rw (other, strip_common) ([], refl, refl)
  | inl same ↦
      let (common, left, right) = strip_common_lem ss ts in
      rw (same, strip_common)
        (
          s ∷ common,
          ap (λ l. s ∷ l) left,
          ap (λ u. u ∷ ts) (sym (eq_of_text_eq s t same)) ∙ ap (λ l. s ∷ l) right,
        )
]

-- A path that climbs is not within.
join-climbing :
    (s : Text) (up down : List Text)
    → (join (climbing (s ∷ up) ++ down) ≡ dotdot)
      ⊎ (starts_with (dotdot ++ slash ∷ []) (join (climbing (s ∷ up) ++ down)) ≡ true)
unfolding join starts_with
join-climbing s up down = go (climbing up ++ down)
  where
    go :
        (rest : List Text)
        → (join (dotdot ∷ rest) ≡ dotdot)
          ⊎ (starts_with (dotdot ++ slash ∷ []) (join (dotdot ∷ rest)) ≡ true)
    go [] = inl refl
    go (t ∷ rest) = inr refl

-- The test of `isWithin` on the relative path.
abbrev stays : Text → Bool
stays r =
    text_eq r []
    || (not (starts_with (dotdot ++ slash ∷ []) r) && not (text_eq r dotdot) && not (is_absolute r))

climbed_out :
    (r : Text) → stays r ≡ true → (r ≡ dotdot) ⊎ (starts_with (dotdot ++ slash ∷ []) r ≡ true) → ⊥
unfolding text_eq starts_with
climbed_out [] h (inl e) = cc
climbed_out [] h (inr e) = cc
climbed_out (c ∷ r) h (inl e) = cc (subst (λ t. stays t ≡ true) e h)
climbed_out (c ∷ r) h (inr e) = ground arith

pub within_below :
    (root candidate : Text)
    → is_within root candidate ≡ true
    → (down : List Text) × (absolute_segments candidate ≡ absolute_segments root ++ down)
      × (relative root candidate ≡ join down)
unfolding is_within relative
within_below root candidate h =
    let (common, left, right) =
      strip_common_lem (absolute_segments root) (absolute_segments candidate) in
    go (strip_common (absolute_segments root) (absolute_segments candidate)).0 refl common left
      right
  where
    down : List Text
    down = (strip_common (absolute_segments root) (absolute_segments candidate)).1

    go :
        (up : List Text)
        → (strip_common (absolute_segments root) (absolute_segments candidate)).0 ≡ up
        → (common : List Text)
        → absolute_segments root
          ≡ common ++ (strip_common (absolute_segments root) (absolute_segments candidate)).0
        → absolute_segments candidate ≡ common ++ down
        → (down : List Text) × (absolute_segments candidate ≡ absolute_segments root ++ down)
          × (relative root candidate ≡ join down)
    go [] e common left right = (
      down,
      right ∙ ap (λ l. l ++ down) (sym (left ∙ ap (λ l. common ++ l) e ∙ append-nil common)),
      ap (λ u. join (climbing u ++ down)) e,
    )
    go (s ∷ up) e common left right = absurd (
        climbed_out (join (climbing (s ∷ up) ++ down))
          (subst (λ u. stays (join (climbing u ++ down)) ≡ true) e h) (join-climbing s up down))
