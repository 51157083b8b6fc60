-- ===== src/ImplementScope/Inside.antt =====
-- An accepted repository path stays inside the repository and out of Git's metadata.
use ypi.Prelude.{
  ℕ, ◌≡◌, refl, sym, ap, subst, ◌∙◌, ◌⊎◌, inl, inr, ◌≢◌, Bool, true, false, List, [], ◌∷◌, ◌++◌,
  Text, All, All-append, text_eq, text_eq_iff, starts_with, any, is_absolute, ◌==◌, arith,
  Bool-cases,
}
use mathlib.Core.List.{reverse, reverse-cons}
use ypi.Posix.{slash, dotdot, split, join, resolve_all, print, ends_with_slash, normalize}
use ypi.Posix.Segments.{
  split-NoSlash, NoSlash, IsPiece, split-join_ne, split-join-slash_ne, NoSlash-of_IsPiece,
}
use ypi.Posix.Normal.{Resolved, climbs, name, Resolved-IsPiece, All-reverse, reverse_ne, resolved}
use ypi.ImplementScope.{ok, escapes, git, normalize_repository_relative_path}
use ypi.ImplementScope.Paths.{accepted, Segmented, closed, trailing, normalize-Segmented, split_ne}

-- A segment that cannot lead out of the directory it is used in, nor into Git's own files.
abbrev pub IsInside : Text → Type 0
IsInside s = (s ≢ dotdot) × (s ≢ git) × NoSlash s

not_git : (l : List Text) → any (λ s. text_eq s git) l ≡ false → All (λ s. s ≢ git) l
not_git [] h = tt
not_git (s ∷ l) h = ((λ e. ground (arith, text_eq_iff s git)), not_git l (ground arith))

bottom :
    (s : Text) (st : List Text)
    → All (λ x. x ≡ dotdot) (s ∷ st)
    → (rest : List Text) × (reverse (s ∷ st) ≡ dotdot ∷ rest)
bottom s [] (e, h) = ([], ap (λ x. x ∷ []) e)
bottom s (t ∷ st) (e, h) =
    let (rest, k) = bottom t st h in
    (rest ++ s ∷ [], reverse-cons s (t ∷ st) ∙ ap (λ l. l ++ s ∷ []) k)

-- A resolved stack has no climb, or has one at the bottom.
climb_below :
    (st : List Text)
    → Resolved st
    → All (λ s. s ≢ dotdot) st ⊎ ((rest : List Text) × (reverse st ≡ dotdot ∷ rest))
climb_below [] r = inl tt
climb_below (s ∷ st) (climbs _ h) = inr (bottom s st h)
climb_below (s ∷ st) (name n r) = elim (climb_below st r) [
  | inl clean ↦ inl (n.2, clean)
  | inr (rest, e) ↦ inr (rest ++ s ∷ [], reverse-cons s st ∙ ap (λ l. l ++ s ∷ []) e)
]

join_climbs : (rest : List Text) (r : Text) → escapes (join (dotdot ∷ rest) ++ slash ∷ r) ≡ true
unfolding join escapes starts_with text_eq
join_climbs [] r = refl
join_climbs (u ∷ us) r = refl

join_climbs_closed : (rest : List Text) → escapes (join (dotdot ∷ rest)) ≡ true
unfolding join escapes starts_with text_eq
join_climbs_closed [] = refl
join_climbs_closed (u ∷ us) = refl

print_climbs :
    (s : Text) (st : List Text) (b : Bool) (rest : List Text)
    → reverse (s ∷ st) ≡ dotdot ∷ rest
    → escapes (print (s ∷ st) b) ≡ true
unfolding print
print_climbs s st true rest e = ap (λ l. escapes (join l ++ slash ∷ [])) e ∙ join_climbs rest []
print_climbs s st false rest e = ap (λ l. escapes (join l)) e ∙ join_climbs_closed rest

split_clean :
    (st : List Text) (b : Bool)
    → Resolved st
    → All (λ s. s ≢ dotdot) st
    → All (λ s. s ≢ dotdot) (split (print st b))
unfolding print split
split_clean [] true r h = ((λ e. ground arith), ((λ e. cc), tt))
split_clean [] false r h = ((λ e. ground arith), tt)
split_clean (s ∷ st) false r h =
    rw
      (split-join_ne _ (reverse_ne s st)
        (NoSlash-of_IsPiece _ (All-reverse IsPiece (s ∷ st) (Resolved-IsPiece (s ∷ st) r))))
      (All-reverse (λ x. x ≢ dotdot) (s ∷ st) h)
split_clean (s ∷ st) true r h =
    rw
      (split-join-slash_ne _ (reverse_ne s st)
        (NoSlash-of_IsPiece _ (All-reverse IsPiece (s ∷ st) (Resolved-IsPiece (s ∷ st) r))))
      (All-append (λ x. x ≢ dotdot) (reverse (s ∷ st)) ([] ∷ [])
        (All-reverse (λ x. x ≢ dotdot) (s ∷ st) h) ((λ e. cc), tt))

normalize_clean :
    (v : Text) → escapes (normalize v) ≡ false → All (λ s. s ≢ dotdot) (split (normalize v))
unfolding normalize
normalize_clean v h = go (resolve_all [] (split v)) (resolved v) h
  where
    go :
        (st : List Text)
        → Resolved st
        → escapes (print st (ends_with_slash v)) ≡ false
        → All (λ s. s ≢ dotdot) (split (print st (ends_with_slash v)))
    go [] r h = split_clean [] (ends_with_slash v) r tt
    go (s ∷ st) r h = elim (climb_below (s ∷ st) r) [
      | inl clean ↦ split_clean (s ∷ st) (ends_with_slash v) r clean
      | inr (rest, e) ↦ absurd (cc (print_climbs s st (ends_with_slash v) rest e))
    ]

split_rooted : (c : ℕ) (t : Text) → (c == slash) ≡ true → split (c ∷ t) ≡ [] ∷ split t
unfolding split
split_rooted c t h = rw h

normalize_relative : (v : Text) → is_absolute (normalize v) ≡ false
normalize_relative v = go (normalize v) (normalize-Segmented v)
  where
    headed : (l m : List Text) → All IsPiece l → [] ∷ m ≡ l → ⊥
    headed [] m h e = cc
    headed (s ∷ l) m ((n, _), h) e = n (ground arith)

    headed_trailing : (l m : List Text) → All IsPiece l → m ≢ [] → [] ∷ m ≡ l ++ [] ∷ [] → ⊥
    headed_trailing [] m h n e = n (ground arith)
    headed_trailing (s ∷ l) m ((k, _), h) n e = k (ground arith)

    go : (t : Text) → Segmented t → is_absolute t ≡ false
    go [] g = refl
    go (c ∷ t) g = elim (Bool-cases (c == slash)) [
      | inr other ↦ other
      | inl rooted ↦ absurd (rooted_absurd c t rooted g)
    ]
      where
        rooted_absurd : (c : ℕ) (t : Text) → (c == slash) ≡ true → Segmented (c ∷ t) → ⊥
        rooted_absurd c t h (closed l e p) = headed l (split t) p (sym (split_rooted c t h) ∙ e)
        rooted_absurd c t h (trailing l e p) =
            headed_trailing l (split t) p (split_ne t) (sym (split_rooted c t h) ∙ e)

zip-IsInside :
    (l : List Text)
    → All (λ s. s ≢ dotdot) l
    → All (λ s. s ≢ git) l
    → All NoSlash l
    → All IsInside l
zip-IsInside [] a b c = tt
zip-IsInside (s ∷ l) (a, al) (b, bl) (c, cl) = ((a, b, c), zip-IsInside l al bl cl)

-- Whatever path is accepted stays inside the repository and out of Git's metadata: it is relative,
-- and none of its segments is ".." or ".git".
pub accepted-IsInside :
    (v t : Text)
    → normalize_repository_relative_path v ≡ ok t
    → (is_absolute t ≡ false) × All IsInside (split t)
accepted-IsInside v t h =
    let (n, e, g) = accepted v t h in
    let clean = normalize_clean v (subst (λ x. escapes x ≡ false) n e) in
    (
      subst (λ x. is_absolute x ≡ false) (sym n) (normalize_relative v),
      zip-IsInside (split t) (subst (λ x. All (λ s. s ≢ dotdot) (split x)) (sym n) clean)
          (not_git (split t) g) (split-NoSlash t),
    )
