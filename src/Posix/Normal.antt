-- ===== src/Posix/Normal.antt =====
-- Normal paths: what `normalize` leaves, and that it leaves it alone.
use ypi.Prelude.{
  ◌≡◌, refl, sym, ap, subst, ◌∙◌, inl, inr, ◌≢◌, Bool, true, false, List, [], ◌∷◌, ◌++◌, Text, All,
  All-append, text_eq, eq_of_text_eq, text_eq_iff, ◌||◌, arith, Bool-cases,
}
use mathlib.Core.List.{reverse, reverse-cons}
use ypi.Posix.{
  slash, dot, dotdot, split, join, climb, resolve, resolve_all, ends_with_slash, print, normalize,
}
use ypi.Posix.Segments.{
  split-join_ne, split-join-slash_ne, ends_with_slash-join_ne, NoSlash-of_IsPiece, NoSlash,
  split-NoSlash, ends_with_slash-append, IsPiece,
}

-- A name: no separator in it, and none of the special segments.
abbrev pub IsName : Text → Type 0
IsName s = (s ≢ []) × (s ≢ dot) × (s ≢ dotdot) × NoSlash s

abbrev AllClimb : List Text → Type 0
AllClimb = All (λ s. s ≡ dotdot)

-- A resolved stack: names over climbs.
pub data Resolved : List Text → Type 0 where
  climbs : (st : List Text) → AllClimb st → Resolved st
  name : {s : Text} {st : List Text} → IsName s → Resolved st → Resolved (s ∷ st)

climb-Resolved : (st : List Text) → Resolved st → Resolved (climb st)
unfolding climb
climb-Resolved [] r = climbs (dotdot ∷ []) (refl, tt)
climb-Resolved (s ∷ st) (climbs _ (e, h)) =
    rw ((text_eq_iff s dotdot).1 e) (climbs (dotdot ∷ s ∷ st) (refl, (e, h)))
climb-Resolved (s ∷ st) (name n r) = elim (Bool-cases (text_eq s dotdot)) [
  | inl hit ↦ absurd (n.2 (eq_of_text_eq s dotdot hit))
  | inr miss ↦ rw miss r
]

resolve-Resolved : (st : List Text) (s : Text) → Resolved st → NoSlash s → Resolved (resolve st s)
unfolding resolve
resolve-Resolved st s r h = elim (Bool-cases (text_eq s [] || text_eq s dot)) [
  | inl skipped ↦ rw skipped r
  | inr kept ↦ elim (Bool-cases (text_eq s dotdot)) [
    | inl up ↦ rw (kept, up) (climb-Resolved st r)
    | inr down ↦
        rw (kept, down)
          (name
            (
              (λ e. ground (arith, text_eq_iff s [])),
              (λ e. ground (arith, text_eq_iff s dot)),
              (λ e. ground (arith, text_eq_iff s dotdot)),
              h,
            )
            r)
  ]
]

resolve_all-Resolved :
    (st ss : List Text) → Resolved st → All NoSlash ss → Resolved (resolve_all st ss)
unfolding resolve_all
resolve_all-Resolved st [] r h = r
resolve_all-Resolved st (s ∷ ss) r (h, hs) =
    resolve_all-Resolved (resolve st s) ss (resolve-Resolved st s r h) hs

resolve_all-append :
    (st xs ys : List Text) → resolve_all st (xs ++ ys) ≡ resolve_all (resolve_all st xs) ys
unfolding resolve_all
resolve_all-append st [] ys = refl
resolve_all-append st (x ∷ xs) ys = resolve_all-append (resolve st x) xs ys

climb_climbs : (st : List Text) → AllClimb st → climb st ≡ dotdot ∷ st
unfolding climb
climb_climbs [] h = refl
climb_climbs (t ∷ st) (k, h) = ground (arith, (text_eq_iff t dotdot).1 k)

resolve_climb : (s : Text) (st : List Text) → AllClimb (s ∷ st) → resolve st s ≡ s ∷ st
unfolding resolve text_eq
resolve_climb s st (e, h) = subst (λ x. resolve st x ≡ x ∷ st) (sym e) (up st ∙ climb_climbs st h)
  where
    up : (st : List Text) → resolve st dotdot ≡ climb st
    up st = refl

resolve_name : (s : Text) (st : List Text) → IsName s → resolve st s ≡ s ∷ st
unfolding resolve
resolve_name s st (a, b, c, _) =
    ground (arith, text_eq_iff s [], text_eq_iff s dot, text_eq_iff s dotdot)

-- Resolving the segments of a resolved stack builds the stack again.
resolve_reverse : (st : List Text) → Resolved st → resolve_all [] (reverse st) ≡ st
unfolding resolve_all
resolve_reverse [] r = refl
resolve_reverse (s ∷ st) (climbs _ (e, h)) =
    ap (resolve_all []) (reverse-cons s st)
    ∙ resolve_all-append [] (reverse st) (s ∷ [])
    ∙ ap (λ l. resolve l s) (resolve_reverse st (climbs st h))
    ∙ resolve_climb s st (e, h)
resolve_reverse (s ∷ st) (name n r) =
    ap (resolve_all []) (reverse-cons s st)
    ∙ resolve_all-append [] (reverse st) (s ∷ [])
    ∙ ap (λ l. resolve l s) (resolve_reverse st r)
    ∙ resolve_name s st n

pub Resolved-IsPiece : (st : List Text) → Resolved st → All IsPiece st
Resolved-IsPiece [] r = tt
Resolved-IsPiece (s ∷ st) (climbs _ (e, h)) =
    (rw e ((λ k. cc), ground arith), Resolved-IsPiece st (climbs st h))
Resolved-IsPiece (s ∷ st) (name (n, _, _, h) r) = ((n, h), Resolved-IsPiece st r)

pub All-reverse : (P : Text → Type 0) (l : List Text) → All P l → All P (reverse l)
All-reverse P [] h = tt
All-reverse P (s ∷ l) (p, h) =
    rw (reverse-cons s l) (All-append P (reverse l) (s ∷ []) (All-reverse P l h) (p, tt))

pub reverse_ne : (s : Text) (st : List Text) → reverse (s ∷ st) ≢ []
reverse_ne s st = rw (reverse-cons s st) (concat_ne (reverse st))
  where
    concat_ne : (l : List Text) → l ++ s ∷ [] ≢ []
    concat_ne [] = λ e. cc
    concat_ne (x ∷ l) = λ e. cc

pub resolved : (t : Text) → Resolved (resolve_all [] (split t))
resolved t = resolve_all-Resolved [] (split t) (climbs [] tt) (split-NoSlash t)

resolve_all-print_cons :
    (s : Text) (st : List Text) (b : Bool)
    → Resolved (s ∷ st)
    → (resolve_all [] (split (print (s ∷ st) b)) ≡ s ∷ st)
      × (ends_with_slash (print (s ∷ st) b) ≡ b)
unfolding print resolve_all resolve text_eq ends_with_slash
resolve_all-print_cons s st false r =
    let pieces = All-reverse IsPiece (s ∷ st) (Resolved-IsPiece (s ∷ st) r) in
    (
      ap (resolve_all [])
            (split-join_ne (reverse (s ∷ st)) (reverse_ne s st) (NoSlash-of_IsPiece _ pieces))
          ∙ resolve_reverse (s ∷ st) r,
      ends_with_slash-join_ne (reverse (s ∷ st)) (reverse_ne s st) pieces,
    )
resolve_all-print_cons s st true r =
    let pieces = All-reverse IsPiece (s ∷ st) (Resolved-IsPiece (s ∷ st) r) in
    (
      ap (resolve_all [])
            (split-join-slash_ne (reverse (s ∷ st)) (reverse_ne s st) (NoSlash-of_IsPiece _ pieces))
          ∙ resolve_all-append [] (reverse (s ∷ st)) ([] ∷ [])
          ∙ skip_empty (resolve_all [] (reverse (s ∷ st)))
          ∙ resolve_reverse (s ∷ st) r,
      ends_with_slash-append (join (reverse (s ∷ st))) slash [],
    )
  where
    skip_empty : (l : List Text) → resolve_all l ([] ∷ []) ≡ l
    skip_empty l = refl

resolve_all-print :
    (st : List Text) (b : Bool)
    → Resolved st
    → (resolve_all [] (split (print st b)) ≡ st) × (ends_with_slash (print st b) ≡ b)
unfolding print split resolve_all resolve text_eq ends_with_slash
resolve_all-print [] true r = (refl, refl)
resolve_all-print [] false r = (refl, refl)
resolve_all-print (s ∷ st) b r = resolve_all-print_cons s st b r

-- A normal path is its own normal form.
pub normalize_idempotent : (t : Text) → normalize (normalize t) ≡ normalize t
unfolding normalize
normalize_idempotent t =
    let (stack, trailing) =
      resolve_all-print (resolve_all [] (split t)) (ends_with_slash t) (resolved t) in
    rw (stack, trailing)
