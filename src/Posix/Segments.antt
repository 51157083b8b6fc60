-- ===== src/Posix/Segments.antt =====
-- Splitting and joining at slashes.
use ypi.Prelude.{
  ℕ, ◌≡◌, refl, ap, ◌≢◌, false, List, [], ◌∷◌, ◌++◌, Text, All, ◌==◌, arith, Bool-cases, inl, inr,
}
use mathlib.Core.List.{append_assoc}
use mathlib.Core.Path.{◌∙◌}
use ypi.Posix.{slash, push_head, split, join, ends_with_slash}

abbrev pub NoSlash : Text → Type 0
NoSlash = All (λ c. c ≢ slash)

pub split-NoSlash : (t : Text) → All NoSlash (split t)
unfolding split
split-NoSlash [] = (tt, tt)
split-NoSlash (c ∷ cs) = elim (Bool-cases (c == slash)) [
  | inl hit ↦ rw hit (tt, split-NoSlash cs)
  | inr miss ↦ rw miss (pushed (ground arith) (split cs) (split-NoSlash cs))
]
  where
    pushed : c ≢ slash → (l : List Text) → All NoSlash l → All NoSlash (push_head c l)
    pushed n [] h = ((n, tt), tt)
    pushed n (s ∷ ss) (h, hs) = ((n, h), hs)

split_piece : (s : Text) → NoSlash s → split s ≡ s ∷ []
unfolding split
split_piece [] h = refl
split_piece (c ∷ s) (n, h) = ground (arith, split_piece s h)

split-slash : (s t : Text) → NoSlash s → split (s ++ slash ∷ t) ≡ s ∷ split t
unfolding split
split-slash [] t h = refl
split-slash (c ∷ s) t (n, h) = ground (arith, split-slash s t h)

-- A list of segments is read back as it was joined.
pub split-join :
    (s : Text) (ss : List Text) → NoSlash s → All NoSlash ss → split (join (s ∷ ss)) ≡ s ∷ ss
unfolding join
split-join s [] h hs = split_piece s h
split-join s (t ∷ ss) h (k, ks) = rw (split-slash s (join (t ∷ ss)) h, split-join t ss k ks)

pub split-join-slash :
    (s : Text) (ss : List Text)
    → NoSlash s
    → All NoSlash ss
    → split (join (s ∷ ss) ++ slash ∷ []) ≡ (s ∷ ss) ++ [] ∷ []
unfolding join split
split-join-slash s [] h hs = split-slash s [] h
split-join-slash s (t ∷ ss) h (k, ks) =
    ap split (append_assoc s (slash ∷ join (t ∷ ss)) (slash ∷ []))
    ∙ split-slash s (join (t ∷ ss) ++ slash ∷ []) h
    ∙ ap (λ l. s ∷ l) (split-join-slash t ss k ks)

pub ends_with_slash-append :
    (t : Text) (c : ℕ) (r : Text) → ends_with_slash (t ++ c ∷ r) ≡ ends_with_slash (c ∷ r)
unfolding ends_with_slash
ends_with_slash-append [] c r = refl
ends_with_slash-append (x ∷ []) c r = refl
ends_with_slash-append (x ∷ y ∷ t) c r = ends_with_slash-append (y ∷ t) c r

-- A segment that can stand between two slashes.
abbrev pub IsPiece : Text → Type 0
IsPiece s = (s ≢ []) × NoSlash s

ends_with_slash_piece : (s : Text) → IsPiece s → ends_with_slash s ≡ false
unfolding ends_with_slash
ends_with_slash_piece [] (n, h) = absurd (n refl)
ends_with_slash_piece (c ∷ []) (n, (h, _)) = ground arith
ends_with_slash_piece (c ∷ d ∷ s) (n, (h, hs)) = ends_with_slash_piece (d ∷ s) ((λ e. cc), hs)

pub ends_with_slash-join :
    (s : Text) (ss : List Text) → All IsPiece (s ∷ ss) → ends_with_slash (join (s ∷ ss)) ≡ false
unfolding join ends_with_slash
ends_with_slash-join s [] (p, _) = ends_with_slash_piece s p
ends_with_slash-join s (t ∷ ss) (p, ps) =
    ends_with_slash-append s slash (join (t ∷ ss))
    ∙ after_slash (join (t ∷ ss)) (join_ne t ss ps) (ends_with_slash-join t ss ps)
  where
    join_ne : (t : Text) (ss : List Text) → All IsPiece (t ∷ ss) → join (t ∷ ss) ≢ []
    join_ne [] ss ((n, _), _) = absurd (n refl)
    join_ne (c ∷ t) [] p = λ e. cc
    join_ne (c ∷ t) (u ∷ ss) p = λ e. cc

    after_slash :
        (t : Text) → t ≢ [] → ends_with_slash t ≡ false → ends_with_slash (slash ∷ t) ≡ false
    after_slash [] n h = absurd (n refl)
    after_slash (c ∷ t) n h = h

-- The same for a list that is known not to be empty.
pub split-join_ne : (l : List Text) → l ≢ [] → All NoSlash l → split (join l) ≡ l
split-join_ne [] n h = absurd (n refl)
split-join_ne (s ∷ ss) n (h, hs) = split-join s ss h hs

pub split-join-slash_ne :
    (l : List Text) → l ≢ [] → All NoSlash l → split (join l ++ slash ∷ []) ≡ l ++ [] ∷ []
split-join-slash_ne [] n h = absurd (n refl)
split-join-slash_ne (s ∷ ss) n (h, hs) = split-join-slash s ss h hs

pub ends_with_slash-join_ne :
    (l : List Text) → l ≢ [] → All IsPiece l → ends_with_slash (join l) ≡ false
ends_with_slash-join_ne [] n h = absurd (n refl)
ends_with_slash-join_ne (s ∷ ss) n h = ends_with_slash-join s ss h

pub NoSlash-of_IsPiece : (l : List Text) → All IsPiece l → All NoSlash l
NoSlash-of_IsPiece [] h = tt
NoSlash-of_IsPiece (s ∷ l) ((_, n), h) = (n, NoSlash-of_IsPiece l h)
