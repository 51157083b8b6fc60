-- ===== src/WriteScope/Leads.antt =====
-- Where a requested path leads, apart from how the code finds it.
use ypi.Prelude.{
  ◌≡◌, refl, sym, subst, inl, inr, Bool, true, false, Option, some, List, [], ◌∷◌, Text, Bool-cases,
  Option-cases,
}
use mathlib.Core.List.{reverse}
use ypi.Posix.{absolute_segments, resolve_path, relative}
use ypi.WriteScope.{path_of, nearest_existing_path, canonical_candidate}

-- From the segments of a path, the last one first, up to the longest front part that exists.
pub data Nearest (exists : Text → Bool) : List Text → List Text → Type 0 where
  present : (stack : List Text) → exists (path_of stack) ≡ true → Nearest exists stack stack
  above :
      (s : Text) {stack found : List Text}
      → exists (path_of (s ∷ stack)) ≡ false
      → Nearest exists stack found
      → Nearest exists (s ∷ stack) found

-- Where a requested path leads: to what `realpath` answers for the longest front part of it that
-- exists, and from there on the rest of the path. A link whose target is missing does not exist.
pub record LeadsTo (exists : Text → Bool) (realpath : Text → Option Text) (cwd : Text)
    (path : Option Text) (candidate : Text) : Type 0 where
  pub requested : Text
  pub found : List Text
  pub real_front : Text
  pub asked : path ≡ some requested
  pub near : Nearest exists (reverse (absolute_segments (resolve_path cwd requested))) found
  pub links_followed : realpath (path_of found) ≡ some real_front
  pub continued :
      candidate ≡ resolve_path real_front (relative (path_of found) (resolve_path cwd requested))

nearest_existing_path-Nearest :
    (exists : Text → Bool) (realpath : Text → Option Text) (stack : List Text) (existing : Text)
    → nearest_existing_path exists realpath stack ≡ some existing
    → (found : List Text) × (existing ≡ path_of found) × Nearest exists stack found
unfolding nearest_existing_path
nearest_existing_path-Nearest exists realpath [] existing e =
    elim (Bool-cases (exists (path_of []))) [
      | inl there ↦
          let same : path_of [] ≡ existing = cc (rw there at e) in ([], sym same, present [] there)
      | inr gone ↦ absurd (cc (rw gone at e))
    ]
nearest_existing_path-Nearest exists realpath (s ∷ stack) existing e =
    elim (Bool-cases (exists (path_of (s ∷ stack)))) [
      | inl there ↦
          let same : path_of (s ∷ stack) ≡ existing = cc (rw there at e) in
          (s ∷ stack, sym same, present (s ∷ stack) there)
      | inr gone ↦
          let (found, same, near) =
            nearest_existing_path-Nearest exists realpath stack existing (rw gone at e) in
          (found, same, above s gone near)
    ]

canonical-real :
    (exists : Text → Bool) (realpath : Text → Option Text) (existing absolute_path candidate : Text)
    → canonical_candidate exists realpath existing absolute_path ≡ some candidate
    → (real_front : Text) × (realpath existing ≡ some real_front)
      × (candidate ≡ resolve_path real_front (relative existing absolute_path))
unfolding canonical_candidate
canonical-real exists realpath existing absolute_path candidate e =
    elim (Option-cases (realpath existing)) [
      | inl missing ↦ absurd (cc (rw (missing, canonical_candidate) at e))
      | inr (real_front, real) ↦
          let same : resolve_path real_front (relative existing absolute_path) ≡ candidate =
            cc (rw (real, canonical_candidate) at e) in
          (real_front, real, sym same)
    ]

pub leads_to :
    (exists : Text → Bool) (realpath : Text → Option Text) (cwd requested existing candidate : Text)
    → nearest_existing_path exists realpath
        (reverse (absolute_segments (resolve_path cwd requested)))
      ≡ some existing
    → canonical_candidate exists realpath existing (resolve_path cwd requested) ≡ some candidate
    → LeadsTo exists realpath cwd (some requested) candidate
leads_to exists realpath cwd requested existing candidate e f =
    let (found, same, near) = nearest_existing_path-Nearest exists realpath _ existing e in
    let (real_front, real, continued) =
      canonical-real exists realpath existing (resolve_path cwd requested) candidate f in
    record {
      requested = requested;
      found = found;
      real_front = real_front;
      asked = refl;
      near = near;
      links_followed = subst (λ t. realpath t ≡ some real_front) same real;
      continued =
          subst (λ t. candidate ≡ resolve_path real_front (relative t (resolve_path cwd requested)))
            same continued;
    }
