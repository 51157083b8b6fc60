-- ===== src/WorktreeInventory/RoundTrip.antt =====
-- Reading back a list of worktrees that Git has written.
use ypi.Prelude.{
  ℕ, suc, ◌≡◌, ◌≢◌, All-append, refl, ap, ◌∙◌, sym, inl, inr, true, false, Option, some, List, [],
  ◌∷◌, ◌++◌, Text, not, ◌==◌, ltb, All, any, all, map, arith, length, is_absolute, text_eq,
  text_eq_of_eq, starts_with_append, Bool-cases,
}
use mathlib.Core.List.{append_assoc, append-nil}
use ypi.Posix.{resolve_path}
use ypi.ImplementScope.{unique}
use ypi.WorktreeInventory.{
  ok, ◌>>=◌, prefix, fields, drop, worktree_path, parse_fields, finish, parse_worktree_inventory,
  assert_worktree_unregistered,
}

-- A worktree as Git prints it: the bytes of its path, its path, and the fields that follow.
pub record Worktree : Type 0 where
  pub raw : List ℕ
  pub path : Text
  pub attributes : List (List ℕ)

abbrev pub print_field : List ℕ → List ℕ → List ℕ
print_field f rest = f ++ 0 ∷ rest

abbrev pub print_fields : List (List ℕ) → List ℕ → List ℕ
print_fields [] rest = rest
print_fields (f ∷ fs) rest = print_field f (print_fields fs rest)

-- The porcelain format: fields that end in NUL, records that end in an empty field.
abbrev pub print_worktrees : List Worktree → List ℕ
print_worktrees [] = []
print_worktrees (w ∷ ws) =
    print_field (prefix ++ w.raw) (print_fields w.attributes (0 ∷ print_worktrees ws))

abbrev pub NoNul : List ℕ → Type 0
NoNul = All (λ b. b ≢ 0)

pub NoNul-all : (l : List ℕ) → all (λ b. not (b == 0)) l ≡ true → NoNul l
NoNul-all [] h = tt
NoNul-all (b ∷ l) h = ((λ e. ground arith), NoNul-all l (ground arith))

fields-print_field :
    (f rest : List ℕ)
    → NoNul f
    → fields (print_field f rest) ≡ (f ∷ (fields rest).0, (fields rest).1)
unfolding fields
fields-print_field [] rest h = refl
fields-print_field (b ∷ f) rest (n, h) = ground (arith, fields-print_field f rest h)

fields-print_fields :
    (fs : List (List ℕ)) (rest : List ℕ)
    → All NoNul fs
    → fields (print_fields fs rest) ≡ (fs ++ (fields rest).0, (fields rest).1)
fields-print_fields [] rest h = refl
fields-print_fields (f ∷ fs) rest (n, h) =
    fields-print_field f (print_fields fs rest) n
    ∙ ap (λ (r : List (List ℕ) × List ℕ). (f ∷ r.0, r.1)) (fields-print_fields fs rest h)

length-map : {A B : Type 0} (f : A → B) (l : List A) → length (map f l) ≡ length l
length-map f [] = refl
length-map f (x ∷ l) = ap suc (length-map f l)

-- All fields of the listing.
abbrev flat : List Worktree → List (List ℕ)
flat [] = []
flat (w ∷ ws) = (prefix ++ w.raw) ∷ (w.attributes ++ [] ∷ flat ws)

module _ (decode : List ℕ → Option Text) (cwd : Text) where
  -- What Git prints of a worktree: bytes that decode to an absolute path, and fields that are not
  -- empty, all without NUL.
  pub record IsListed (w : Worktree) : Type 0 where
    pub raw_nul : NoNul w.raw
    pub raw_ne : w.raw ≢ []
    pub decodes : decode w.raw ≡ some w.path
    pub absolute : is_absolute w.path ≡ true
    pub attributes_nul : All NoNul w.attributes
    pub attributes_ne : All (λ f. f ≢ []) w.attributes

  prefixed_nul : (raw : List ℕ) → NoNul raw → NoNul (prefix ++ raw)
  prefixed_nul raw h = All-append (λ b. b ≢ 0) prefix raw (NoNul-all prefix refl) h

  fields-print_worktrees :
      (ws : List Worktree) → All IsListed ws → fields (print_worktrees ws) ≡ (flat ws, [])
  unfolding fields
  fields-print_worktrees [] h = refl
  fields-print_worktrees (w ∷ ws) (l, h) =
      fields-print_field (prefix ++ w.raw) _ (prefixed_nul w.raw l.raw_nul)
      ∙ ap (λ (r : List (List ℕ) × List ℕ). ((prefix ++ w.raw) ∷ r.0, r.1))
          (fields-print_fields w.attributes (0 ∷ print_worktrees ws) l.attributes_nul
            ∙ ap (λ (r : List (List ℕ) × List ℕ). (w.attributes ++ [] ∷ r.0, r.1))
                (fields-print_worktrees ws h))

  drop-prefix : (p r : List ℕ) → drop p (p ++ r) ≡ r
  unfolding drop
  drop-prefix [] r = refl
  drop-prefix (x ∷ p) r = drop-prefix p r

  long : (raw : List ℕ) → raw ≢ [] → ltb (length prefix) (length (prefix ++ raw)) ≡ true
  long [] h = absurd (h refl)
  long (b ∷ raw) h = ground arith

  worktree_path-print :
      (w : Worktree)
      → IsListed w
      → worktree_path decode cwd (prefix ++ w.raw) ≡ ok (resolve_path cwd w.path)
  unfolding worktree_path
  worktree_path-print w l = rw (
    long w.raw l.raw_ne,
    starts_with_append prefix w.raw,
    drop-prefix prefix w.raw,
    l.decodes,
    l.absolute,
  )

  parse_fields-attributes :
      (paths : List Text) (attributes fs : List (List ℕ))
      → All (λ f. f ≢ []) attributes
      → parse_fields decode cwd paths false (attributes ++ [] ∷ fs)
        ≡ parse_fields decode cwd paths true fs
  unfolding parse_fields
  parse_fields-attributes paths [] fs h = refl
  parse_fields-attributes paths ([] ∷ more) fs (n, h) = absurd (n refl)
  parse_fields-attributes paths ((b ∷ bs) ∷ more) fs (n, h) =
      parse_fields-attributes paths more fs h

  parse_fields-flat :
      (paths : List Text) (ws : List Worktree)
      → All IsListed ws
      → parse_fields decode cwd paths true (flat ws)
        ≡ ok (paths ++ map (λ w. resolve_path cwd w.path) ws, true)
  unfolding parse_fields
  parse_fields-flat paths [] h = ap (λ l. ok (l, true)) (sym (append-nil paths))
  parse_fields-flat paths (w ∷ ws) (l, h) =
      ap
        (λ r. r >>= λ path.
          parse_fields decode cwd (paths ++ path ∷ []) false (w.attributes ++ [] ∷ flat ws))
        (worktree_path-print w l)
      ∙ parse_fields-attributes (paths ++ resolve_path cwd w.path ∷ []) w.attributes (flat ws)
          l.attributes_ne
      ∙ parse_fields-flat (paths ++ resolve_path cwd w.path ∷ []) ws h
      ∙ ap (λ l. ok (l, true))
          (append_assoc paths (resolve_path cwd w.path ∷ [])
            (map (λ w. resolve_path cwd w.path) ws))

  -- What Git prints for worktrees whose resolved paths differ is read back as those paths, in order,
  -- whatever other fields the records have.
  pub parse_worktree_inventory-print_worktrees :
      (ws : List Worktree)
      → All IsListed ws
      → length (unique [] (map (λ (w : Worktree). resolve_path cwd w.path) ws)) ≡ length ws
      → parse_worktree_inventory decode cwd (print_worktrees ws)
        ≡ ok (map (λ (w : Worktree). resolve_path cwd w.path) ws)
  unfolding parse_worktree_inventory finish
  parse_worktree_inventory-print_worktrees ws h distinct =
      rw (fields-print_worktrees ws h, parse_fields-flat [] ws h)
        (ground (arith, distinct, length-map (λ (w : Worktree). resolve_path cwd w.path) ws))

  -- A worktree that passes the test is none of those that Git lists.
  pub assert_worktree_unregistered-print_worktrees :
      (ws : List Worktree) (worktree : Text)
      → All IsListed ws
      → length (unique [] (map (λ (w : Worktree). resolve_path cwd w.path) ws)) ≡ length ws
      → assert_worktree_unregistered decode cwd (print_worktrees ws) worktree ≡ ok tt
      → All (λ (w : Worktree). resolve_path cwd w.path ≢ resolve_path cwd worktree) ws
  unfolding assert_worktree_unregistered
  assert_worktree_unregistered-print_worktrees ws worktree h distinct passed =
      absent ws
        (elim (Bool-cases (
          any (text_eq (resolve_path cwd worktree))
            (map (λ (w : Worktree). resolve_path cwd w.path) ws))) [
              | inr none_equal ↦ none_equal
              | inl listed ↦ absurd (
                  cc (
                    rw
                      (
                        parse_worktree_inventory-print_worktrees ws h distinct,
                        listed,
                        assert_worktree_unregistered,
                      )
                      at passed))
            ])
    where
      absent :
          (vs : List Worktree)
          → any
              (text_eq (resolve_path cwd worktree))
              (map (λ (w : Worktree). resolve_path cwd w.path) vs)
            ≡ false
          → All (λ (w : Worktree). resolve_path cwd w.path ≢ resolve_path cwd worktree) vs
      absent [] e = tt
      absent (v ∷ vs) e = (
        (λ same. ground (
          arith,
          text_eq_of_eq (resolve_path cwd worktree) (resolve_path cwd v.path) (sym same),
        )),
        absent vs (ground arith),
      )
