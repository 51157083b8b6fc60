-- ===== src/Files/Identity/Same.antt =====
-- What the checks of extensions/ypi/internal/atomic-file.ts on identities establish.
use ypi.Prelude.{
  ℕ, ◌≡◌, refl, sym, ap, ◌∙◌, Bool, true, false, Option, none, some, Text, eq_of_text_eq,
  decimal-injective, and-true, arith,
}
use ypi.Coordinator.Calls.{FileIdentity}
use ypi.Files.{FileSystem, Stats, Looked, absent, refused, found}
use ypi.Files.Laws.{IsPosix}
use ypi.Files.Steps.{good, check-good, >>?-good}
use ypi.Files.Identity.{
  is_file, same_owner, same_identity, looked, identity_of, private_file_identity,
  assert_path_names_identity,
}

same_owner-eq : (m n : Option ℕ) → same_owner m n ≡ true → m ≡ n
same_owner-eq none none h = refl
same_owner-eq (some m) (some n) h = ground arith
same_owner-eq none (some n) h = absurd (cc)
same_owner-eq (some m) none h = absurd (cc)

-- The parts on which two files agree.
pub record Agree (i j : FileIdentity) : Type 0 where
  pub device : i.device ≡ j.device
  pub inode : i.inode ≡ j.inode
  pub mode : i.mode ≡ j.mode
  pub owner : i.owner ≡ j.owner

pub same_identity-Agree : (i j : FileIdentity) (b : Bool) → same_identity i j b ≡ true → Agree i j
unfolding same_identity
same_identity-Agree i j b h = record {
  device = ground (arith, eq_of_text_eq i.device j.device);
  inode = ground (arith, eq_of_text_eq i.inode j.inode);
  mode = ground arith;
  owner = same_owner-eq i.owner j.owner (ground arith);
}

pub eq-Agree : (i j : FileIdentity) → i ≡ j → Agree i j
eq-Agree i j e = record {
  device = ap (λ k. k.device) e;
  inode = ap (λ k. k.inode) e;
  mode = ap (λ k. k.mode) e;
  owner = ap (λ k. k.owner) e;
}

pub Agree-eq : (i j : FileIdentity) → Agree i j → i.links ≡ j.links → i ≡ j
Agree-eq i j a h = ground (arith, h, a.device, a.inode, a.mode, a.owner)

pub same_identity-eq : (i j : FileIdentity) → same_identity i j true ≡ true → i ≡ j
unfolding same_identity
same_identity-eq i j h =
    Agree-eq i j (same_identity-Agree i j true h) (ground (arith, eq_of_text_eq i.links j.links))

pub looked-good : (l : Looked) {s : Stats} → looked l ≡ good s → l ≡ found s
looked-good absent h = absurd (cc)
looked-good refused h = absurd (cc)
looked-good (found s) h = cc

module _ (F : FileSystem) where
  pub private_file_identity-good :
      (s : Stats) (mode : ℕ) {i : FileIdentity}
      → private_file_identity F s mode ≡ good i
      → (is_file s ≡ true) × (i ≡ identity_of F s)
  unfolding private_file_identity
  private_file_identity-good s mode h = ground arith

  module _ (posix : IsPosix F) where
    -- What a path names when it was found to name an identity.
    pub assert_path_names_identity-named :
        (p : Text) (i : FileIdentity) (links mode : ℕ) (d : F.Disk) {u : Unit {0}}
        → assert_path_names_identity F p i links mode d ≡ good u
        → (n : F.File) × (F.named d p ≡ some n)
          × Agree (identity_of F (F.stats d n)) i
          × ((F.stats d n).links ≡ links)
    unfolding assert_path_names_identity
    assert_path_names_identity-named p i links mode d h =
        let (s, a, h1) = >>?-good _ _ h in
        let (o, b, h2) = >>?-good _ _ h1 in
        let (n, named, e) = posix.lstat_found d p s (looked-good _ a) in
        let both = and-true _ _ (check-good _ _ h2) in
        (
          n,
          named,
          same_identity-Agree _ i false
              (rw (e, sym (private_file_identity-good s mode b).1) (both.0)),
          rw e (ground (arith, both.1)),
        )

    -- A name and an open descriptor of one identity are one file.
    pub named-opened :
        (d : F.Disk) (p : Text) (n : F.File) (h : F.Descriptor) (i : FileIdentity)
        → F.named d p ≡ some n
        → Agree (identity_of F (F.stats d n)) i
        → Agree (identity_of F (F.stats d (F.opened h))) i
        → n ≡ F.opened h
    unfolding identity_of
    named-opened d p n h i named a b =
        posix.one_file d p n h named (decimal-injective _ _ (a.device ∙ sym b.device))
          (decimal-injective _ _ (a.inode ∙ sym b.inode))
