-- ===== src/Files/Private/Directories/Ensured.antt =====
-- A directory that was ensured is a private one.
use ypi.Prelude.{
  ◌%◌, ◌≡◌, refl, sym, Bool, true, ◌||◌, Option, none, some, Text, ◌==◌, Bool-cases, ◌⊎◌, inl, inr,
}
use ypi.Files.{FileSystem, Fault, done}
use ypi.Files.Laws.{IsPosix}
use ypi.Files.Steps.{good, check-good, check_then, >>?-good, ◌>>=◌, >>=-done}
use ypi.Files.Steps.Returned.{Hoare, bind-Hoare, look-Hoare, pure-Hoare, failed_never_done}
use ypi.Files.Identity.{is_directory, looked, is_owned}
use ypi.Files.Identity.Same.{looked-good}
use ypi.Files.Private.Directories.{
  assert_private_directory, secure_created_directory, after_making, make_or_find,
  ensure_private_directory,
}

module _ (F : FileSystem) where
  open F use {Disk, File, named, stats}

  -- The path names a directory of the user that nobody else can enter.
  abbrev pub IsPrivateDirectory : Text → Disk → Type 0
  IsPrivateDirectory p d =
      (n : File) × (named d p ≡ some n)
      × (is_directory (stats d n) ≡ true)
      × (is_owned F (stats d n) ≡ true)
      × ((F.windows || (stats d n).mode % 512 == 448) ≡ true)

module _ (F : FileSystem) (posix : IsPosix F) where
  open F use {Disk}

  assert_private_directory-good :
      (p : Text) (d : Disk) {u : Unit {0}}
      → assert_private_directory F p d ≡ good u
      → IsPrivateDirectory F p d
  unfolding assert_private_directory
  assert_private_directory-good p d h =
      let (s, a, h1) = >>?-good (looked (F.lstat d p)) _ h in
      let (kind, h2) = check_then (is_directory s) Fault.not_directory _ h1 in
      let (own, h3) = check_then (is_owned F s) Fault.wrong_owner _ h2 in
      let (n, name, e) = posix.lstat_found d p s (looked-good _ a) in
      (n, name, rw e kind, rw e own, rw e (check-good _ Fault.wrong_mode h3))

  after_making-or :
      (p : Text) (o : Option Disk) (d : Disk) (created : Bool) (d' : Disk)
      → after_making F p o d ≡ done created d'
      → (created ≡ true) ⊎ (d ≡ d')
  unfolding after_making ◌>>=◌
  after_making-or p (some made) d created d' e =
      let (_, middle, _, k) = >>=-done (secure_created_directory F p made) _ e in
      let made : true ≡ created = cc (k) in inl (sym made)
  after_making-or p none d created d' e = elim (Bool-cases (F.taken d p)) [
    | inl exists ↦ let here : d ≡ d' = cc (rw exists at e) in inr here
    | inr free ↦ absurd (failed_never_done (rw free at e))
  ]

  -- Where a directory was not made, the disk is as it was.
  made_or_same :
      (p : Text) (d0 : Disk)
      → Hoare (λ d. d0 ≡ d) (make_or_find F p) (λ created d. (created ≡ true) ⊎ (d0 ≡ d))
  unfolding make_or_find
  made_or_same p d0 d created d' same e =
      rw same (after_making-or p (F.make_directory d p 448) d created d' e)

  ensured :
      (p : Text) (d0 : Disk)
      → Hoare
          (λ d. d0 ≡ d)
          (ensure_private_directory F p)
          (λ created d. ((created ≡ true) ⊎ (d0 ≡ d)) × IsPrivateDirectory F p d)
  unfolding ensure_private_directory
  ensured p d0 = bind-Hoare _ _ (made_or_same p d0) λ created.
      bind-Hoare {M = λ _ d. ((created ≡ true) ⊎ (d0 ≡ d)) × IsPrivateDirectory F p d} _ _
        (look-Hoare _ λ d a p' e. (p', assert_private_directory-good p d e))
        λ _. pure-Hoare _ _ λ d p. p

  -- When the assurance of a private directory returns, its path names a directory that belongs to
  -- the user and, except on Windows, has the mode 0700; a directory that was not made was there,
  -- and then the disk is as it was.
  pub ensure_private_directory-IsPrivateDirectory :
      (d : Disk) (p : Text) (created : Bool) (d' : Disk)
      → ensure_private_directory F p d ≡ done created d'
      → ((created ≡ true) ⊎ (d ≡ d')) × IsPrivateDirectory F p d'
  ensure_private_directory-IsPrivateDirectory d p created d' e = ensured p d d created d' refl e
