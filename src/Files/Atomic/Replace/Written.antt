-- ===== src/Files/Atomic/Replace/Written.antt =====
-- What a successful `atomicConditionalReplaceFile` leaves.
use ypi.Prelude.{ℕ, ◌≡◌, sym, ap, ◌∙◌, true, some, Text, eq_of_text_eq}
use ypi.Coordinator.Calls.{FileIdentity}
use ypi.Files.{FileSystem, Stats, Fault, done}
use ypi.Files.Laws.{IsPosix}
use ypi.Files.Steps.{good, check-good, check_then, >>?-good, found_or, found_or-good, Step}
use ypi.Files.Steps.Returned.{Hoare, Any, skip-Hoare, look-Hoare}
use ypi.Files.Identity.{
  same_identity, identity_of, private_file_identity, assert_path_names_identity,
}
use ypi.Files.Identity.Same.{
  eq-Agree, same_identity-eq, private_file_identity-good, assert_path_names_identity-named,
  named-opened,
}
use ypi.Files.Transfer.Whole.{read_descriptor_from_start-good}
use ypi.Files.Atomic.{Stage, Options, mode_of, HeldDirectory, sync_held_directory}
use ypi.Files.Atomic.Replace.{
  assert_content, confirm_replaced, commit_replacement, atomic_conditional_replace_file,
}

module _ (F : FileSystem) where
  open F use {Disk, File, named, stats, bytes}

  -- The target has the content and the identity.
  pub record IsStored (d : Disk) (target : Text) (content : Text) (i : FileIdentity) : Type 0 where
    pub file : File
    pub name : named d target ≡ some file
    pub holds : bytes d file ≡ content
    pub identity : identity_of F (stats d file) ≡ i

module _ (F : FileSystem) (posix : IsPosix F) where
  open F use {Disk, File, Descriptor, named, stats, bytes, opened}

  pub assert_content-good :
      (h : Descriptor) (t : Text) (d : Disk) {u : Unit {0}}
      → assert_content F h (some t) d ≡ good u
      → bytes d (opened h) ≡ t
  unfolding assert_content
  assert_content-good h t d k =
      let (present, a, k1) = >>?-good _ _ k in
      sym (read_descriptor_from_start-good F posix d h present a)
      ∙ eq_of_text_eq present t (check-good _ _ k1)

  -- A file that both its name and an open descriptor show to be the expected one.
  pub held_identity :
      (target : Text) (h : Descriptor) (expected held : FileIdentity) (mode : ℕ) (d : Disk)
      (s : Stats)
      → F.fstat d h ≡ some s
      → private_file_identity F s mode ≡ good held
      → same_identity held expected true ≡ true
      → assert_path_names_identity F target expected 1 mode d ≡ good tt
      → (named d target ≡ some (opened h))
        × (identity_of F (stats d (opened h)) ≡ expected)
        × (held ≡ expected)
  held_identity target h expected held mode d s a b c e =
      let (n, name, agree, links) =
        assert_path_names_identity-named F posix target expected 1 mode d e in
      let same = same_identity-eq held expected c in
      let here : identity_of F (stats d (opened h)) ≡ expected =
        ap (identity_of F) (posix.fstat_found d h s a)
        ∙ sym (private_file_identity-good F s mode b).1
        ∙ same in
      let one = named-opened F posix d target n h expected name agree (eq-Agree _ _ here) in
      (name ∙ ap some one, here, same)

  confirm_replaced-IsStored :
      (target : Text) (h : Descriptor) (directory : HeldDirectory F) (expected : FileIdentity)
      (content : Text) (options : Options) (d : Disk) (i : FileIdentity)
      → confirm_replaced F target h directory expected content options d ≡ good i
      → IsStored F d target content expected × (i ≡ expected)
  unfolding confirm_replaced
  confirm_replaced-IsStored target h directory expected content options d i k =
      let (_, a, k1) =
        >>?-good (assert_path_names_identity F target expected 1 (mode_of options) d) _ k in
      let (s, b, k2) = >>?-good (found_or (F.fstat d h) Fault.system) _ k1 in
      let (held, c, k3) = >>?-good (private_file_identity F s (mode_of options)) _ k2 in
      let (same, k4) = check_then (same_identity held expected true) Fault.identity_changed _ k3 in
      let (_, e, k5) = >>?-good (assert_content F h (some content) d) _ k4 in
      let (_, _, k6) = >>?-good (sync_held_directory F directory d) _ k5 in
      let (name, identity, eq) =
        held_identity target h expected held (mode_of options) d s (found_or-good _ _ b) c same a in
      (
        record {
          file = opened h;
          name = name;
          holds = assert_content-good h content d e;
          identity = identity;
        },
        cc (k6, eq),
      )

  module _ (hook : Stage → Step Disk (Unit {0})) where
    replaced :
        (target : Text) (expected : FileIdentity) (content : Text) (options : Options)
        → Hoare Any
            (atomic_conditional_replace_file F hook target expected content options)
            (λ i d'. IsStored F d' target content expected × (i ≡ expected))
    unfolding atomic_conditional_replace_file commit_replacement
    replaced target expected content options = skip-Hoare _ _ λ directory. skip-Hoare _ _ λ h.
        skip-Hoare _ _ λ _. skip-Hoare _ _ λ _. skip-Hoare _ _ λ _. skip-Hoare _ _ λ _.
          skip-Hoare _ _ λ _. skip-Hoare _ _ λ _.
            look-Hoare _
              λ d i _. confirm_replaced-IsStored target h directory expected content options d i

    pub atomic_conditional_replace_file-IsStored :
        (d : Disk) (target : Text) (expected : FileIdentity) (content : Text) (options : Options)
        (i : FileIdentity) (d' : Disk)
        → atomic_conditional_replace_file F hook target expected content options d ≡ done i d'
        → IsStored F d' target content expected × (i ≡ expected)
    atomic_conditional_replace_file-IsStored d target expected content options i d' k =
        replaced target expected content options d i d' tt k
