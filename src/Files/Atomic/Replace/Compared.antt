-- ===== src/Files/Atomic/Replace/Compared.antt =====
-- `atomicConditionalReplaceFile` compares before it writes, and writes one file only.
use ypi.Prelude.{
  ◌≡◌, ◌≢◌, refl, sym, ap, subst, ◌∙◌, Bool, true, false, Option, some, Text, length, if◌then◌else◌,
  and-true, ◌==◌, ◌⊎◌, inl, inr, ◌&&◌,
}
use ypi.Coordinator.Calls.{FileIdentity}
use ypi.Files.{FileSystem, Fault, Run, failed}
use ypi.Files.Laws.{IsPosix, Writes, disk_of}
use ypi.Files.Steps.{
  Checked, good, check_then, >>?-good, found_or, found_or-good, Step, look, ◌>>=◌, pure, look_then,
}
use ypi.Files.Steps.Carried.{Within, bind-Within, look-Within}
use ypi.Files.Identity.{
  same_identity, identity_of, private_file_identity, assert_path_names_identity,
}
use ypi.Files.Identity.Same.{same_identity-eq, private_file_identity-good}
use ypi.Files.Transfer.Frame.{Writes-refl, Writes-trans, write_all-Writes}
use ypi.Files.Atomic.{
  Stage, Options, mode_of, truncates, HeldDirectory, assert_held_directory, synced,
}
use ypi.Files.Atomic.Replace.{
  assert_content, rewrite_file, open_expected, assert_expected, confirm_replaced,
  commit_replacement, atomic_conditional_replace_file,
}
use ypi.Files.Atomic.Replace.Written.{assert_content-good}

module _ (F : FileSystem) (posix : IsPosix F) where
  open F use {Disk, File, Descriptor, named, stats, bytes, opened}

  open_expected-named :
      (target : Text) (expected : FileIdentity) (options : Options) (d : Disk) (h : Descriptor)
      → open_expected F target expected options d ≡ good h
      → named d target ≡ some (opened h)
  unfolding open_expected
  open_expected-named target expected options d h k =
      let (g, a, k1) = >>?-good (found_or (F.open_existing d target) Fault.system) _ k in
      let (s, _, k2) = >>?-good (found_or (F.fstat d g) Fault.system) _ k1 in
      let (opens, _, k3) = >>?-good (private_file_identity F s (mode_of options)) _ k2 in
      let (_, k4) = check_then (s.links == 1 && same_identity opens expected true) _ _ k3 in
      let (_, _, k5) =
        >>?-good (assert_path_names_identity F target expected 1 (mode_of options) d) _ k4 in
      let (_, _, k6) = >>?-good (assert_content F g options.expected_content d) _ k5 in
      let one : g ≡ h = cc (k6) in
      posix.open_found d target g (found_or-good _ _ a) ∙ ap some (ap opened one)

  assert_some :
      (h : Descriptor) (o : Option Text) (t : Text) (d : Disk) {u : Unit {0}}
      → o ≡ some t
      → assert_content F h o d ≡ good u
      → bytes d (opened h) ≡ t
  assert_some h o t d {u} e k =
      assert_content-good F posix h t d (subst (λ x. assert_content F h x d ≡ good u) e k)

  -- What the target is when it may be replaced.
  open_expected-good :
      (target : Text) (expected : FileIdentity) (options : Options) (old : Text) (d : Disk)
      (h : Descriptor)
      → options.expected_content ≡ some old
      → open_expected F target expected options d ≡ good h
      → (named d target ≡ some (opened h))
        × (identity_of F (stats d (opened h)) ≡ expected)
        × (bytes d (opened h) ≡ old)
  unfolding open_expected
  open_expected-good target expected options old d h o k =
      let (g, a, k1) = >>?-good (found_or (F.open_existing d target) Fault.system) _ k in
      let (s, b, k2) = >>?-good (found_or (F.fstat d g) Fault.system) _ k1 in
      let (opens, c, k3) = >>?-good (private_file_identity F s (mode_of options)) _ k2 in
      let (same, k4) = check_then (s.links == 1 && same_identity opens expected true) _ _ k3 in
      let (_, _, k5) =
        >>?-good (assert_path_names_identity F target expected 1 (mode_of options) d) _ k4 in
      let (_, e, k6) = >>?-good (assert_content F g options.expected_content d) _ k5 in
      let one : g ≡ h = cc (k6) in
      rw (sym one) (
        posix.open_found d target g (found_or-good _ _ a),
        ap (identity_of F) (posix.fstat_found d g s (found_or-good _ _ b))
            ∙ sym (private_file_identity-good F s (mode_of options) c).1
            ∙ same_identity-eq opens expected (and-true _ _ same).1,
        assert_some g options.expected_content old d o e,
      )

  -- Unless the target is the expected file with the expected content, the call throws and the disk
  -- is as it was.
  pub replace_refuses :
      (hook : Stage → Step Disk (Unit {0})) (d : Disk) (target : Text) (expected : FileIdentity)
      (content old : Text) (options : Options) (n : File)
      → options.expected_content ≡ some old
      → named d target ≡ some n
      → (bytes d n ≢ old) ⊎ (identity_of F (stats d n) ≢ expected)
      → (e : Fault) × (atomic_conditional_replace_file F hook target expected content options d
          ≡ failed e d)
  unfolding atomic_conditional_replace_file
  replace_refuses hook d target expected content old options n o name other =
      look_then X _ _ d (λ e _. (e, refl))
        λ directory _.
          look_then X _ _ d (λ e _. (e, refl))
            λ h b.
              let (same, identity, holds) =
                open_expected-good target expected options old d h o b in
              let one : n ≡ opened h = cc (name, same) in
              absurd (elim other [
                | inl differs ↦ differs (ap (bytes d) one ∙ holds)
                | inr differs ↦ differs (ap (λ m. identity_of F (stats d m)) one ∙ identity)
              ])
    where
      X : Run Disk FileIdentity → Type 0
      X r = (e : Fault) × (r ≡ failed e d)

  module _ (h : Descriptor) where
    abbrev R : Disk → Disk → Type 0
    R = Writes F (opened h)

    andthen :
        {A B : Type 0} (m : Step Disk A) (k : A → Step Disk B)
        → Within R m
        → ((a : A) → Within R (k a))
        → Within R (m >>= k)
    andthen = bind-Within R (Writes-refl F (opened h)) (Writes-trans F (opened h))

    looks : {A : Type 0} (f : Disk → Checked A) → Within R (look f)
    looks = look-Within R (Writes-refl F (opened h)) (Writes-trans F (opened h))

    shortens : (b : Bool) → Within R (if b then (λ d. F.truncate d h 0) else pure tt)
    shortens true d = posix.truncate_frame d h 0
    shortens false d = Writes-refl F (opened h) d

    rewrite_file-Writes : (t : Text) (options : Options) → Within R (rewrite_file F h t options)
    unfolding rewrite_file
    rewrite_file-Writes t options = andthen _ _ (shortens (truncates options)) λ _.
        andthen _ _ (write_all-Writes F posix h t)
          λ _. andthen _ _ (λ d. posix.truncate_frame d h (length t)) λ _. looks (synced F h)

  commit_replacement-Writes :
      (hook : Stage → Step Disk (Unit {0})) (target : Text) (h : Descriptor)
      (directory : HeldDirectory F) (expected : FileIdentity) (content : Text) (options : Options)
      → ((stage : Stage) → Within (R h) (hook stage))
      → Within (R h) (commit_replacement F hook target h directory expected content options)
  unfolding commit_replacement
  commit_replacement-Writes hook target h directory expected content options quiet =
      andthen h _ _ (quiet Stage.before_existing_commit) λ _.
        andthen h _ _ (looks h (assert_held_directory F directory)) λ _.
          andthen h _ _ (looks h (assert_expected F target h expected options)) λ _.
            andthen h _ _ (looks h (assert_content F h options.expected_content)) λ _.
              andthen h _ _ (rewrite_file-Writes h content options) λ _.
                andthen h _ _ (quiet Stage.after_existing_commit)
                  λ _. looks h (confirm_replaced F target h directory expected content options)

  -- Whether it throws or returns, only the bytes of the file that the target named may differ.
  pub replace_frame :
      (hook : Stage → Step Disk (Unit {0})) (d : Disk) (target : Text) (expected : FileIdentity)
      (content : Text) (options : Options) (n : File)
      → named d target ≡ some n
      → ((stage : Stage) (d : Disk) → Writes F n d (disk_of (hook stage d)))
      → Writes F n d
          (disk_of (atomic_conditional_replace_file F hook target expected content options d))
  unfolding atomic_conditional_replace_file
  replace_frame hook d target expected content options n name quiet =
      look_then X _ _ d (λ e _. Writes-refl F n d)
        λ directory _.
          look_then X _ _ d (λ e _. Writes-refl F n d)
            λ h b.
              let one : n ≡ opened h =
                cc (name, open_expected-named target expected options d h b) in
              rw one (
                commit_replacement-Writes hook target h directory expected content options
                  (λ stage d. rw (sym one) (quiet stage d)) d)
    where
      X : Run Disk FileIdentity → Type 0
      X r = Writes F n d (disk_of r)
