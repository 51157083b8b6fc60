-- ===== src/Files/Private/Writing/Committed.antt =====
-- What a journal transaction that returns leaves.
use ypi.Prelude.{
  ℕ, ◌≤◌, ◌≡◌, refl, sym, ap, ◌∙◌, true, some, Text, length, ltb, Bool-cases, and-true, inl, inr,
  arith, ◌++◌, ◌==◌,
}
use ypi.Files.{FileSystem, Fault, done}
use ypi.Files.Bytes.{take, take_all}
use ypi.Files.Laws.{IsPosix, disk_of}
use ypi.Files.Steps.{good, check-good, >>?-good, Step}
use ypi.Files.Steps.Returned.{Hoare, bind-Hoare, look-Hoare, pure-Hoare}
use ypi.Files.Atomic.{synced}
use ypi.Files.Private.{PrivateIdentity, assert_opened, assert_private_path_identity}
use ypi.Files.Private.Reads.{
  Numbered, assert_opened-Numbered, assert_private_path_identity-named, one_private_file,
}
use ypi.Files.Private.Writing.{
  WriteStage, assert_named, assert_size, is_boundary, trim_tail, write_transaction, run_transaction,
  append_owned_private_file_transaction,
}

module _ (F : FileSystem) where
  open F use {Disk, File, named, stats, bytes}

  -- The path names a file with the numbers of the identity and with these bytes.
  pub record IsCommitted (d : Disk) (p : Text) (i : PrivateIdentity) (n : File) (t : Text)
      : Type 0 where
    pub name : named d p ≡ some n
    pub numbers : Numbered (stats d n) i
    pub contents : bytes d n ≡ t

module _ (F : FileSystem) (posix : IsPosix F) where
  open F use {Disk, File, Descriptor, named, stats, bytes, opened}

  assert_size-good :
      (h : Descriptor) (i : PrivateIdentity) (size : ℕ) (fault : Fault) (d : Disk) {u : Unit {0}}
      → assert_size F h i size fault d ≡ good u
      → (length (bytes d (opened h)) ≡ size) × Numbered (stats d (opened h)) i
  unfolding assert_size
  assert_size-good h i size fault d k =
      let (s, a, k1) = >>?-good (assert_opened F h i d) _ k in
      let (held, numbers) = assert_opened-Numbered F posix h i d s a in
      (
        sym (posix.sized d (opened h))
            ∙ ap (λ m. m.size) held
            ∙ ground (arith, check-good (s.size == size) fault k1),
        numbers,
      )

  module _ (hook : WriteStage → Step Disk (Unit {0}))
      (quiet : (stage : WriteStage) (d : Disk) (m : File)
        → bytes (disk_of (hook stage d)) m ≡ bytes d m) where
    hooked :
        (stage : WriteStage) (n : File) (t : Text)
        → Hoare (λ x. bytes x n ≡ t) (hook stage) (λ _ x. bytes x n ≡ t)
    hooked stage n t d a d' p e = (rw e at (quiet stage d n)) ∙ p

    trim_tail-take :
        (h : Descriptor) (observed committed : ℕ) (b : Text)
        → committed ≤ observed
        → length b ≡ observed
        → Hoare
            (λ x. bytes x (opened h) ≡ b)
            (trim_tail F hook h observed committed)
            (λ _ x. bytes x (opened h) ≡ take committed b)
    unfolding trim_tail
    trim_tail-take h observed committed b le size = elim (Bool-cases (ltb committed observed)) [
      | inl longer ↦ rw longer (
          bind-Hoare {M = λ _ x. bytes x (opened h) ≡ take committed b} _ _
            (λ d a d' p e.
              posix.truncate_done d h committed d' e (rw p (omega (arith, le, size)))
              ∙ ap (take committed) p)
            λ _.
              bind-Hoare _ _ (look-Hoare (synced F h) λ d a p _. p)
                λ _. hooked WriteStage.after_tail_trim (opened h) (take committed b))
      | inr whole ↦
          rw whole
            (pure-Hoare _ _ λ d p. p ∙ sym (take_all committed b (ground (arith, whole, size, le))))
    ]

    write_transaction-append :
        (h : Descriptor) (payload commit b : Text)
        → Hoare
            (λ x. bytes x (opened h) ≡ b)
            (write_transaction F hook h payload commit)
            (λ _ x. bytes x (opened h) ≡ (b ++ payload) ++ commit)
    unfolding write_transaction
    write_transaction-append h payload commit b =
        bind-Hoare {M = λ _ x. bytes x (opened h) ≡ b ++ payload} _ _
          (λ d a d' p e. posix.append_done d h payload d' e ∙ ap (λ t. t ++ payload) p)
          λ _. bind-Hoare _ _ (look-Hoare (synced F h) λ d a p _. p) λ _.
            bind-Hoare _ _ (hooked WriteStage.after_payload_sync (opened h) (b ++ payload)) λ _.
              bind-Hoare {M = λ _ x. bytes x (opened h) ≡ (b ++ payload) ++ commit} _ _
                (λ d a d' p e. posix.append_done d h commit d' e ∙ ap (λ t. t ++ commit) p)
                λ _.
                  bind-Hoare _ _
                    (hooked WriteStage.after_commit_write (opened h) ((b ++ payload) ++ commit))
                    λ _. look-Hoare (synced F h) λ d a p _. p

    module _ (d0 : Disk) (candidate : Text) (expected : PrivateIdentity) (observed committed : ℕ)
        (payload commit : Text) where
      abbrev Result : Disk → Type 0
      Result x =
          (n : File) × (length (bytes d0 n) ≡ observed)
          × IsCommitted F x candidate expected n
              ((take committed (bytes d0 n) ++ payload) ++ commit)

      abbrev Same : Disk → Type 0
      Same x = (m : File) → bytes x m ≡ bytes d0 m

      abbrev Bounded : Disk → Type 0
      Bounded x = Same x × (committed ≤ observed)

      -- What is known of the journal once it is open.
      abbrev Open : Descriptor → Disk → Type 0
      Open h x =
          (bytes x (opened h) ≡ bytes d0 (opened h))
          × (length (bytes d0 (opened h)) ≡ observed)
          × (committed ≤ observed)

      -- The journal has these bytes.
      abbrev Has : Descriptor → (Text → Text) → Disk → Type 0
      Has h f x =
          (bytes x (opened h) ≡ f (take committed (bytes d0 (opened h))))
          × (length (bytes d0 (opened h)) ≡ observed)

      named_at_last :
          (h : Descriptor) (x : Disk) (t : Text)
          → (bytes x (opened h) ≡ t)
          → Numbered (stats x (opened h)) expected
          → assert_named F candidate expected x ≡ good tt
          → IsCommitted F x candidate expected (opened h) t
      unfolding assert_named
      named_at_last h x t holds numbers k =
          let (_, a, _) = >>?-good (assert_private_path_identity F candidate expected x) _ k in
          let (n, name, numbered) =
            assert_private_path_identity-named F posix candidate expected x a in
          let one = one_private_file F posix x candidate n h expected name numbered numbers in
          record { name = name ∙ ap some one; numbers = numbers; contents = holds }

      run_in :
          (h : Descriptor)
          → Hoare Bounded
              (run_transaction F hook candidate h expected observed committed payload commit)
              (λ _. Result)
      unfolding run_transaction
      run_in h =
          bind-Hoare {M = λ _. Open h} _ _
            (look-Hoare _ λ d a p e.
              let (size, _) = assert_size-good h expected observed Fault.bad_boundary d e in
              (p.0 (opened h), ap length (sym (p.0 (opened h))) ∙ size, p.1))
            λ _.
              bind-Hoare {M = λ _. Has h (λ t. t)} _ _
                (λ d a d' p e. (
                  trim_tail-take h observed committed (bytes d0 (opened h)) p.2 p.1 d a d' p.0 e,
                  p.1,
                ))
                λ _.
                  bind-Hoare {M = λ _. Has h (λ t. (t ++ payload) ++ commit)} _ _
                    (λ d a d' p e. (
                      write_transaction-append h payload commit
                          (take committed (bytes d0 (opened h))) d a d' p.0 e,
                      p.1,
                    ))
                    λ _.
                      bind-Hoare
                        {M = λ _ x.
                          Has h (λ t. (t ++ payload) ++ commit) x
                          × Numbered (stats x (opened h)) expected}
                        _ _
                        (look-Hoare _ λ d a p e.
                          (p, (assert_size-good h expected _ Fault.contents_changed d e).1))
                        λ _.
                          look-Hoare _ λ d a p e. (opened h, p.0.1, named_at_last h d _ p.0.0 p.1 e)

      committed_in :
          Hoare Same
            (append_owned_private_file_transaction F hook candidate expected observed committed
              payload commit)
            (λ _. Result)
      unfolding append_owned_private_file_transaction
      committed_in =
          bind-Hoare {M = λ _. Bounded} _ _
            (look-Hoare _
              λ d a p e. (p, boundary_le (and-true _ _ (check-good _ Fault.bad_boundary e)).1))
            λ _. bind-Hoare {M = λ _. Bounded} _ _ (look-Hoare _ λ d a p _. p) λ _.
              bind-Hoare {M = λ _. Bounded} _ _
                (λ d a d' p e. (λ m. (rw e at (quiet WriteStage.before_open d m)) ∙ p.0 m, p.1))
                λ _. bind-Hoare {M = λ _. Bounded} _ _ (look-Hoare _ λ d a p _. p) run_in
        where
          boundary_le : is_boundary F observed committed ≡ true → committed ≤ observed
          boundary_le e = ground (arith, e)

    -- A transaction that returns leaves, under the path, the file that it appended to: its committed
    -- part, the payload and the commit.
    pub transaction-IsCommitted :
        (d : Disk) (candidate : Text) (expected : PrivateIdentity) (observed committed : ℕ)
        (payload commit : Text) (d' : Disk)
        → append_owned_private_file_transaction F hook candidate expected observed committed payload
            commit d
          ≡ done tt d'
        → (n : File) × (length (bytes d n) ≡ observed)
          × IsCommitted F d' candidate expected n
              ((take committed (bytes d n) ++ payload) ++ commit)
    transaction-IsCommitted d candidate expected observed committed payload commit d' k =
        committed_in d candidate expected observed committed payload commit d tt d' (λ m. refl) k
