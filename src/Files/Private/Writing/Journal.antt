-- ===== src/Files/Private/Writing/Journal.antt =====
-- The committed bytes of a journal outlive every transaction on it, one that throws included.
use ypi.Prelude.{
  ℕ, ◌≤◌, ◌≡◌, refl, ap, ◌∙◌, Text, length, length-append, ltb, Bool-cases, inl, inr, arith,
}
use ypi.Files.{FileSystem}
use ypi.Files.Bytes.{take, take-take, take-append_le, length-take_le}
use ypi.Files.Laws.{IsPosix, Writes, disk_of}
use ypi.Files.Steps.{Checked, Step, ◌>>=◌, look}
use ypi.Files.Steps.Carried.{Within, bind-Within, look-Within}
use ypi.Files.Atomic.{synced}
use ypi.Files.Private.{PrivateIdentity}
use ypi.Files.Private.Writing.{
  WriteStage, assert_named, trim_tail, write_transaction, run_transaction,
  append_owned_private_file_transaction,
}

module _ (F : FileSystem) (committed : ℕ) where
  open F use {Disk, File, bytes}

  -- Every file that has so many bytes still begins with them.
  abbrev pub CommitsBytes : Disk → Disk → Type 0
  CommitsBytes d d' =
      (m : File)
      → committed ≤ length (bytes d m)
      → (take committed (bytes d' m) ≡ take committed (bytes d m))
        × (committed ≤ length (bytes d' m))

module _ (F : FileSystem) (posix : IsPosix F) (committed : ℕ) where
  open F use {Disk, File, Descriptor, named, bytes, opened}

  abbrev Commits : Disk → Disk → Type 0
  Commits = CommitsBytes F committed

  Commits-refl : (d : Disk) → Commits d d
  Commits-refl d m le = (refl, le)

  Commits-trans : (a b c : Disk) → Commits a b → Commits b c → Commits a c
  Commits-trans a b c v w m le =
      let (same, long) = v m le in let (same', long') = w m long in (same' ∙ same, long')

  andthen :
      {A B : Type 0} (m : Step Disk A) (k : A → Step Disk B)
      → Within Commits m
      → ((a : A) → Within Commits (k a))
      → Within Commits (m >>= k)
  andthen = bind-Within Commits Commits-refl Commits-trans

  looks : {A : Type 0} (f : Disk → Checked A) → Within Commits (look f)
  looks = look-Within Commits Commits-refl Commits-trans

  same_bytes : (d d' : Disk) → ((m : File) → bytes d' m ≡ bytes d m) → Commits d d'
  same_bytes d d' same m le = (ap (take committed) (same m), rw (same m) le)

  -- A call that writes one file, where that file keeps its beginning.
  wrote :
      (h : Descriptor) (d d' : Disk)
      → Writes F (opened h) d d'
      → (committed ≤ length (bytes d (opened h))
          → (take committed (bytes d' (opened h)) ≡ take committed (bytes d (opened h)))
            × (committed ≤ length (bytes d' (opened h))))
      → Commits d d'
  wrote h d d' w here m le = elim (posix.file_eq m (opened h)) [
    | inl same ↦ rw same (here (rw same at le))
    | inr other ↦ (ap (take committed) (w.others m other), rw (w.others m other) le)
  ]

  truncate-Commits : (h : Descriptor) → Within Commits (λ d. F.truncate d h committed)
  truncate-Commits h d = wrote h d _ (posix.truncate_frame d h committed) λ le.
      let (k, more, part) = posix.truncate_part d h committed le in
      rw part (
        take-take committed k (bytes d (opened h)) more,
        length-take_le committed k (bytes d (opened h)) more le,
      )

  append-Commits : (h : Descriptor) (t : Text) → Within Commits (λ d. F.append d h t)
  append-Commits h t d = wrote h d _ (posix.append_frame d h t) λ le.
      let (k, part) = posix.append_part d h t in
      rw part (
        take-append_le committed (bytes d (opened h)) (take k t) le,
        omega (arith, length-append (bytes d (opened h)) (take k t), le),
      )

  module _ (hook : WriteStage → Step Disk (Unit {0}))
      (quiet : (stage : WriteStage) (d : Disk) (m : File)
        → bytes (disk_of (hook stage d)) m ≡ bytes d m) where
    hooks : (stage : WriteStage) → Within Commits (hook stage)
    hooks stage d = same_bytes d _ (quiet stage d)

    trim_tail-Commits :
        (h : Descriptor) (observed : ℕ) → Within Commits (trim_tail F hook h observed committed)
    unfolding trim_tail
    trim_tail-Commits h observed d = elim (Bool-cases (ltb committed observed)) [
      | inl longer ↦ rw longer (
          andthen _ _ (truncate-Commits h)
            (λ _. andthen _ _ (looks (synced F h)) λ _. hooks WriteStage.after_tail_trim) d)
      | inr whole ↦ rw whole (Commits-refl d)
    ]

    -- Whether it returns or throws, and wherever, every file that had as many bytes as the journal's
    -- committed part still begins with the same ones.
    pub transaction-Commits :
        (d : Disk) (candidate : Text) (expected : PrivateIdentity) (observed : ℕ)
        (payload commit : Text)
        → CommitsBytes F committed d (
            disk_of (
              append_owned_private_file_transaction F hook candidate expected observed committed
                payload commit d))
    unfolding append_owned_private_file_transaction run_transaction write_transaction
    transaction-Commits d candidate expected observed payload commit =
        andthen _ _ (looks _)
          (λ _. andthen _ _ (looks (assert_named F candidate expected)) λ _.
            andthen _ _ (hooks WriteStage.before_open) λ _. andthen _ _ (looks _) λ h.
              andthen _ _ (looks _) λ _. andthen _ _ (trim_tail-Commits h observed) λ _.
                andthen _ _
                  (andthen _ _ (append-Commits h payload) λ _. andthen _ _ (looks (synced F h)) λ _.
                    andthen _ _ (hooks WriteStage.after_payload_sync) λ _.
                      andthen _ _ (append-Commits h commit) λ _.
                        andthen _ _ (hooks WriteStage.after_commit_write) λ _. looks (synced F h))
                  λ _. andthen _ _ (looks _) λ _. looks (assert_named F candidate expected))
          d
