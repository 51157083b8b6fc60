-- ===== src/Files/Atomic/Replace/Dispatched.antt =====
-- `atomicWriteFile` of extensions/ypi/internal/atomic-file.ts writes, whichever way it takes.
use ypi.Prelude.{◌≡◌, Text, refl, sym, subst, Bool-cases, inl, inr}
use ypi.Coordinator.Calls.{FileIdentity}
use ypi.Files.{FileSystem, Stats, Looked, absent, refused, found, done}
use ypi.Files.Laws.{IsPosix, disk_of}
use ypi.Files.Steps.{Step}
use ypi.Files.Steps.Returned.{Hoare, Any, skip-Hoare, failed_never_done}
use ypi.Files.Atomic.{Stage, Options, is_none}
use ypi.Files.Atomic.Create.Beyond.{Kept}
use ypi.Files.Atomic.Create.Stored.{atomic_create_file-IsStored}
use ypi.Files.Atomic.Replace.{write_existing, atomic_write_file}
use ypi.Files.Atomic.Replace.Written.{IsStored, atomic_conditional_replace_file-IsStored}

module _ (F : FileSystem) (posix : IsPosix F) where
  open F use {Disk}

  module _ (hook : Stage → Step Disk (Unit {0})) where
    write_existing-IsStored :
        (target : Text) (s : Stats) (content : Text) (options : Options)
        → Hoare Any
            (write_existing F hook target s content options)
            (λ i d. IsStored F d target content i)
    unfolding write_existing
    write_existing-IsStored target s content options = skip-Hoare _ _ λ expected.
        skip-Hoare _ _ λ _ d i d' _ e.
          let (stored, same) =
            atomic_conditional_replace_file-IsStored F posix hook d target expected content options
              i d' e in
          subst (IsStored F d' target content) (sym same) stored

    pub atomic_write_file-IsStored :
        ((stage : Stage) (d : Disk) → Kept F d (disk_of (hook stage d)))
        → (d : Disk) (target content : Text) (options : Options) (i : FileIdentity) (d' : Disk)
        → atomic_write_file F hook target content options d ≡ done i d'
        → IsStored F d' target content i
    unfolding atomic_write_file
    atomic_write_file-IsStored quiet d target content options i d' k = go (F.lstat d target) refl
      where
        go : (l : Looked) → F.lstat d target ≡ l → IsStored F d' target content i
        go absent e = elim (Bool-cases (is_none options.expected_content)) [
          | inl free ↦
              atomic_create_file-IsStored F posix hook quiet d target content options i d'
                (rw (e, free, atomic_write_file) at k)
          | inr bound ↦ absurd (failed_never_done (rw (e, bound, atomic_write_file) at k))
        ]
        go refused e = absurd (failed_never_done (rw (e, atomic_write_file) at k))
        go (found s) e =
            write_existing-IsStored target s content options d i d' tt
              (rw (e, atomic_write_file) at k)
