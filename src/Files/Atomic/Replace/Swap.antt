-- ===== src/Files/Atomic/Replace/Swap.antt =====
-- `atomicConditionalReplaceFile` of extensions/ypi/internal/atomic-file.ts as a compare-and-swap on
-- the bytes of one file.
use ypi.Prelude.{
  ◌≡◌, ◌≢◌, sym, ap, ◌∙◌, some, Text, text_eq, text_eq_of_eq, eq_of_text_eq, Bool-cases, ◌⊎◌, inl,
  inr,
}
use ypi.Coordinator.Calls.{FileIdentity}
use ypi.Files.{FileSystem, Fault, Run, done, failed}
use ypi.Files.Laws.{IsPosix, Writes, disk_of}
use ypi.Files.Steps.{Step}
use ypi.Files.Steps.Returned.{Run-cases}
use ypi.Files.Atomic.{Stage, Options}
use ypi.Files.Atomic.Replace.{atomic_conditional_replace_file}
use ypi.Files.Atomic.Replace.Written.{IsStored, atomic_conditional_replace_file-IsStored}
use ypi.Files.Atomic.Replace.Compared.{replace_refuses, replace_frame}

module _ (F : FileSystem) where
  open F use {Disk, File, named, bytes}

  -- A compare-and-swap of the bytes `old` of a file for `new`, on a medium that may fail: it refuses
  -- and alters nothing, it swaps, or it breaks off; the names and the other files always stay.
  pub data Swap (d : Disk) (n : File) (old new : Text) : Run Disk FileIdentity → Type 0 where
    refused : (e : Fault) → bytes d n ≢ old → Swap d n old new (failed e d)
    swapped :
        (i : FileIdentity) (d' : Disk)
        → bytes d n ≡ old
        → bytes d' n ≡ new
        → Writes F n d d'
        → Swap d n old new (done i d')
    broken :
        (e : Fault) (d' : Disk) → bytes d n ≡ old → Writes F n d d' → Swap d n old new (failed e d')

  module _ (posix : IsPosix F) (hook : Stage → Step Disk (Unit {0})) where
    pub atomic_conditional_replace_file-Swap :
        (d : Disk) (target : Text) (expected : FileIdentity) (content old : Text)
        (options : Options) (n : File)
        → options.expected_content ≡ some old
        → named d target ≡ some n
        → ((stage : Stage) (d : Disk) → Writes F n d (disk_of (hook stage d)))
        → Swap d n old content
            (atomic_conditional_replace_file F hook target expected content options d)
    atomic_conditional_replace_file-Swap d target expected content old options n o name quiet =
        elim (Bool-cases (text_eq (bytes d n) old)) [
          | inr differs ↦
              let other : bytes d n ≢ old =
                λ same. cc (text_eq_of_eq (bytes d n) old same, differs) in
              let (e, stops) =
                replace_refuses F posix hook d target expected content old options n o name
                  (inl other) in
              rw stops (refused e other)
          | inl same ↦
              ends (eq_of_text_eq (bytes d n) old same) (
                Run-cases
                  (atomic_conditional_replace_file F hook target expected content options d))
        ]
      where
        frame :
            Writes F n d
              (disk_of (atomic_conditional_replace_file F hook target expected content options d))
        frame = replace_frame F posix hook d target expected content options n name quiet

        stored :
            (i : FileIdentity) (d' : Disk)
            → Writes F n d d'
            → IsStored F d' target content expected
            → bytes d' n ≡ content
        stored i d' w s =
            let one : s.file ≡ n = cc (s.name, w.names target, name) in
            ap (bytes d') (sym one) ∙ s.holds

        ends :
            bytes d n ≡ old
            → ((i : FileIdentity) × (d' : Disk) × (atomic_conditional_replace_file F hook target
                    expected content options d
                  ≡ done i d'))
              ⊎ ((e : Fault) × (d' : Disk) × (atomic_conditional_replace_file F hook target expected
                      content options d
                    ≡ failed e d'))
            → Swap d n old content
                (atomic_conditional_replace_file F hook target expected content options d)
        ends same (inl (i, d', e)) =
            let w : Writes F n d d' = rw e at frame in
            let (s, _) =
              atomic_conditional_replace_file-IsStored F posix hook d target expected content
                options i d' e in
            rw e (swapped i d' same (stored i d' w s) w)
        ends same (inr (e, d', k)) = rw k (broken e d' same (rw k at frame))
