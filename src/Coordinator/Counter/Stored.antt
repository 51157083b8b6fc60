-- ===== src/Coordinator/Counter/Stored.antt =====
-- What an allocation leaves in the counter file.
use ypi.Prelude.{ℕ, ◌≡◌, refl, sym, subst, Bool, Option, none, some, Text, decimal_line}
use ypi.Coordinator.Protocol.{Request, ok}
use ypi.Coordinator.Calls.{FileIdentity, Calls, write_counter, allocate_call}
use ypi.Coordinator.Calls.Counting.{Counted, allocate_call-Counted}
use ypi.Coordinator.Counter.{create_options, replace_options, outcome, counter_files}
use ypi.Files.{FileSystem, Run, done, failed}
use ypi.Files.Laws.{IsPosix, disk_of}
use ypi.Files.Steps.{Step}
use ypi.Files.Atomic.{Stage}
use ypi.Files.Atomic.Create.Beyond.{Kept}
use ypi.Files.Atomic.Create.Stored.{atomic_create_file-IsStored}
use ypi.Files.Atomic.Replace.Written.{IsStored, atomic_conditional_replace_file-IsStored}

outcome-some : {D A : Type 0} (r : Run D A) (a : A) (d : D) → outcome r ≡ (some a, d) → r ≡ done a d
outcome-some (done b e) a d h = cc (h)
outcome-some (failed f e) a d h = absurd (cc (h))

module _ (F : FileSystem) (posix : IsPosix F) (exists : F.Disk → Text → Bool)
    (hook : Stage → Step F.Disk (Unit {0}))
    (quiet : (stage : Stage) (d : F.Disk) → Kept F d (disk_of (hook stage d))) where
  open F use {Disk}

  write_counter-IsStored :
      (d : Disk) (c : Calls) (file raw : Text) (i : FileIdentity) (d' : Disk)
      → write_counter (counter_files F exists hook) d c file raw ≡ (some i, d')
      → IsStored F d' file raw i
  unfolding write_counter
  write_counter-IsStored d c file raw i d' e = go c.counter refl
    where
      go : (k : Option (FileIdentity × Text)) → c.counter ≡ k → IsStored F d' file raw i
      go none k =
          atomic_create_file-IsStored F posix hook quiet d file raw create_options i d'
            (outcome-some _ i d' (rw (k, write_counter) at e))
      go (some (j, old)) k =
          let (stored, same) =
            atomic_conditional_replace_file-IsStored F posix hook d file j raw (replace_options old)
              i d' (outcome-some _ i d' (rw (k, write_counter) at e)) in
          subst (IsStored F d' file raw) (sym same) stored

  -- Once the limit is bound, and as long as other processes keep names and the bytes of named
  -- files, an allocation that succeeds hands out the next number, no higher than the limit; the
  -- bound counter file then holds exactly this number, and the accounting keeps its identity.
  pub allocate_call-IsStored :
      (d : Disk) (c : Calls) (r : Request) (bound : ℕ) (c' : Calls) (d' : Disk) (n : ℕ)
      → c.max_calls ≡ some bound
      → allocate_call (counter_files F exists hook) d c r ≡ ((c', d'), ok n)
      → (file : Text) × (counted : Counted (counter_files F exists hook) c bound file d c' d' n)
        × IsStored F d' file (decimal_line n) counted.identity
  allocate_call-IsStored d c r bound c' d' n e h =
      let (file, counted) =
        allocate_call-Counted (counter_files F exists hook) d c r bound c' d' n e h in
      (
        file,
        counted,
        write_counter-IsStored d c file (decimal_line n) counted.identity d' counted.writes,
      )
