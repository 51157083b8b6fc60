-- ===== src/Coordinator/Counter.antt =====
-- The counter file on a file system: what `allocateCall` of
-- extensions/ypi/internal/tree-coordinator.ts calls of extensions/ypi/internal/atomic-file.ts and
-- extensions/ypi/internal/private-path.ts. `exists` is `existsSync`; while the file that an earlier
-- process left is read, the disk stays as it is.
pub mod Stored
mod Tests
use ypi.Prelude.{ℕ, Bool, Option, none, some, Text}
use ypi.Coordinator.Calls.{FileIdentity, CounterFiles}
use ypi.Files.{FileSystem, Run, done, failed}
use ypi.Files.Steps.{Checked, good, bad, Step}
use ypi.Files.Atomic.{Stage, Options}
use ypi.Files.Atomic.Create.{atomic_create_file}
use ypi.Files.Atomic.Replace.{atomic_conditional_replace_file}
use ypi.Files.Private.{
  PrivateIdentity, capture_private_file_identity, read_owned_private_file_bytes,
}

-- `MAX_COUNTER_BYTES`.
abbrev max_counter_bytes : ℕ
max_counter_bytes = 32

-- The options of the two writes.
abbrev pub create_options : Options
create_options = record { mode = some 384; expected_content = none; truncate_before_write = none }

abbrev pub replace_options : Text → Options
replace_options raw = record {
  mode = some 384;
  expected_content = some raw;
  truncate_before_write = none;
}

abbrev pub outcome : {D A : Type 0} → Run D A → Option A × D
outcome (done a d) = (some a, d)
outcome (failed e d) = (none, d)

module _ (F : FileSystem) where
  open F use {Disk}

  -- `atomicIdentityFromPrivate`.
  unfoldable pub atomic_identity_from_private : PrivateIdentity → FileIdentity
  atomic_identity_from_private identity = record {
    device = identity.device;
    inode = identity.inode;
    mode = identity.mode;
    links = identity.links;
    owner = F.user;
  }

  abbrev read_captured : Disk → Text → Checked PrivateIdentity → Option (FileIdentity × Text)
  read_captured d file (bad e) = none
  read_captured d file (good identity) =
      elim (read_owned_private_file_bytes F file identity (some max_counter_bytes) d d d (λ k. d)
        d) [ bad e ↦ none | good raw ↦ some (atomic_identity_from_private identity, raw) ]

  -- The counter that an earlier process left.
  unfoldable pub read_counter : Disk → Text → Option (FileIdentity × Text)
  read_counter d file = read_captured d file (capture_private_file_identity F file d)

  module _ (exists : Disk → Text → Bool) (hook : Stage → Step Disk (Unit {0})) where
    abbrev pub counter_files : CounterFiles
    counter_files = record {
      Disk = Disk;
      exists = exists;
      read = read_counter;
      create = λ d file raw. outcome (atomic_create_file F hook file raw create_options d);
      replace = λ d file identity old raw.
          outcome
            (atomic_conditional_replace_file F hook file identity raw (replace_options old) d);
    }
