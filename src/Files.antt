-- ===== src/Files.antt =====
-- The calls of `node:fs` that extensions/ypi/internal/atomic-file.ts and private-path.ts make,
-- taken as an interface, and the steps that are made of them.
pub mod Laws
pub mod Steps
pub mod Identity
pub mod Bytes
pub mod Transfer
pub mod Atomic
pub mod Private
pub mod Tests
use ypi.Prelude.{ℕ, Bool, Option, Text}

pub data Kind : Type 0 where
  regular directory symlink special : Kind

-- The fields of `Stats` and `BigIntStats` that are read. Without `bigint` they are doubles, which
-- hold each number below 2 ^ 53; the numbers of devices and files are taken to be below it.
pub record Stats : Type 0 where
  pub device : ℕ
  pub inode : ℕ
  pub kind : Kind
  pub mode : ℕ
  pub links : ℕ
  pub user : ℕ
  pub size : ℕ

-- `lstat` of a path: `ENOENT`, another error, or the metadata.
pub data Looked : Type 0 where
  absent : Looked
  refused : Looked
  found : Stats → Looked

-- What a thrown error says.
pub data Fault : Type 0 where
  system : Fault
  not_regular wrong_owner wrong_mode wrong_links wrong_kind : Fault
  not_directory parent_changed identity_changed size_unsupported : Fault
  no_progress became_shorter contents_changed target_disappeared bad_options : Fault
  too_large bad_boundary not_a_file invalid_identity : Fault
  interrupted out_of_fuel : Fault
  visible : Fault → Fault
  combined : Fault → Fault → Fault

-- A call that returns, or throws, and the disk it leaves.
pub data Run (D A : Type 0) : Type 0 where
  done : A → D → Run D A
  failed : Fault → D → Run D A

-- A `File` is an inode. A descriptor stands for one inode as long as it is open, so opening and
-- closing leave the disk as it is. Calls on names and modes happen or do not; a call that writes
-- may throw after it wrote a part.
pub record FileSystem : Type 1 where
  pub Disk : Type 0
  pub File : Type 0
  pub Descriptor : Type 0
  -- What a disk holds.
  pub named : Disk → Text → Option File
  pub stats : Disk → File → Stats
  pub bytes : Disk → File → Text
  pub opened : Descriptor → File
  -- `process.getuid?.()` and `process.platform === "win32"`.
  pub user : Option ℕ
  pub windows : Bool
  -- The temporary name beside a target: `path` and `randomBytes`.
  pub parent : Text → Text
  pub temporary_path : Disk → Text → Text
  -- `lstatSync`, `fstatSync`, `openSync` of an existing name without following a link.
  pub lstat : Disk → Text → Looked
  pub fstat : Disk → Descriptor → Option Stats
  pub open_existing : Disk → Text → Option Descriptor
  pub open_directory : Disk → Text → Option Descriptor
  -- `readSync` of at most so many bytes from an offset, and `readFileSync` of a path.
  pub read : Disk → Descriptor → ℕ → ℕ → Option Text
  pub read_file : Disk → Text → Option Text
  -- `openSync` with `O_CREAT | O_EXCL`, `linkSync`, `unlinkSync`, `fchmodSync`.
  pub create : Disk → Text → ℕ → Option (Descriptor × Disk)
  pub link : Disk → Text → Text → Option Disk
  pub unlink : Disk → Text → Option Disk
  pub chmod : Disk → Descriptor → ℕ → Option Disk
  -- `mkdirSync`, and whether it or an exclusive `openSync` fails with `EEXIST`.
  pub make_directory : Disk → Text → ℕ → Option Disk
  pub taken : Disk → Text → Bool
  -- `fsyncSync`: whether it returns.
  pub sync : Disk → Descriptor → Bool
  -- `writeSync` of bytes at an offset, `ftruncateSync`, and `writeFileSync` on a descriptor that
  -- appends or one that stands at the start.
  pub write : Disk → Descriptor → Text → ℕ → Run Disk ℕ
  pub truncate : Disk → Descriptor → ℕ → Run Disk (Unit {0})
  pub append : Disk → Descriptor → Text → Run Disk (Unit {0})
  pub overwrite : Disk → Descriptor → Text → Run Disk (Unit {0})
