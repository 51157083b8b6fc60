-- ===== src/Files/Atomic.antt =====
-- Publication of files, extensions/ypi/internal/atomic-file.ts: options, the stages at which other
-- processes may act, and the directory that is held open meanwhile.
pub mod Temporary
pub mod Create
pub mod Replace
use ypi.Prelude.{ℕ, Bool, true, false, ◌&&◌, Option, none, some, Text, ◌==◌}
use ypi.Coordinator.Calls.{FileIdentity}
use ypi.Files.{FileSystem, Fault}
use ypi.Files.Steps.{Checked, good, ◌>>?◌, check, found_or}
use ypi.Files.Identity.{is_directory, looked}

-- `AtomicFileLifecycleStage`.
pub data Stage : Type 0 where
  temporary_ready before_publish after_publish : Stage
  before_temporary_retire before_existing_commit after_existing_commit : Stage

-- `AtomicWriteOptions`.
pub record Options : Type 0 where
  pub mode : Option ℕ
  pub expected_content : Option Text
  pub truncate_before_write : Option Bool

-- `options.mode ?? 0o600`.
abbrev pub mode_of : Options → ℕ
mode_of options = elim options.mode [ none ↦ 384 | some mode ↦ mode ]

-- `options.truncateBeforeWrite !== false`.
abbrev pub truncates : Options → Bool
truncates options = elim options.truncate_before_write [ none ↦ true | some flag ↦ flag ]

abbrev pub is_none : {A : Type 0} → Option A → Bool
is_none none = true
is_none (some a) = false

abbrev pub fresh_options : Option ℕ → Options
fresh_options mode = record { mode = mode; expected_content = none; truncate_before_write = none }

module _ (F : FileSystem) where
  open F use {Disk, Descriptor}

  pub record HeldDirectory : Type 0 where
    pub descriptor : Descriptor
    pub path : Text
    pub device : ℕ
    pub inode : ℕ

  pub record HeldTemporary : Type 0 where
    pub descriptor : Descriptor
    pub path : Text
    pub identity : FileIdentity

  unfoldable pub open_held_directory : Text → Disk → Checked HeldDirectory
  open_held_directory directory d =
      found_or (F.open_directory d directory) Fault.system >>? λ descriptor.
      found_or (F.fstat d descriptor) Fault.system >>? λ s.
      check (is_directory s) Fault.not_directory >>? λ _.
      good
        (record { descriptor = descriptor; path = directory; device = s.device; inode = s.inode })

  unfoldable pub assert_held_directory : HeldDirectory → Disk → Checked (Unit {0})
  assert_held_directory directory d =
      found_or (F.fstat d directory.descriptor) Fault.system >>? λ held.
      looked (F.lstat d directory.path) >>? λ current.
      check
        (is_directory held
          && is_directory current
          && held.device == directory.device
          && held.inode == directory.inode
          && current.device == directory.device
          && current.inode == directory.inode)
        Fault.parent_changed

  unfoldable pub synced : Descriptor → Disk → Checked (Unit {0})
  synced h d = check (F.sync d h) Fault.system

  unfoldable pub sync_held_directory : HeldDirectory → Disk → Checked (Unit {0})
  sync_held_directory directory d = assert_held_directory directory d >>? λ _.
      synced directory.descriptor d >>? λ _. assert_held_directory directory d
