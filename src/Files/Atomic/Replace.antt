-- ===== src/Files/Atomic/Replace.antt =====
-- Replacement of an existing file: `atomicConditionalReplaceFile` and `atomicWriteFile` of
-- extensions/ypi/internal/atomic-file.ts. The hook stands for what other processes do between the
-- calls.
pub mod Written
pub mod Compared
pub mod Dispatched
pub mod Swap
use ypi.Prelude.{true, ◌&&◌, Option, none, some, Text, text_eq, ◌==◌, length, if◌then◌else◌}
use ypi.Coordinator.Calls.{FileIdentity}
use ypi.Files.{FileSystem, Stats, absent, refused, found, Fault, failed}
use ypi.Files.Steps.{Checked, good, ◌>>?◌, check, found_or, Step, pure, ◌>>=◌, ◌>>◌, look}
use ypi.Files.Identity.{same_identity, private_file_identity, assert_path_names_identity}
use ypi.Files.Transfer.{write_all, read_descriptor_from_start}
use ypi.Files.Atomic.{
  Stage, Options, mode_of, truncates, is_none, HeldDirectory, open_held_directory,
  assert_held_directory, synced, sync_held_directory,
}
use ypi.Files.Atomic.Create.{atomic_create_file}

module _ (F : FileSystem) where
  open F use {Disk, Descriptor}

  -- The target is still the expected file, by name and through the descriptor.
  unfoldable pub assert_expected :
      Text → Descriptor → FileIdentity → Options → Disk → Checked (Unit {0})
  assert_expected target h expected options d =
      assert_path_names_identity F target expected 1 (mode_of options) d >>? λ _.
      found_or (F.fstat d h) Fault.system >>? λ s.
      private_file_identity F s (mode_of options) >>? λ held.
      check (same_identity held expected true) Fault.identity_changed

  -- `options.expectedContent !== undefined && !bytesEqual(...)` throws.
  unfoldable pub assert_content : Descriptor → Option Text → Disk → Checked (Unit {0})
  assert_content h none d = good tt
  assert_content h (some expected) d = read_descriptor_from_start F d h >>? λ present.
      check (text_eq present expected) Fault.contents_changed

  -- What `atomicConditionalReplaceFile` checks before it first runs the hook.
  unfoldable pub open_expected : Text → FileIdentity → Options → Disk → Checked Descriptor
  open_expected target expected options d =
      found_or (F.open_existing d target) Fault.system >>? λ h.
      found_or (F.fstat d h) Fault.system >>? λ s.
      private_file_identity F s (mode_of options) >>? λ opened.
      check (s.links == 1 && same_identity opened expected true) Fault.identity_changed >>? λ _.
      assert_path_names_identity F target expected 1 (mode_of options) d >>? λ _.
      assert_content h options.expected_content d >>? λ _. good h

  unfoldable pub rewrite_file : Descriptor → Text → Options → Step Disk (Unit {0})
  rewrite_file h content options = do
    if truncates options then (λ d. F.truncate d h 0) else pure tt
    write_all F h content
    λ d. F.truncate d h (length content)
    look (synced F h)

  -- What it checks behind the write; the identity it returns is that of the descriptor.
  unfoldable pub confirm_replaced :
      Text
      → Descriptor
      → HeldDirectory F
      → FileIdentity
      → Text
      → Options
      → Disk
      → Checked FileIdentity
  confirm_replaced target h directory expected content options d =
      assert_path_names_identity F target expected 1 (mode_of options) d >>? λ _.
      found_or (F.fstat d h) Fault.system >>? λ s.
      private_file_identity F s (mode_of options) >>? λ held.
      check (same_identity held expected true) Fault.identity_changed >>? λ _.
      assert_content h (some content) d >>? λ _.
      sync_held_directory F directory d >>? λ _. good held

module _ (F : FileSystem) (hook : Stage → Step F.Disk (Unit {0})) where
  open F use {Disk, Descriptor}

  -- `atomicConditionalReplaceFile` from the first run of the hook on.
  unfoldable pub commit_replacement :
      Text → Descriptor → HeldDirectory F → FileIdentity → Text → Options → Step Disk FileIdentity
  commit_replacement target h directory expected content options = do
    hook Stage.before_existing_commit
    look (assert_held_directory F directory)
    look (assert_expected F target h expected options)
    look (assert_content F h options.expected_content)
    rewrite_file F h content options
    hook Stage.after_existing_commit
    look (confirm_replaced F target h directory expected content options)

  unfoldable pub atomic_conditional_replace_file :
      Text → FileIdentity → Text → Options → Step Disk FileIdentity
  atomic_conditional_replace_file target expected content options = do
    directory ← look (open_held_directory F (F.parent target))
    h ← look (open_expected F target expected options)
    commit_replacement target h directory expected content options

  unfoldable pub write_existing : Text → Stats → Text → Options → Step Disk FileIdentity
  write_existing target s content options = do
    expected ← look (λ _. private_file_identity F s (mode_of options))
    look (λ _. check (s.links == 1) Fault.wrong_links)
    atomic_conditional_replace_file target expected content options

  -- `atomicWriteFile`: only a name that is absent at the first look is created.
  unfoldable pub atomic_write_file : Text → Text → Options → Step Disk FileIdentity
  atomic_write_file target content options d = elim (F.lstat d target) [
    | absent ↦
        if is_none options.expected_content
        then atomic_create_file F hook target content options d
        else failed Fault.target_disappeared d
    | refused ↦ failed Fault.system d
    | found s ↦ write_existing target s content options d
  ]
