-- ===== src/Files/Atomic/Create.antt =====
-- Publication of a new file: `publishPreparedTemporary`, `atomicCreateFile` and `atomicCopyFile` of
-- extensions/ypi/internal/atomic-file.ts. The hook stands for what other processes do between the
-- calls.
pub mod Beyond
pub mod Kept
pub mod Filled
pub mod Stored
use ypi.Prelude.{ℕ, ◌&&◌, some, Text, codes}
use ypi.Coordinator.Calls.{FileIdentity}
use ypi.Files.{FileSystem, Fault, visible, combined}
use ypi.Files.Steps.{check, found_or, Step, pure, throw, ◌>>=◌, ◌>>◌, catch, look, act}
use ypi.Files.Identity.{assert_path_names_identity}
use ypi.Files.Atomic.{
  Stage, Options, mode_of, is_none, fresh_options, HeldDirectory, HeldTemporary,
  open_held_directory, assert_held_directory, sync_held_directory,
}
use ypi.Files.Atomic.Temporary.{retire_temporary, prepare_temporary}

module _ (F : FileSystem) (hook : Stage → Step F.Disk (Unit {0})) where
  open F use {Disk, Descriptor}

  -- The part of `publishPreparedTemporary` up to `link`, the point where the target appears.
  unfoldable pub link_temporary :
      Text → HeldTemporary F → HeldDirectory F → ℕ → Step Disk (Unit {0})
  link_temporary target temporary directory mode = do
    hook Stage.temporary_ready
    look (assert_held_directory F directory)
    look (assert_path_names_identity F temporary.path temporary.identity 1 mode)
    hook Stage.before_publish
    look (assert_held_directory F directory)
    look (assert_path_names_identity F temporary.path temporary.identity 1 mode)
    act (λ d. F.link d temporary.path target)

  -- The part behind it.
  unfoldable pub confirm_published :
      Text → HeldTemporary F → HeldDirectory F → ℕ → Step Disk FileIdentity
  confirm_published target temporary directory mode = do
    hook Stage.after_publish
    look (assert_path_names_identity F temporary.path temporary.identity 2 mode)
    look (assert_path_names_identity F target temporary.identity 2 mode)
    look (sync_held_directory F directory)
    hook Stage.before_temporary_retire
    look (assert_path_names_identity F target temporary.identity 2 mode)
    retire_temporary F temporary mode 2
    look (assert_path_names_identity F target temporary.identity 1 mode)
    look (sync_held_directory F directory)
    pure (record temporary.identity { links = codes "1" })

  -- An error behind the link deletes nothing more.
  unfoldable pub publish_prepared_temporary :
      Text → HeldTemporary F → HeldDirectory F → ℕ → Step Disk FileIdentity
  publish_prepared_temporary target temporary directory mode = do
    catch (link_temporary target temporary directory mode) (λ error. do
      catch (do retire_temporary F temporary mode 1; look (sync_held_directory F directory))
          (λ cleanup. throw (combined error cleanup))
      throw error)
    catch (confirm_published target temporary directory mode) (λ error. throw (visible error))

  unfoldable pub atomic_create_file : Text → Text → Options → Step Disk FileIdentity
  atomic_create_file target content options = do
    directory ← look (open_held_directory F (F.parent target))
    temporary ← prepare_temporary F target content (mode_of options)
    publish_prepared_temporary target temporary directory (mode_of options)

  -- `atomicCopyFile`: only a fresh destination.
  unfoldable pub atomic_copy_file : Text → Text → Options → Step Disk FileIdentity
  atomic_copy_file source target options = do
    look (λ _.
        check (is_none options.expected_content && is_none options.truncate_before_write)
          Fault.bad_options)
    content ← look (λ d. found_or (F.read_file d source) Fault.system)
    atomic_create_file target content (fresh_options (some (mode_of options)))
