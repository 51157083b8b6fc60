-- ===== src/Files/Atomic/Temporary.antt =====
-- Temporary files: `prepareTemporary` and `retireTemporaryAfterIdentityCheck` of
-- extensions/ypi/internal/atomic-file.ts.
use ypi.Prelude.{ℕ, false, ◌&&◌, Text, text_eq, decimal, ◌==◌}
use ypi.Coordinator.Calls.{FileIdentity}
use ypi.Files.{FileSystem, Stats, Fault, combined}
use ypi.Files.Steps.{
  Checked, good, ◌>>?◌, check, found_or, Step, pure, throw, ◌>>=◌, ◌>>◌, catch, look, call, act,
}
use ypi.Files.Identity.{
  is_file, same_identity, identity_of, is_owned, private_file_identity, assert_path_names_identity,
}
use ypi.Files.Transfer.{write_all}
use ypi.Files.Atomic.{HeldTemporary, synced}

module _ (F : FileSystem) where
  open F use {Disk, Descriptor}

  -- The checks in front of the deletion of a temporary name.
  unfoldable pub may_retire : HeldTemporary F → ℕ → ℕ → Disk → Checked (Unit {0})
  may_retire temporary mode links d =
      found_or (F.fstat d temporary.descriptor) Fault.system >>? λ s.
      private_file_identity F s mode >>? λ held.
      check (same_identity held temporary.identity false && text_eq held.links (decimal links))
        Fault.identity_changed
      >>? λ _. assert_path_names_identity F temporary.path temporary.identity links mode d

  unfoldable pub retire_temporary : HeldTemporary F → ℕ → ℕ → Step Disk (Unit {0})
  retire_temporary temporary mode links = do
    look (may_retire temporary mode links)
    act (λ d. F.unlink d temporary.path)

  -- The `catch` of `prepareTemporary`: the temporary as it is known when the error is thrown.
  unfoldable pub or_retire : {A : Type 0} → HeldTemporary F → Step Disk A → Step Disk A
  or_retire temporary action = catch action (λ error. do
    catch (retire_temporary temporary temporary.identity.mode 1)
        (λ cleanup. throw (combined error cleanup))
    throw error)

  -- The new file gets its mode, and its identity is taken again.
  unfoldable pub secure_temporary : Descriptor → Stats → ℕ → Step Disk (Stats × FileIdentity)
  secure_temporary h created mode = do
    look (λ _. check (is_file created && created.links == 1 && is_owned F created) Fault.wrong_kind)
    act (λ d. F.chmod d h mode)
    look (λ d. found_or (F.fstat d h) Fault.system >>? λ s.
        private_file_identity F s mode >>? λ identity. good (s, identity))

  unfoldable pub fill_temporary : HeldTemporary F → Stats → Text → ℕ → Step Disk (Unit {0})
  fill_temporary temporary s content mode = do
    look (λ _. check (s.links == 1) Fault.wrong_links)
    write_all F temporary.descriptor content
    look (synced F temporary.descriptor)
    look (assert_path_names_identity F temporary.path temporary.identity 1 mode)

  -- `prepareTemporary` behind the creation of the file.
  unfoldable pub complete_temporary : Text → Descriptor → Text → ℕ → Step Disk (HeldTemporary F)
  complete_temporary path h content mode = do
    created ← look (λ d. found_or (F.fstat d h) Fault.system)
    let first : HeldTemporary F = record {
      descriptor = h;
      path = path;
      identity = identity_of F created;
    }
    (s, identity) ← or_retire first (secure_temporary h created mode)
    let temporary : HeldTemporary F = record { descriptor = h; path = path; identity = identity }
    or_retire temporary (fill_temporary temporary s content mode)
    pure temporary

  unfoldable pub prepare_temporary : Text → Text → ℕ → Step Disk (HeldTemporary F)
  prepare_temporary target content mode = do
    path ← look (λ d. good (F.temporary_path d target))
    h ← call (λ d. F.create d path mode)
    complete_temporary path h content mode
