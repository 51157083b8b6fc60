-- ===== src/Files/Private/Writing.antt =====
-- Writing of private files: extensions/ypi/internal/private-path.ts, `createOwnedPrivateFile` to
-- `ensurePrivateAppendFile`. The hook stands for what other processes do between the calls.
pub mod Journal
pub mod Committed
use ypi.Prelude.{
  ℕ, ◌+◌, ◌%◌, ◌^◌, Bool, true, false, ◌&&◌, ◌||◌, none, some, Text, length, ltb, leb, ◌==◌,
  if◌then◌else◌,
}
use ypi.Files.{FileSystem, Stats, Fault, failed}
use ypi.Files.Steps.{
  Checked, good, ◌>>?◌, check, found_or, Step, pure, ◌>>=◌, ◌>>◌, look, act, call,
}
use ypi.Files.Identity.{is_file, looked, is_owned}
use ypi.Files.Atomic.{synced}
use ypi.Files.Private.{
  PrivateIdentity, is_private_file, private_identity_of, assert_private_path_identity,
  capture_private_file_identity, assert_opened,
}

-- The options that run between the calls.
pub data WriteStage : Type 0 where
  before_open after_tail_trim after_payload_sync after_commit_write : WriteStage

-- The name still is a regular file with the numbers of the descriptor's.
abbrev same_file : Stats → Stats → Bool
same_file current held =
    is_file current && current.device == held.device && current.inode == held.inode

module _ (F : FileSystem) where
  open F use {Disk, Descriptor}

  -- The checks of `createOwnedPrivateFile` behind the write.
  unfoldable pub assert_created : Text → Descriptor → Disk → Checked (Unit {0})
  assert_created candidate h d = found_or (F.fstat d h) Fault.system >>? λ held.
      check (is_file held && held.links == 1 && is_owned F held) Fault.not_regular >>? λ _.
      looked (F.lstat d candidate) >>? λ current.
      check (same_file current held) Fault.identity_changed

  unfoldable pub create_owned_private_file : Text → Text → Step Disk PrivateIdentity
  create_owned_private_file candidate content = do
    h ← call (λ d. F.create d candidate 384)
    act (λ d. F.chmod d h 384)
    λ d. F.overwrite d h content
    look (synced F h)
    look (assert_created candidate h)
    look (capture_private_file_identity F candidate)

  -- `assertPrivatePathIdentity` as a statement.
  unfoldable pub assert_named : Text → PrivateIdentity → Disk → Checked (Unit {0})
  assert_named candidate expected d =
      assert_private_path_identity F candidate expected d >>? λ _. good tt

  unfoldable pub assert_held : Descriptor → PrivateIdentity → Disk → Checked (Unit {0})
  assert_held h expected d = assert_opened F h expected d >>? λ _. good tt

  unfoldable pub append_owned_private_file : Text → PrivateIdentity → Text → Step Disk (Unit {0})
  append_owned_private_file candidate expected content = do
    look (λ _. check (is_private_file expected) Fault.not_a_file)
    look (assert_named candidate expected)
    h ← look (λ d. found_or (F.open_existing d candidate) Fault.system)
    look (assert_held h expected)
    λ d. F.append d h content
    look (synced F h)
    look (assert_held h expected)
    look (assert_named candidate expected)

  -- The numbers of committed and observed bytes that a journal accepts.
  abbrev pub is_boundary : ℕ → ℕ → Bool
  is_boundary observed committed =
      ltb observed (2 ^ 53) && ltb committed (2 ^ 53) && leb committed observed

  -- The journal is the expected file, with as many bytes as were observed.
  unfoldable pub assert_size : Descriptor → PrivateIdentity → ℕ → Fault → Disk → Checked (Unit {0})
  assert_size h expected size fault d =
      assert_opened F h expected d >>? λ s. check (s.size == size) fault

  module _ (hook : WriteStage → Step Disk (Unit {0})) where
    unfoldable pub write_owned_private_file : Text → PrivateIdentity → Text → Step Disk (Unit {0})
    write_owned_private_file candidate expected content = do
      look (λ _. check (is_private_file expected) Fault.not_a_file)
      look (assert_named candidate expected)
      hook WriteStage.before_open
      h ← look (λ d. found_or (F.open_existing d candidate) Fault.system)
      look (assert_held h expected)
      λ d. F.truncate d h 0
      λ d. F.overwrite d h content
      look (synced F h)
      look (assert_held h expected)
      look (assert_named candidate expected)

    -- An uncommitted tail is cut off.
    unfoldable pub trim_tail : Descriptor → ℕ → ℕ → Step Disk (Unit {0})
    trim_tail h observed committed =
        if ltb committed observed
        then (do λ d. F.truncate d h committed; look (synced F h); hook WriteStage.after_tail_trim)
        else pure tt

    -- The payload, and then the commit that makes it count.
    unfoldable pub write_transaction : Descriptor → Text → Text → Step Disk (Unit {0})
    write_transaction h payload commit = do
      λ d. F.append d h payload
      look (synced F h)
      hook WriteStage.after_payload_sync
      λ d. F.append d h commit
      hook WriteStage.after_commit_write
      look (synced F h)

    -- `appendOwnedPrivateFileTransaction` from the first look through the descriptor on.
    unfoldable pub run_transaction :
        Text
        → Descriptor
        → PrivateIdentity
        → (observed committed : ℕ) → (payload commit : Text) → Step Disk (Unit {0})
    run_transaction candidate h expected observed committed payload commit = do
      look (assert_size h expected observed Fault.bad_boundary)
      trim_tail h observed committed
      write_transaction h payload commit
      look (
          assert_size h expected (committed + length payload + length commit)
            Fault.contents_changed)
      look (assert_named candidate expected)

    unfoldable pub append_owned_private_file_transaction :
        Text
        → PrivateIdentity
        → (observed committed : ℕ) → (payload commit : Text) → Step Disk (Unit {0})
    append_owned_private_file_transaction candidate expected observed committed payload commit = do
      look (λ _.
          check (is_private_file expected && is_boundary observed committed) Fault.bad_boundary)
      look (assert_named candidate expected)
      hook WriteStage.before_open
      h ← look (λ d. found_or (F.open_existing d candidate) Fault.system)
      run_transaction candidate h expected observed committed payload commit

  -- The first look of `ensurePrivateAppendFile` at the file that it made or found.
  unfoldable pub assert_append_path : Text → Descriptor → Disk → Checked (Unit {0})
  assert_append_path candidate h d = found_or (F.fstat d h) Fault.system >>? λ before.
      check (is_file before && before.links == 1 && is_owned F before) Fault.not_regular >>? λ _.
      looked (F.lstat d candidate) >>? λ current.
      check (same_file current before) Fault.identity_changed

  -- The second.
  unfoldable pub append_identity : Text → Descriptor → Disk → Checked PrivateIdentity
  append_identity candidate h d = found_or (F.fstat d h) Fault.system >>? λ held.
      looked (F.lstat d candidate) >>? λ current.
      check (same_file current held) Fault.identity_changed >>? λ _.
      check (F.windows || held.mode % 512 == 384 && current.mode % 512 == 384) Fault.wrong_mode
      >>? λ _. private_identity_of held

  -- Creation, or the file that is there already.
  unfoldable pub open_append : Text → Step Disk (Bool × Descriptor)
  open_append candidate d = elim (F.create d candidate 384) [
    | some (h, d') ↦ pure (true, h) d'
    | none ↦
        if F.taken d candidate
        then look
            (λ d. found_or (F.open_existing d candidate) Fault.system >>? λ h. good (false, h)) d
        else failed Fault.system d
  ]

  unfoldable pub ensure_private_append_file : Text → Step Disk PrivateIdentity
  ensure_private_append_file candidate = do
    (created, h) ← open_append candidate
    look (assert_append_path candidate h)
    if created then act (λ d. F.chmod d h 384) else pure tt
    look (append_identity candidate h)
