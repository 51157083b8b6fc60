-- ===== src/Files/Private/Directories.antt =====
-- Private directories: `assertPrivateDirectory` to `createPrivateDirectory`,
-- `normalizeOwnedRelativePath` and `ensurePrivateDescendantDirectory` of
-- extensions/ypi/internal/private-path.ts. The mask of the process is not modelled: the mode of a
-- new directory is set again through its descriptor. Relative paths are those of `path.posix`.
pub mod Ensured
use ypi.Prelude.{
  ◌%◌, Bool, true, false, ◌&&◌, ◌||◌, not, Option, none, some, List, [], ◌∷◌, ◌++◌, Text, text_eq,
  starts_with, is_absolute, ◌==◌, if◌then◌else◌,
}
use ypi.Posix.{slash, dot, dotdot, split, normalize, resolve_path, relative}
use ypi.Files.{FileSystem, Fault, failed}
use ypi.Files.Steps.{
  Checked, good, ◌>>?◌, check, found_or, Step, pure, throw, ◌>>=◌, ◌>>◌, look, act,
}
use ypi.Files.Identity.{is_directory, looked, is_owned}

-- `".."`, or a text that starts with `"../"`.
abbrev pub climbs_out : Text → Bool
climbs_out t = text_eq t dotdot || starts_with (dotdot ++ slash ∷ []) t

abbrev pub is_here : Text → Bool
is_here t = text_eq t [] || text_eq t dot

-- `normalizeOwnedRelativePath`.
unfoldable pub normalize_owned_relative_path : Text → Checked Text
normalize_owned_relative_path path =
    check (not (is_here path || is_absolute path || climbs_out path)) Fault.bad_options >>? λ _.
    let normalized = normalize path in
    check (not (is_here normalized || climbs_out normalized || is_absolute normalized))
      Fault.bad_options
    >>? λ _. good normalized

-- `path.join` of an absolute path and a component.
abbrev pub joined : Text → Text → Text
joined directory component = resolve_path [] (directory ++ slash ∷ component)

module _ (F : FileSystem) where
  open F use {Disk, Descriptor}

  unfoldable pub assert_private_directory : Text → Disk → Checked (Unit {0})
  assert_private_directory candidate d = looked (F.lstat d candidate) >>? λ s.
      check (is_directory s) Fault.not_directory >>? λ _.
      check (is_owned F s) Fault.wrong_owner >>? λ _.
      check (F.windows || s.mode % 512 == 448) Fault.wrong_mode

  -- The new directory is one, and belongs to the user.
  unfoldable pub assert_new_directory : Descriptor → Disk → Checked (Unit {0})
  assert_new_directory h d = found_or (F.fstat d h) Fault.system >>? λ before.
      check (is_directory before) Fault.not_directory >>? λ _.
      check (is_owned F before) Fault.wrong_owner

  -- The path still names the directory that the descriptor holds.
  unfoldable pub assert_same_directory : Text → Descriptor → Disk → Checked (Unit {0})
  assert_same_directory candidate h d = found_or (F.fstat d h) Fault.system >>? λ held.
      looked (F.lstat d candidate) >>? λ current.
      check (is_directory current && current.device == held.device && current.inode == held.inode)
        Fault.identity_changed

  unfoldable pub secure_created_directory : Text → Step Disk (Unit {0})
  secure_created_directory candidate = do
    h ← look (λ d. found_or (F.open_directory d candidate) Fault.system)
    look (assert_new_directory h)
    act (λ d. F.chmod d h 448)
    look (assert_same_directory candidate h)
    look (assert_private_directory candidate)

  unfoldable pub create_private_directory : Text → Step Disk (Unit {0})
  create_private_directory candidate = do
    act (λ d. F.make_directory d candidate 448)
    secure_created_directory candidate

  -- The directory was made, or its name is taken already.
  unfoldable pub after_making : Text → Option Disk → Step Disk Bool
  after_making candidate (some made) _ = (do secure_created_directory candidate; pure true) made
  after_making candidate none d =
      if F.taken d candidate then pure false d else failed Fault.system d

  unfoldable pub make_or_find : Text → Step Disk Bool
  make_or_find candidate d = after_making candidate (F.make_directory d candidate 448) d

  -- `ensurePrivateDirectory`: whether it made the directory.
  unfoldable pub ensure_private_directory : Text → Step Disk Bool
  ensure_private_directory candidate = do
    created ← make_or_find candidate
    look (assert_private_directory candidate)
    pure created

  unfoldable pub ensure_components : Text → List Text → Step Disk (Unit {0})
  ensure_components current [] = pure tt
  ensure_components current (component ∷ rest) =
      let skipped = ensure_components current rest in
      let made = do
        _ ← ensure_private_directory (joined current component)
        ensure_components (joined current component) rest
      in if is_here component then skipped else made

  abbrev pub ensure_below : Text → Text → Step Disk (Unit {0})
  ensure_below owned_root path =
      if is_here path
      then pure tt
      else if climbs_out path || is_absolute path
      then throw Fault.bad_options
      else ensure_components owned_root (split path)

  -- Of two absolute paths.
  unfoldable pub ensure_private_descendant_directory : Text → Text → Step Disk (Unit {0})
  ensure_private_descendant_directory owned_root descendant = do
    look (assert_private_directory owned_root)
    let path = relative owned_root descendant
    ensure_below owned_root path
