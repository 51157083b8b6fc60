-- ===== src/Files/Identity.antt =====
-- Identities of private files, the checks of extensions/ypi/internal/atomic-file.ts on metadata.
pub mod Same
use ypi.Prelude.{
  ℕ, ◌%◌, Bool, true, false, ◌&&◌, ◌||◌, not, Option, none, some, Text, text_eq, decimal, ◌==◌,
}
use ypi.Coordinator.Calls.{FileIdentity}
use ypi.Files.{FileSystem, Stats, Looked, absent, refused, found, Kind, Fault}
use ypi.Files.Steps.{Checked, good, bad, ◌>>?◌, check}

abbrev pub is_file : Stats → Bool
is_file s = elim s.kind [ Kind.regular ↦ true | _ ↦ false ]

abbrev pub is_directory : Stats → Bool
is_directory s = elim s.kind [ Kind.directory ↦ true | _ ↦ false ]

abbrev pub same_owner : Option ℕ → Option ℕ → Bool
same_owner none none = true
same_owner (some m) (some n) = m == n
same_owner none (some n) = false
same_owner (some m) none = false

-- `sameIdentity`; the last argument is `includeLinks`.
unfoldable pub same_identity : FileIdentity → FileIdentity → Bool → Bool
same_identity left right include_links =
    text_eq left.device right.device
    && text_eq left.inode right.inode
    && left.mode == right.mode
    && same_owner left.owner right.owner
    && (not include_links || text_eq left.links right.links)

-- `lstatSync`, which throws when there is no such name.
abbrev pub looked : Looked → Checked Stats
looked absent = bad Fault.system
looked refused = bad Fault.system
looked (found s) = good s

module _ (F : FileSystem) where
  abbrev owner : Stats → Option ℕ
  owner s = elim F.user [ none ↦ none | some _ ↦ some s.user ]

  -- `identityOf`; the mode is masked to its nine low bits.
  unfoldable pub identity_of : Stats → FileIdentity
  identity_of s = record {
    device = decimal s.device;
    inode = decimal s.inode;
    mode = s.mode % 512;
    links = decimal s.links;
    owner = owner s;
  }

  -- `uid === undefined || metadata.uid === uid`.
  abbrev pub is_owned : Stats → Bool
  is_owned s = elim F.user [ none ↦ true | some uid ↦ s.user == uid ]

  unfoldable pub private_file_identity : Stats → ℕ → Checked FileIdentity
  private_file_identity s mode = check (is_file s) Fault.not_regular >>? λ _.
      check (is_owned s) Fault.wrong_owner >>? λ _.
      check (F.windows || s.mode % 512 == mode) Fault.wrong_mode >>? λ _. good (identity_of s)

  unfoldable pub assert_path_names_identity :
      Text → FileIdentity → ℕ → ℕ → F.Disk → Checked (Unit {0})
  assert_path_names_identity candidate expected links mode d = looked (F.lstat d candidate) >>? λ s.
      private_file_identity s mode >>? λ observed.
      check (same_identity observed expected false && s.links == links) Fault.identity_changed
