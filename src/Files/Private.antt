-- ===== src/Files/Private.antt =====
-- Private paths and the files of the runtime, extensions/ypi/internal/private-path.ts: identities,
-- the checks on them, and reading.
pub mod Writing
pub mod Directories
pub mod Reads
pub mod Records
use ypi.Prelude.{
  ℕ, zero, suc, ◌-◌, ◌++◌, length, ◌%◌, ◌^◌, Bool, true, false, ◌&&◌, ◌||◌, not, Option, none, some,
  [], ◌∷◌, Text, text_eq, codes, decimal, all, is_digit, ltb, leb, ◌==◌, if◌then◌else◌,
}
use ypi.Files.{FileSystem, Stats, Kind, Fault}
use ypi.Files.Steps.{Checked, good, bad, ◌>>?◌, check, found_or}
use ypi.Files.Identity.{looked, is_owned}

pub data PrivateKind : Type 0 where
  directory file : PrivateKind

-- `PrivatePathIdentity`.
pub record PrivateIdentity : Type 0 where
  pub device : Text
  pub inode : Text
  pub kind : PrivateKind
  pub mode : ℕ
  pub links : Text

abbrev pub is_private_file : PrivateIdentity → Bool
is_private_file i = elim i.kind [ PrivateKind.directory ↦ false | PrivateKind.file ↦ true ]

-- `PRIVATE_DIRECTORY_MODE` and `PRIVATE_FILE_MODE`.
abbrev pub private_mode : PrivateKind → ℕ
private_mode PrivateKind.directory = 448
private_mode PrivateKind.file = 384

abbrev pub private_kind : Kind → Checked PrivateKind
private_kind Kind.regular = good PrivateKind.file
private_kind Kind.directory = good PrivateKind.directory
private_kind Kind.symlink = bad Fault.not_regular
private_kind Kind.special = bad Fault.not_regular

-- `identityOf`.
unfoldable pub private_identity_of : Stats → Checked PrivateIdentity
private_identity_of s = private_kind s.kind >>? λ kind. good (record {
  device = decimal s.device;
  inode = decimal s.inode;
  kind = kind;
  mode = s.mode % 512;
  links = decimal s.links;
})

abbrev same_kind : PrivateKind → PrivateKind → Bool
same_kind PrivateKind.directory PrivateKind.directory = true
same_kind PrivateKind.file PrivateKind.file = true
same_kind PrivateKind.directory PrivateKind.file = false
same_kind PrivateKind.file PrivateKind.directory = false

-- `sameIdentity`: the links of a directory do not count.
unfoldable pub same_private_identity : PrivateIdentity → PrivateIdentity → Bool
same_private_identity left right =
    text_eq left.device right.device
    && text_eq left.inode right.inode
    && same_kind left.kind right.kind
    && left.mode == right.mode
    && (not (is_private_file left) || text_eq left.links right.links)

-- The fields of a parsed value, where they have the type that is asked for.
pub record IdentityFields : Type 0 where
  pub device : Option Text
  pub inode : Option Text
  pub kind : Option Text
  pub mode : Option ℕ
  pub links : Option Text

-- `/^\d+$/`.
abbrev pub is_digits : Text → Bool
is_digits [] = false
is_digits (c ∷ t) = is_digit c && all is_digit t

-- `/^(?:0|[1-9][0-9]*)$/`.
abbrev pub is_canonical : Text → Bool
is_canonical [] = false
is_canonical (c ∷ []) = is_digit c
is_canonical (c ∷ d ∷ t) = leb b'1' c && leb c b'9' && all is_digit (d ∷ t)

abbrev pub holds : {A : Type 0} → Option A → (A → Bool) → Bool
holds none p = false
holds (some a) p = p a

abbrev pub parsed_kind : Option Text → Checked PrivateKind
parsed_kind none = bad Fault.invalid_identity
parsed_kind (some t) =
    if text_eq t (codes "file")
    then good PrivateKind.file
    else if text_eq t (codes "directory")
    then good PrivateKind.directory
    else bad Fault.invalid_identity

-- `parsePrivatePathIdentityValue`.
unfoldable pub parse_private_path_identity_value : IdentityFields → Checked PrivateIdentity
parse_private_path_identity_value parsed = parsed_kind parsed.kind >>? λ kind.
    found_or parsed.device Fault.invalid_identity >>? λ device.
    found_or parsed.inode Fault.invalid_identity >>? λ inode.
    found_or parsed.mode Fault.invalid_identity >>? λ mode.
    found_or parsed.links Fault.invalid_identity >>? λ links.
    check
      (is_digits device
        && is_digits inode
        && mode == private_mode kind
        && is_canonical links
        && (same_kind kind PrivateKind.directory || text_eq links (codes "1")))
      Fault.invalid_identity
    >>? λ _.
        good (record { device = device; inode = inode; kind = kind; mode = mode; links = links })

-- `maximumBytes === undefined`, or a bound that the size keeps.
abbrev pub within_maximum : Option ℕ → ℕ → Bool
within_maximum none size = true
within_maximum (some bound) size = ltb bound (2 ^ 53) && leb size bound

module _ (F : FileSystem) where
  open F use {Disk, Descriptor}

  -- `inspectPrivatePath`, which is also `capturePrivatePathIdentity`.
  unfoldable pub inspect_private_path : Text → Disk → Checked PrivateIdentity
  inspect_private_path candidate d = looked (F.lstat d candidate) >>? λ s.
      check (is_owned F s) Fault.wrong_owner >>? λ _. private_identity_of s >>? λ identity.
      check (F.windows || identity.mode == private_mode identity.kind) Fault.wrong_mode >>? λ _.
      check (not (is_private_file identity) || text_eq identity.links (codes "1")) Fault.wrong_links
      >>? λ _. good identity

  unfoldable pub assert_private_path_identity :
      Text → PrivateIdentity → Disk → Checked PrivateIdentity
  assert_private_path_identity candidate expected d =
      inspect_private_path candidate d >>? λ observed.
      check (same_private_identity observed expected) Fault.identity_changed >>? λ _. good observed

  unfoldable pub capture_private_file_identity : Text → Disk → Checked PrivateIdentity
  capture_private_file_identity candidate d = inspect_private_path candidate d >>? λ identity.
      check (is_private_file identity) Fault.wrong_kind >>? λ _. good identity

  unfoldable pub capture_private_directory_identity : Text → Disk → Checked PrivateIdentity
  capture_private_directory_identity candidate d = inspect_private_path candidate d >>? λ identity.
      check (not (is_private_file identity)) Fault.wrong_kind >>? λ _. good identity

  -- A descriptor still holds the expected file.
  unfoldable pub assert_opened : Descriptor → PrivateIdentity → Disk → Checked Stats
  assert_opened h expected d = found_or (F.fstat d h) Fault.system >>? λ s.
      private_identity_of s >>? λ opened.
      check (same_private_identity opened expected) Fault.identity_changed >>? λ _. good s

  -- The loop of `readOwnedPrivateFileBytes`; each call finds the disk of its own moment, and as many
  -- rounds as there are bytes are enough.
  unfoldable pub read_at_moments : ℕ → (ℕ → Disk) → Descriptor → ℕ → Text → Checked Text
  read_at_moments zero during h size got =
      if ltb (length got) size then bad Fault.out_of_fuel else good got
  read_at_moments (suc fuel) during h size got =
      if ltb (length got) size
      then (found_or (F.read (during (suc fuel)) h (length got) (size - length got)) Fault.system
          >>? λ chunk.
              if leb (length chunk) 0
              then bad Fault.became_shorter
              else read_at_moments fuel during h size (got ++ chunk))
      else good got

  -- `readOwnedPrivateFileBytes`. Other processes may act between any two calls, so each finds a
  -- disk of its own: the look at the path, the opening, the look at the open file, the rounds of
  -- the loop, and the last look at the path.
  unfoldable pub read_owned_private_file_bytes :
      Text → PrivateIdentity → Option ℕ → Disk → Disk → Disk → (ℕ → Disk) → Disk → Checked Text
  read_owned_private_file_bytes candidate expected maximum before at_open at_stat during after =
      check (is_private_file expected) Fault.not_a_file >>? λ _.
      assert_private_path_identity candidate expected before >>? λ _.
      found_or (F.open_existing at_open candidate) Fault.system >>? λ h.
      assert_opened h expected at_stat >>? λ s.
      check (ltb s.size (2 ^ 53)) Fault.size_unsupported >>? λ _.
      check (within_maximum maximum s.size) Fault.too_large >>? λ _.
      read_at_moments s.size during h s.size [] >>? λ value.
      assert_private_path_identity candidate expected after >>? λ _. good value
