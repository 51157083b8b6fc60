-- ===== src/Files/Private/Records.antt =====
-- Identities that are taken from a disk pass the parser that reads them back.
use ypi.Prelude.{
  ℕ, zero, suc, ◌+◌, ◌/◌, ◌%◌, ◌≤◌, ◌<◌, ◌≡◌, refl, sym, subst, true, false, ◌&&◌, ◌||◌, not, some,
  [], ◌∷◌, Text, text_eq, codes, decimal, digits_from, all, is_digit, ltb, leb, ◌==◌, Bool-cases,
  inl, inr, arith,
}
use ypi.Files.{FileSystem, Stats, Fault}
use ypi.Files.Steps.{good, check_then, >>?-good}
use ypi.Files.Identity.{looked, is_owned}
use ypi.Files.Private.{
  PrivateIdentity, PrivateKind, private_kind, private_mode, is_private_file, private_identity_of,
  IdentityFields, is_digits, is_canonical, parse_private_path_identity_value, inspect_private_path,
}

-- A digit that is not zero, and digits.
IsNumeral : Text → Type 0
IsNumeral t =
    (c : ℕ) × (r : Text) × (t ≡ c ∷ r)
    × ((leb b'1' c && leb c b'9') ≡ true)
    × (all is_digit r ≡ true)

digits_from-IsNumeral :
    (fuel n : ℕ) (acc : Text)
    → n < fuel
    → 1 ≤ n
    → all is_digit acc ≡ true
    → IsNumeral (digits_from fuel n acc)
unfolding digits_from IsNumeral
digits_from-IsNumeral zero n acc h k d = absurd (omega (arith, h))
digits_from-IsNumeral (suc fuel) n acc h k d = elim (Bool-cases (ltb n 10)) [
  | inl small ↦ rw small (b'0' + n, acc, refl, ground (arith, small, k), d)
  | inr large ↦
      let big : 10 ≤ n = ground (arith, large) in
      rw large (
        digits_from-IsNumeral fuel (n / 10) ((b'0' + n % 10) ∷ acc) (omega (arith, big, h))
          (omega (arith, big)) (ground (arith, d)))
]

numeral-canonical : (t : Text) → IsNumeral t → (is_canonical t ≡ true) × (is_digits t ≡ true)
unfolding IsNumeral
numeral-canonical t (c, [], e, h, d) = rw e (ground (arith, h), ground (arith, h))
numeral-canonical t (c, x ∷ r, e, h, d) = rw e (ground (arith, h, d), ground (arith, h, d))

decimal-canonical : (n : ℕ) → (is_canonical (decimal n) ≡ true) × (is_digits (decimal n) ≡ true)
unfolding decimal digits_from
decimal-canonical zero = (refl, refl)
decimal-canonical (suc n) =
    numeral-canonical _
      (digits_from-IsNumeral (suc (suc n)) (suc n) [] (omega arith) (omega arith) refl)

abbrev pub kind_text : PrivateKind → Text
kind_text PrivateKind.directory = codes "directory"
kind_text PrivateKind.file = codes "file"

-- The fields of an identity, as they are written and read back.
abbrev pub fields_of : PrivateIdentity → IdentityFields
fields_of i = record {
  device = some i.device;
  inode = some i.inode;
  kind = some (kind_text i.kind);
  mode = some i.mode;
  links = some i.links;
}

abbrev fields : Text → Text → PrivateKind → ℕ → Text → PrivateIdentity
fields device inode kind mode links = record {
  device = device;
  inode = inode;
  kind = kind;
  mode = mode;
  links = links;
}

module _ (F : FileSystem) where
  -- What an inspected path looks like.
  record IsInspected (i : PrivateIdentity) : Type 0 where
    device : is_digits i.device ≡ true
    inode : is_digits i.inode ≡ true
    links : is_canonical i.links ≡ true
    mode : (F.windows || i.mode == private_mode i.kind) ≡ true
    one : (not (is_private_file i) || text_eq i.links (codes "1")) ≡ true

  private_identity_of-canonical :
      (s : Stats) (i : PrivateIdentity)
      → private_identity_of s ≡ good i
      → (is_digits i.device ≡ true) × (is_digits i.inode ≡ true) × (is_canonical i.links ≡ true)
  unfolding private_identity_of
  private_identity_of-canonical s i h =
      let (k, _, e) = >>?-good (private_kind s.kind) _ h in
      let device : decimal s.device ≡ i.device = cc (e) in
      let inode : decimal s.inode ≡ i.inode = cc (e) in
      let links : decimal s.links ≡ i.links = cc (e) in
      rw (sym device, sym inode, sym links)
        (
          (decimal-canonical s.device).1,
          (decimal-canonical s.inode).1,
          (decimal-canonical s.links).0,
        )

  inspect_private_path-IsInspected :
      (p : Text) (d : F.Disk) (i : PrivateIdentity)
      → inspect_private_path F p d ≡ good i
      → IsInspected i
  unfolding inspect_private_path
  inspect_private_path-IsInspected p d i h =
      let (s, a, h1) = >>?-good (looked (F.lstat d p)) _ h in
      let (_, h2) = check_then (is_owned F s) Fault.wrong_owner _ h1 in
      let (o, b, h3) = >>?-good (private_identity_of s) _ h2 in
      let (mode, h4) =
        check_then (F.windows || o.mode == private_mode o.kind) Fault.wrong_mode _ h3 in
      let (one, h5) =
        check_then (not (is_private_file o) || text_eq o.links (codes "1")) Fault.wrong_links _
          h4 in
      let same : o ≡ i = cc (h5) in
      let (device, inode, links) = private_identity_of-canonical s o b in
      let all : IsInspected o = record {
        device = device;
        inode = inode;
        links = links;
        mode = mode;
        one = one;
      } in
      subst IsInspected same all

  parse_fields :
      (device inode links : Text) (kind : PrivateKind) (mode : ℕ)
      → is_digits device ≡ true
      → is_digits inode ≡ true
      → is_canonical links ≡ true
      → (mode == private_mode kind) ≡ true
      → (not (is_private_file (fields device inode kind mode links)) || text_eq links (codes "1"))
        ≡ true
      → parse_private_path_identity_value (fields_of (fields device inode kind mode links))
        ≡ good (fields device inode kind mode links)
  unfolding parse_private_path_identity_value text_eq
  parse_fields device inode links PrivateKind.directory mode a b c m o = rw (a, b, c, m) refl
  parse_fields device inode links PrivateKind.file mode a b c m o = rw (a, b, c, m, o) refl

  -- On a POSIX system, the fields of an identity that was taken from a path parse to it.
  pub parse-inspect_private_path :
      (p : Text) (d : F.Disk) (i : PrivateIdentity)
      → F.windows ≡ false
      → inspect_private_path F p d ≡ good i
      → parse_private_path_identity_value (fields_of i) ≡ good i
  parse-inspect_private_path p d i unix h =
      let k = inspect_private_path-IsInspected p d i h in
      parse_fields i.device i.inode i.links i.kind i.mode k.device k.inode k.links
        (rw unix at k.mode) k.one
