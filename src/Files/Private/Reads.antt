-- ===== src/Files/Private/Reads.antt =====
-- What a private file that was read has shown.
use ypi.Prelude.{
  ℕ, zero, suc, ◌++◌, ltb, leb, Bool-cases, inl, inr, ◌^◌, ◌≡◌, refl, sym, ap, ◌∙◌, true, not,
  Option, some, [], Text, text_eq, eq_of_text_eq, decimal, decimal-injective, codes, ◌||◌, length,
  arith, ◌==◌, ltb,
}
use ypi.Files.{FileSystem, Stats, Fault}
use ypi.Files.Laws.{IsPosix}
use ypi.Files.Steps.{good, check_then, >>?-good, found_or, found_or-good}
use ypi.Files.Identity.{looked, is_owned}
use ypi.Files.Identity.Same.{looked-good}
use ypi.Files.Bytes.{take, drop}
use ypi.Files.Transfer.Whole.{ends, joins}
use ypi.Files.Private.{
  PrivateIdentity, private_kind, private_mode, is_private_file, private_identity_of,
  same_private_identity, inspect_private_path, assert_private_path_identity, assert_opened,
  within_maximum, read_at_moments, read_owned_private_file_bytes,
}

private_identity_of-numbers :
    (s : Stats) (i : PrivateIdentity)
    → private_identity_of s ≡ good i
    → (i.device ≡ decimal s.device) × (i.inode ≡ decimal s.inode)
unfolding private_identity_of
private_identity_of-numbers s i h =
    let (k, _, e) = >>?-good (private_kind s.kind) _ h in (cc (e), cc (e))

-- The metadata carry the numbers that an identity names.
pub record Numbered (s : Stats) (i : PrivateIdentity) : Type 0 where
  pub device : decimal s.device ≡ i.device
  pub inode : decimal s.inode ≡ i.inode

same-Numbered :
    (s : Stats) (o i : PrivateIdentity)
    → private_identity_of s ≡ good o
    → same_private_identity o i ≡ true
    → Numbered s i
unfolding same_private_identity
same-Numbered s o i e h =
    let (d, n) = private_identity_of-numbers s o e in
    record {
      device = sym d ∙ ground (arith, eq_of_text_eq o.device i.device);
      inode = sym n ∙ ground (arith, eq_of_text_eq o.inode i.inode);
    }

module _ (F : FileSystem) (posix : IsPosix F) where
  open F use {Disk, File, Descriptor, named, stats, bytes, opened}

  inspect_private_path-named :
      (p : Text) (d : Disk) (i : PrivateIdentity)
      → inspect_private_path F p d ≡ good i
      → (n : File) × (named d p ≡ some n) × (private_identity_of (stats d n) ≡ good i)
  unfolding inspect_private_path
  inspect_private_path-named p d i h =
      let (s, a, h1) = >>?-good (looked (F.lstat d p)) _ h in
      let (n, name, e) = posix.lstat_found d p s (looked-good _ a) in
      let (_, h2) = check_then (is_owned F s) Fault.wrong_owner _ h1 in
      let (o, b, h3) = >>?-good (private_identity_of s) _ h2 in
      let (_, h4) = check_then (F.windows || o.mode == private_mode o.kind) Fault.wrong_mode _ h3 in
      let (_, h5) =
        check_then (not (is_private_file o) || text_eq o.links (codes "1")) Fault.wrong_links _
          h4 in
      (n, name, ap private_identity_of e ∙ b ∙ h5)

  pub assert_private_path_identity-named :
      (p : Text) (i : PrivateIdentity) (d : Disk) {o : PrivateIdentity}
      → assert_private_path_identity F p i d ≡ good o
      → (n : File) × (named d p ≡ some n) × Numbered (stats d n) i
  unfolding assert_private_path_identity
  assert_private_path_identity-named p i d h =
      let (o, a, h1) = >>?-good (inspect_private_path F p d) _ h in
      let (same, _) = check_then (same_private_identity o i) Fault.identity_changed _ h1 in
      let (n, name, e) = inspect_private_path-named p d o a in
      (n, name, same-Numbered (stats d n) o i e same)

  pub assert_opened-Numbered :
      (h : Descriptor) (i : PrivateIdentity) (d : Disk) (s : Stats)
      → assert_opened F h i d ≡ good s
      → (stats d (opened h) ≡ s) × Numbered (stats d (opened h)) i
  unfolding assert_opened
  assert_opened-Numbered h i d s k =
      let (s', a, k1) = >>?-good (found_or (F.fstat d h) Fault.system) _ k in
      let (o, b, k2) = >>?-good (private_identity_of s') _ k1 in
      let (same, k3) = check_then (same_private_identity o i) Fault.identity_changed _ k2 in
      let at : stats d (opened h) ≡ s' = posix.fstat_found d h s' (found_or-good _ _ a) in
      (at ∙ cc (k3), same-Numbered (stats d (opened h)) o i (ap private_identity_of at ∙ b) same)

  -- A name and an open descriptor with the numbers of one identity are one file.
  pub one_private_file :
      (d : Disk) (p : Text) (n : File) (h : Descriptor) (i : PrivateIdentity)
      → named d p ≡ some n
      → Numbered (stats d n) i
      → Numbered (stats d (opened h)) i
      → n ≡ opened h
  one_private_file d p n h i name a b =
      posix.one_file d p n h name (decimal-injective _ _ (a.device ∙ sym b.device))
        (decimal-injective _ _ (a.inode ∙ sym b.inode))

  Numbered-kept :
      (d d' : Disk) (h : Descriptor) (i : PrivateIdentity)
      → Numbered (stats d (opened h)) i
      → Numbered (stats d' (opened h)) i
  Numbered-kept d d' h i a =
      let (device, inode) = posix.numbers_kept d d' h in
      record {
        device = sym (ap decimal device) ∙ a.device;
        inode = sym (ap decimal inode) ∙ a.inode;
      }

  -- Where every moment finds the same bytes in the open file, the loop reads what one disk holds.
  read_at_moments-still :
      (fuel : ℕ) (during : ℕ → Disk) (d : Disk) (h : Descriptor) (size : ℕ) (got rest t : Text)
      → ((k : ℕ) → bytes (during k) (opened h) ≡ bytes d (opened h))
      → got ++ rest ≡ bytes d (opened h)
      → length (bytes d (opened h)) ≡ size
      → read_at_moments F fuel during h size got ≡ good t
      → t ≡ bytes d (opened h)
  unfolding read_at_moments
  read_at_moments-still zero during d h size got rest t still e whole k =
      elim (Bool-cases (ltb (length got) size)) [
        | inl more ↦ absurd (cc (rw more at k))
        | inr full ↦
            let same : got ≡ t = cc (rw full at k) in
            sym same ∙ ends F posix size got rest _ e whole full
      ]
  read_at_moments-still (suc fuel) during d h size got rest t still e whole k =
      elim (Bool-cases (ltb (length got) size)) [
        | inl more ↦
            let (chunk, a, k1) = >>?-good _ _ (rw more at k) in
            let (_, part) =
              posix.read_found (during (suc fuel)) h _ _ chunk (found_or-good _ _ a) in
            elim (Bool-cases (leb (length chunk) 0)) [
              | inl stuck ↦ absurd (cc (rw stuck at k1))
              | inr moves ↦
                  read_at_moments-still fuel during d h size (got ++ chunk)
                    (drop (length chunk) rest) t still
                    (joins F posix d h got rest chunk e (
                      part
                      ∙ ap (λ b. take (length chunk) (drop (length got) b)) (still (suc fuel))))
                    whole (rw moves at k1)
            ]
        | inr full ↦
            let same : got ≡ t = cc (rw full at k) in
            sym same ∙ ends F posix size got rest _ e whole full
      ]

  -- Whatever other processes do to names between the calls, and to files before the open file is
  -- looked at: as long as they write no file during the loop, the bytes that a read returns are all
  -- the bytes of the file that was opened; they keep the bound, and at the end the path names this
  -- file, with the numbers of the expected identity.
  pub read_owned_private_file_bytes-whole :
      (p : Text) (i : PrivateIdentity) (maximum : Option ℕ) (before at_open at_stat : Disk)
      (during : ℕ → Disk) (after : Disk) (t : Text)
      → ((k : ℕ) (m : File) → bytes (during k) m ≡ bytes at_stat m)
      → read_owned_private_file_bytes F p i maximum before at_open at_stat during after ≡ good t
      → (n : File) × (named at_open p ≡ some n)
        × (t ≡ bytes at_stat n)
        × (within_maximum maximum (length t) ≡ true)
        × (named after p ≡ some n)
        × Numbered (stats after n) i
  unfolding read_owned_private_file_bytes
  read_owned_private_file_bytes-whole p i maximum before at_open at_stat during after t still k =
      let (_, k1) = check_then (is_private_file i) Fault.not_a_file _ k in
      let (_, a, k2) = >>?-good (assert_private_path_identity F p i before) _ k1 in
      let (h, b, k3) = >>?-good (found_or (F.open_existing at_open p) Fault.system) _ k2 in
      let (s, c, k4) = >>?-good (assert_opened F h i at_stat) _ k3 in
      let (_, k5) = check_then (ltb s.size (2 ^ 53)) Fault.size_unsupported _ k4 in
      let (fits, k6) = check_then (within_maximum maximum s.size) Fault.too_large _ k5 in
      let (value, e, k7) = >>?-good (read_at_moments F s.size during h s.size []) _ k6 in
      let (_, g, k8) = >>?-good (assert_private_path_identity F p i after) _ k7 in
      let (n, name, numbers) = assert_private_path_identity-named p i after g in
      let (held, numbered) = assert_opened-Numbered h i at_stat s c in
      let kept = Numbered-kept at_stat after h i numbered in
      let one = one_private_file after p n h i name numbers kept in
      let size : length (bytes at_stat (opened h)) ≡ s.size =
        sym (posix.sized at_stat (opened h)) ∙ ap (λ m. m.size) held in
      let same : value ≡ t = cc (k8) in
      let all : t ≡ bytes at_stat (opened h) =
        sym same
        ∙ read_at_moments-still s.size during at_stat h s.size [] (bytes at_stat (opened h)) value
            (λ k. still k (opened h)) refl size e in
      (
        opened h,
        posix.open_found at_open p h (found_or-good _ _ b),
        all,
        ap (within_maximum maximum) (ap length all ∙ size) ∙ fits,
        name ∙ ap some one,
        kept,
      )
