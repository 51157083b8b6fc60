-- ===== src/Files/Laws.antt =====
-- What `node:fs` documents of the calls, on a POSIX system.
use ypi.Prelude.{
  ℕ, ◌≤◌, ◌≡◌, ◌≢◌, ◌⊎◌, Option, none, some, [], ◌++◌, Text, text_eq, length, if◌then◌else◌,
}
use ypi.Files.Bytes.{take, drop}
use ypi.Files.{FileSystem, Stats, found, absent, Run, done, failed}

abbrev pub disk_of : {D A : Type 0} → Run D A → D
disk_of (done a d) = d
disk_of (failed e d) = d

module _ (F : FileSystem) where
  open F use {Disk, File, Descriptor, named, stats, bytes, opened}

  -- Only the bytes of one file may differ.
  pub record Writes (n : File) (d d' : Disk) : Type 0 where
    pub names : (p : Text) → named d' p ≡ named d p
    pub others : (m : File) → m ≢ n → bytes d' m ≡ bytes d m

  -- Only a name has changed.
  pub record Renames (p : Text) (o : Option File) (d d' : Disk) : Type 0 where
    pub names : (q : Text) → named d' q ≡ (if text_eq q p then o else named d q)
    pub contents : (m : File) → bytes d' m ≡ bytes d m

  pub record IsPosix : Type 0 where
    -- While a descriptor is open, its file keeps its numbers, and no other file that has a name
    -- has both; the size of a file is the number of its bytes; files can be told apart.
    pub numbers_kept :
        (d d' : Disk) (h : Descriptor)
        → ((stats d (opened h)).device ≡ (stats d' (opened h)).device)
          × ((stats d (opened h)).inode ≡ (stats d' (opened h)).inode)
    pub one_file :
        (d : Disk) (p : Text) (n : File) (h : Descriptor)
        → named d p ≡ some n
        → (stats d n).device ≡ (stats d (opened h)).device
        → (stats d n).inode ≡ (stats d (opened h)).inode
        → n ≡ opened h
    pub sized : (d : Disk) (n : File) → (stats d n).size ≡ length (bytes d n)
    pub file_eq : (m n : File) → (m ≡ n) ⊎ (m ≢ n)
    -- Looking.
    pub lstat_found :
        (d : Disk) (p : Text) (s : Stats)
        → F.lstat d p ≡ found s
        → (n : File) × (named d p ≡ some n) × (stats d n ≡ s)
    pub lstat_absent : (d : Disk) (p : Text) → F.lstat d p ≡ absent → named d p ≡ none
    pub fstat_found :
        (d : Disk) (h : Descriptor) (s : Stats) → F.fstat d h ≡ some s → stats d (opened h) ≡ s
    pub open_found :
        (d : Disk) (p : Text) (h : Descriptor)
        → F.open_existing d p ≡ some h
        → named d p ≡ some (opened h)
    pub read_found :
        (d : Disk) (h : Descriptor) (offset count : ℕ) (chunk : Text)
        → F.read d h offset count ≡ some chunk
        → (length chunk ≤ count) × (chunk ≡ take (length chunk) (drop offset (bytes d (opened h))))
    -- Names: exclusive creation makes a file that no name had, and a link needs a free name.
    pub create_fresh :
        (d : Disk) (p : Text) (m : ℕ) (h : Descriptor) (d' : Disk)
        → F.create d p m ≡ some (h, d')
        → (named d p ≡ none) × ((q : Text) → named d q ≢ some (opened h))
    pub create_names :
        (d : Disk) (p : Text) (m : ℕ) (h : Descriptor) (d' : Disk)
        → F.create d p m ≡ some (h, d')
        → (q : Text) → named d' q ≡ (if text_eq q p then some (opened h) else named d q)
    pub create_bytes :
        (d : Disk) (p : Text) (m : ℕ) (h : Descriptor) (d' : Disk)
        → F.create d p m ≡ some (h, d')
        → (bytes d' (opened h) ≡ []) × ((n : File) → n ≢ opened h → bytes d' n ≡ bytes d n)
    pub link_free : (d : Disk) (p q : Text) (d' : Disk) → F.link d p q ≡ some d' → named d q ≡ none
    pub link_names :
        (d : Disk) (p q : Text) (d' : Disk) → F.link d p q ≡ some d' → Renames q (named d p) d d'
    pub unlink_names :
        (d : Disk) (p : Text) (d' : Disk) → F.unlink d p ≡ some d' → Renames p none d d'
    pub chmod_keeps :
        (d : Disk) (h : Descriptor) (m : ℕ) (d' : Disk)
        → F.chmod d h m ≡ some d'
        → ((p : Text) → named d' p ≡ named d p) × ((n : File) → bytes d' n ≡ bytes d n)
    -- Bytes: whether it throws or returns, a call that writes alters no other file.
    pub write_frame :
        (d : Disk) (h : Descriptor) (t : Text) (o : ℕ)
        → Writes (opened h) d (disk_of (F.write d h t o))
    pub truncate_frame :
        (d : Disk) (h : Descriptor) (n : ℕ) → Writes (opened h) d (disk_of (F.truncate d h n))
    pub append_frame :
        (d : Disk) (h : Descriptor) (t : Text) → Writes (opened h) d (disk_of (F.append d h t))
    pub overwrite_frame :
        (d : Disk) (h : Descriptor) (t : Text) → Writes (opened h) d (disk_of (F.overwrite d h t))
    pub write_done :
        (d : Disk) (h : Descriptor) (t : Text) (before after : Text) (w : ℕ) (d' : Disk)
        → F.write d h t (length before) ≡ done w d'
        → bytes d (opened h) ≡ before ++ after
        → (w ≤ length t) × (bytes d' (opened h) ≡ before ++ take w t ++ drop w after)
    pub truncate_done :
        (d : Disk) (h : Descriptor) (n : ℕ) (d' : Disk)
        → F.truncate d h n ≡ done tt d'
        → n ≤ length (bytes d (opened h))
        → bytes d' (opened h) ≡ take n (bytes d (opened h))
    -- A shortening or an appending call that throws has done a part of what it should.
    pub truncate_part :
        (d : Disk) (h : Descriptor) (n : ℕ)
        → n ≤ length (bytes d (opened h))
        → (k : ℕ) × (n ≤ k)
          × (bytes (disk_of (F.truncate d h n)) (opened h) ≡ take k (bytes d (opened h)))
    pub append_part :
        (d : Disk) (h : Descriptor) (t : Text)
        → (k : ℕ) × (bytes (disk_of (F.append d h t)) (opened h) ≡ bytes d (opened h) ++ take k t)
    pub append_done :
        (d : Disk) (h : Descriptor) (t : Text) (d' : Disk)
        → F.append d h t ≡ done tt d'
        → bytes d' (opened h) ≡ bytes d (opened h) ++ t
    pub overwrite_done :
        (d : Disk) (h : Descriptor) (t : Text) (d' : Disk)
        → F.overwrite d h t ≡ done tt d'
        → bytes d (opened h) ≡ []
        → bytes d' (opened h) ≡ t
