-- ===== src/Files/Tests/Memory.antt =====
-- A disk in memory, as an instance of the file system.
pub mod Lawful
use ypi.Prelude.{
  ℕ, suc, ◌+◌, ◌-◌, ◌<◌, ◌≡◌, refl, true, false, Option, none, some, [], ◌++◌, Text, codes, text_eq,
  length, ◌==◌, min, Bool-cases, inl, inr, if◌then◌else◌, arith,
}
use ypi.Files.{FileSystem, Stats, Kind, Looked, absent, found, Run, done}
use ypi.Files.Bytes.{take, drop}

-- Names, contents and link counts of numbered files; numbers from `next` on are new. The file 0 is
-- the directory.
pub record Disk : Type 0 where
  pub name : Text → Option ℕ
  pub content : ℕ → Text
  pub links : ℕ → ℕ
  pub next : ℕ
  pub bounded : (p : Text) (n : ℕ) → name p ≡ some n → n < next

abbrev pub set {ℓ} : {A : Type ℓ} → (ℕ → A) → ℕ → A → ℕ → A
set f n a m = if m == n then a else f m

abbrev pub rename : (Text → Option ℕ) → Text → Option ℕ → Text → Option ℕ
rename f p o q = if text_eq q p then o else f q

abbrev pub stats_of : Disk → ℕ → Stats
stats_of d n = record {
  device = 1;
  inode = n;
  kind = if n == 0 then Kind.directory else Kind.regular;
  mode = if n == 0 then 448 else 384;
  links = d.links n;
  user = 7;
  size = length (d.content n);
}

abbrev pub looked_at : Disk → Option ℕ → Looked
looked_at d none = absent
looked_at d (some n) = found (stats_of d n)

pub rename-bounded :
    (f : Text → Option ℕ) (k : ℕ) (p : Text) (o : Option ℕ)
    → ((p : Text) (n : ℕ) → f p ≡ some n → n < k)
    → ((n : ℕ) → o ≡ some n → n < k)
    → (q : Text) (n : ℕ) → rename f p o q ≡ some n
    → n < k
rename-bounded f k p o old new q n e = elim (Bool-cases (text_eq q p)) [
  | inl same ↦ new n (rw same at e)
  | inr differs ↦ old q n (rw differs at e)
]

-- `create` of a name that is free.
abbrev pub created : Disk → Text → Disk
created d p = record {
  name = rename d.name p (some d.next);
  content = set d.content d.next [];
  links = set d.links d.next 1;
  next = suc d.next;
  bounded =
      rename-bounded d.name (suc d.next) p (some d.next) (λ q n e. omega (arith, d.bounded q n e))
        (λ n e. ground (arith, e));
}

abbrev pub rewritten : Disk → ℕ → Text → Disk
rewritten d n t = record d { content = set d.content n t }

abbrev pub relinked : (d : Disk) → Text → (n : ℕ) → n < d.next → Disk
relinked d q n h = record d {
  name = rename d.name q (some n);
  links = set d.links n (d.links n + 1);
  bounded = rename-bounded d.name d.next q (some n) d.bounded (λ m e. ground (arith, h, e));
}

abbrev pub unlinked : (d : Disk) → Text → ℕ → Disk
unlinked d p n = record d {
  name = rename d.name p none;
  links = set d.links n (d.links n - 1);
  bounded = rename-bounded d.name d.next p none d.bounded (λ m e. absurd (cc (e)));
}

abbrev pub lookup : Disk → Text → Option ℕ
lookup d p = d.name p

abbrev pub create_in : Disk → Text → Option ℕ → Option (ℕ × Disk)
create_in d p none = some (d.next, created d p)
create_in d p (some n) = none

abbrev pub link_in :
    (d : Disk)
    → Text
    → (o : Option ℕ) → ((n : ℕ) → o ≡ some n → n < d.next)
    → Option ℕ
    → Option Disk
link_in d q (some n) h none = some (relinked d q n (h n refl))
link_in d q (some n) h (some m) = none
link_in d q none h o = none

abbrev pub unlink_in : Disk → Text → Option ℕ → Option Disk
unlink_in d p none = none
unlink_in d p (some n) = some (unlinked d p n)

-- Two bytes at most are written or read at once.
abbrev pub write_in : Disk → ℕ → Text → ℕ → Run Disk ℕ
write_in d n t o =
    let part = take 2 t in
    done (length part)
      (rewritten d n ((take o (d.content n) ++ part) ++ drop (o + length part) (d.content n)))

abbrev pub memory : FileSystem
memory = record {
  Disk = Disk;
  File = ℕ;
  Descriptor = ℕ;
  named = lookup;
  stats = stats_of;
  bytes = λ d. d.content;
  opened = λ n. n;
  user = some 7;
  windows = false;
  parent = λ t. codes "/";
  temporary_path = λ d t. t ++ codes "~";
  lstat = λ d p. looked_at d (d.name p);
  fstat = λ d n. some (stats_of d n);
  open_existing = λ d p. d.name p;
  open_directory = λ d p. d.name p;
  read = λ d n o c. some (take (min c 2) (drop o (d.content n)));
  read_file = λ d p. elim (d.name p) [ none ↦ none | some n ↦ some (d.content n) ];
  create = λ d p m. create_in d p (d.name p);
  link = λ d p q. link_in d q (d.name p) (λ n e. d.bounded p n e) (d.name q);
  unlink = λ d p. unlink_in d p (d.name p);
  chmod = λ d n m. some d;
  make_directory = λ d p m. none;
  taken = λ d p. elim (d.name p) [ none ↦ false | some n ↦ true ];
  sync = λ d n. true;
  write = write_in;
  truncate = λ d n k. done tt (rewritten d n (take k (d.content n)));
  append = λ d n t. done tt (rewritten d n (d.content n ++ t));
  overwrite = λ d n t. done tt (rewritten d n (t ++ drop (length t) (d.content n)));
}

-- The directory, and nothing else.
abbrev pub empty_disk : Disk
empty_disk = record {
  name = rename (λ p. none) (codes "/") (some 0);
  content = λ n. [];
  links = λ n. 2;
  next = 1;
  bounded =
      rename-bounded (λ p. none) 1 (codes "/") (some 0) (λ p n e. absurd (cc (e)))
        (λ n e. ground (arith, e));
}

-- The directory and one file, whose number is 1.
abbrev pub journal_disk : Disk
journal_disk = record {
  name = rename (λ p. none) (codes "/j") (some 1);
  content = set (λ n. []) 1 (codes "abcde");
  links = λ n. 1;
  next = 2;
  bounded =
      rename-bounded (λ p. none) 2 (codes "/j") (some 1) (λ p n e. absurd (cc (e)))
        (λ n e. ground (arith, e));
}
