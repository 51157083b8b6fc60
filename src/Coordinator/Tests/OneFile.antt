-- ===== src/Coordinator/Tests/OneFile.antt =====
-- A disk that keeps one file under every name and breaks on some writes, as an instance of the
-- operations that call accounting uses.
use ypi.Prelude.{ℕ, suc, zero, Bool, true, false, Option, none, some, Text, codes}
use ypi.Coordinator.Calls.{FileIdentity, CounterFiles}

-- The file, and how many writes will still throw.
abbrev pub File : Type 0
File = Option (FileIdentity × Text) × ℕ

abbrev pub identity : FileIdentity
identity = record {
  device = codes "1";
  inode = codes "2";
  mode = 33152;
  links = codes "1";
  owner = none;
}

-- A write that throws has written all the same.
abbrev written : File → Text → Option FileIdentity × File
written (f, zero) t = (some identity, (some (identity, t), zero))
written (f, suc n) t = (none, (some (identity, t), n))

abbrev found : Option (FileIdentity × Text) → Bool
found none = false
found (some f) = true

abbrev pub one_file : CounterFiles
one_file = record {
  Disk = File;
  exists = λ d p. found d.0;
  read = λ d p. d.0;
  create = λ d p t. written d t;
  replace = λ d p i old t. written d t;
}
