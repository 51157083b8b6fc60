-- ===== src/Files/Tests/Journals.antt =====
-- Private files and a journal on a disk in memory.
use ypi.Prelude.{
  ℕ, ◌≡◌, refl, ◌⊎◌, true, false, some, ◌++◌, Text, codes, length, text_eq, decimal, digits_from,
}
use ypi.Files.{Run, done}
use ypi.Files.Bytes.{take}
use ypi.Files.Laws.{disk_of}
use ypi.Files.Steps.{good, Step, ◌>>=◌, look}
use ypi.Files.Atomic.{synced}
use ypi.Files.Private.{
  PrivateIdentity, PrivateKind, private_identity_of, same_private_identity, inspect_private_path,
  assert_private_path_identity, assert_opened, within_maximum, read_at_moments,
  read_owned_private_file_bytes, parse_private_path_identity_value,
}
use ypi.Files.Private.Reads.{Numbered, read_owned_private_file_bytes-whole}
use ypi.Files.Private.Records.{fields_of, parse-inspect_private_path}
use ypi.Files.Private.Writing.{
  WriteStage, assert_named, assert_size, trim_tail, write_transaction, run_transaction,
  append_owned_private_file_transaction,
}
use ypi.Files.Private.Writing.Journal.{CommitsBytes, transaction-Commits}
use ypi.Files.Private.Writing.Committed.{IsCommitted, transaction-IsCommitted}
use ypi.Files.Private.Directories.{
  assert_private_directory, after_making, make_or_find, ensure_private_directory,
}
use ypi.Files.Private.Directories.Ensured.{
  IsPrivateDirectory, ensure_private_directory-IsPrivateDirectory,
}
use ypi.Files.Tests.Memory.Lawful.{memory-IsPosix}
use ypi.Files.Tests.Memory.{Disk, memory, empty_disk, journal_disk}

abbrev journal : Text
journal = codes "/j"

abbrev identity : PrivateIdentity
identity = record {
  device = codes "1";
  inode = codes "1";
  kind = PrivateKind.file;
  mode = 384;
  links = codes "1";
}

inspected : inspect_private_path memory journal journal_disk ≡ good identity
unfolding inspect_private_path private_identity_of text_eq decimal digits_from
inspected = refl

parse-inspect_example : parse_private_path_identity_value (fields_of identity) ≡ good identity
parse-inspect_example =
    parse-inspect_private_path memory journal journal_disk identity refl inspected

read_five :
    read_owned_private_file_bytes memory journal identity
      (some 5)
      journal_disk
      journal_disk
      journal_disk
      (λ k. journal_disk)
      journal_disk
    ≡ good (codes "abcde")
unfolding read_owned_private_file_bytes assert_private_path_identity assert_opened
    same_private_identity read_at_moments inspect_private_path private_identity_of text_eq decimal
    digits_from
read_five = refl

read_whole :
    (n : ℕ) × (journal_disk.name journal ≡ some n)
    × (codes "abcde" ≡ journal_disk.content n)
    × (within_maximum (some 5) 5 ≡ true)
    × (journal_disk.name journal ≡ some n)
    × Numbered (memory.stats journal_disk n) identity
read_whole =
    read_owned_private_file_bytes-whole memory memory-IsPosix journal identity (some 5) journal_disk
      journal_disk journal_disk (λ k. journal_disk) journal_disk (codes "abcde") (λ k m. refl)
      read_five

abbrev no_hook : WriteStage → Step Disk (Unit {0})
no_hook stage = done tt

quiet :
    (stage : WriteStage) (d : Disk) (m : ℕ)
    → memory.bytes (disk_of (no_hook stage d)) m ≡ memory.bytes d m
quiet stage d m = refl

-- Of five bytes, three are committed.
abbrev appended : Run Disk (Unit {0})
appended =
    append_owned_private_file_transaction memory no_hook journal identity 5 3 (codes "xy")
      (codes "!") journal_disk

appended_done : appended ≡ done tt (disk_of appended)
unfolding append_owned_private_file_transaction run_transaction trim_tail write_transaction
    assert_size assert_named synced assert_private_path_identity assert_opened same_private_identity
    inspect_private_path private_identity_of text_eq decimal digits_from ◌>>=◌ look
appended_done = refl

transaction-Commits_example : CommitsBytes memory 3 journal_disk (disk_of appended)
transaction-Commits_example =
    transaction-Commits memory memory-IsPosix 3 no_hook quiet journal_disk journal identity 5
      (codes "xy") (codes "!")

transaction-IsCommitted_example :
    (n : ℕ) × (length (journal_disk.content n) ≡ 5)
    × IsCommitted memory
        (disk_of appended)
        journal
        identity
        n
        (take 3 (journal_disk.content n) ++ codes "xy" ++ codes "!")
transaction-IsCommitted_example =
    transaction-IsCommitted memory memory-IsPosix no_hook quiet journal_disk journal identity 5 3
      (codes "xy") (codes "!") (disk_of appended) appended_done

abbrev ensured_disk : Disk
ensured_disk = disk_of (ensure_private_directory memory (codes "/") empty_disk)

found_directory : ensure_private_directory memory (codes "/") empty_disk ≡ done false ensured_disk
unfolding ensure_private_directory make_or_find after_making assert_private_directory text_eq ◌>>=◌
    look
found_directory = refl

ensure_private_directory_example :
    ((false ≡ true) ⊎ (empty_disk ≡ ensured_disk))
    × IsPrivateDirectory memory (codes "/") ensured_disk
ensure_private_directory_example =
    ensure_private_directory-IsPrivateDirectory memory memory-IsPosix empty_disk (codes "/") false
      ensured_disk found_directory
