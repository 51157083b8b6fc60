-- ===== src/Files/Tests.antt =====
-- The publication of files on a disk in memory.
pub mod Memory
mod Journals
use ypi.Prelude.{
  ℕ, ◌≡◌, refl, ap, none, some, [], ◌∷◌, ◌++◌, ◌≢◌, ◌<◌, suc, inl, length, arith, Text, codes,
  text_eq, decimal, digits_from,
}
use ypi.Files.{Fault, Run, done, failed}
use ypi.Files.Laws.{Writes, disk_of}
use ypi.Files.Steps.{Step, ◌>>=◌, catch, look, call, act}
use ypi.Files.Identity.{
  same_identity, identity_of, private_file_identity, assert_path_names_identity,
}
use ypi.Files.Transfer.{write_from, write_all, read_from, read_descriptor_from_start}
use ypi.Files.Atomic.{
  Stage, Options, HeldTemporary, fresh_options, open_held_directory, assert_held_directory, synced,
  sync_held_directory,
}
use ypi.Files.Atomic.Temporary.{
  may_retire, retire_temporary, or_retire, secure_temporary, fill_temporary, complete_temporary,
  prepare_temporary,
}
use ypi.Files.Atomic.Create.{
  link_temporary, confirm_published, publish_prepared_temporary, atomic_create_file,
}
use ypi.Files.Atomic.Replace.{
  assert_expected, assert_content, open_expected, rewrite_file, confirm_replaced,
  commit_replacement, atomic_conditional_replace_file, write_existing, atomic_write_file,
}
use ypi.Files.Tests.Memory.Lawful.{memory-IsPosix}
use ypi.Files.Tests.Memory.{Disk, memory, empty_disk}
use ypi.Coordinator.Calls.{FileIdentity}
use ypi.Files.Bytes.{drop}
use ypi.Files.Transfer.Whole.{write_all_ends}
use ypi.Files.Atomic.Create.Beyond.{Kept}
use ypi.Files.Atomic.Create.Kept.{atomic_create_file-Kept}
use ypi.Files.Atomic.Create.Stored.{
  IsPublished, atomic_create_file-IsPublished, atomic_create_file_taken,
}
use ypi.Files.Atomic.Replace.Written.{IsStored, atomic_conditional_replace_file-IsStored}
use ypi.Files.Atomic.Replace.Compared.{replace_refuses}
use ypi.Files.Atomic.Replace.Swap.{Swap, atomic_conditional_replace_file-Swap}
use ypi.Files.Atomic.Replace.Dispatched.{atomic_write_file-IsStored}

abbrev no_hook : Stage → Step Disk (Unit {0})
no_hook stage = done tt

abbrev target : Text
target = codes "/a"

abbrev plain : Options
plain = fresh_options none

abbrev identity : FileIdentity
identity = record {
  device = codes "1";
  inode = codes "1";
  mode = 384;
  links = codes "1";
  owner = some 7;
}

abbrev created : Run Disk FileIdentity
created = atomic_create_file memory no_hook target (codes "abc") plain empty_disk

quiet : (stage : Stage) (d : Disk) → Kept memory d (disk_of (no_hook stage d))
quiet stage d = record { names = λ p m e. e; contents = λ p m e. refl }

created_done : created ≡ done identity (disk_of created)
unfolding atomic_create_file open_held_directory prepare_temporary complete_temporary or_retire
    secure_temporary fill_temporary publish_prepared_temporary link_temporary confirm_published
    retire_temporary may_retire assert_held_directory sync_held_directory synced write_all
    write_from assert_path_names_identity private_file_identity same_identity identity_of ◌>>=◌
    catch look call act text_eq decimal digits_from
created_done = refl

create_stores :
    (temporary : HeldTemporary memory) × (prepared : Disk) × (prepare_temporary memory target
        (codes "abc")
        384
        empty_disk
      ≡ done temporary prepared)
    × IsPublished memory temporary (disk_of created) target (codes "abc") identity
create_stores =
    atomic_create_file-IsPublished memory memory-IsPosix no_hook quiet empty_disk target
      (codes "abc") plain identity (disk_of created) created_done

-- The disk with the file.
abbrev disk : Disk
disk = disk_of created

disk_named : disk.name target ≡ some 1
unfolding atomic_create_file open_held_directory prepare_temporary complete_temporary or_retire
    secure_temporary fill_temporary publish_prepared_temporary link_temporary confirm_published
    retire_temporary may_retire assert_held_directory sync_held_directory synced write_all
    write_from assert_path_names_identity private_file_identity same_identity identity_of ◌>>=◌
    catch look call act text_eq decimal digits_from
disk_named = refl

disk_content : disk.content 1 ≡ codes "abc"
unfolding atomic_create_file open_held_directory prepare_temporary complete_temporary or_retire
    secure_temporary fill_temporary publish_prepared_temporary link_temporary confirm_published
    retire_temporary may_retire assert_held_directory sync_held_directory synced write_all
    write_from assert_path_names_identity private_file_identity same_identity identity_of ◌>>=◌
    catch look call act text_eq decimal digits_from
disk_content = refl

create_keeps :
    Kept memory disk (disk_of (atomic_create_file memory no_hook (codes "/b") [] plain disk))
create_keeps =
    atomic_create_file-Kept memory memory-IsPosix no_hook quiet disk (codes "/b") [] plain

create_fails :
    (e : Fault) × (d' : Disk) × (atomic_create_file memory no_hook target (codes "x") plain disk
      ≡ failed e d')
    × Kept memory disk d'
create_fails =
    atomic_create_file_taken memory memory-IsPosix no_hook quiet disk target (codes "x") plain 1
      disk_named

abbrev expecting : Text → Options
expecting old = record { mode = none; expected_content = some old; truncate_before_write = none }

abbrev replaced : Run Disk FileIdentity
replaced =
    atomic_conditional_replace_file memory no_hook target identity (codes "defgh")
      (expecting (codes "abc")) disk

replaced_done : replaced ≡ done identity (disk_of replaced)
unfolding atomic_create_file open_held_directory prepare_temporary complete_temporary or_retire
    secure_temporary fill_temporary publish_prepared_temporary link_temporary confirm_published
    retire_temporary may_retire assert_held_directory sync_held_directory synced write_all
    write_from assert_path_names_identity private_file_identity same_identity identity_of ◌>>=◌
    catch look call act text_eq decimal digits_from atomic_conditional_replace_file open_expected
    commit_replacement assert_expected assert_content rewrite_file confirm_replaced
    read_descriptor_from_start read_from
replaced_done = refl

replace_stores :
    IsStored memory (disk_of replaced) target (codes "defgh") identity × (identity ≡ identity)
replace_stores =
    atomic_conditional_replace_file-IsStored memory memory-IsPosix no_hook disk target identity
      (codes "defgh") (expecting (codes "abc")) identity (disk_of replaced) replaced_done

other_content : disk.content 1 ≢ codes "ab"
other_content e = omega (arith, ap length disk_content, ap length e)

replace_refuses_example :
    (e : Fault) × (atomic_conditional_replace_file memory no_hook target identity
        (codes "defgh")
        (expecting (codes "ab"))
        disk
      ≡ failed e disk)
replace_refuses_example =
    replace_refuses memory memory-IsPosix no_hook disk target identity (codes "defgh") (codes "ab")
      (expecting (codes "ab")) 1 refl disk_named (inl other_content)

no_hook-Writes : (stage : Stage) (d : Disk) → Writes memory 1 d (disk_of (no_hook stage d))
no_hook-Writes stage d = record { names = λ p. refl; others = λ m ne. refl }

memory_moves :
    (d : Disk) (part : Text) (o : ℕ)
    → 0 < length part
    → (w : ℕ) × (d' : Disk) × (memory.write d 1 part o ≡ done (suc w) d')
memory_moves d [] o h = absurd (omega (arith, h))
memory_moves d (a ∷ []) o h = (0, _, refl)
memory_moves d (a ∷ b ∷ t) o h = (1, _, refl)

write_all_example :
    (d' : Disk) × (write_all memory 1 (codes "hello") disk ≡ done tt d')
    × (d'.content 1 ≡ codes "hello" ++ drop 5 (disk.content 1))
write_all_example = write_all_ends memory memory-IsPosix disk 1 (codes "hello") memory_moves

abbrev written : Run Disk FileIdentity
written = atomic_write_file memory no_hook target (codes "xy") plain disk

written_done : written ≡ done identity (disk_of written)
unfolding atomic_create_file open_held_directory prepare_temporary complete_temporary or_retire
    secure_temporary fill_temporary publish_prepared_temporary link_temporary confirm_published
    retire_temporary may_retire assert_held_directory sync_held_directory synced write_all
    write_from assert_path_names_identity private_file_identity same_identity identity_of ◌>>=◌
    catch look call act text_eq decimal digits_from atomic_conditional_replace_file open_expected
    commit_replacement assert_expected assert_content rewrite_file confirm_replaced
    read_descriptor_from_start read_from atomic_write_file write_existing
written_done = refl

write_stores : IsStored memory (disk_of written) target (codes "xy") identity
write_stores =
    atomic_write_file-IsStored memory memory-IsPosix no_hook quiet disk target (codes "xy") plain
      identity (disk_of written) written_done

replace_swaps : Swap memory disk 1 (codes "abc") (codes "defgh") replaced
replace_swaps =
    atomic_conditional_replace_file-Swap memory memory-IsPosix no_hook disk target identity
      (codes "defgh") (codes "abc") (expecting (codes "abc")) 1 refl disk_named no_hook-Writes
