-- ===== src/Coordinator/Counter/Tests.antt =====
-- The first call of a tree, counted on a disk in memory.
use ypi.Prelude.{
  ℕ, ◌≡◌, refl, Bool, false, none, some, Text, codes, text_eq, decimal, digits_from, decimal_line,
}
use ypi.Process.{nat}
use ypi.Coordinator.Protocol.{undefined, num, Request, Result, ok, exact_non_negative_integer}
use ypi.Coordinator.Calls.{
  Calls, allocate_call, call_inputs, require_counter_file, bind_calls, count_call, count_written,
  write_counter,
}
use ypi.Coordinator.Calls.Counting.{Counted}
use ypi.Coordinator.Counter.{counter_files}
use ypi.Coordinator.Counter.Stored.{allocate_call-IsStored}
use ypi.Files.{done}
use ypi.Files.Laws.{disk_of}
use ypi.Files.Steps.{◌>>=◌, Step, catch, look, call, act}
use ypi.Files.Identity.{
  same_identity, identity_of, private_file_identity, assert_path_names_identity,
}
use ypi.Files.Transfer.{write_from, write_all}
use ypi.Files.Atomic.{
  Stage, open_held_directory, assert_held_directory, synced, sync_held_directory,
}
use ypi.Files.Atomic.Temporary.{
  may_retire, retire_temporary, or_retire, secure_temporary, fill_temporary, complete_temporary,
  prepare_temporary,
}
use ypi.Files.Atomic.Create.{
  link_temporary, confirm_published, publish_prepared_temporary, atomic_create_file,
}
use ypi.Files.Atomic.Create.Beyond.{Kept}
use ypi.Files.Atomic.Replace.Written.{IsStored}
use ypi.Files.Tests.Memory.{Disk, memory, empty_disk}
use ypi.Files.Tests.Memory.Lawful.{memory-IsPosix}

abbrev no_hook : Stage → Step Disk (Unit {0})
no_hook stage = done tt

quiet : (stage : Stage) (d : Disk) → Kept memory d (disk_of (no_hook stage d))
quiet stage d = record { names = λ p m e. e; contents = λ p m e. refl }

abbrev absent : Disk → Text → Bool
absent d p = false

abbrev file : Text
file = codes "/calls"

abbrev bound : Calls
bound = record { max_calls = some 2; call_count = 0; counter_file = some file; counter = none }

abbrev request : Request
request = record {
  operation = codes "allocate-call";
  pid = 7;
  process_identity = codes "linux:7";
  token = none;
  child_pid = undefined;
  child_process_identity = undefined;
  maximum = num (nat 2);
  seed_call_count = num (nat 0);
  counter_file = some file;
}

abbrev allocated : (Calls × Disk) × Result ℕ
allocated = allocate_call (counter_files memory absent no_hook) empty_disk bound request

allocated_done : allocated ≡ (allocated.0, ok 1)
unfolding allocate_call call_inputs require_counter_file exact_non_negative_integer bind_calls
    count_call count_written write_counter decimal_line atomic_create_file open_held_directory
    prepare_temporary complete_temporary or_retire secure_temporary fill_temporary
    publish_prepared_temporary link_temporary confirm_published retire_temporary may_retire
    assert_held_directory sync_held_directory synced write_all write_from assert_path_names_identity
    private_file_identity same_identity identity_of ◌>>=◌ catch look call act text_eq decimal
    digits_from
allocated_done = refl

allocate_call-IsStored_example :
    (name : Text) × (counted : Counted
      (counter_files memory absent no_hook)
      bound
      2
      name
      empty_disk
      allocated.0.0
      allocated.0.1
      1)
    × IsStored memory allocated.0.1 name (decimal_line 1) counted.identity
allocate_call-IsStored_example =
    allocate_call-IsStored memory memory-IsPosix absent no_hook quiet empty_disk bound request 2
      allocated.0.0 allocated.0.1 1 refl allocated_done
