-- ===== src/Coordinator/Root/Tests.antt =====
-- A root that begins a generation in place of a live one.
use ypi.Prelude.{ℕ, Option, none, some, [], codes, Text, true}
use ypi.Coordinator.State.{active, initial_slots}
use ypi.Coordinator.Handler.{Coordinator}
use ypi.Coordinator.Generation.{start_local_coordinator}
use ypi.Coordinator.Root.{Root, Chance, begins, root_call}
use ypi.Coordinator.Root.Authority.{IsSole, root_call-IsSole}

abbrev alive : ℕ → Option Text
alive pid = some (codes "linux:7")

abbrev live : Coordinator
live = record (start_local_coordinator (codes "g") (codes "s") none none) {
  slots = record initial_slots { status = active };
}

abbrev root : Root
root = record {
  local_coordinator = some live;
  replaced = [];
  tree_generation = some (codes "g");
  depth = none;
  call_count = none;
  run_directory = none;
  counter_file = none;
}

abbrev chance : Chance
chance = record { generation = codes "h"; secret = codes "t"; starts = true; written = true }

root_call-IsSole_example : IsSole (root_call alive 1 (begins chance) root).0
root_call-IsSole_example = root_call-IsSole alive 1 (begins chance) root tt
