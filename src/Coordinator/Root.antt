-- ===== src/Coordinator/Root.antt =====
-- The root's own operations on its coordinator: `currentTreeGeneration`,
-- `ensureRootTreeCoordinator`, `beginRootTreeCoordinator` and `terminateRootTreeCoordinator` of
-- extensions/ypi/internal/tree-coordinator.ts.
pub mod Authority
mod Tests
use ypi.Prelude.{
  ℕ, Bool, true, false, Option, none, some, List, [], ◌∷◌, Text, codes, text_eq, is_hex_token,
  if◌then◌else◌, not, ◌&&◌,
}
use ypi.Coordinator.Handler.{Coordinator}
use ypi.Coordinator.Generation.{mark_terminal, is_terminal, start_local_coordinator}
use ypi.Coordinator.Run.{on_slots}

-- `localCoordinator`, the coordinators that it named before, whose sockets may still be open, and
-- the environment variables that the operations use.
pub record Root : Type 0 where
  pub local_coordinator : Option Coordinator
  pub replaced : List Coordinator
  pub tree_generation : Option Text
  pub depth : Option Text
  pub call_count : Option Text
  pub run_directory : Option Text
  pub counter_file : Option Text

-- What a new generation draws and whether the system lets it start; whether the manifest of the old
-- one can be written.
pub record Chance : Type 0 where
  pub generation : Text
  pub secret : Text
  pub starts : Bool
  pub written : Bool

pub data RootResult : Type 0 where
  done failed : RootResult

-- `(process.env.RLM_DEPTH || "0") === "0"`.
unfoldable pub is_root_depth : Option Text → Bool
is_root_depth none = true
is_root_depth (some []) = true
is_root_depth (some (c ∷ cs)) = text_eq (c ∷ cs) (codes "0")

-- `currentTreeGeneration`.
unfoldable pub current_tree_generation : Root → Option Text
current_tree_generation r = elim r.tree_generation [
  | none ↦ none
  | some g ↦ if is_hex_token 32 g then some g else none
]

abbrev is_set : Option Text → Bool
is_set none = false
is_set (some []) = false
is_set (some (c ∷ cs)) = true

abbrev replaced_by : Option Coordinator → List Coordinator → List Coordinator
replaced_by none cs = cs
replaced_by (some c) cs = c ∷ cs

abbrev has_live : Option Coordinator → Bool
has_live none = false
has_live (some c) = not (is_terminal c.slots.status)

abbrev is_generation : Option Text → Text → Bool
is_generation none t = false
is_generation (some u) t = text_eq u t

abbrev names_current : Option Text → Option Coordinator → Bool
names_current env none = false
names_current env (some c) = is_generation env c.generation

-- The calls of the root's sessions and turns.
pub data RootCall : Type 0 where
  ensures begins : Chance → RootCall
  terminates : Bool → RootCall

module _ (probe : ℕ → Option Text) (self : ℕ) where
  -- `localCoordinator = startLocalCoordinator(localCoordinator)`.
  unfoldable pub start_generation : Chance → Root → Root × RootResult
  start_generation chance r =
      if chance.starts
      then (
        record r {
          local_coordinator = some (
              start_local_coordinator chance.generation chance.secret r.counter_file
                r.local_coordinator);
          replaced = replaced_by r.local_coordinator r.replaced;
          tree_generation = some chance.generation;
        },
        done,
      )
      else (r, failed)

  -- `markLocalCoordinatorTerminal` where there is a coordinator that is not terminal; it throws where
  -- the manifest cannot be written.
  unfoldable pub retire : Bool → Root → Root × RootResult
  retire written r = elim r.local_coordinator [
    | none ↦ (r, done)
    | some c ↦ if is_terminal c.slots.status then (r, done) else (
      record r {
        local_coordinator = some (on_slots (λ s. (mark_terminal probe self written s).0) c);
      },
      if written then done else failed,
    )
  ]

  abbrev then_start : Chance → (Root → Root) → Root × RootResult → Root × RootResult
  then_start chance f (r, done) = start_generation chance (f r)
  then_start chance f (r, failed) = (r, failed)

  unfoldable pub ensure_root_tree_coordinator : Chance → Root → Root × RootResult
  ensure_root_tree_coordinator chance r =
      if not (is_root_depth r.depth)
      then (r, done)
      else if has_live r.local_coordinator && names_current r.tree_generation r.local_coordinator
      then (r, done)
      else then_start chance (λ q. q) (retire chance.written r)

  abbrev reset_count : Root → Root
  reset_count r = if is_set r.run_directory then r else record r { call_count = some (codes "0") }

  unfoldable pub begin_root_tree_coordinator : Chance → Root → Root × RootResult
  begin_root_tree_coordinator chance r =
      if is_root_depth r.depth
      then then_start chance reset_count (retire chance.written r)
      else (r, failed)

  unfoldable pub terminate_root_tree_coordinator : Bool → Root → Root × RootResult
  terminate_root_tree_coordinator written r = retire written r

  unfoldable pub root_call : RootCall → Root → Root × RootResult
  root_call (ensures chance) r = ensure_root_tree_coordinator chance r
  root_call (begins chance) r = begin_root_tree_coordinator chance r
  root_call (terminates written) r = terminate_root_tree_coordinator written r
