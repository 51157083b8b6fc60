-- ===== src/WorktreeInventory.antt =====
-- extensions/ypi/internal/worktree-inventory.ts: the output of `git worktree list --porcelain -z`.
-- The UTF-8 decoder is the parameter `decode`, `none` where it throws; `cwd` is the working
-- directory. Bytes are numbers.
pub mod RoundTrip
mod Tests
use ypi.Prelude.{
  ℕ, Bool, true, false, Option, none, some, List, [], ◌∷◌, ◌++◌, Text, codes, text_eq, starts_with,
  is_absolute, length, any, if◌then◌else◌, ◌&&◌, ◌==◌, ltb,
}
use ypi.Posix.{resolve_path}
use ypi.ImplementScope.{unique}

pub data InventoryError : Type 0 where
  not_terminated no_path not_utf8 not_absolute open_record duplicate registered : InventoryError

pub data Inventory {ℓ} (A : Type ℓ) : Type ℓ where
  ok : A → Inventory A
  err : InventoryError → Inventory A

infixl 5 ◌>>=◌
abbrev pub ◌>>=◌ {ℓ κ} : {A : Type ℓ} {B : Type κ} → Inventory A → (A → Inventory B) → Inventory B
ok a >>= k = k a
err e >>= k = err e

abbrev pub prefix : List ℕ
prefix = codes "worktree "

abbrev pub grow_first : ℕ → List (List ℕ) × List ℕ → List (List ℕ) × List ℕ
grow_first b ([], rest) = ([], b ∷ rest)
grow_first b (f ∷ fs, rest) = ((b ∷ f) ∷ fs, rest)

-- The fields that a NUL ends, which the loop finds one by one with `indexOf`, and what is left.
unfoldable pub fields : List ℕ → List (List ℕ) × List ℕ
fields [] = ([], [])
fields (b ∷ bs) =
    let (fs, rest) = fields bs in if b == 0 then ([] ∷ fs, rest) else grow_first b (fs, rest)

-- `subarray(prefix.length)`.
unfoldable pub drop : List ℕ → List ℕ → List ℕ
drop [] t = t
drop (p ∷ ps) [] = []
drop (p ∷ ps) (c ∷ cs) = drop ps cs

-- The tests after the loop.
unfoldable pub finish : List ℕ → List Text × Bool → Inventory (List Text)
finish (b ∷ rest) (paths, at_record_start) = err not_terminated
finish [] (paths, false) = err open_record
finish [] (paths, true) =
    if length (unique [] paths) == length paths then ok paths else err duplicate

module _ (decode : List ℕ → Option Text) (cwd : Text) where
  -- The path of a record's first field.
  unfoldable pub worktree_path : List ℕ → Inventory Text
  worktree_path field =
      if ltb (length prefix) (length field) && starts_with prefix field
      then elim (decode (drop prefix field)) [
        | none ↦ err not_utf8
        | some worktree ↦
            if is_absolute worktree then ok (resolve_path cwd worktree) else err not_absolute
      ]
      else err no_path

  -- The loop: the paths so far, and whether a record begins.
  unfoldable pub parse_fields : List Text → Bool → List (List ℕ) → Inventory (List Text × Bool)
  parse_fields paths at_record_start [] = ok (paths, at_record_start)
  parse_fields paths at_record_start ([] ∷ fs) = parse_fields paths true fs
  parse_fields paths false ((b ∷ bs) ∷ fs) = parse_fields paths false fs
  parse_fields paths true ((b ∷ bs) ∷ fs) =
      worktree_path (b ∷ bs) >>= λ path. parse_fields (paths ++ path ∷ []) false fs

  unfoldable pub parse_worktree_inventory : List ℕ → Inventory (List Text)
  parse_worktree_inventory value = parse_fields [] true (fields value).0 >>= finish (fields value).1

  unfoldable pub assert_worktree_unregistered : List ℕ → Text → Inventory (Unit {0})
  assert_worktree_unregistered inventory worktree = do
    paths ← parse_worktree_inventory inventory
    if any (text_eq (resolve_path cwd worktree)) paths then err registered else ok tt
