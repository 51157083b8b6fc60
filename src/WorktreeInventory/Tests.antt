-- ===== src/WorktreeInventory/Tests.antt =====
-- A listing of two worktrees, with the bytes of ASCII text.
use ypi.Prelude.{
  ℕ, ◌≡◌, ◌≢◌, refl, Option, some, List, [], ◌∷◌, codes, Text, All, map, text_eq, starts_with,
}
use ypi.Posix.{resolve_path, absolute_segments, resolve_root, climb_root, split, join}
use ypi.ImplementScope.{unique}
use ypi.WorktreeInventory.{
  ok, fields, drop, worktree_path, parse_fields, finish, parse_worktree_inventory,
  assert_worktree_unregistered,
}
use ypi.WorktreeInventory.RoundTrip.{
  Worktree, print_worktrees, IsListed, NoNul-all, parse_worktree_inventory-print_worktrees,
  assert_worktree_unregistered-print_worktrees,
}

abbrev ascii : List ℕ → Option Text
ascii bytes = some bytes

abbrev home : Text
home = codes "/home"

abbrev repository : Worktree
repository = record { raw = codes "/r"; path = codes "/r"; attributes = codes "bare" ∷ [] }

abbrev linked : Worktree
linked = record { raw = codes "/w/../v/"; path = codes "/w/../v/"; attributes = [] }

abbrev both : List Worktree
both = repository ∷ linked ∷ []

both-IsListed : All (IsListed ascii home) both
both-IsListed = (
  record {
    raw_nul = NoNul-all (codes "/r") refl;
    raw_ne = λ e. cc;
    decodes = refl;
    absolute = refl;
    attributes_nul = (NoNul-all (codes "bare") refl, tt);
    attributes_ne = ((λ e. cc), tt);
  },
  (
    record {
      raw_nul = NoNul-all (codes "/w/../v/") refl;
      raw_ne = λ e. cc;
      decodes = refl;
      absolute = refl;
      attributes_nul = tt;
      attributes_ne = tt;
    },
    tt,
  ),
)

resolved : resolve_path home (codes "/w/../v/") ≡ codes "/v"
unfolding resolve_path absolute_segments resolve_root climb_root split join text_eq
resolved = refl

parse_worktree_inventory-print_worktrees_example :
    parse_worktree_inventory ascii home (print_worktrees both)
    ≡ ok (map (λ (w : Worktree). resolve_path home w.path) both)
unfolding unique text_eq resolve_path absolute_segments resolve_root climb_root split join
parse_worktree_inventory-print_worktrees_example =
    parse_worktree_inventory-print_worktrees ascii home both both-IsListed refl

assert_worktree_unregistered-print_worktrees_example :
    All (λ (w : Worktree). resolve_path home w.path ≢ resolve_path home (codes "gone")) both
unfolding assert_worktree_unregistered parse_worktree_inventory parse_fields fields finish
    worktree_path drop unique text_eq resolve_path absolute_segments resolve_root climb_root split
    join starts_with
assert_worktree_unregistered-print_worktrees_example =
    assert_worktree_unregistered-print_worktrees ascii home both (codes "gone") both-IsListed refl
      refl
