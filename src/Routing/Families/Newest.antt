-- ===== src/Routing/Families/Newest.antt =====
-- The model that is chosen from a family is its newest candidate.
use ypi.Prelude.{Bool, Option, none, some, Text, if◌then◌else◌}
use ypi.Routing.{RouteModel}
use ypi.Routing.Families.{version_of, is_newer}

module _ (family : Text) where
  abbrev newer : RouteModel → RouteModel → Bool
  newer a b = is_newer (version_of family a) (version_of family b)

  abbrev pick : RouteModel → Option RouteModel → Option RouteModel
  pick x none = some x
  pick x (some y) = if newer y x then some y else some x
