-- ===== src/Routing/Tests.antt =====
-- Routes against a small catalog.
use ypi.Prelude.{◌^◌, ◌-◌, ◌≡◌, refl, true, false, none, some, List, [], ◌∷◌, Text, codes, text_eq}
use ypi.Routing.{
  RouteModel, RouteRequest, ParentRoute, RouteEnv, Route, Source, ok, ◌>>=◌, refuse,
  policy_revision,
}
use ypi.Routing.Families.{
  number, spacing_of, round_to, numeral, family_version, is_candidate, version_of, insert,
  sort_newest, newest_family,
}
use ypi.Routing.Resolving.{
  validate_thinking, finish_route, name_pair, name_level, name_justification, apply_request,
  apply_child_env, configured_policy_provider, depth_entry, entry, apply_policy, resolve_route,
}
use ypi.Routing.Request.{validate_escalation, validate_request}
use ypi.Routing.Resolving.Catalog.{IsOffered, resolve_route-IsOffered}
use ypi.Routing.Resolving.Explicit.{Names, resolve_route-Names}

abbrev no_trim : Text → Text
no_trim t = t

abbrev model : Text → Text → RouteModel
model provider id = record {
  provider = provider;
  id = id;
  reasoning = true;
  input = none;
  unsupported = [];
}

abbrev older : RouteModel
older = model (codes "openai-codex") (codes "gpt-6.9-sol")

abbrev newest : RouteModel
newest = model (codes "openai-codex") (codes "gpt-6.10-sol")

abbrev other : RouteModel
other = model (codes "else") (codes "gpt-7-sol")

abbrev catalog : List RouteModel
catalog = older ∷ newest ∷ other ∷ []

abbrev env : RouteEnv
env = record {
  routing_provider = none;
  provider = none;
  model = none;
  thinking_level = none;
  child_models = none;
  child_model = none;
  child_providers = none;
  child_provider = none;
  child_thinking_levels = none;
  child_thinking_level = none;
}

abbrev parent : ParentRoute
parent = record { provider = none; model = none; thinking_level = none }

abbrev request : RouteRequest
request = record {
  profile = none;
  provider = none;
  model = none;
  thinking_level = none;
  escalation = none;
  justification = none;
  user_chosen_high_effort = false;
}

abbrev pair_request : RouteRequest
pair_request = record request { provider = some (codes "else"); model = some (codes "gpt-7-sol") }

abbrev route : Route
route = record {
  provider = codes "openai-codex";
  model = codes "gpt-6.10-sol";
  thinking_level = codes "medium";
  profile = codes "worker";
  source = Source.profile;
  policy_revision = policy_revision;
  escalation = none;
  justification = none;
}

-- 6.10 is newer than 6.9, and another provider's model is no candidate.
resolved : resolve_route no_trim env parent 1 request (some catalog) ≡ ok route
unfolding resolve_route validate_request validate_escalation depth_entry entry apply_policy
    configured_policy_provider newest_family is_candidate family_version numeral number version_of
    insert sort_newest apply_child_env apply_request name_pair name_level name_justification
    finish_route validate_thinking ◌>>=◌ refuse text_eq
resolved = refl

resolve_route-IsOffered_example : IsOffered catalog route
resolve_route-IsOffered_example =
    resolve_route-IsOffered no_trim env parent 1 request catalog route resolved

abbrev pair_route : Route
pair_route = record route {
  provider = codes "else";
  model = codes "gpt-7-sol";
  source = Source.explicit;
}

pair_resolved : resolve_route no_trim env parent 1 pair_request (some catalog) ≡ ok pair_route
unfolding resolve_route validate_request validate_escalation depth_entry entry apply_child_env
    apply_request name_pair name_level name_justification finish_route validate_thinking ◌>>=◌
    refuse text_eq
pair_resolved = refl

resolve_route-Names_example : Names (codes "else") (codes "gpt-7-sol") pair_route
resolve_route-Names_example =
    resolve_route-Names no_trim env parent 1 pair_request (some catalog) (codes "else")
      (codes "gpt-7-sol") pair_route refl refl refl refl pair_resolved

-- Numbers above 2 ^ 53 are rounded, and the largest ones are infinite.
numbers_round :
    (number 9007199254740993 ≡ 9007199254740992)
    × (number 9007199254740995 ≡ 9007199254740996)
    × (number (2 ^ 1024 - 2 ^ 970) ≡ 2 ^ 1024)
unfolding number spacing_of round_to
numbers_round = (refl, refl, refl)
