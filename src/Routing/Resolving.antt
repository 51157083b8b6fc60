-- ===== src/Routing/Resolving.antt =====
-- `resolveRoute` and `selectRootDefault` of extensions/ypi/internal/model-routing.ts. `trim` is
-- the string method.
pub mod Catalog
pub mod Explicit
use ypi.Prelude.{
  ℕ, zero, suc, ◌-◌, Bool, ◌&&◌, ◌||◌, not, Option, none, some, List, [], ◌∷◌, Text, text_eq, codes,
  ltb, ◌==◌, if◌then◌else◌,
}
use ypi.Files.Bytes.{take}
use ypi.Routing.{
  RouteModel, RouteRequest, ParentRoute, RouteEnv, Source, Route, RouteError, Resolved, ok, err,
  ◌>>=◌, ◌>>◌, refuse, filled, given, text_of, or_text, one_of, levels, inherit_profile, Definition,
  policy_revision, policy_provider, worker_definition, definition_of, escalated_definition,
}
use ypi.Routing.Families.{newest_family}
use ypi.Routing.Request.{is_some, given_text, validate_request}

-- `split(",")`.
unfoldable pub commas : Text → List Text
commas [] = [] ∷ []
commas (c ∷ t) = elim (commas t) [
  | [] ↦ (c ∷ []) ∷ []
  | piece ∷ more ↦ if c == b',' then [] ∷ piece ∷ more else (c ∷ piece) ∷ more
]

abbrev pub nth : List Text → ℕ → Text
nth [] n = []
nth (t ∷ ts) zero = t
nth (t ∷ ts) (suc n) = nth ts n

-- `validateThinking`.
unfoldable pub validate_thinking : Text → Option RouteModel → Resolved (Unit {0})
validate_thinking level matched = do
  refuse (not (one_of levels level)) RouteError.invalid_level
  elim matched [
    | none ↦ ok tt
    | some model ↦ do
      refuse (not (text_eq level (codes "off")) && not model.reasoning) RouteError.no_thinking
      refuse (one_of model.unsupported level) RouteError.unsupported_level
  ]

abbrev pub same_model : Text → Text → RouteModel → Bool
same_model provider id model = text_eq model.provider provider && text_eq model.id id

abbrev pub find_model : List RouteModel → Text → Text → Option RouteModel
find_model [] provider id = none
find_model (m ∷ ms) provider id =
    if same_model provider id m then some m else find_model ms provider id

abbrev pub find_in : Option (List RouteModel) → Text → Text → Option RouteModel
find_in none provider id = none
find_in (some catalog) provider id = find_model catalog provider id

-- The last checks of `resolveRoute`.
unfoldable pub finish_route : Option (List RouteModel) → RouteRequest → Route → Resolved Route
finish_route catalog request route = do
  refuse
      ((not (filled route.provider) || not (filled route.model))
        && (is_some catalog
            || given request.profile
            || given request.model
            || given request.provider
            || is_some request.escalation))
      RouteError.no_route
  let matched = find_in catalog route.provider route.model
  refuse (is_some catalog && not (is_some matched) && filled route.provider && filled route.model)
      RouteError.not_in_catalog
  (if filled route.thinking_level && (is_some catalog || given request.thinking_level)
      then validate_thinking route.thinking_level matched
      else ok tt)
  ok route

unfoldable pub apply_child_env : Text → Text → Text → Route → Route
apply_child_env model provider thinking route =
    if filled model || filled thinking || filled provider && filled model
    then record route {
      model = or_text model route.model;
      provider = if filled provider && filled model then provider else route.provider;
      thinking_level = or_text thinking route.thinking_level;
      source = Source.child_env;
    }
    else route

-- What the request itself names goes before everything else.
unfoldable pub name_pair : Option (List RouteModel) → RouteRequest → Route → Route
name_pair catalog request route =
    if given request.provider && given request.model
    then record route {
      provider = text_of request.provider;
      model = text_of request.model;
      thinking_level =
          or_text (text_of request.thinking_level)
            (if is_some catalog then worker_definition.thinking_level else route.thinking_level);
      source = Source.explicit;
    }
    else route

unfoldable pub name_level : RouteRequest → Route → Route
name_level request route =
    if given request.thinking_level
    then record route {
      thinking_level = text_of request.thinking_level;
      source = if is_some request.escalation then Source.escalation else Source.explicit;
    }
    else route

module _ (trim : Text → Text) where
  -- `entry`.
  unfoldable pub entry : Option Text → ℕ → Text
  entry none index = []
  entry (some t) index = trim (nth (commas t) (index - 1))

  -- `configuredPolicyProvider`.
  unfoldable pub configured_policy_provider : RouteEnv → Resolved Text
  configured_policy_provider env = elim env.routing_provider [
    | none ↦ ok policy_provider
    | some t ↦ do refuse (not (filled (trim t))) RouteError.unnamed_provider; ok (trim t)
  ]

  -- What the environment says for the depth of the child: model, provider, thinking level.
  unfoldable pub depth_entry : ℕ → Option Text → Option Text → Text
  depth_entry depth listed single =
      if ltb 0 depth then or_text (entry listed depth) (text_of single) else []

  abbrev pub name_of : RouteRequest → Text
  name_of request = elim request.profile [ none ↦ codes "worker" | some t ↦ t ]

  abbrev pub is_explicit_profile : RouteRequest → Bool
  is_explicit_profile request =
      is_some request.profile && not (text_eq (name_of request) inherit_profile)

  abbrev pub inherited_route : RouteEnv → ParentRoute → RouteRequest → Route
  inherited_route env parent request = record {
    provider = or_text (text_of env.provider) (text_of parent.provider);
    model = or_text (text_of env.model) (text_of parent.model);
    thinking_level = or_text (text_of env.thinking_level) (text_of parent.thinking_level);
    profile = name_of request;
    source = Source.inherit;
    policy_revision = policy_revision;
    escalation = request.escalation;
    justification = none;
  }

  -- The family and the level of the policy for a request.
  abbrev pub wanted : RouteRequest → Definition
  wanted request = elim request.escalation [
    | none ↦ definition_of (name_of request)
    | some e ↦ escalated_definition e.stage
  ]

  -- The model of the policy replaces what was inherited.
  unfoldable pub apply_policy :
      RouteEnv → Option (List RouteModel) → RouteRequest → Route → Resolved Route
  apply_policy env catalog request route = do
    provider ← configured_policy_provider env
    elim catalog [
      | none ↦ do
        refuse
            (is_explicit_profile request
              || is_some request.escalation
              || is_some env.routing_provider)
            RouteError.no_catalog
        ok (record route { source = Source.catalog_unavailable })
      | some models ↦
          elim (newest_family models (wanted request).family provider
            (wanted request).thinking_level) [
              | none ↦ err RouteError.no_family
              | some model ↦ ok (record route {
                provider = model.provider;
                model = model.id;
                thinking_level = (wanted request).thinking_level;
                source = if is_some request.escalation then Source.escalation else Source.profile;
              })
            ]
    ]

  unfoldable pub name_justification : RouteRequest → Route → Route
  name_justification request route =
      if given_text trim request.justification
      then record route { justification = some (take 240 (trim (text_of request.justification))) }
      else route

  unfoldable pub apply_request : Option (List RouteModel) → RouteRequest → Route → Route
  apply_request catalog request route =
      name_justification request (name_level request (name_pair catalog request route))

  unfoldable pub resolve_route :
      RouteEnv → ParentRoute → ℕ → RouteRequest → Option (List RouteModel) → Resolved Route
  resolve_route env parent depth request catalog = do
    let name = name_of request
    validate_request trim name request
    let model = depth_entry depth env.child_models env.child_model
    let provider = depth_entry depth env.child_providers env.child_provider
    let thinking = depth_entry depth env.child_thinking_levels env.child_thinking_level
    let inherits = text_eq name inherit_profile
    let chosen = is_explicit_profile request
    refuse
        (filled provider
          && not (filled model)
          && not chosen
          && not (given request.provider)
          && not inherits
          && not (is_some request.escalation))
        RouteError.unmatched_provider
    let start = inherited_route env parent request
    route ←
        (if not inherits
            && not (given request.provider)
            && (chosen || is_some request.escalation || not (filled model))
          then apply_policy env catalog request start
          else ok start)
    let adjusted =
        if not inherits && not chosen && not (is_some request.escalation)
        then apply_child_env model provider thinking route
        else route
    finish_route catalog request (apply_request catalog request adjusted)

  unfoldable pub select_root_default : RouteEnv → List RouteModel → Resolved (Option Route)
  select_root_default env catalog = do
    provider ← configured_policy_provider env
    elim (newest_family catalog worker_definition.family provider
        worker_definition.thinking_level) [
          | none ↦ do refuse (is_some env.routing_provider) RouteError.no_family; ok none
          | some model ↦ do
            validate_thinking worker_definition.thinking_level (some model)
            ok (
                some (record {
                  provider = model.provider;
                  model = model.id;
                  thinking_level = worker_definition.thinking_level;
                  profile = codes "worker";
                  source = Source.profile;
                  policy_revision = policy_revision;
                  escalation = none;
                  justification = none;
                }))
        ]
