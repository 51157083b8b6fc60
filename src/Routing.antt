-- ===== src/Routing.antt =====
-- The choice of provider, model and thinking level for a call:
-- extensions/ypi/internal/model-routing.ts and config/model-routing.json.
pub mod Families
pub mod Request
pub mod Resolving
pub mod Tests
use ypi.Prelude.{
  ℕ, ◌≡◌, refl, Bool, true, false, Option, none, some, List, [], ◌∷◌, Text, text_eq, codes, any,
  if◌then◌else◌, ◌==◌,
}

-- `RouteModel`; of `thinkingLevelMap` the levels that it maps to `null`.
pub record RouteModel : Type 0 where
  pub provider : Text
  pub id : Text
  pub reasoning : Bool
  pub input : Option (List Text)
  pub unsupported : List Text

pub record Escalation : Type 0 where
  pub previous_attempt : Text
  pub issue : Text
  pub kind : Text
  pub stage : ℕ

-- `RoutingRequest`.
pub record RouteRequest : Type 0 where
  pub profile : Option Text
  pub provider : Option Text
  pub model : Option Text
  pub thinking_level : Option Text
  pub escalation : Option Escalation
  pub justification : Option Text
  pub user_chosen_high_effort : Bool

-- `ParentRoute`.
pub record ParentRoute : Type 0 where
  pub provider : Option Text
  pub model : Option Text
  pub thinking_level : Option Text

-- The variables of the environment that are read.
pub record RouteEnv : Type 0 where
  pub routing_provider : Option Text
  pub provider : Option Text
  pub model : Option Text
  pub thinking_level : Option Text
  pub child_models : Option Text
  pub child_model : Option Text
  pub child_providers : Option Text
  pub child_provider : Option Text
  pub child_thinking_levels : Option Text
  pub child_thinking_level : Option Text

pub data Source : Type 0 where
  explicit child_env profile escalation inherit catalog_unavailable : Source

-- `ResolvedRoute`.
pub record Route : Type 0 where
  pub provider : Text
  pub model : Text
  pub thinking_level : Text
  pub profile : Text
  pub source : Source
  pub policy_revision : Text
  pub escalation : Option Escalation
  pub justification : Option Text

pub data RouteError : Type 0 where
  unnamed_provider unknown_profile incomplete_pair inherit_combined profile_and_pair : RouteError
  escalated_profile invalid_escalation escalation_combined unjustified_effort : RouteError
  unmatched_provider no_catalog no_family no_route not_in_catalog : RouteError
  invalid_level no_thinking unsupported_level : RouteError

pub data Resolved (A : Type 0) : Type 0 where
  ok : A → Resolved A
  err : RouteError → Resolved A

infixl 5 ◌>>=◌ ◌>>◌
unfoldable pub ◌>>=◌ : {A B : Type 0} → Resolved A → (A → Resolved B) → Resolved B
ok a >>= f = f a
err e >>= f = err e

abbrev pub ◌>>◌ : {B : Type 0} → Resolved (Unit {0}) → Resolved B → Resolved B
m >> k = m >>= λ _. k

-- `if (...) throw ...`.
unfoldable pub refuse : Bool → RouteError → Resolved (Unit {0})
refuse true e = err e
refuse false e = ok tt

pub >>=-ok :
    {A B : Type 0} (m : Resolved A) (f : A → Resolved B) {b : B}
    → (m >>= f) ≡ ok b
    → (a : A) × (m ≡ ok a) × (f a ≡ ok b)
unfolding ◌>>=◌
>>=-ok (ok a) f h = (a, refl, h)
>>=-ok (err e) f h = absurd (cc (h))

pub refuse_then :
    {B : Type 0} (b : Bool) (e : RouteError) (m : Resolved B) {x : B}
    → (refuse b e >> m) ≡ ok x
    → (b ≡ false) × (m ≡ ok x)
unfolding ◌>>=◌ refuse
refuse_then true e m h = absurd (cc (h))
refuse_then false e m h = (refl, h)

pub refuse-ok : (b : Bool) (e : RouteError) {u : Unit {0}} → refuse b e ≡ ok u → b ≡ false
unfolding refuse
refuse-ok true e h = absurd (cc (h))
refuse-ok false e h = refl

-- A text that JavaScript takes for true, and `a || b` on texts.
abbrev pub filled : Text → Bool
filled [] = false
filled (_ ∷ _) = true

abbrev pub given : Option Text → Bool
given none = false
given (some t) = filled t

abbrev pub text_of : Option Text → Text
text_of none = []
text_of (some t) = t

abbrev pub or_text : Text → Text → Text
or_text a b = if filled a then a else b

abbrev pub one_of : List Text → Text → Bool
one_of names t = any (text_eq t) names

-- `levels` and `profiles`.
abbrev pub levels : List Text
levels =
    codes "off"
    ∷ codes "minimal"
    ∷ codes "low"
    ∷ codes "medium"
    ∷ codes "high"
    ∷ codes "xhigh"
    ∷ codes "max"
    ∷ []

abbrev pub inherit_profile : Text
inherit_profile = codes "inherit"

abbrev pub profiles : List Text
profiles = codes "worker" ∷ codes "explorer" ∷ codes "reviewer" ∷ inherit_profile ∷ []

abbrev pub is_high_effort : Text → Bool
is_high_effort level = one_of (codes "xhigh" ∷ codes "max" ∷ []) level

-- A family of models and a thinking level, as config/model-routing.json gives them.
pub record Definition : Type 0 where
  pub family : Text
  pub thinking_level : Text

abbrev pub policy_revision : Text
policy_revision = codes "2026-09-22.1"

abbrev pub policy_provider : Text
policy_provider = codes "openai-codex"

abbrev pub worker_definition : Definition
worker_definition = record { family = codes "sol"; thinking_level = codes "medium" }

abbrev pub reviewer_definition : Definition
reviewer_definition = record { family = codes "astra"; thinking_level = codes "high" }

-- `policy.profiles[profile]`.
abbrev pub definition_of : Text → Definition
definition_of name =
    if text_eq name (codes "explorer")
    then record { family = codes "luna"; thinking_level = codes "medium" }
    else if text_eq name (codes "reviewer")
    then reviewer_definition
    else worker_definition

-- The definition and the level for `policy.escalation[stage - 1]`.
abbrev pub escalated_definition : ℕ → Definition
escalated_definition stage =
    if stage == 1
    then record { family = worker_definition.family; thinking_level = codes "high" }
    else record { family = reviewer_definition.family; thinking_level = codes "high" }
