-- ===== src/Routing/Request.antt =====
-- The checks of `resolveRoute` on the request alone (extensions/ypi/internal/model-routing.ts). `trim`
-- is the string method.
use ypi.Prelude.{
  ℕ, Bool, true, false, ◌&&◌, ◌||◌, not, Option, none, some, [], ◌∷◌, Text, text_eq, codes, ◌==◌,
}
use ypi.Routing.{
  RouteRequest, RouteError, Resolved, ok, ◌>>◌, refuse, filled, given, text_of, one_of, profiles,
  inherit_profile, is_high_effort,
}

abbrev pub is_some : {A : Type 0} → Option A → Bool
is_some none = false
is_some (some a) = true

module _ (trim : Text → Text) where
  abbrev pub given_text : Option Text → Bool
  given_text none = false
  given_text (some t) = filled (trim t)

  abbrev pub stage_of : RouteRequest → ℕ
  stage_of request = elim request.escalation [ none ↦ 0 | some e ↦ e.stage ]

  -- The checks of an escalation.
  unfoldable pub validate_escalation : RouteRequest → Resolved (Unit {0})
  validate_escalation request = elim request.escalation [
    | none ↦ ok tt
    | some e ↦ do
      refuse
          (not (filled (trim e.previous_attempt))
            || not (filled (trim e.issue))
            || not (e.stage == 1 || e.stage == 2)
            || not (one_of (codes "reasoning" ∷ codes "correctness" ∷ []) e.kind))
          RouteError.invalid_escalation
      refuse
          (given request.provider
            || given request.model
            || given request.thinking_level
              && not (is_high_effort (text_of request.thinking_level)))
          RouteError.escalation_combined
  ]

  -- The checks of `resolveRoute` on the request alone.
  unfoldable pub validate_request : Text → RouteRequest → Resolved (Unit {0})
  validate_request name request = do
    refuse (not (one_of profiles name)) RouteError.unknown_profile
    refuse
        ((is_some request.provider || is_some request.model)
          && (not (given_text request.provider) || not (given_text request.model)))
        RouteError.incomplete_pair
    refuse
        (is_some request.profile
          && text_eq name inherit_profile
          && (given request.provider
              || given request.model
              || given request.thinking_level
              || is_some request.escalation
              || given request.justification))
        RouteError.inherit_combined
    refuse (given request.profile && not (text_eq name inherit_profile) && given request.provider)
        RouteError.profile_and_pair
    refuse (is_some request.escalation && given request.profile) RouteError.escalated_profile
    validate_escalation request
    refuse
        (is_high_effort (text_of request.thinking_level)
          && not request.user_chosen_high_effort
          && not (given_text request.justification && stage_of request == 2))
        RouteError.unjustified_effort
