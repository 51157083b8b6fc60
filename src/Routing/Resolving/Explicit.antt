-- ===== src/Routing/Resolving/Explicit.antt =====
-- What a request names itself goes before the policy, the environment and the parent.
use ypi.Prelude.{ℕ, ◌≡◌, refl, subst, true, Option, some, List, Text, Bool-cases, inl, inr}
use ypi.Routing.{
  RouteModel, RouteRequest, ParentRoute, RouteEnv, Route, RouteError, ok, >>=-ok, refuse_then,
  filled, given,
}
use ypi.Routing.Resolving.{
  name_pair, name_level, name_justification, finish_route, apply_request, resolve_route,
}
use ypi.Routing.Request.{given_text}

finish_route-same :
    (catalog : Option (List RouteModel)) (request : RouteRequest) (route r : Route)
    → finish_route catalog request route ≡ ok r
    → route ≡ r
unfolding finish_route
finish_route-same catalog request route r h =
    let (_, h1) = refuse_then _ RouteError.no_route _ h in
    let (_, h2) = refuse_then _ RouteError.not_in_catalog _ h1 in
    let (_, _, h3) = >>=-ok _ (λ _. ok route) h2 in cc (h3)

-- A route that names this pair.
abbrev pub Names : Text → Text → Route → Type 0
Names provider model route = (route.provider ≡ provider) × (route.model ≡ model)

name_pair-Names :
    (catalog : Option (List RouteModel)) (request : RouteRequest) (route : Route) (p m : Text)
    → request.provider ≡ some p
    → request.model ≡ some m
    → filled p ≡ true
    → filled m ≡ true
    → Names p m (name_pair catalog request route)
unfolding name_pair
name_pair-Names catalog request route p m hp hm fp fm = rw (hp, hm, fp, fm) (refl, refl)

name_level-Names :
    (request : RouteRequest) (route : Route) (p m : Text)
    → Names p m route
    → Names p m (name_level request route)
unfolding name_level
name_level-Names request route p m h = elim (Bool-cases (given request.thinking_level)) [
  | inl e ↦ rw e h
  | inr e ↦ rw e h
]

module _ (trim : Text → Text) where
  name_justification-Names :
      (request : RouteRequest) (route : Route) (p m : Text)
      → Names p m route
      → Names p m (name_justification trim request route)
  unfolding name_justification
  name_justification-Names request route p m h =
      elim (Bool-cases (given_text trim request.justification)) [ inl e ↦ rw e h | inr e ↦ rw e h ]

  pub resolve_route-Names :
      (env : RouteEnv) (parent : ParentRoute) (depth : ℕ) (request : RouteRequest)
      (catalog : Option (List RouteModel)) (p m : Text) (route : Route)
      → request.provider ≡ some p
      → request.model ≡ some m
      → filled p ≡ true
      → filled m ≡ true
      → resolve_route trim env parent depth request catalog ≡ ok route
      → Names p m route
  unfolding resolve_route apply_request
  resolve_route-Names env parent depth request catalog p m route hp hm fp fm h =
      let (_, _, h1) = >>=-ok _ _ h in
      let (_, _, h2) = >>=-ok _ _ h1 in
      let (start, _, h3) = >>=-ok _ _ h2 in
      subst (Names p m) (finish_route-same catalog request _ route h3) (
        name_justification-Names request _ p m
          (name_level-Names request _ p m (name_pair-Names catalog request _ p m hp hm fp fm)))
