-- ===== src/Routing/Resolving/Catalog.antt =====
-- A route that is resolved against a catalog is one of the catalog.
use ypi.Prelude.{
  ℕ, ◌≡◌, refl, sym, subst, Bool, true, false, ◌&&◌, ◌||◌, not, some, List, [], ◌∷◌, Text, text_eq,
  eq_of_text_eq, codes, Elem, Bool-cases, Option-cases, inl, inr, and-true, arith, if◌then◌else◌,
}
use ypi.Routing.{
  RouteModel, RouteRequest, ParentRoute, RouteEnv, Route, RouteError, ok, >>=-ok, refuse_then,
  refuse-ok, filled, given, one_of, levels,
}
use ypi.Routing.Resolving.{same_model, find_model, validate_thinking, finish_route, resolve_route}

-- What a level needs of a model.
abbrev pub supports : RouteModel → Text → Bool
supports model level =
    one_of levels level
    && (text_eq level (codes "off") || model.reasoning)
    && not (one_of model.unsupported level)

pub record IsOffered (catalog : List RouteModel) (route : Route) : Type 0 where
  pub model : RouteModel
  pub listed : Elem model catalog
  pub provider : model.provider ≡ route.provider
  pub id : model.id ≡ route.model
  pub level : (not (filled route.thinking_level) || supports model route.thinking_level) ≡ true

find_model-Elem :
    (catalog : List RouteModel) (provider id : Text) (m : RouteModel)
    → find_model catalog provider id ≡ some m
    → Elem m catalog × (m.provider ≡ provider) × (m.id ≡ id)
find_model-Elem [] provider id m h = absurd (cc (h))
find_model-Elem (x ∷ xs) provider id m h = elim (Bool-cases (same_model provider id x)) [
  | inl hit ↦
      let one : x ≡ m = cc (rw hit at h) in
      let (p, i) = and-true _ _ hit in
      rw (sym one) (inl refl, eq_of_text_eq x.provider provider p, eq_of_text_eq x.id id i)
  | inr miss ↦ let (e, p, i) = find_model-Elem xs provider id m (rw miss at h) in (inr e, p, i)
]

validate_thinking-supports :
    (level : Text) (m : RouteModel) {u : Unit {0}}
    → validate_thinking level (some m) ≡ ok u
    → supports m level ≡ true
unfolding validate_thinking
validate_thinking-supports level m h =
    let (known, h1) = refuse_then (not (one_of levels level)) RouteError.invalid_level _ h in
    let (thinks, h2) =
      refuse_then (not (text_eq level (codes "off")) && not m.reasoning) RouteError.no_thinking _
        h1 in
    supported (one_of levels level) (text_eq level (codes "off")) m.reasoning
      (one_of m.unsupported level) known thinks (refuse-ok _ _ h2)
  where
    supported :
        (a b c d : Bool)
        → not a ≡ false
        → (not b && not c) ≡ false
        → d ≡ false
        → (a && (b || c) && not d) ≡ true
    supported a b c d h k l = ground (arith, h, k, l)

checked_level :
    (request : RouteRequest) (m : RouteModel) (level : Text)
    → (if filled level && (true || given request.thinking_level)
        then validate_thinking level (some m)
        else ok tt)
      ≡ ok tt
    → (not (filled level) || supports m level) ≡ true
checked_level request m level h = elim (Bool-cases (filled level)) [
  | inl some_level ↦ rw some_level (validate_thinking-supports level m (rw some_level at h))
  | inr no_level ↦ rw no_level refl
]

finish_route-IsOffered :
    (catalog : List RouteModel) (request : RouteRequest) (route r : Route)
    → finish_route (some catalog) request route ≡ ok r
    → IsOffered catalog r
unfolding finish_route
finish_route-IsOffered catalog request route r h =
    let (complete, h1) = refuse_then _ RouteError.no_route _ h in
    let (listed, h2) = refuse_then _ RouteError.not_in_catalog _ h1 in
    let (_, level, h3) = >>=-ok _ (λ _. ok route) h2 in
    let same : route ≡ r = cc (h3) in
    elim (Option-cases (find_model catalog route.provider route.model)) [
      | inl none_found ↦
          absurd (
            missing (filled route.provider) (filled route.model) complete (rw none_found at listed))
      | inr (m, found) ↦
          let (e, p, i) = find_model-Elem catalog route.provider route.model m found in
          subst (IsOffered catalog) same (record {
            model = m;
            listed = e;
            provider = p;
            id = i;
            level = checked_level request m route.thinking_level (rw found at level);
          })
    ]
  where
    missing :
        (p m : Bool)
        → ((not p || not m) && true) ≡ false
        → (true && not false && p && m) ≡ false
        → ⊥
    missing p m h k = ground (arith, h, k)

module _ (trim : Text → Text) where
  pub resolve_route-IsOffered :
      (env : RouteEnv) (parent : ParentRoute) (depth : ℕ) (request : RouteRequest)
      (catalog : List RouteModel) (route : Route)
      → resolve_route trim env parent depth request (some catalog) ≡ ok route
      → IsOffered catalog route
  unfolding resolve_route
  resolve_route-IsOffered env parent depth request catalog route h =
      let (_, _, h1) = >>=-ok _ _ h in
      let (_, _, h2) = >>=-ok _ _ h1 in
      let (_, _, h3) = >>=-ok _ _ h2 in finish_route-IsOffered catalog request _ route h3
