-- ===== src/Routing/Families.antt =====
-- Families of models: `familyVersion` and `newestFamily` of
-- extensions/ypi/internal/model-routing.ts.
pub mod Newest
use ypi.Prelude.{
  ℕ, zero, suc, ◌+◌, ◌-◌, ◌*◌, ◌/◌, ◌%◌, ◌^◌, min, Bool, true, false, ◌&&◌, ◌||◌, not, Option, none,
  some, List, [], ◌∷◌, Text, text_eq, codes, is_digit, keep, ltb, ◌==◌, if◌then◌else◌,
}
use ypi.Routing.{RouteModel, one_of}

-- The digits at the start of a text, as a number behind `n`, and what follows; `any_digit` tells
-- whether there was one.
unfoldable pub numeral : ℕ → Bool → Text → Option (ℕ × Text)
numeral n any_digit [] = if any_digit then some (n, []) else none
numeral n any_digit (c ∷ t) =
    let rest = numeral (n * 10 + (c - b'0')) true t in
    if is_digit c then rest else if any_digit then some (n, c ∷ t) else none

-- `Infinity` stands for every number that rounds to 2 ^ 1024 or more.
abbrev infinity : ℕ
infinity = 2 ^ 1024

-- The distance of the doubles around `n`: the least power of two that leaves 53 bits. The largest
-- finite double needs the factor 2 ^ 971.
unfoldable pub spacing_of : ℕ → ℕ → ℕ → ℕ
spacing_of zero spacing n = spacing
spacing_of (suc fuel) spacing n = elim (ltb (n / spacing) (2 ^ 53)) [
  | true ↦ spacing
  | false ↦ spacing_of fuel (spacing * 2) n
]

-- To the nearest multiple, and halfway to the even one.
unfoldable pub round_to : ℕ → ℕ → ℕ
round_to n spacing =
    if ltb (2 * (n % spacing)) spacing || 2 * (n % spacing) == spacing && n / spacing % 2 == 0
    then n / spacing * spacing
    else (n / spacing + 1) * spacing

-- `Number` of a numeral: the double nearest to its value. The difference of two doubles is zero
-- only if they are equal, and `Infinity - Infinity` counts as zero where the source tests it.
unfoldable pub number : ℕ → ℕ
unfolding spacing_of round_to
number n = min (round_to n (spacing_of 971 1 n)) infinity

abbrev pub after_prefix : Text → Text → Option Text
after_prefix [] t = some t
after_prefix (c ∷ p) [] = none
after_prefix (c ∷ p) (d ∷ t) = if c == d then after_prefix p t else none

abbrev pub families : List Text
families = codes "sol" ∷ codes "luna" ∷ codes "astra" ∷ []

-- `-(sol|luna|astra)$`, for the family that is asked for.
abbrev pub ends_in : Text → Text → ℕ × ℕ → Option (ℕ × ℕ)
ends_in family [] version = none
ends_in family (c ∷ t) version =
    if c == b'-' && one_of families t && text_eq t family then some version else none

abbrev pub minor_of : Text → ℕ → Text → Option (ℕ × ℕ)
minor_of family major [] = none
minor_of family major (c ∷ t) =
    if c == b'.'
    then elim (numeral 0 false t) [
      | none ↦ none
      | some (minor, rest) ↦ ends_in family rest (number major, number minor)
    ]
    else ends_in family (c ∷ t) (number major, 0)

-- `/^gpt-(\d+)(?:\.(\d+))?-(sol|luna|astra)$/`.
unfoldable pub family_version : Text → Text → Option (ℕ × ℕ)
family_version id family = elim (after_prefix (codes "gpt-") id) [
  | none ↦ none
  | some t ↦ elim (numeral 0 false t) [
    | none ↦ none
    | some (major, rest) ↦ minor_of family major rest
  ]
]

abbrev pub is_versioned : Option (ℕ × ℕ) → Bool
is_versioned none = false
is_versioned (some _) = true

-- `input?.includes("text") !== false`.
abbrev pub takes_text : Option (List Text) → Bool
takes_text none = true
takes_text (some kinds) = one_of kinds (codes "text")

-- The filter of `newestFamily`.
unfoldable pub is_candidate : Text → Text → Text → RouteModel → Bool
is_candidate family provider level model =
    text_eq model.provider provider
    && takes_text model.input
    && model.reasoning
    && not (one_of model.unsupported level)
    && is_versioned (family_version model.id family)

-- Candidates have a version.
unfoldable pub version_of : Text → RouteModel → ℕ × ℕ
version_of family model = elim (family_version model.id family) [ none ↦ (0, 0) | some v ↦ v ]

-- `right[0] - left[0] || right[1] - left[1]` is negative: the left one comes first.
abbrev pub is_newer : ℕ × ℕ → ℕ × ℕ → Bool
is_newer left right = ltb right.0 left.0 || left.0 == right.0 && ltb right.1 left.1

-- The stable sort.
unfoldable pub insert : Text → RouteModel → List RouteModel → List RouteModel
insert family x [] = x ∷ []
insert family x (y ∷ ys) =
    let rest = insert family x ys in
    if is_newer (version_of family y) (version_of family x) then y ∷ rest else x ∷ y ∷ ys

unfoldable pub sort_newest : Text → List RouteModel → List RouteModel
sort_newest family [] = []
sort_newest family (x ∷ xs) = insert family x (sort_newest family xs)

abbrev pub first : List RouteModel → Option RouteModel
first [] = none
first (x ∷ _) = some x

unfoldable pub newest_family : List RouteModel → Text → Text → Text → Option RouteModel
newest_family catalog family provider level =
    first (sort_newest family (keep (is_candidate family provider level) catalog))
