-- ===== src/ImplementScope.antt =====
-- extensions/ypi/internal/implement-scope.ts: the path prefixes that an implementer may write.
-- The case folding of `scopesOverlap`, made of Unicode functions, is the parameter `fold`.
pub mod Paths
pub mod Inside
pub mod Overlap
pub mod Reduction
mod Tests
use ypi.Prelude.{
  ℕ, ◌+◌, ◌-◌, ◌*◌, Bool, true, false, Option, none, some, List, [], ◌∷◌, ◌++◌, Text, codes,
  text_eq, starts_with, is_absolute, length, any, map, ◌==◌, ltb, leb, if◌then◌else◌, ◌||◌, ◌&&◌,
}
use ypi.Posix.{slash, dot, dotdot, split, normalize}

pub data PathError : Type 0 where
  unbounded absolute escaping metadata : PathError
  no_scope too_many : PathError

pub data Checked {ℓ} (A : Type ℓ) : Type ℓ where
  ok : A → Checked A
  err : PathError → Checked A

infixl 5 ◌>>=◌
abbrev pub ◌>>=◌ {ℓ κ} : {A : Type ℓ} {B : Type κ} → Checked A → (A → Checked B) → Checked B
ok a >>= k = k a
err e >>= k = err e

-- `/[\u0000-\u001f\u007f]/`, and the backslash.
abbrev pub is_forbidden : ℕ → Bool
is_forbidden c = leb c 31 || c == 127 || c == 92

abbrev is_empty : Text → Bool
is_empty [] = true
is_empty (_ ∷ _) = false

unfoldable pub is_unbounded : Text → Bool
is_unbounded value = is_empty value || ltb 1024 (length value) || any is_forbidden value

unfoldable pub escapes : Text → Bool
escapes t = text_eq t dotdot || starts_with (dotdot ++ slash ∷ []) t

abbrev pub git : Text
git = codes ".git"

unfoldable pub normalize_repository_relative_path : Text → Checked Text
normalize_repository_relative_path value =
    if is_unbounded value
    then err unbounded
    else if is_absolute value
    then err absolute
    else if escapes (normalize value)
    then err escaping
    else if any (λ segment. text_eq segment git) (split (normalize value))
    then err metadata
    else ok (normalize value)

-- Whether one owner covers a normal path.
unfoldable pub covers : Text → Text → Bool
covers candidate owner =
    text_eq owner dot || text_eq candidate owner || starts_with (owner ++ slash ∷ []) candidate

abbrev within_any : List Text → Checked Text → Bool
within_any scope (err e) = false
within_any scope (ok candidate) = any (covers candidate) scope

unfoldable pub path_is_within_implement_scope : Text → List Text → Bool
path_is_within_implement_scope path scope =
    within_any scope (normalize_repository_relative_path path)

-- `[...text].map(codePointAt)`: surrogate pairs are joined.
unfoldable pub code_points : Text → List ℕ
code_points [] = []
code_points (c ∷ []) = c ∷ []
code_points (c ∷ d ∷ cs) =
    let pair = (65536 + (c - 55296) * 1024 + (d - 56320)) ∷ code_points cs in
    let single = c ∷ code_points (d ∷ cs) in
    if leb 55296 c && leb c 56319 && leb 56320 d && leb d 57343 then pair else single

-- `compareCodePoints(left, right) <= 0`.
unfoldable pub precedes : List ℕ → List ℕ → Bool
precedes [] right = true
precedes (x ∷ left) [] = false
precedes (x ∷ left) (y ∷ right) = let rest = precedes left right in if x == y then rest else ltb x y

-- `Array.prototype.sort` with that comparison, which is stable.
unfoldable pub insert_sorted : Text → List Text → List Text
insert_sorted t [] = t ∷ []
insert_sorted t (u ∷ us) =
    if precedes (code_points t) (code_points u) then t ∷ u ∷ us else u ∷ insert_sorted t us

unfoldable pub sort : List Text → List Text
sort [] = []
sort (t ∷ ts) = insert_sorted t (sort ts)

-- `[...new Set(entries)]`.
unfoldable pub unique : List Text → List Text → List Text
unique seen [] = []
unique seen (t ∷ ts) =
    let fresh = t ∷ unique (t ∷ seen) ts in
    let again = unique seen ts in if any (text_eq t) seen then again else fresh

unfoldable pub normalize_all : List Text → Checked (List Text)
normalize_all [] = ok []
normalize_all (entry ∷ entries) = do
  first ← normalize_repository_relative_path entry
  rest ← normalize_all entries
  ok (first ∷ rest)

-- The loop that drops an entry which an earlier one covers.
unfoldable pub reduce : List Text → List Text → List Text
reduce reduced [] = reduced
reduce reduced (candidate ∷ candidates) =
    let skip = reduce reduced candidates in
    let push = reduce (reduced ++ candidate ∷ []) candidates in
    if any (λ owner. path_is_within_implement_scope candidate (owner ∷ [])) reduced
    then skip
    else push

unfoldable pub normalize_implement_scope : Option (List Text) → Checked (List Text)
normalize_implement_scope none = err no_scope
normalize_implement_scope (some []) = err no_scope
normalize_implement_scope (some (entry ∷ entries)) =
    if ltb 64 (length (entry ∷ entries))
    then err too_many
    else (normalize_all (entry ∷ entries) >>= λ normalized.
        ok (reduce [] (sort (unique [] normalized))))

module _ (fold : Text → Text) where
  unfoldable pub scopes_overlap : List Text → List Text → Bool
  scopes_overlap left right =
      any (λ candidate. path_is_within_implement_scope candidate (map fold right)) (map fold left)
      || any (λ candidate. path_is_within_implement_scope candidate (map fold left))
          (map fold right)
