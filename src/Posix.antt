-- ===== src/Posix.antt =====
-- What the sources use of Node's `path.posix`: splitting, joining and `normalize`, for relative
-- paths. A path is resolved segment by segment on a stack, its innermost segment on top.
pub mod Segments
pub mod Normal
use ypi.Prelude.{
  ℕ, Bool, true, false, List, [], ◌∷◌, ◌++◌, Text, text_eq, ◌==◌, if◌then◌else◌, ◌||◌, is_absolute,
}
use mathlib.Core.List.{reverse}

abbrev pub slash : ℕ
slash = b'/'

abbrev pub dot : Text
dot = b'.' ∷ []

abbrev pub dotdot : Text
dotdot = b'.' ∷ b'.' ∷ []

abbrev pub push_head : ℕ → List Text → List Text
push_head c [] = (c ∷ []) ∷ []
push_head c (s ∷ ss) = (c ∷ s) ∷ ss

-- `t.split("/")`.
unfoldable pub split : Text → List Text
split [] = [] ∷ []
split (c ∷ cs) = let rest = split cs in if c == slash then [] ∷ rest else push_head c rest

-- `segments.join("/")`.
unfoldable pub join : List Text → Text
join [] = []
join (s ∷ []) = s
join (s ∷ t ∷ ss) = s ++ slash ∷ join (t ∷ ss)

-- ".." takes the segment before it away, unless that is ".." too or there is none.
unfoldable pub climb : List Text → List Text
climb [] = dotdot ∷ []
climb (s ∷ st) = if text_eq s dotdot then dotdot ∷ s ∷ st else st

unfoldable pub resolve : List Text → Text → List Text
resolve st s =
    if text_eq s [] || text_eq s dot then st else if text_eq s dotdot then climb st else s ∷ st

unfoldable pub resolve_all : List Text → List Text → List Text
resolve_all st [] = st
resolve_all st (s ∷ ss) = resolve_all (resolve st s) ss

unfoldable pub ends_with_slash : Text → Bool
ends_with_slash [] = false
ends_with_slash (c ∷ []) = c == slash
ends_with_slash (c ∷ d ∷ cs) = ends_with_slash (d ∷ cs)

-- The text of a stack, and the slash that the path ended in.
unfoldable pub print : List Text → Bool → Text
print [] true = b'.' ∷ b'/' ∷ []
print [] false = dot
print (s ∷ st) true = join (reverse (s ∷ st)) ++ slash ∷ []
print (s ∷ st) false = join (reverse (s ∷ st))

-- `path.posix.normalize` on a non-empty relative path.
unfoldable pub normalize : Text → Text
normalize t = print (resolve_all [] (split t)) (ends_with_slash t)

-- ".." at the root stays there.
unfoldable pub climb_root : List Text → List Text
climb_root [] = []
climb_root (s ∷ st) = st

unfoldable pub resolve_root : List Text → List Text → List Text
resolve_root st [] = st
resolve_root st (s ∷ ss) =
    resolve_root
      (if text_eq s [] || text_eq s dot
        then st
        else if text_eq s dotdot
        then climb_root st
        else s ∷ st)
      ss

-- The segments of an absolute path, from the root down.
unfoldable pub absolute_segments : Text → List Text
absolute_segments t = reverse (resolve_root [] (split t))

-- `path.posix.resolve` of one path, under the working directory `cwd`, which is absolute.
unfoldable pub resolve_path : Text → Text → Text
resolve_path cwd t =
    slash ∷ join (absolute_segments (if is_absolute t then t else cwd ++ slash ∷ t))

-- What is left of both lists after their common front.
unfoldable pub strip_common : List Text → List Text → List Text × List Text
strip_common [] ts = ([], ts)
strip_common (s ∷ ss) [] = (s ∷ ss, [])
strip_common (s ∷ ss) (t ∷ ts) =
    let rest = strip_common ss ts in if text_eq s t then rest else (s ∷ ss, t ∷ ts)

abbrev pub climbing : List Text → List Text
climbing [] = []
climbing (s ∷ ss) = dotdot ∷ climbing ss

-- `path.posix.relative` between absolute paths.
unfoldable pub relative : Text → Text → Text
relative from to =
    let (up, down) = strip_common (absolute_segments from) (absolute_segments to) in
    join (climbing up ++ down)
