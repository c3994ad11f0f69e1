-- ===== src/FilePath.antt =====
-- Go's path/filepath on Unix: Clean, Join, Base and Dir as the program calls them, and the test
-- "at or below" that the program writes out as `p == root || strings.HasPrefix(p, root+"/")`.
pub mod Laws
pub mod Cleaning
pub mod Dots
pub mod Joining
pub mod Fields
use nimo_os.Base.{
  ℕ, Bool, true, false, ◌&&◌, ◌||◌, List, [], ◌∷◌, ◌++◌, reverse, Option, none, some, ◌==◌,
  if◌then◌else◌,
}
use nimo_os.Text.{Text, eqb, is_empty, has_prefix, split, join, trim_right}

abbrev pub slash : ℕ
slash = b'/'

abbrev pub dot : Text
dot = b'.' ∷ []

abbrev pub dotdot : Text
dotdot = b'.' ∷ b'.' ∷ []

abbrev pub is_rooted : Text → Bool
is_rooted [] = false
is_rooted (c ∷ s) = c == slash

-- `..` against the segments so far, the last one first.
unfoldable pub pop_segment : Bool → List Text → List Text
pop_segment true [] = []
pop_segment false [] = dotdot ∷ []
pop_segment rooted (top ∷ rest) = if eqb top dotdot then dotdot ∷ (top ∷ rest) else rest

unfoldable pub push_segment : Bool → List Text → Text → List Text
unfolding pop_segment
push_segment rooted stack seg =
    if is_empty seg || eqb seg dot
    then stack
    else if eqb seg dotdot
    then pop_segment rooted stack
    else seg ∷ stack

unfoldable pub push_segments : Bool → List Text → List Text → List Text
unfolding push_segment
push_segments rooted stack [] = stack
push_segments rooted stack (seg ∷ segs) = push_segments rooted (push_segment rooted stack seg) segs

-- The segments of the cleaned path.
unfoldable pub segments : Text → List Text
unfolding push_segments split
segments p = reverse (push_segments (is_rooted p) [] (split slash p))

-- The path of some segments.
unfoldable pub render : Bool → List Text → Text
unfolding join
render true segs = slash ∷ join slash segs
render false [] = dot
render false (s ∷ segs) = join slash (s ∷ segs)

-- filepath.Clean
unfoldable pub clean : Text → Text
clean p = render (is_rooted p) (segments p)

-- filepath.Join of two elements: empty elements are ignored.
unfoldable pub join_path : Text → Text → Text
join_path [] [] = []
join_path [] (c ∷ q) = clean (c ∷ q)
join_path (c ∷ p) [] = clean (c ∷ p)
join_path (c ∷ p) (d ∷ q) = clean ((c ∷ p) ++ (slash ∷ (d ∷ q)))

-- p == root || strings.HasPrefix(p, root+"/")
unfoldable pub covers : Text → Text → Bool
unfolding eqb has_prefix
covers root p = eqb p root || has_prefix p (root ++ slash ∷ [])

-- The last field of a path, and the path up to and with its last slash.
abbrev pub last_field : List Text → Text
last_field [] = []
last_field (s ∷ []) = s
last_field (s ∷ (t ∷ segs)) = last_field (t ∷ segs)

abbrev pub up_to_slash : Text → Text
up_to_slash [] = []
up_to_slash (c ∷ p) =
    let rest = up_to_slash p in
    if is_empty rest then (if c == slash then c ∷ [] else []) else c ∷ rest

abbrev pub non_empty_base : Text → Text
non_empty_base [] = slash ∷ []
non_empty_base (c ∷ p) = last_field (split slash (c ∷ p))

-- filepath.Base
unfoldable pub base : Text → Text
unfolding trim_right split
base [] = dot
base (c ∷ p) = non_empty_base (trim_right slash (c ∷ p))

-- filepath.Dir
unfoldable pub dir : Text → Text
dir p = clean (up_to_slash p)
