-- ===== src/FilePath.antt =====
-- path/filepath on Unix, as the store uses it: Clean, Join and the prefix test on cleaned paths.
pub mod Parts
use heartpost.Common.{ℕ, Bool, true, false, ◌||◌, List, [], ◌∷◌, ◌++◌, ◌==◌, if◌then◌else◌}
use heartpost.Common.Text.{Text, text_eq, is_empty, has_prefix}
use mathlib.Core.List.{reverse}

abbrev pub slash : ℕ
slash = b'/'

-- strings.Split(p, "/"); the first argument is the part that is being read, reversed.
unfoldable pub split_from : Text → Text → List Text
split_from cur [] = reverse cur ∷ []
split_from cur (c ∷ s) =
    if c == slash then reverse cur ∷ split_from [] s else split_from (c ∷ cur) s

abbrev pub dot : Text
dot = b'.' ∷ []

abbrev pub dot_dot : Text
dot_dot = b'.' ∷ b'.' ∷ []

-- `..` takes the component before it away; a rooted path has none above its root.
unfoldable pub pop_part : Bool → List Text → List Text
pop_part true [] = []
pop_part false [] = dot_dot ∷ []
pop_part rooted (top ∷ rest) = if text_eq top dot_dot then dot_dot ∷ top ∷ rest else rest

-- The components that remain, the last first.
unfoldable pub push_parts : Bool → List Text → List Text → List Text
unfolding pop_part
push_parts rooted stack [] = stack
push_parts rooted stack (part ∷ parts) =
    push_parts rooted
      (if is_empty part || text_eq part dot
        then stack
        else if text_eq part dot_dot
        then pop_part rooted stack
        else part ∷ stack)
      parts

unfoldable pub join_parts : List Text → Text
join_parts [] = []
join_parts (part ∷ []) = part
join_parts (part ∷ next ∷ parts) = part ++ slash ∷ join_parts (next ∷ parts)

abbrev pub is_rooted : Text → Bool
is_rooted [] = false
is_rooted (c ∷ s) = c == slash

-- filepath.Clean
unfoldable pub clean : Text → Text
unfolding push_parts join_parts split_from
clean p =
    let body = join_parts (reverse (push_parts (is_rooted p) [] (split_from [] p))) in
    if is_rooted p then slash ∷ body else if is_empty body then dot else body

-- filepath.Join of two elements; empty elements are left out.
unfoldable pub join : Text → Text → Text
unfolding clean
join a b =
    if is_empty a
    then (if is_empty b then [] else clean b)
    else if is_empty b
    then clean a
    else clean (a ++ slash ∷ b)

-- Whether `p` stands strictly below the directory `base`.
unfoldable pub is_below : Text → Text → Bool
is_below base p = has_prefix p (base ++ slash ∷ [])

-- The text up to the last slash, that slash included.
unfoldable pub up_to_slash : Text → Text
up_to_slash [] = []
up_to_slash (c ∷ s) = elim (up_to_slash s) [
  | [] ↦ (if c == slash then c ∷ [] else [])
  | d ∷ t ↦ c ∷ d ∷ t
]

-- filepath.Dir
unfoldable pub dir_of : Text → Text
unfolding up_to_slash clean
dir_of p = clean (up_to_slash p)
