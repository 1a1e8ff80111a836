-- ===== src/Text/Path.antt =====
-- Go's package path/filepath, with the separator `/`: paths as their parts.
pub mod Names
pub mod Below
use mathlib.Core.List.{reverse}
use ubuntu_vm_template_build.Base.{
  ℕ, Bool, true, false, not, ◌||◌, List, [], ◌∷◌, ◌++◌, if◌then◌else◌, is_empty, codes, ◌==◌,
}
use ubuntu_vm_template_build.Text.{Text, equal, has_prefix, split, join, trim_right_by}

-- The parts behind a `..`; `stack` is the parts before it, the last one first.
unfoldable pub up : Bool → List Text → List Text
up rooted [] = if rooted then [] else codes ".." ∷ []
up rooted (top ∷ stack) = if equal top (codes "..") then codes ".." ∷ top ∷ stack else stack

unfoldable pub push : Bool → Text → List Text → List Text
push rooted part stack =
    if is_empty part || equal part (codes ".")
    then stack
    else if equal part (codes "..")
    then up rooted stack
    else part ∷ stack

unfoldable pub push_all : Bool → List Text → List Text → List Text
push_all rooted [] stack = stack
push_all rooted (part ∷ parts) stack = push_all rooted parts (push rooted part stack)

abbrev pub is_rooted : Text → Bool
is_rooted path = has_prefix path (codes "/")

-- The parts that `Clean` leaves.
unfoldable pub clean_parts : Text → List Text
unfolding push_all
clean_parts path = reverse (push_all (is_rooted path) (split path b'/') [])

abbrev pub or_dot : Text → Text
or_dot [] = codes "."
or_dot (c ∷ s) = c ∷ s

-- `filepath.Clean`
unfoldable pub clean : Text → Text
unfolding clean_parts
clean path =
    or_dot ((if is_rooted path then codes "/" else []) ++ join (clean_parts path) (codes "/"))

abbrev pub non_empty : List Text → List Text
non_empty [] = []
non_empty (elem ∷ elems) = if is_empty elem then non_empty elems else elem ∷ non_empty elems

abbrev pub clean_joined : List Text → Text
clean_joined [] = []
clean_joined (elem ∷ elems) = clean (join (elem ∷ elems) (codes "/"))

-- `filepath.Join`
unfoldable pub join_path : List Text → Text
join_path elems = clean_joined (non_empty elems)

abbrev pub last_or : Text → List Text → Text
last_or d [] = d
last_or d (part ∷ parts) = last_or part parts

abbrev pub or_root : Text → Text
or_root [] = codes "/"
or_root (c ∷ s) = c ∷ s

-- `filepath.Base`
unfoldable pub base : Text → Text
base path =
    if is_empty path
    then codes "."
    else or_root (last_or [] (split (trim_right_by (λ c. c == b'/') path) b'/'))

-- All parts but the last, each with the separator behind it.
abbrev pub up_to_last : List Text → Text
up_to_last [] = []
up_to_last (part ∷ []) = []
up_to_last (part ∷ next ∷ parts) = part ++ (b'/' ∷ up_to_last (next ∷ parts))

-- `filepath.Dir`
unfoldable pub dir : Text → Text
dir path = clean (up_to_last (split path b'/'))
