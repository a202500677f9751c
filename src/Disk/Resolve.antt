-- ===== src/Disk/Resolve.antt =====
-- `Path::exists`: a path is resolved component by component, each directory on the way must be
-- there, and a file or a directory may stand at its end. A path that leads above the working
-- directory leaves the model.
use validator_guardian.Prelude.{
  Bool, true, false, ◌||◌, ◌&&◌, Option, none, some, List, [], ◌∷◌, ◌++◌, ◌==◌, map,
}
use validator_guardian.Text.{Text, text_eq}
use validator_guardian.Disk.{Disk}

-- a component before those of the rest, of which the first may go on with it
abbrev prepend : Text → List Text → List Text
prepend t [] = t ∷ []
prepend t (w ∷ ws) = (t ++ w) ∷ ws

-- what stands between the slashes
components : Text → List Text
components [] = [] ∷ []
components (c ∷ t) =
    let rest = components t in elim (c == b'/') [ true ↦ [] ∷ rest | false ↦ prepend (c ∷ []) rest ]

pub data Component : Type 0 where
  current : Component
  up : Component
  down : Component

-- "", "." and ".." or a name
component : Text → Component
component [] = current
component (c ∷ []) = elim (c == b'.') [ true ↦ current | false ↦ down ]
component (c ∷ d ∷ []) = elim (c == b'.' && d == b'.') [ true ↦ up | false ↦ down ]
component (c ∷ d ∷ e ∷ t) = down

is_prefix : List Text → List Text → Bool
is_prefix [] _ = true
is_prefix (a ∷ xs) [] = false
is_prefix (a ∷ xs) (b ∷ bs) = text_eq a b && is_prefix xs bs

-- the names on the way, from "/" or from the working directory
named : List Text → List Text
named [] = []
named (c ∷ cs) = elim (component c) [ current ↦ named cs | up ↦ c ∷ named cs | down ↦ c ∷ named cs ]

abbrev root : List Text
root = (b'/' ∷ []) ∷ []

start : Text → List Text
start [] = []
start (c ∷ t) = elim (c == b'/') [ true ↦ root | false ↦ [] ]

abbrev place : Text → List Text
place path = start path ++ named (components path)

-- one directory back
back : List Text → Option (List Text)
back [] = none
back (a ∷ []) = elim (text_eq a (b'/' ∷ [])) [ true ↦ some root | false ↦ some [] ]
back (a ∷ b ∷ places) = elim (back (b ∷ places)) [ none ↦ none | some rest ↦ some (a ∷ rest) ]

any_dir : List Text → List Text → Bool
any_dir here [] = false
any_dir here (d ∷ ds) = is_prefix here (place d) || any_dir here ds

any_file : List Text → List Text → Bool
any_file here [] = false
any_file here (f ∷ fs) = is_prefix here (place f) && is_prefix (place f) here || any_file here fs

-- the working directory and "/" are there
is_directory : List Text → List Text → Bool
is_directory dirs [] = true
is_directory dirs (a ∷ here) = text_eq a (b'/' ∷ []) && is_prefix here [] || any_dir (a ∷ here) dirs

walk : List Text → List Text → List Text → Option (List Text)
walk dirs here [] = some here
walk dirs here (c ∷ cs) = elim (is_directory dirs here) [
  | false ↦ none
  | true ↦ elim (component c) [
    | current ↦ walk dirs here cs
    | up ↦ elim (back here) [ none ↦ none | some above ↦ walk dirs above cs ]
    | down ↦ walk dirs (here ++ (c ∷ [])) cs
  ]
]

unfoldable pub exists : Text → Disk → Bool
unfolding walk is_directory any_file any_dir back start named is_prefix component components
exists [] disk = false
exists (c ∷ t) disk = elim (walk disk.dirs (start (c ∷ t)) (components (c ∷ t))) [
  | none ↦ false
  | some here ↦ is_directory disk.dirs here || any_file here (map (λ f. f.0) disk.files)
]
