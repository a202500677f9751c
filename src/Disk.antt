-- ===== src/Disk.antt =====
-- The part of the file system that the program uses, and actions on it. A file is found by the
-- text of its path: `..`, symbolic links and case folding are not resolved. `denied` tells the
-- paths at which the environment refuses `create_dir_all` or `write`; a refused write leaves the
-- file as it was.
pub mod Laws
pub mod Resolve
use validator_guardian.Prelude.{
  map, ◌≡◌, refl, Bool, Option, none, some, List, [], ◌∷◌, arith, if◌then◌else◌, ◌==◌, ◌++◌, ◌||◌,
  true, false,
}
use validator_guardian.Text.{Text, Bytes, text_eq, text_eq_iff}
use validator_guardian.Outcome.{Outcome, ok, err, panic, io_failure}

abbrev pub Files : Type 0
Files = List (Text × Bytes)

unfoldable pub lookup : Text → Files → Option Bytes
lookup p [] = none
lookup p ((q, c) ∷ fs) = if text_eq q p then some c else lookup p fs

unfoldable pub insert : Text → Bytes → Files → Files
insert p c [] = (p, c) ∷ []
insert p c ((q, d) ∷ fs) = if text_eq q p then (p, c) ∷ fs else (q, d) ∷ insert p c fs

unfoldable pub erase : Text → Files → Files
erase p [] = []
erase p ((q, c) ∷ fs) = let rest = erase p fs in if text_eq q p then rest else (q, c) ∷ rest

pub lookup-insert :
    (p q : Text) (c : Bytes) (fs : Files)
    → lookup q (insert p c fs) ≡ (if text_eq p q then some c else lookup q fs)
unfolding lookup insert
lookup-insert p q c [] = refl
lookup-insert p q c ((r, d) ∷ fs) =
    ground (arith, text_eq_iff p q, text_eq_iff r p, text_eq_iff r q, lookup-insert p q c fs)

pub lookup-erase :
    (p q : Text) (fs : Files) → lookup q (erase p fs) ≡ (if text_eq p q then none else lookup q fs)
unfolding lookup erase
lookup-erase p q [] = ground arith
lookup-erase p q ((r, d) ∷ fs) =
    ground (arith, text_eq_iff p q, text_eq_iff r p, text_eq_iff r q, lookup-erase p q fs)

pub record Disk : Type 0 where
  pub files : Files
  pub dirs : List Text
  pub denied : Text → Bool

-- An action keeps what it wrote before it failed.
abbrev pub Exec : Type 0 → Type 0
Exec A = Disk → Outcome A × Disk

-- what follows a call, by how the call ended
abbrev pub continue : {A B : Type 0} → Outcome A × Disk → (A → Exec B) → Outcome B × Disk
continue s f = elim s.0 [ ok a ↦ f a s.1 | err e ↦ (err e, s.1) | panic ↦ (panic, s.1) ]

infixl 5 ◌>>=◌ ◌>>◌
abbrev pub ◌>>=◌ : {A B : Type 0} → Exec A → (A → Exec B) → Exec B
◌>>=◌ m f d = continue (m d) f

abbrev pub ◌>>◌ : {A B : Type 0} → Exec A → Exec B → Exec B
m >> k = m >>= λ _. k

abbrev pub lift : {A : Type 0} → Outcome A → Exec A
lift r d = (r, d)

abbrev pub pure : {A : Type 0} → A → Exec A
pure a d = (ok a, d)

-- `[dir, name].iter().collect::<PathBuf>()` for a `dir` that ends in a slash: an absolute `name`
-- takes its place
unfoldable pub join : Text → Text → Text
join dir [] = dir
join dir (c ∷ name) = if c == b'/' then c ∷ name else dir ++ (c ∷ name)

unfoldable pub has_slash : Text → Bool
has_slash [] = false
has_slash (c ∷ t) = c == b'/' || has_slash t

-- `Path::parent`, with its slash, of a path that does not end in one
unfoldable pub parent : Text → Text
parent [] = []
parent (c ∷ t) = let rest = parent t in if has_slash (c ∷ t) then c ∷ rest else []

unfoldable pub strip_dir : Text → Text → Option Text
strip_dir [] t = some t
strip_dir (c ∷ dir) [] = none
strip_dir (c ∷ dir) (d ∷ t) = let rest = strip_dir dir t in if c == d then rest else none

-- the first component of a path
unfoldable pub first_component : Text → Text
first_component [] = []
first_component (c ∷ t) = let rest = first_component t in if c == b'/' then [] else c ∷ rest

unfoldable pub is_among : Text → List Text → Bool
is_among name [] = false
is_among name (n ∷ names) = text_eq n name || is_among name names

-- the names of the files and directories that stand in `dir`, each once, by the paths of all
unfoldable pub names_in : Text → List Text → List Text
names_in dir [] = []
names_in dir (p ∷ paths) =
    let rest = names_in dir paths in
    elim (strip_dir dir p) [
      | none ↦ rest
      | some [] ↦ rest
      | some (c ∷ t) ↦
          let name = first_component (c ∷ t) in if is_among name rest then rest else name ∷ rest
    ]

unfoldable pub is_dir : Text → List Text → Bool
is_dir dir [] = false
is_dir dir (d ∷ ds) = text_eq d dir || is_dir dir ds

-- `std::fs`
unfoldable pub create_dir_all : Text → Exec Unit
create_dir_all dir disk =
    if disk.denied dir
    then (err io_failure, disk)
    else (ok tt, record disk { dirs = dir ∷ disk.dirs })

unfoldable pub write_file : Text → Bytes → Exec Unit
write_file path contents disk =
    if disk.denied path
    then (err io_failure, disk)
    else (ok tt, record disk { files = insert path contents disk.files })

unfoldable pub read_file : Text → Exec Bytes
read_file path disk = elim (lookup path disk.files) [
  | none ↦ (err io_failure, disk)
  | some c ↦ (ok c, disk)
]

unfoldable pub remove_file : Text → Exec Unit
remove_file path disk = elim (lookup path disk.files) [
  | none ↦ (err io_failure, disk)
  | some c ↦ (ok tt, record disk { files = erase path disk.files })
]

-- The entries of a directory, where `none` is an entry that cannot be read.
unfoldable pub read_dir : Text → Exec (List (Option Text))
read_dir dir disk =
    if is_dir dir disk.dirs
    then (
      ok (
          map (λ name. if disk.denied (dir ++ name) then none else some name)
            (names_in dir (map (λ f. f.0) disk.files ++ disk.dirs))),
      disk,
    )
    else (err io_failure, disk)
