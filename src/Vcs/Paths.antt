-- ===== src/Vcs/Paths.antt =====
-- internal/vcs/helpers.go: GetAllFilePaths names every touched path, and each once.
use lemuria.Prelude.{
  Text, true, false, not, ◌&&◌, ◌||◌, List, [], ◌∷◌, ◌++◌, All, elem, ◌==◌, eq_iff, eq_refl, ◌≡◌,
  refl, inl, inr, Bool-cases, arith,
}
use lemuria.Model.Event.{ChangedFile, is_renamed}
use lemuria.Vcs.Helpers.{add_path, add_file, add_files, get_all_file_paths}

-- No path stands in a list twice.
abbrev pub IsUnique : List Text → Type 0
IsUnique [] = Unit
IsUnique (p ∷ ps) = (elem p ps ≡ false) × IsUnique ps

elem-append : (q : Text) (ps qs : List Text) → elem q (ps ++ qs) ≡ elem q ps || elem q qs
elem-append q [] qs = refl
elem-append q (p ∷ ps) qs = ground (arith, elem-append q ps qs)

IsUnique-append :
    (ps : List Text) (p : Text) → elem p ps ≡ false → IsUnique ps → IsUnique (ps ++ p ∷ [])
IsUnique-append [] p h u = (refl, tt)
IsUnique-append (q ∷ ps) p h (n, u) = (
  ground (arith, n, h, elem-append q ps (p ∷ []), eq_iff p q, eq_iff q p),
  IsUnique-append ps p (ground (arith, h)) u,
)

add_path-IsUnique : (p : Text) (ps : List Text) → IsUnique ps → IsUnique (add_path p ps)
unfolding add_path
add_path-IsUnique p ps u = elim (Bool-cases (elem p ps)) [
  | inl e ↦ rw e u
  | inr e ↦ rw e (IsUnique-append ps p e u)
]

elem-add_path : (p : Text) (ps : List Text) → elem p (add_path p ps) ≡ true
unfolding add_path
elem-add_path p ps = ground (arith, elem-append p ps (p ∷ []), eq_refl p)

elem-add_path_kept :
    (q p : Text) (ps : List Text) → elem q ps ≡ true → elem q (add_path p ps) ≡ true
unfolding add_path
elem-add_path_kept q p ps h = ground (arith, h, elem-append q ps (p ∷ []))

-- The paths of a file are in a list: its name, and for a renamed file the name that it had.
abbrev pub IsNamed : List Text → ChangedFile → Type 0
IsNamed paths f =
    (elem f.filename paths ≡ true)
    × (is_renamed f.status ≡ true
        → (f.previous_filename == []) ≡ false
        → elem f.previous_filename paths ≡ true)

add_file-IsUnique : (f : ChangedFile) (ps : List Text) → IsUnique ps → IsUnique (add_file f ps)
unfolding add_file
add_file-IsUnique f ps u =
    elim (Bool-cases (not (f.previous_filename == []) && is_renamed f.status)) [
      | inl e ↦ rw e (add_path-IsUnique f.previous_filename _ (add_path-IsUnique f.filename ps u))
      | inr e ↦ rw e (add_path-IsUnique f.filename ps u)
    ]

elem-add_file :
    (f : ChangedFile) (ps : List Text) (q : Text) → elem q ps ≡ true → elem q (add_file f ps) ≡ true
unfolding add_file
elem-add_file f ps q h =
    let named = elem-add_path_kept q f.filename ps h in
    ground (arith, named, elem-add_path_kept q f.previous_filename (add_path f.filename ps) named)

add_file-IsNamed : (f : ChangedFile) (ps : List Text) → IsNamed (add_file f ps) f
unfolding add_file
add_file-IsNamed f ps =
    let named = elem-add_path f.filename ps in
    let again = add_path f.filename ps in
    (
      ground (arith, named, elem-add_path_kept f.filename f.previous_filename again named),
      λ r n. ground (arith, r, n, elem-add_path f.previous_filename again),
    )

elem-add_files :
    (fs : List ChangedFile) (ps : List Text) (q : Text)
    → elem q ps ≡ true
    → elem q (add_files fs ps) ≡ true
unfolding add_files
elem-add_files [] ps q h = h
elem-add_files (f ∷ fs) ps q h = elem-add_files fs (add_file f ps) q (elem-add_file f ps q h)

add_files-IsUnique :
    (fs : List ChangedFile) (ps : List Text) → IsUnique ps → IsUnique (add_files fs ps)
unfolding add_files
add_files-IsUnique [] ps u = u
add_files-IsUnique (f ∷ fs) ps u = add_files-IsUnique fs (add_file f ps) (add_file-IsUnique f ps u)

add_files-IsNamed : (fs : List ChangedFile) (ps : List Text) → All (IsNamed (add_files fs ps)) fs
unfolding add_files
add_files-IsNamed [] ps = tt
add_files-IsNamed (f ∷ fs) ps =
    let (name, previous) = add_file-IsNamed f ps in
    (
      (
        elem-add_files fs (add_file f ps) f.filename name,
        λ r n. elem-add_files fs (add_file f ps) f.previous_filename (previous r n),
      ),
      add_files-IsNamed fs (add_file f ps),
    )

-- The paths of changed files hold each file's name and, for a renamed file, the name that it had,
-- and hold no path twice.
pub get_all_file_paths-IsNamed :
    (files : List ChangedFile)
    → All (IsNamed (get_all_file_paths files)) files × IsUnique (get_all_file_paths files)
unfolding get_all_file_paths
get_all_file_paths-IsNamed files = (add_files-IsNamed files [], add_files-IsUnique files [] tt)
