-- ===== src/Vcs/Filter.antt =====
-- internal/vcs/helpers.go: FilterFilesByPatterns keeps the files that match, one of each name.
use mathlib.Core.Path.{subst}
use lemuria.Prelude.{
  Text, true, false, not, ◌&&◌, ◌||◌, List, [], ◌∷◌, elem, ◌==◌, eq_refl, eq_iff, ◌≡◌, refl, ap,
  ◌∙◌, inl, inr, Bool-cases, arith,
}
use lemuria.Model.Event.{ChangedFile}
use lemuria.Vcs.Helpers.{some_pattern, filter_from, filter_files_by_patterns, get_file_paths}

-- Each file matches a pattern, and no name comes again or is among those seen.
abbrev pub IsKept : List Text → List Text → List ChangedFile → Type 0
IsKept patterns seen [] = Unit
IsKept patterns seen (f ∷ fs) =
    (some_pattern patterns f.filename ≡ true)
    × (elem f.filename seen ≡ false)
    × IsKept patterns (f.filename ∷ seen) fs

filter_from-IsKept :
    (patterns seen : List Text) (fs : List ChangedFile)
    → IsKept patterns seen (filter_from patterns seen fs)
unfolding filter_from
filter_from-IsKept patterns seen [] = tt
filter_from-IsKept patterns seen (f ∷ fs) =
    elim (Bool-cases (some_pattern patterns f.filename && not (elem f.filename seen))) [
      | inl e ↦
          rw e (
            ground (arith, e),
            ground (arith, e),
            filter_from-IsKept patterns (f.filename ∷ seen) fs,
          )
      | inr e ↦ rw e (filter_from-IsKept patterns seen fs)
    ]

-- A name is among those seen or those kept.
abbrev pub IsCovered : List Text → List ChangedFile → Text → Type 0
IsCovered seen fs q = elem q seen || elem q (get_file_paths fs) ≡ true

IsCovered-later :
    (patterns seen : List Text) (f : ChangedFile) (fs : List ChangedFile) (q : Text)
    → IsCovered (f.filename ∷ seen) (filter_from patterns (f.filename ∷ seen) fs) q
    → IsCovered seen (filter_from patterns seen fs) q
    → IsCovered seen (filter_from patterns seen (f ∷ fs)) q
unfolding filter_from get_file_paths
IsCovered-later patterns seen f fs q h k =
    elim (Bool-cases (some_pattern patterns f.filename && not (elem f.filename seen))) [
      | inl e ↦ rw e (ground (arith, h))
      | inr e ↦ rw e k
    ]

IsCovered-here :
    (patterns seen : List Text) (f : ChangedFile) (fs : List ChangedFile)
    → some_pattern patterns f.filename ≡ true
    → IsCovered seen (filter_from patterns seen (f ∷ fs)) f.filename
unfolding filter_from get_file_paths
IsCovered-here patterns seen f fs m = elim (Bool-cases (elem f.filename seen)) [
  | inl e ↦ rw (m, e) refl
  | inr e ↦ rw (m, e, eq_refl f.filename) refl
]

filter_from-IsCovered :
    (patterns seen : List Text) (fs : List ChangedFile) (q : Text)
    → some_pattern patterns q ≡ true
    → elem q (get_file_paths fs) ≡ true
    → IsCovered seen (filter_from patterns seen fs) q
unfolding get_file_paths
filter_from-IsCovered patterns seen [] q m h = absurd (ground (arith, h))
filter_from-IsCovered patterns seen (f ∷ fs) q m h = elim (Bool-cases (f.filename == q)) [
  | inl e ↦
      let same : f.filename ≡ q = (eq_iff f.filename q).0 e in
      subst (IsCovered seen (filter_from patterns seen (f ∷ fs))) same
        (IsCovered-here patterns seen f fs (ap (some_pattern patterns) same ∙ m))
  | inr e ↦
      let later : elem q (get_file_paths fs) ≡ true = ground (arith, e, h) in
      IsCovered-later patterns seen f fs q
        (filter_from-IsCovered patterns (f.filename ∷ seen) fs q m later)
        (filter_from-IsCovered patterns seen fs q m later)
]

-- The files that the filter keeps match a pattern, no two of them have one name, and each name of a
-- file that matches is the name of a file that is kept.
pub filter_files_by_patterns-IsKept :
    (files : List ChangedFile) (patterns : List Text)
    → IsKept patterns [] (filter_files_by_patterns files patterns)
      × ((q : Text)
          → some_pattern patterns q ≡ true
          → elem q (get_file_paths files) ≡ true
          → elem q (get_file_paths (filter_files_by_patterns files patterns)) ≡ true)
unfolding filter_files_by_patterns
filter_files_by_patterns-IsKept files patterns =
    (filter_from-IsKept patterns [] files, λ q m h. filter_from-IsCovered patterns [] files q m h)
