-- ===== src/Tests/Files.antt =====
-- Paths of changed files.
use lemuria.Prelude.{
  Text, codes, true, false, List, [], ◌∷◌, All, elem, ◌==◌, has_prefix, contains, join, split, ◌≡◌,
  refl,
}
use lemuria.Glob.{glob, glob_from, star, class_rest, ranges, get_esc}
use lemuria.Model.Event.{FileStatus, ChangedFile}
use lemuria.Vcs.Helpers.{
  trim_prefix, split_stars, matches_parts, some_segment, matches_path, add_path, add_file,
  add_files, get_all_file_paths, get_file_paths, some_pattern, filter_files_by_patterns,
}
use lemuria.Vcs.Filter.{IsKept, filter_files_by_patterns-IsKept}
use lemuria.Vcs.Paths.{IsNamed, IsUnique, get_all_file_paths-IsNamed}

abbrev file : Text → Text → FileStatus → ChangedFile
file name previous status = record {
  filename = name;
  previous_filename = previous;
  status = status;
  additions = 1;
  deletions = 0;
  changes = 1;
  patch = [];
}

abbrev files : List ChangedFile
files =
    file (codes "a.yaml") [] FileStatus.added
    ∷ file (codes "b.yaml") (codes "a.yaml") FileStatus.renamed
    ∷ file (codes "c.yaml") (codes "d.yaml") FileStatus.renamed
    ∷ []

paths_run :
    get_all_file_paths files
    ≡ codes "a.yaml" ∷ codes "b.yaml" ∷ codes "c.yaml" ∷ codes "d.yaml" ∷ []
unfolding get_all_file_paths add_files add_file add_path ◌==◌
paths_run = refl

stars_run : matches_path (codes "apps/**/*.yaml") (codes "apps/shop/prod/values.yaml") ≡ true
unfolding matches_path split_stars trim_prefix matches_parts some_segment glob glob_from star
    has_prefix contains join split ◌==◌
stars_run = refl

class_run : glob (codes "v[0-9^]?*.[!a-]") (codes "v^1x.y") ≡ false
unfolding glob glob_from star class_rest ranges get_esc ◌==◌
class_run = refl

get_all_file_paths-IsNamed_example :
    All (IsNamed (get_all_file_paths files)) files × IsUnique (get_all_file_paths files)
get_all_file_paths-IsNamed_example = get_all_file_paths-IsNamed files

filter_files_by_patterns-IsKept_example :
    IsKept (codes "*.yaml" ∷ []) [] (filter_files_by_patterns files (codes "*.yaml" ∷ []))
    × ((q : Text)
        → some_pattern (codes "*.yaml" ∷ []) q ≡ true
        → elem q (get_file_paths files) ≡ true
        → elem q (get_file_paths (filter_files_by_patterns files (codes "*.yaml" ∷ []))) ≡ true)
filter_files_by_patterns-IsKept_example =
    filter_files_by_patterns-IsKept files (codes "*.yaml" ∷ [])
