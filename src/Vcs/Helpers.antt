-- ===== src/Vcs/Helpers.antt =====
-- internal/vcs/helpers.go: the paths of changed files. Where the code keeps a map of the names that
-- it has seen, the map has the names of the list that it builds, which stands for both.
use lemuria.Prelude.{
  Text, codes, Bool, true, false, not, ◌&&◌, ◌||◌, List, [], ◌∷◌, ◌++◌, map, drop, length, elem,
  has_prefix, contains, join, split, if◌then◌else◌, ◌==◌, nat_eq, push_first,
}
use lemuria.Glob.{glob}
use lemuria.Model.Event.{ChangedFile, is_renamed}

-- strings.TrimPrefix
unfoldable pub trim_prefix : Text → Text → Text
trim_prefix s prefix = if has_prefix s prefix then drop (length prefix) s else s

-- The parts between the places of `**`: strings.Split takes them from the left.
unfoldable pub split_stars : Text → List Text
split_stars [] = [] ∷ []
split_stars (c ∷ []) = (c ∷ []) ∷ []
split_stars (c ∷ d ∷ s) =
    let behind = split_stars s in
    let next = split_stars (d ∷ s) in
    if nat_eq c b'*' && nat_eq d b'*' then [] ∷ behind else push_first c next

abbrev pub last : Text → List Text → Text
last s [] = s
last s (t ∷ ts) = last t ts

-- The loop over the segments, with the last of them.
unfoldable pub some_segment : Text → Text → List Text → Bool
some_segment suffix name [] = false
some_segment suffix name (s ∷ segments) =
    glob suffix (join (codes "/") (s ∷ segments))
    || glob suffix name
    || some_segment suffix name segments

abbrev pub matches_segments : Text → List Text → Bool
matches_segments suffix segments = some_segment suffix (last [] segments) segments

unfoldable pub matches_parts : Text → Text → Text → Bool
unfolding trim_prefix some_segment
matches_parts prefix suffix path =
    if not (has_prefix path prefix)
    then false
    else if suffix == []
    then true
    else matches_segments suffix (split b'/' (trim_prefix path prefix))

abbrev pub matches_split : Text → Text → List Text → Bool
matches_split pattern path (prefix ∷ rest ∷ []) =
    matches_parts prefix (trim_prefix rest (codes "/")) path
matches_split pattern path _ = glob pattern path

unfoldable pub matches_path : Text → Text → Bool
unfolding split_stars matches_parts
matches_path pattern path =
    if contains pattern (codes "**")
    then matches_split pattern path (split_stars pattern)
    else glob pattern path

abbrev pub some_pattern : List Text → Text → Bool
some_pattern [] path = false
some_pattern (p ∷ patterns) path = matches_path p path || some_pattern patterns path

unfoldable pub filter_from : List Text → List Text → List ChangedFile → List ChangedFile
filter_from patterns seen [] = []
filter_from patterns seen (f ∷ files) =
    let with_f = filter_from patterns (f.filename ∷ seen) files in
    let without = filter_from patterns seen files in
    if some_pattern patterns f.filename && not (elem f.filename seen) then f ∷ with_f else without

unfoldable pub filter_files_by_patterns : List ChangedFile → List Text → List ChangedFile
unfolding filter_from
filter_files_by_patterns files patterns = filter_from patterns [] files

unfoldable pub get_file_paths : List ChangedFile → List Text
get_file_paths files = map (λ f. f.filename) files

unfoldable pub add_path : Text → List Text → List Text
add_path path paths = if elem path paths then paths else paths ++ path ∷ []

unfoldable pub add_file : ChangedFile → List Text → List Text
unfolding add_path
add_file f paths =
    if not (f.previous_filename == []) && is_renamed f.status
    then add_path f.previous_filename (add_path f.filename paths)
    else add_path f.filename paths

unfoldable pub add_files : List ChangedFile → List Text → List Text
unfolding add_file
add_files [] paths = paths
add_files (f ∷ files) paths = add_files files (add_file f paths)

unfoldable pub get_all_file_paths : List ChangedFile → List Text
unfolding add_files
get_all_file_paths files = add_files files []
