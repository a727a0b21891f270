-- ===== src/Commands/Detect/Paths.antt =====
-- internal/commands/executor.go: the paths of an application's sources, and Go's path package, where
-- they are compared.
use lemuria.Prelude.{
  Text, codes, ◌++◌, ◌==◌, ◌||◌, ◌&&◌, if◌then◌else◌, Bool, true, false, not, has_prefix, split,
  join, Option, none, some, List, [], ◌∷◌,
}
use lemuria.Model.Application.{Application, ApplicationSource, HelmSource, is_multi_source}
use lemuria.Vcs.Helpers.{trim_prefix}
use lemuria.Commands.Plan.Render.{cut_slash}
use lemuria.Commands.TargetRevision.{normalize_repo_url}
use lemuria.Commands.Sync.Requirements.{starts_with_slash, ends_with_slash}

-- path.Clean: the segments that are kept, the last first.
unfoldable pub clean_segment : Bool → List Text → Text → List Text
clean_segment rooted kept segment =
    if segment == [] || segment == codes "."
    then kept
    else if segment == codes ".."
    then (elim kept [
      | [] ↦ if rooted then [] else codes ".." ∷ []
      | top ∷ rest ↦ if top == codes ".." then codes ".." ∷ top ∷ rest else rest
    ])
    else segment ∷ kept

abbrev pub clean_segments : Bool → List Text → List Text → List Text
clean_segments rooted kept [] = kept
clean_segments rooted kept (s ∷ segments) =
    clean_segments rooted (clean_segment rooted kept s) segments

abbrev pub rev_onto : List Text → List Text → List Text
rev_onto [] ys = ys
rev_onto (x ∷ xs) ys = rev_onto xs (x ∷ ys)

abbrev pub cleaned : Bool → Text → Text
cleaned rooted body = if rooted then b'/' ∷ body else if body == [] then codes "." else body

unfoldable pub path_clean : Text → Text
path_clean p =
    let rooted = starts_with_slash p in
    cleaned rooted (join (codes "/") (rev_onto (clean_segments rooted [] (split b'/' p)) []))

-- path.Join of two elements
unfoldable pub path_join : Text → Text → Text
path_join a b =
    if a == [] then (if b == [] then [] else path_clean b) else path_clean (a ++ (codes "/" ++ b))

unfoldable pub path_contains : Text → Text → Bool
path_contains dir file =
    if dir == [] || dir == codes "."
    then true
    else has_prefix file (if ends_with_slash dir then dir else dir ++ codes "/")

unfoldable pub resolve_value_file_path : Text → Text → Text
resolve_value_file_path source_path value_file =
    if starts_with_slash value_file
    then path_clean (trim_prefix value_file (codes "/"))
    else if source_path == [] || source_path == codes "."
    then path_clean value_file
    else path_join source_path value_file

-- The entry of the map of references: of two sources with one name the later.
abbrev pub find_ref : Text → List ApplicationSource → Option ApplicationSource
find_ref name [] = none
find_ref name (s ∷ sources) = elim (find_ref name sources) [
  | some later ↦ some later
  | none ↦ if s.ref == name && not (s.ref == []) then some s else none
]

module _ (to_lower : Text → Text) (repo_url file : Text) where
  abbrev pub in_repo : Text → Bool
  in_repo url = normalize_repo_url to_lower url == normalize_repo_url to_lower repo_url

  abbrev pub matches_ref : Option ApplicationSource → Text → Bool
  matches_ref none path = false
  matches_ref (some s) path = in_repo s.repo_url && path_clean path == path_clean file

  -- `$name/path`, without the dollar
  unfoldable pub resolve_ref_value_file : List ApplicationSource → Text → Bool
  resolve_ref_value_file sources value_file = elim (cut_slash value_file) [
    | none ↦ false
    | some p ↦ matches_ref (find_ref p.0 sources) p.1
  ]

  unfoldable pub matches_value_file : List ApplicationSource → ApplicationSource → Text → Bool
  matches_value_file sources s value_file =
      if has_prefix value_file (codes "$")
      then resolve_ref_value_file sources (trim_prefix value_file (codes "$"))
      else in_repo s.repo_url && resolve_value_file_path s.path value_file == file

  abbrev pub any_value_file : List ApplicationSource → ApplicationSource → List Text → Bool
  any_value_file sources s [] = false
  any_value_file sources s (v ∷ vs) = matches_value_file sources s v || any_value_file sources s vs

  abbrev pub value_files_of : Option HelmSource → List Text
  value_files_of none = []
  value_files_of (some h) = h.value_files

  unfoldable pub source_matches : List ApplicationSource → ApplicationSource → Bool
  source_matches sources s =
      (in_repo s.repo_url && not (s.path == []) && path_contains s.path file)
      || any_value_file sources s (value_files_of s.helm)

  abbrev pub any_source : List ApplicationSource → List ApplicationSource → Bool
  any_source sources [] = false
  any_source sources (s ∷ ss) = source_matches sources s || any_source sources ss

  unfoldable pub file_matches_app_sources : Application → Bool
  file_matches_app_sources app =
      if is_multi_source app
      then any_source app.sources app.sources
      else not (app.path == []) && path_contains app.path file
