-- ===== src/Commands/Detect/Match.antt =====
-- internal/commands/executor.go: isAppAffected and matchByRepoConfig, and the list of affected
-- applications.
use lemuria.Prelude.{
  Text, ◌==◌, ◌||◌, ◌&&◌, if◌then◌else◌, Bool, true, false, not, elem, Option, none, some, List, [],
  ◌∷◌, ◌++◌, map, length, ltb,
}
use lemuria.Model.Application.{Application, ApplicationChangeType}
use lemuria.Model.Event.{ChangedFile, FileStatus}
use lemuria.Services.Config.{RepoConfig, ApplicationMapping}
use lemuria.Vcs.Helpers.{filter_files_by_patterns}
use lemuria.Commands.TargetRevision.{app_sources_from_repo}
use lemuria.Commands.Sync.Requirements.{match_app_name, is_pattern_match}
use lemuria.Commands.Detect.Paths.{file_matches_app_sources}

abbrev pub files_to_changed_files : List Text → List ChangedFile
files_to_changed_files paths =
    map
      (λ p. record {
        filename = p;
        previous_filename = [];
        status = FileStatus.other [];
        additions = 0;
        deletions = 0;
        changes = 0;
        patch = [];
      })
      paths

unfoldable pub touches : List Text → ApplicationMapping → Bool
touches files m = ltb 0 (length (filter_files_by_patterns (files_to_changed_files files) m.paths))

-- Whether the loop reaches a mapping of the kind (`b`: a pattern) that handles the application, and
-- whether one of them is touched.
module _ (matches : Text → Text → Bool) where
  abbrev pub handles : Bool → Text → ApplicationMapping → Bool
  handles b app m =
      (if b then is_pattern_match m.name else not (is_pattern_match m.name)) && matches m.name app

  abbrev pub any_handled : Bool → Text → List ApplicationMapping → Bool
  any_handled b app [] = false
  any_handled b app (m ∷ ms) = handles b app m || any_handled b app ms

  abbrev pub any_touched : Bool → Text → List Text → List ApplicationMapping → Bool
  any_touched b app files [] = false
  any_touched b app files (m ∷ ms) =
      (handles b app m && touches files m) || any_touched b app files ms

  -- `none` where no mapping decides.
  unfoldable pub match_by_repo_config : Text → List Text → Option RepoConfig → Option Bool
  match_by_repo_config app files none = none
  match_by_repo_config app files (some config) =
      if any_touched false app files config.applications
      then some true
      else if any_handled false app config.applications
      then some false
      else if any_touched true app files config.applications
      then some true
      else none

module _ (match_string : Text → Text → Option Bool) (quote_meta to_lower : Text → Text) where
  abbrev pub any_file : Application → Text → List Text → Bool
  any_file app repo_url [] = false
  any_file app repo_url (f ∷ files) =
      file_matches_app_sources to_lower repo_url f app || any_file app repo_url files

  abbrev pub by_sources : Application → Text → List Text → Bool
  by_sources app repo_url files =
      app_sources_from_repo to_lower app repo_url && any_file app repo_url files

  unfoldable pub is_app_affected : Application → Text → List Text → Option RepoConfig → Bool
  is_app_affected app repo_url files config =
      elim (match_by_repo_config (match_app_name match_string quote_meta) app.name files config) [
        | some b ↦ b
        | none ↦ by_sources app repo_url files
      ]

unfoldable pub update_affected :
    List Application → Text → ApplicationChangeType → Text → List Application
update_affected [] name change_type source_file = []
update_affected (a ∷ affected) name change_type source_file =
    let rest = update_affected affected name change_type source_file in
    if a.name == name
    then record a {
      change_type = change_type;
      source_file = if a.source_file == [] then source_file else a.source_file;
    }
      ∷ affected
    else a ∷ rest

-- With the names that were detected already.
unfoldable pub update_or_append_affected :
    List Application → Application → List Text → List Application × List Text
update_or_append_affected affected app detected =
    if not (elem app.name detected)
    then (affected ++ (app ∷ []), app.name ∷ detected)
    else (update_affected affected app.name app.change_type app.source_file, detected)
