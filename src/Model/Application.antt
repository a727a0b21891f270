-- ===== src/Model/Application.antt =====
-- internal/models/application.go: applications, resources and the kinds of change. The status and
-- health codes are texts of other libraries.
use lemuria.Prelude.{
  Option, Text, codes, Bool, true, false, List, [], ◌∷◌, ◌++◌, map, not, ◌==◌, if◌then◌else◌,
}

-- `unset` is the empty string.
pub data ApplicationChangeType : Type 0 where
  unset existing new deleted : ApplicationChangeType

-- `unset` is the empty string; `none` is the source's "none".
pub data DiffAction : Type 0 where
  unset create update delete none : DiffAction

pub record ResourceKey : Type 0 where
  pub api_version : Text
  pub kind : Text
  pub name : Text
  pub namespace : Text

unfoldable pub resource_string : ResourceKey → Text
resource_string r =
    if not (r.namespace == [])
    then r.namespace ++ (codes "/" ++ (r.kind ++ (codes "/" ++ r.name)))
    else r.kind ++ (codes "/" ++ r.name)

pub record HelmSource : Type 0 where
  pub value_files : List Text
  pub values : Text

pub record ApplicationSource : Type 0 where
  pub repo_url : Text
  pub path : Text
  pub target_revision : Text
  pub chart : Text
  pub ref : Text
  pub helm : Option HelmSource

pub record Application : Type 0 where
  pub name : Text
  pub namespace : Text
  pub project : Text
  pub repo_url : Text
  pub path : Text
  pub target_revision : Text
  pub sources : List ApplicationSource
  pub application_set_name : Text
  pub auto_sync_enabled : Bool
  pub change_type : ApplicationChangeType
  pub source_file : Text
  pub is_generated_app : Bool

-- The test `len(a.Sources) > 0`.
unfoldable pub is_multi_source : Application → Bool
is_multi_source a = elim a.sources [ [] ↦ false | _ ↦ true ]

unfoldable pub get_repo_urls : Application → List Text
unfolding is_multi_source
get_repo_urls a =
    if is_multi_source a
    then map (λ (s : ApplicationSource). s.repo_url) a.sources
    else a.repo_url ∷ []
