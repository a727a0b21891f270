-- ===== src/Tests/Detect.antt =====
-- The mappings of a repository's configuration decide about an application.
use lemuria.Prelude.{
  Text, codes, true, false, none, some, Option, Bool, List, [], ◌∷◌, ◌≡◌, refl, ◌==◌, contains,
  split, join,
}
use lemuria.Model.Application.{Application, existing}
use lemuria.Services.Config.{RepoConfig, ApplicationMapping}
use lemuria.Vcs.Helpers.{
  filter_files_by_patterns, filter_from, trim_prefix, split_stars, matches_parts, matches_path,
}
use lemuria.Glob.{glob}
use lemuria.Commands.Sync.Requirements.{is_pattern_match, is_regex}
use lemuria.Commands.Detect.Paths.{path_clean, path_join, clean_segment, resolve_value_file_path}
use lemuria.Commands.Detect.Match.{touches, is_app_affected}
use lemuria.Commands.Detect.Affected.{classified, Changes, IsListing}
use lemuria.Commands.Detect.Listing.{classified-IsListing}
use lemuria.Commands.Detect.Mappings.{any_named, any_named_touched, is_app_affected-named}

abbrev shop : Application
shop = record {
  name = codes "shop";
  namespace = codes "argocd";
  project = codes "default";
  repo_url = codes "https://git/shop";
  path = codes "deploy";
  target_revision = codes "main";
  sources = [];
  application_set_name = [];
  auto_sync_enabled = false;
  change_type = existing;
  source_file = [];
  is_generated_app = false;
}

abbrev mapping : Text → Text → ApplicationMapping
mapping name path = record { name = name; paths = path ∷ []; application_set = [] }

abbrev configured : RepoConfig
configured = record {
  version = 1;
  autoplan = none;
  require_approval = none;
  auto_merge = none;
  skip_no_changes = none;
  cr_paths = [];
  applications =
      mapping (codes "sh*") (codes "**") ∷ mapping (codes "shop") (codes "charts/*.yaml") ∷ [];
  sync_requirements = [];
}

-- No expression compiles.
abbrev no_match : Text → Text → Option Bool
no_match pattern name = none

abbrev same : Text → Text
same t = t

shop_plain : is_pattern_match (codes "shop") ≡ false
unfolding is_pattern_match is_regex
shop_plain = refl

shop_named : any_named (codes "shop") configured.applications ≡ true
unfolding ◌==◌
shop_named = refl

-- The file lies under the application's path, and a pattern's mapping has it: neither counts.
is_app_affected-named_example :
    is_app_affected no_match same same shop
      (codes "https://git/shop")
      (codes "deploy/app.yaml" ∷ [])
      (some configured)
    ≡ any_named_touched (codes "shop") (codes "deploy/app.yaml" ∷ []) configured.applications
is_app_affected-named_example =
    is_app_affected-named no_match same same shop (codes "https://git/shop")
      (codes "deploy/app.yaml" ∷ []) configured shop_plain shop_named

deploy_untouched :
    any_named_touched (codes "shop") (codes "deploy/app.yaml" ∷ []) configured.applications ≡ false
unfolding touches filter_files_by_patterns filter_from trim_prefix split_stars matches_parts ◌==◌
    matches_path contains glob
deploy_untouched = refl

chart_touched :
    any_named_touched (codes "shop") (codes "charts/app.yaml" ∷ []) configured.applications ≡ true
unfolding touches filter_files_by_patterns filter_from trim_prefix split_stars matches_parts ◌==◌
    matches_path contains glob
chart_touched = refl

resolved_up :
    resolve_value_file_path (codes "charts/app") (codes "../common/values.yaml")
    ≡ codes "charts/common/values.yaml"
unfolding resolve_value_file_path path_join path_clean clean_segment ◌==◌ split join
resolved_up = refl

abbrev listed : List Application
listed = shop ∷ []

shop_listed : IsListing (listed, codes "shop" ∷ [])
shop_listed = (refl, λ name e. e)

abbrev cart : Application
cart = record shop { name = codes "cart"; source_file = codes "cart.yaml" }

abbrev found : Changes
found = record {
  new_apps = shop ∷ [];
  modified = cart ∷ [];
  deleted_apps = cart ∷ [];
  sets = some (shop ∷ [], shop ∷ cart ∷ []);
}

classified-IsListing_example :
    IsListing (classified (codes "cart.yaml" ∷ []) found (listed, codes "shop" ∷ []))
classified-IsListing_example =
    classified-IsListing (codes "cart.yaml" ∷ []) found (listed, codes "shop" ∷ []) shop_listed
