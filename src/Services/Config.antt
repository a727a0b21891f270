-- ===== src/Services/Config.antt =====
-- internal/config/config.go: the settings that the commands read.
use lemuria.Prelude.{ℕ, Text, codes, Bool, Option, List, [], ◌∷◌}

-- The fields of `DefaultsConfig` and `ArgoCDConfig` that the commands read.
pub record Config : Type 0 where
  pub require_approval : Bool
  pub auto_merge : Bool
  pub skip_no_changes : Bool
  pub merge_method : Text
  pub delete_source_branch : Bool
  pub protected_branches : List Text
  pub sync_timeout : ℕ
  pub temp_app_timeout : ℕ
  pub diff_mode : Text

pub record ApplicationMapping : Type 0 where
  pub name : Text
  pub paths : List Text
  pub application_set : Text

pub record SyncRequirement : Type 0 where
  pub name : Text
  pub require_approval : Bool
  pub allowed_users : List Text

-- .lemuria.yaml
pub record RepoConfig : Type 0 where
  pub version : ℕ
  pub autoplan : Option Bool
  pub require_approval : Option Bool
  pub auto_merge : Option Bool
  pub skip_no_changes : Option Bool
  pub cr_paths : List Text
  pub applications : List ApplicationMapping
  pub sync_requirements : List SyncRequirement

abbrev pub default_protected_branches : List Text
default_protected_branches =
    codes "main" ∷ codes "master" ∷ codes "develop" ∷ codes "development" ∷ []
