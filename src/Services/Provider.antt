-- ===== src/Services/Provider.antt =====
-- internal/vcs/client.go: what the commands call of the provider of the pull request, and the clock.
use lemuria.Prelude.{ℕ, Text, Bool, List}
use lemuria.Effect.{Action}
use lemuria.Model.Event.{PullRequestDetail, ChangedFile}

pub record Provider : Type 1 where
  pub State : Type 0
  pub get_changed_files : Text → Text → ℕ → Action State (List ChangedFile)
  pub get_repo_config : Text → Text → Text → Action State Text
  -- A map of files has one entry for each path.
  pub get_file_contents : Text → Text → List Text → Text → Action State (List (Text × Text))
  pub get_files_by_pattern :
      Text → Text → Text → List Text → List Text → Action State (List (Text × Text))
  pub get_pr : Text → Text → ℕ → Action State PullRequestDetail
  pub is_pr_approved : Text → Text → ℕ → Action State Bool
  -- The result is the id of the comment.
  pub post_comment : Text → Text → ℕ → Text → Bool → Action State ℕ
  pub update_comment : Text → Text → ℕ → ℕ → Text → Action State (Unit {0})
  pub add_reaction : Text → Text → ℕ → Text → Action State (Unit {0})
  pub invalidate_plan_comments : Text → Text → ℕ → Action State (Unit {0})
  pub merge_pull_request : Text → Text → ℕ → Text → Text → Text → Action State (Unit {0})
  pub delete_branch : Text → Text → Text → Action State (Unit {0})
  pub max_comment_size : ℕ
  -- time.Now()
  pub now : Action State ℕ
