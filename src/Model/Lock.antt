-- ===== src/Model/Lock.antt =====
-- internal/models/lock.go: the lock of an application. Numbers of pull requests are not negative;
-- a time is the number of nanoseconds since some start.
use lemuria.Prelude.{ℕ, Text, Bool, List, Option, ◌&&◌, ◌==◌, nat_eq, true, ◌≡◌, eq_iff, arith}
use lemuria.Model.Application.{ResourceKey, DiffAction, ApplicationChangeType}

pub record PlanDiffEntry : Type 0 where
  pub resource : ResourceKey
  pub action : DiffAction
  pub diff : Text

pub record Lock : Type 0 where
  pub application : Text
  pub pr_number : ℕ
  pub repo : Text
  pub repo_url : Text
  pub provider : Text
  pub user : Text
  pub locked_at : ℕ
  pub plan_revision : Text
  pub source_file : Text
  pub plan_output : Text
  pub plan_diffs : List PlanDiffEntry
  pub change_type : ApplicationChangeType
  pub auto_sync_disabled : Bool
  pub original_sync_policy : Text
  pub application_set_name : Text
  pub is_parent_app : Bool

pub record LockRequest : Type 0 where
  pub application : Text
  pub pr_number : ℕ
  pub repo : Text
  pub repo_url : Text
  pub provider : Text
  pub user : Text
  pub change_type : ApplicationChangeType

pub record LockResult : Type 0 where
  pub acquired : Bool
  pub lock : Option Lock
  pub held_by : Option Lock

unfoldable pub is_held_by_pr : Lock → Text → ℕ → Bool
is_held_by_pr l repo pr_number = l.repo == repo && nat_eq l.pr_number pr_number

pub held_by_lem :
    (l : Lock) (repo : Text) (n : ℕ)
    → is_held_by_pr l repo n ≡ true
    → (l.repo ≡ repo) × (l.pr_number ≡ n)
unfolding is_held_by_pr
held_by_lem l repo n h = ground (arith, eq_iff l.repo repo)
