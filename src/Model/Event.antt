-- ===== src/Model/Event.antt =====
-- internal/models/event.go: the event of a webhook, the same for GitHub and GitLab. A type that the
-- code declares as a string has the strings that the code names, and `other`. The cache of the
-- repository's configuration is not part of the event that a task carries, and is left out.
use lemuria.Prelude.{ℕ, Text, codes, Bool, true, false, not, ◌&&◌, Option}

abbrev pub comment_marker : Text
comment_marker = codes "<!-- lemuria -->"

pub data VcsProvider : Type 0 where
  github gitlab : VcsProvider
  other : Text → VcsProvider

pub data EventType : Type 0 where
  pull_request issue_comment pull_request_review : EventType
  other : Text → EventType

pub data PrAction : Type 0 where
  opened synchronize closed created submitted : PrAction
  other : Text → PrAction

pub data PrState : Type 0 where
  open_state closed_state : PrState
  other : Text → PrState

pub record RepoInfo : Type 0 where
  pub owner : Text
  pub name : Text
  pub full_name : Text
  pub clone_url : Text
  pub html_url : Text

pub record UserInfo : Type 0 where
  pub login : Text
  pub id : ℕ
  pub avatar_url : Text

pub record PrInfo : Type 0 where
  pub number : ℕ
  pub title : Text
  pub body : Text
  pub state : PrState
  pub draft : Bool
  pub merged : Bool
  pub mergeable : Option Bool
  pub head_sha : Text
  pub head_ref : Text
  pub base_ref : Text
  pub author : UserInfo
  pub html_url : Text
  pub updated_at : ℕ

pub record Comment : Type 0 where
  pub id : ℕ
  pub body : Text
  pub author : UserInfo
  pub created_at : ℕ

pub record PrEvent : Type 0 where
  pub provider : VcsProvider
  pub type : EventType
  pub action : PrAction
  pub repo : RepoInfo
  pub pr : PrInfo
  pub comment : Option Comment
  pub sender : UserInfo
  pub received_at : ℕ

pub record PullRequestDetail : Type 0 where
  pub number : ℕ
  pub title : Text
  pub state : PrState
  pub draft : Bool
  pub merged : Bool
  pub mergeable : Bool
  pub head_sha : Text
  pub head_ref : Text
  pub base_ref : Text

pub data FileStatus : Type 0 where
  added removed modified renamed : FileStatus
  other : Text → FileStatus

pub record ChangedFile : Type 0 where
  pub filename : Text
  pub previous_filename : Text
  pub status : FileStatus
  pub additions : ℕ
  pub deletions : ℕ
  pub changes : ℕ
  pub patch : Text

abbrev pub is_renamed : FileStatus → Bool
is_renamed renamed = true
is_renamed _ = false

abbrev pub is_open_state : PrState → Bool
is_open_state open_state = true
is_open_state _ = false

abbrev pub is_closed_state : PrState → Bool
is_closed_state closed_state = true
is_closed_state _ = false

abbrev pub is_pull_request : EventType → Bool
is_pull_request pull_request = true
is_pull_request _ = false

abbrev pub is_issue_comment : EventType → Bool
is_issue_comment issue_comment = true
is_issue_comment _ = false

abbrev pub is_created : PrAction → Bool
is_created created = true
is_created _ = false

-- `e.Action == PRActionOpened || e.Action == PRActionSynchronize`
abbrev pub is_push : PrAction → Bool
is_push opened = true
is_push synchronize = true
is_push _ = false

abbrev pub is_closed : PrAction → Bool
is_closed closed = true
is_closed _ = false

unfoldable pub is_pr_open : PrEvent → Bool
is_pr_open e = is_open_state e.pr.state && not e.pr.merged

unfoldable pub is_pr_merged : PrEvent → Bool
is_pr_merged e = e.pr.merged

unfoldable pub is_pr_closed : PrEvent → Bool
is_pr_closed e = is_closed_state e.pr.state && not e.pr.merged

unfoldable pub should_autoplan : PrEvent → Bool
should_autoplan e = is_pull_request e.type && is_push e.action

unfoldable pub should_unlock_all : PrEvent → Bool
should_unlock_all e = is_pull_request e.type && is_closed e.action
