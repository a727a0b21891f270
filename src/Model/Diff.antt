-- ===== src/Model/Diff.antt =====
-- internal/models/application.go, internal/argocd/diff.go: the difference of a resource, and the
-- count of the differences.
use lemuria.Prelude.{ℕ, suc, Text, codes, List, [], ◌∷◌, length}
use lemuria.Model.Application.{ResourceKey, DiffAction, unset, create, update, delete, none}

pub record ManifestDiff : Type 0 where
  pub resource : ResourceKey
  pub base_state : Text
  pub live_state : Text
  pub target_state : Text
  pub diff : Text
  pub branch_diff : Text
  pub live_diff : Text
  pub action : DiffAction
  pub live_action : DiffAction

pub record DiffSummary : Type 0 where
  pub total_resources : ℕ
  pub created : ℕ
  pub updated : ℕ
  pub deleted : ℕ
  pub unchanged : ℕ

abbrev pub empty_summary : DiffSummary
empty_summary = record { total_resources = 0; created = 0; updated = 0; deleted = 0; unchanged = 0 }

unfoldable pub count_action : DiffAction → DiffSummary → DiffSummary
count_action create s = record s { created = suc s.created }
count_action update s = record s { updated = suc s.updated }
count_action delete s = record s { deleted = suc s.deleted }
count_action none s = record s { unchanged = suc s.unchanged }
count_action unset s = record s { unchanged = suc s.unchanged }

abbrev pub count_actions : List ManifestDiff → DiffSummary → DiffSummary
count_actions [] s = s
count_actions (d ∷ diffs) s = count_actions diffs (count_action d.action s)

unfoldable pub summarize_diffs : List ManifestDiff → DiffSummary
summarize_diffs diffs =
    count_actions diffs (record empty_summary { total_resources = length diffs })

abbrev pub diff_mode_branch : Text
diff_mode_branch = codes "branch"
