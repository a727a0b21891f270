-- ===== src/Commands/Plan/Render.antt =====
-- internal/commands/plan.go: what a plan stores of its differences.
use lemuria.Prelude.{
  ℕ, Text, codes, ◌++◌, ◌==◌, if◌then◌else◌, ltb, itoa, join, Option, none, some, List, [], ◌∷◌,
  nat_eq, ◌||◌,
}
use lemuria.Model.Lock.{PlanDiffEntry}
use lemuria.Model.Diff.{ManifestDiff, DiffSummary}

abbrev pub count_part : ℕ → Text → List Text
count_part n what = if ltb 0 n then (itoa n ++ what) ∷ [] else []

abbrev pub summary_parts : DiffSummary → List Text
summary_parts s =
    count_part s.created (codes " to create")
    ++ (count_part s.updated (codes " to update") ++ count_part s.deleted (codes " to delete"))

unfoldable pub joined_parts : List Text → Text
joined_parts [] = codes "No changes detected"
joined_parts (p ∷ ps) = join (codes ", ") (p ∷ ps)

unfoldable pub format_plan_summary : DiffSummary → Text
format_plan_summary s = joined_parts (summary_parts s)

unfoldable pub to_plan_diff_entries : List ManifestDiff → List PlanDiffEntry
to_plan_diff_entries [] = []
to_plan_diff_entries (d ∷ diffs) =
    let rest = to_plan_diff_entries diffs in
    if d.diff == []
    then rest
    else record { resource = d.resource; action = d.action; diff = d.diff } ∷ rest

-- strings.Cut at a slash
unfoldable pub cut_slash : Text → Option (Text × Text)
cut_slash [] = none
cut_slash (c ∷ s) =
    if nat_eq c b'/'
    then some ([], s)
    else elim (cut_slash s) [ none ↦ none | some p ↦ some (c ∷ p.0, p.1) ]

abbrev pub both_set : Option (Text × Text) → Option (Text × Text)
both_set none = none
both_set (some p) = if p.0 == [] || p.1 == [] then none else some p

unfoldable pub split_repo_full_name : Text → Option (Text × Text)
split_repo_full_name full_name = both_set (cut_slash full_name)
