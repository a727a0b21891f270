-- ===== src/Commands/Sync/Results.antt =====
-- internal/commands/sync.go: the results of a sync.
use lemuria.Prelude.{
  ℕ, zero, suc, Text, codes, ◌++◌, ◌==◌, ◌&&◌, if◌then◌else◌, Bool, true, false, Option, none, some,
  List, [], ◌∷◌, map,
}
use lemuria.Effect.{Error}
use lemuria.Model.Application.{resource_string}
use lemuria.Model.Lock.{Lock, PlanDiffEntry}
use lemuria.Model.Sync.{
  SyncPhase, SyncResult, ResourceResult, ResourceHealthInfo, succeeded, failed, running, error,
  other,
}
use lemuria.Services.Executor.{SyncResultEntry}

-- `syncResult`
pub record SyncOutcome : Type 0 where
  pub application : Text
  pub result : Option SyncResult
  pub failure : Option Error
  pub plan_output : Text
  pub plan_diffs : List PlanDiffEntry
  pub target_rev_rewritten : Bool

-- The zero value.
abbrev pub no_outcome : SyncOutcome
no_outcome = record {
  application = [];
  result = none;
  failure = none;
  plan_output = [];
  plan_diffs = [];
  target_rev_rewritten = false;
}

abbrev pub outcome_of : Lock → SyncOutcome
outcome_of l = record no_outcome {
  application = l.application;
  plan_output = l.plan_output;
  plan_diffs = l.plan_diffs;
}

abbrev pub failed_with : SyncOutcome → Error → SyncOutcome
failed_with o e = record o { failure = some e }

-- A result that no sync was needed for.
abbrev pub succeeded_with : Lock → Text → Text → SyncOutcome
succeeded_with l message health = record (outcome_of l) {
  result = some (record {
    application = l.application;
    revision = [];
    phase = succeeded;
    message = message;
    resources = [];
    health_status = health;
  });
}

abbrev pub is_succeeded : SyncPhase → Bool
is_succeeded succeeded = true
is_succeeded _ = false

abbrev pub result_succeeded : Option SyncResult → Bool
result_succeeded none = true
result_succeeded (some r) = is_succeeded r.phase

abbrev pub lacks_failure : Option Error → Bool
lacks_failure none = true
lacks_failure (some e) = false

unfoldable pub all_synced : List SyncOutcome → Bool
all_synced [] = true
all_synced (o ∷ os) = lacks_failure o.failure && result_succeeded o.result && all_synced os

-- results[i] = …
unfoldable pub set_at {ℓ} : {A : Type ℓ} → ℕ → A → List A → List A
set_at i x [] = []
set_at zero x (y ∷ ys) = x ∷ ys
set_at (suc i) x (y ∷ ys) = y ∷ set_at i x ys

-- The entry of the map of health: of two entries for a resource the later.
abbrev pub find_health : Text → List ResourceHealthInfo → Option ResourceHealthInfo
find_health key [] = none
find_health key (h ∷ hs) = elim (find_health key hs) [
  | some later ↦ some later
  | none ↦ if resource_string h.resource == key then some h else none
]

abbrev pub with_health : List ResourceHealthInfo → ResourceResult → ResourceResult
with_health infos r = elim (find_health (resource_string r.resource) infos) [
  | none ↦ r
  | some h ↦ record r { health_status = h.health_status; health_message = h.health_message }
]

unfoldable pub merge_resource_health : SyncResult → List ResourceHealthInfo → SyncResult
merge_resource_health r infos = record r { resources = map (with_health infos) r.resources }

module _ (phase_text : SyncPhase → Text) where
  unfoldable pub sync_entry : SyncOutcome → SyncResultEntry
  sync_entry o = elim o.result [
    | none ↦ record {
      application = o.application;
      plan_output = o.plan_output;
      plan_diffs = o.plan_diffs;
      error = o.failure;
      phase = [];
      message = [];
      resources = [];
      health_status = [];
    }
    | some r ↦ record {
      application = o.application;
      plan_output = o.plan_output;
      plan_diffs = o.plan_diffs;
      error = o.failure;
      phase = phase_text r.phase;
      message = r.message;
      resources = r.resources;
      health_status = r.health_status;
    }
  ]

  -- A row of the table of progress; `none` is an application that is not completed.
  unfoldable pub progress_status : Option SyncOutcome → Text
  progress_status none = codes "⏳ Waiting..."
  progress_status (some o) = elim o.failure [
    | some e ↦ codes "❌ Error"
    | none ↦ elim o.result [
      | none ↦ codes "❌ Error"
      | some r ↦ elim r.phase [
        | succeeded ↦ codes "✅ Succeeded"
        | failed ↦ codes "❌ " ++ phase_text failed
        | error ↦ codes "❌ " ++ phase_text error
        | running ↦ codes "⏳ " ++ phase_text running
        | other t ↦ codes "⏳ " ++ phase_text (other t)
      ]
    ]
  ]

  abbrev pub progress_rows : List Text → List (Option SyncOutcome) → Text
  progress_rows (name ∷ rest) (o ∷ os) =
      codes "| `"
      ++ (name ++ (codes "` | " ++ (progress_status o ++ (codes " |\n" ++ progress_rows rest os))))
  progress_rows _ _ = []

  unfoldable pub render_progress : List Text → List (Option SyncOutcome) → Text
  render_progress apps outcomes =
      codes "## Lemuria Sync\n\n"
      ++ (codes "⏳ **Sync in progress...**\n\n"
          ++ (codes "| Application | Status |\n"
              ++ (codes "|-------------|--------|\n" ++ progress_rows apps outcomes)))
