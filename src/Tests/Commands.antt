-- ===== src/Tests/Commands.antt =====
-- Every command on the server in memory, with an Argo CD and a provider that hold one text each.
use lemuria.Prelude.{
  if◌then◌else◌, ℕ, Text, codes, true, false, none, some, List, [], ◌∷◌, ◌≡◌, ◌≢◌, ◌⊎◌, inr, refl,
  itoa, ◌==◌, arith, ap, sym,
}
use lemuria.Effect.{failure, Result, ok, err, is_nil, unless_nil, ok_injective}
use lemuria.Model.Application.{existing}
use lemuria.Model.Event.{
  github, issue_comment, created, open_state, is_closed_state, PrEvent, UserInfo, PullRequestDetail,
}
use lemuria.Model.Lock.{Lock, LockRequest, is_held_by_pr}
use lemuria.Locking.Keys.{lock_key, plan_key, pr_locks_key}
use lemuria.Locking.Manager.{
  decode_lock, get_lock, set_lock, refresh_lock, create_lock, lock_after, lock, new_lock,
  delete_lock, force_unlock, unlock_found, unlock,
}
use lemuria.Locking.Reads.{decoded, held}
use lemuria.Locking.Respects.{Setting, IsKeyed-after}
use lemuria.Locking.Steps.{lock-Respects}
use lemuria.Services.World.{World, pure, attempt, on_argo, ◌>>=◌}
use lemuria.Services.Argo.{Extern, Argo, ManagedResource}
use lemuria.Services.Provider.{Provider}
use lemuria.Services.Executor.{Services}
use lemuria.Services.Planner.{Planner}
use lemuria.Commands.Command.{Command, CommandType}
use lemuria.Commands.Parser.{bare}
use lemuria.Commands.UnlockAll.{unlock_all}
use lemuria.Commands.Execute.{execute}
use lemuria.Commands.Exclusion.{Holder, holder, table, Turn, IsNotClosed}
use lemuria.Commands.Sync.Targets.{
  compute_sync_targets, candidates, is_parent_of, flagged, split_targets, parent_flags, targets_of,
}
use lemuria.Commands.Sync.Execute.{execute_sync}
use lemuria.Commands.Sync.Gate.{Cleared, execute_sync-gate}
use lemuria.Commands.Turns.{
  pull_request, IsKeyedBy, holder_site, execute-Turn, execute-kept, unlock_all-kept, Run, run-kept,
}
use lemuria.Tests.Store.{
  Memory, memory, memory_laws, empty, lookup, without, holds, drop_member, members, reply,
}
use lemuria.Tests.Codec.{codec}

abbrev request : Text → ℕ → LockRequest
request application n = record {
  application = application;
  pr_number = n;
  repo = codes "org/shop";
  repo_url = [];
  provider = codes "github";
  user = codes "ann";
  change_type = existing;
}

abbrev extern : Extern
extern = record {
  Policy = Text;
  PolicyRest = Text;
  SourceRest = Text;
  SpecRest = Text;
  ApplicationRest = Text;
  SetRest = Text;
  no_rest = [];
}

-- Argo CD knows no application, and logs the names that it is asked for.
abbrev unknown {ℓ} : {A : Type ℓ} → Result A
unknown = err (failure (codes "not found"))

abbrev argo : Argo extern
argo = record {
  State = List Text;
  get_application = λ a s. (unknown, a ∷ s);
  get_application_raw = λ a s. (unknown, a ∷ s);
  update_application_spec = λ a spec s. (ok tt, a ∷ s);
  create_application = λ raw s. (ok tt, s);
  sync_application = λ a options s. (unknown, a ∷ s);
  get_resource_health = λ a s. (ok [], s);
  get_managed_resources = λ a s. (ok [], s);
  get_application_set_raw = λ a s. (unknown, s);
  update_application_set = λ a raw s. (ok tt, s);
  get_applications_by_application_set = λ a s. (ok [], s);
  build_parent_map = λ s. (ok [], s);
  find_parent_apps = λ a m s. (ok [], s);
  is_not_found = λ e. true;
  marshal_policy = λ p. some p;
  unmarshal_policy = λ t. some t;
  parse_raw_application = λ t a. unknown;
}

abbrev open_pr : PullRequestDetail
open_pr = record {
  number = 8;
  title = [];
  state = open_state;
  draft = false;
  merged = false;
  mergeable = true;
  head_sha = [];
  head_ref = [];
  base_ref = [];
}

abbrev provider : Provider
provider = record {
  State = List Text;
  get_changed_files = λ o r n s. (ok [], s);
  get_repo_config = λ o r ref s. (unknown, s);
  get_file_contents = λ o r paths ref s. (ok [], s);
  get_files_by_pattern = λ o r ref ps qs s. (ok [], s);
  get_pr = λ o r n s. (ok open_pr, s);
  is_pr_approved = λ o r n s. (ok true, s);
  post_comment = λ o r n body plan s. (ok 1, body ∷ s);
  update_comment = λ o r n id body s. (ok tt, body ∷ s);
  add_reaction = λ o r id t s. (ok tt, s);
  invalidate_plan_comments = λ o r n s. (ok tt, s);
  merge_pull_request = λ o r n t m k s. (ok tt, s);
  delete_branch = λ o r b s. (ok tt, s);
  max_comment_size = 0;
  now = λ s. (ok 300, s);
}

abbrev services : Services
services = record {
  extern = extern;
  argo = argo;
  vcs = provider;
  config = record {
    require_approval = false;
    auto_merge = true;
    skip_no_changes = false;
    merge_method = [];
    delete_source_branch = false;
    protected_branches = [];
    sync_timeout = 0;
    temp_app_timeout = 0;
    diff_mode = [];
  };
  load_repo_config = λ t. unknown;
  render_sync = λ entries n. [];
  match_string = λ e t. none;
  quote_meta = λ t. t;
  to_lower = λ t. t;
  quoted = λ t. t;
  error_text = λ e. [];
  phase_text = λ p. [];
  health_unknown = codes "Unknown";
  health_healthy = codes "Healthy";
}

abbrev planner : Planner services
planner = record {
  diff_new_app = λ raw options s. (ok [], s);
  diff_deleted_app = λ a options s. (ok [], s);
  get_application_diff = λ a options s. (ok [], s);
  get_application_set = λ a s. (ok tt, s);
  find_affected_applications = λ event s. (ok [], s);
  find_applications_by_repo = λ url s. (ok [], s);
  render_plan = λ outcomes n size. [];
}

-- The shop is locked by 7 and the bank by 8.
abbrev shop : Memory
shop = (lock memory codec (request (codes "shop") 7) 100 empty).1

abbrev both : Memory
both = (lock memory codec (request (codes "bank") 8) 100 shop).1

abbrev start : World Memory (List Text) (List Text)
start = (both, [], [])

abbrev bank_lock : Lock
bank_lock = new_lock (request (codes "bank") 8) 100

abbrev by_pull_request : ℕ → Setting
by_pull_request n = record {
  site = holder_site memory codec memory_laws (λ h. Unit {0});
  repo = codes "org/shop";
  number = n;
}

empty-IsKeyedBy : IsKeyedBy memory codec empty
unfolding held decoded lookup
empty-IsKeyedBy a l h = cc

both-IsKeyedBy : IsKeyedBy memory codec both
both-IsKeyedBy =
    let one =
      lock-Respects (by_pull_request 7) (request (codes "shop") 7) 100 empty (refl, refl)
        empty-IsKeyedBy in
    let two =
      lock-Respects (by_pull_request 8) (request (codes "bank") 8) 100 shop (refl, refl)
        (IsKeyed-after (by_pull_request 7) one) in
    IsKeyed-after (by_pull_request 8) two

bank_held : held memory codec both (codes "bank") ≡ some bank_lock
unfolding ◌==◌ itoa is_nil is_held_by_pr lock_key plan_key pr_locks_key decode_lock get_lock
    set_lock refresh_lock create_lock lock_after lock delete_lock force_unlock unlock_found unlock
    new_lock decoded held unless_nil lookup without holds drop_member members reply codec
bank_held = refl

bank_foreign : is_held_by_pr bank_lock (codes "org/shop") 7 ≡ false
unfolding ◌==◌ is_held_by_pr new_lock
bank_foreign = refl

bank_holder : table memory codec both (codes "bank") ≡ some (codes "org/shop", 8)
unfolding table ◌==◌ itoa is_nil is_held_by_pr lock_key plan_key pr_locks_key decode_lock get_lock
    set_lock refresh_lock create_lock lock_after lock delete_lock force_unlock unlock_found unlock
    new_lock decoded held unless_nil lookup without holds drop_member members reply codec
bank_holder = refl

not_closed : (h : Holder) → IsNotClosed services h
not_closed h owner name v pr e answer =
    ap (λ (x : PullRequestDetail). is_closed_state x.state) (sym (ok_injective answer))

abbrev ann : UserInfo
ann = record { login = codes "ann"; id = 1; avatar_url = [] }

abbrev event : PrEvent
event = record {
  provider = github;
  type = issue_comment;
  action = created;
  repo = record {
    owner = codes "org";
    name = codes "shop";
    full_name = codes "org/shop";
    clone_url = [];
    html_url = [];
  };
  pr = record {
    number = 7;
    title = [];
    body = [];
    state = open_state;
    draft = false;
    merged = false;
    mergeable = none;
    head_sha = codes "abc";
    head_ref = codes "topic";
    base_ref = codes "main";
    author = ann;
    html_url = [];
    updated_at = 2;
  };
  comment = some (record { id = 5; body = codes "lemuria sync"; author = ann; created_at = 3 });
  sender = ann;
  received_at = 4;
}

abbrev sync_command : Command
sync_command = bare CommandType.sync []

unlock_all-kept_example :
    (held memory codec (unlock_all memory codec services event start).1.0 (codes "bank")
      ≡ some bank_lock)
    × IsKeyedBy memory codec (unlock_all memory codec services event start).1.0
unlock_all-kept_example =
    unlock_all-kept memory codec memory_laws services event start (codes "bank") bank_lock
      both-IsKeyedBy bank_held bank_foreign

execute-Turn_example :
    Turn
      (codes "org/shop", 7)
      (IsNotClosed services)
      (table memory codec both)
      (table memory codec (execute memory codec services planner sync_command event none start).1.0)
    × IsKeyedBy memory codec
        (execute memory codec services planner sync_command event none start).1.0
execute-Turn_example =
    execute-Turn memory codec memory_laws services planner sync_command event none start
      both-IsKeyedBy

execute-kept_example :
    held memory codec
      (execute memory codec services planner sync_command event none start).1.0
      (codes "bank")
    ≡ some bank_lock
execute-kept_example =
    execute-kept memory codec memory_laws services planner sync_command event none start
      (codes "bank") bank_lock both-IsKeyedBy (inr refl) bank_held bank_foreign
      (not_closed (holder bank_lock))

run-kept_example :
    table memory codec
      (unlock_all memory codec services event
        (execute memory codec services planner sync_command event none start).1).1.0
      (codes "bank")
    ≡ some (codes "org/shop", 8)
run-kept_example =
    run-kept memory codec memory_laws services planner (codes "org/shop", 8) start _ (codes "bank")
      (not_closed (codes "org/shop", 8)) both-IsKeyedBy bank_holder
      (Run.command sync_command event none start _ other
        (Run.unlocking event _ _ other (Run.done _)))
  where
    other : (codes "org/shop", 8) ≢ pull_request event
    other e = ground (arith, ap (λ (h : Holder). h.1) e)

abbrev two_locks : List Lock
two_locks = new_lock (request (codes "shop") 7) 100 ∷ new_lock (request (codes "root") 7) 100 ∷ []

abbrev shop_resource : ManagedResource
shop_resource = record { kind = codes "Application"; name = codes "shop" }

-- The root has the shop among its resources.
abbrev nested : Services
nested = record services {
  argo = record argo {
    get_managed_resources =
        λ a s. (ok (if a == codes "root" then shop_resource ∷ [] else []), a ∷ s);
  };
}

nested_run : (compute_sync_targets memory nested two_locks start).0 ≡ ok (0 ∷ [], 1 ∷ [])
unfolding compute_sync_targets candidates is_parent_of flagged split_targets parent_flags targets_of
    new_lock pure attempt on_argo ◌>>=◌ ◌==◌
nested_run = refl

execute_sync-gate_example :
    ((execute_sync memory codec services sync_command event none start).1.1 ≡ [])
    ⊎ Cleared memory codec services event none [] both
execute_sync-gate_example =
    execute_sync-gate memory codec services event sync_command none start refl
