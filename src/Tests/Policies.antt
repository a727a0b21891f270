-- ===== src/Tests/Policies.antt =====
-- Auto-sync is disabled and restored, on an Argo CD with one application.
use lemuria.Prelude.{Text, codes, true, false, none, some, [], ◌≡◌, refl, sym, ap, ◌==◌, arith}
use lemuria.Effect.{failure, Result, ok, err, ok_injective}
use lemuria.Model.Application.{existing}
use lemuria.Model.Lock.{Lock}
use lemuria.Services.World.{pure, lift, attempt, context, ◌>>=◌}
use lemuria.Services.Argo.{Extern, Argo, RawSpec, RawApplication}
use lemuria.Commands.AutoSync.Disable.{
  set_name_of, disable_automated, disable_auto_sync, AutoSyncState,
}
use lemuria.Commands.AutoSync.Restore.{restore_raw, restore_auto_sync}
use lemuria.Commands.AutoSync.RoundTrip.{ArgoLaws, restore-disable_auto_sync}

abbrev extern : Extern
extern = record {
  Policy = Text;
  PolicyRest = Text;
  SourceRest = Text;
  SpecRest = Text;
  ApplicationRest = Text;
  SetRest = Text;
  no_rest = [];
}

abbrev unknown {ℓ} : {A : Type ℓ} → Result A
unknown = err (failure (codes "not found"))

-- Its state is the spec of the one application.
abbrev one_app : Argo extern
one_app = record {
  State = RawSpec extern;
  get_application = λ a s. (unknown, s);
  get_application_raw =
      λ a s. (ok (record { labels = []; owner_references = []; spec = s; rest = [] }), s);
  update_application_spec = λ a spec s. (ok tt, spec);
  create_application = λ raw s. (ok tt, raw.spec);
  sync_application = λ a options s. (unknown, s);
  get_resource_health = λ a s. (ok [], s);
  get_managed_resources = λ a s. (ok [], s);
  get_application_set_raw = λ a s. (unknown, s);
  update_application_set = λ a raw s. (ok tt, s);
  get_applications_by_application_set = λ a s. (ok [], s);
  build_parent_map = λ s. (ok [], s);
  find_parent_apps = λ a m s. (ok [], s);
  is_not_found = λ e. true;
  marshal_policy = λ p. some p;
  unmarshal_policy = λ t. some t;
  parse_raw_application = λ t a. unknown;
}

one_app_laws : ArgoLaws extern one_app
one_app_laws = record {
  spec_of = λ s a. some s;
  get-ok = λ a s raw h. ap (λ (r : RawApplication extern). some r.spec) (ok_injective h);
  get-missing = λ a s e h missing. absurd (ground (arith, h));
  spec-get = λ a s b. refl;
  update-ok = λ a spec s h. refl;
  unmarshal-marshal = λ p t h. sym h;
}

abbrev spec : RawSpec extern
spec = record {
  sync_policy = some (record { automated = some (codes "{\"prune\":true}"); rest = codes "retry" });
  source = none;
  sources = [];
  rest = codes "destination";
}

abbrev locked : Lock
locked = record {
  application = codes "shop";
  pr_number = 7;
  repo = codes "org/shop";
  repo_url = [];
  provider = codes "github";
  user = codes "ann";
  locked_at = 100;
  plan_revision = codes "abc";
  source_file = [];
  plan_output = [];
  plan_diffs = [];
  change_type = existing;
  auto_sync_disabled = true;
  original_sync_policy = codes "{\"prune\":true}";
  application_set_name = [];
  is_parent_app = false;
}

abbrev returned : AutoSyncState extern
returned = record {
  application = codes "shop";
  original_policy = codes "{\"prune\":true}";
  application_set_name = [];
}

abbrev left : RawSpec extern
left = (disable_auto_sync extern one_app (codes "shop") spec).1

disable_run : (disable_auto_sync extern one_app (codes "shop") spec).0 ≡ ok (some returned)
unfolding disable_auto_sync disable_automated set_name_of pure context ◌>>=◌
disable_run = refl

restore_run : (restore_auto_sync extern one_app locked left).0 ≡ ok tt
unfolding restore_auto_sync restore_raw disable_auto_sync disable_automated pure lift attempt
    context ◌>>=◌ ◌==◌
restore_run = refl

restore-disable_auto_sync_example :
    one_app_laws.spec_of (restore_auto_sync extern one_app locked left).1 (codes "shop")
    ≡ one_app_laws.spec_of spec (codes "shop")
restore-disable_auto_sync_example =
    restore-disable_auto_sync extern one_app one_app_laws locked spec left returned disable_run refl
      refl (λ h. ground (arith, h)) refl restore_run
