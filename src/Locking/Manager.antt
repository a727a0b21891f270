-- ===== src/Locking/Manager.antt =====
-- internal/lock/redis.go: taking, releasing and listing locks. A method of `RedisManager` is an
-- action on the state of the server; `time.Now()` is the argument `now`.
use lemuria.Prelude.{
  ℕ, Text, codes, Bool, true, false, not, Option, none, some, List, [], ◌∷◌, ◌++◌, ◌≡◌, map, drop,
  length, nat_eq, if◌then◌else◌,
}
use lemuria.Effect.{
  Result, ok, err, bad_json, or_bad_json, not_held, wrapped, is_nil, unless_nil, Action, pure, fail,
  lift, attempt, context, ◌>>=◌, ◌>>◌,
}
use lemuria.Model.Lock.{Lock, LockRequest, LockResult, PlanDiffEntry, is_held_by_pr}
use lemuria.Redis.{Redis}
use lemuria.Locking.Keys.{lock_key_prefix, lock_ttl, lock_key, plan_key, pr_locks_key}

-- encoding/json on a `Lock`.
pub record LockCodec : Type 0 where
  pub marshal : Lock → Option Text
  pub unmarshal : Text → Option Lock
  -- What is written is read back.
  pub unmarshal-marshal : (l : Lock) (t : Text) → marshal l ≡ some t → unmarshal t ≡ some l

-- The fields that the `&models.Lock{…}` of `Lock` gives; the others have the zero value.
unfoldable pub new_lock : LockRequest → ℕ → Lock
new_lock req now = record {
  application = req.application;
  pr_number = req.pr_number;
  repo = req.repo;
  repo_url = req.repo_url;
  provider = req.provider;
  user = req.user;
  locked_at = now;
  plan_revision = [];
  source_file = [];
  plan_output = [];
  plan_diffs = [];
  change_type = req.change_type;
  auto_sync_disabled = false;
  original_sync_policy = [];
  application_set_name = [];
  is_parent_app = false;
}

abbrev pub granted : Lock → LockResult
granted l = record { acquired = true; lock = some l; held_by = none }

abbrev pub refused : Lock → LockResult
refused l = record { acquired = false; lock = none; held_by = some l }

module _ (R : Redis) (J : LockCodec) where
  open R use {Db, get, set, del, sadd, srem, smembers, keys, expire}

  unfoldable pub decode_lock : Result Text → Result (Option Lock)
  decode_lock (err e) = if is_nil e then ok none else err (wrapped (codes "getting lock") e)
  decode_lock (ok text) = elim (J.unmarshal text) [
    | some l ↦ ok (some l)
    | none ↦ err (wrapped (codes "unmarshaling lock") bad_json)
  ]

  unfoldable pub get_lock : Text → Action Db (Option Lock)
  get_lock application d = let (r, d') = get (lock_key application) d in (decode_lock r, d')

  unfoldable pub set_lock : Lock → Action Db (Unit {0})
  set_lock l = do
    text ← lift (or_bad_json (codes "marshaling lock") (J.marshal l))
    context (codes "storing lock") (set (lock_key l.application) text lock_ttl)

  unfoldable pub refresh_lock : LockRequest → ℕ → Lock → Action Db LockResult
  refresh_lock req now existing = do
    let l = record existing { locked_at = now; change_type = req.change_type }
    set_lock l
    pure (granted l)

  unfoldable pub create_lock : LockRequest → ℕ → Action Db LockResult
  create_lock req now = do
    let l = new_lock req now
    let pr_key = pr_locks_key req.repo req.pr_number
    set_lock l
    context (codes "updating PR index") (sadd pr_key req.application)
    attempt (expire pr_key lock_ttl)
    pure (granted l)

  -- The part of `Lock` that follows the read.
  unfoldable pub lock_after : LockRequest → ℕ → Result (Option Lock) → Action Db LockResult
  lock_after req now (err e) = fail (wrapped (codes "checking existing lock") e)
  lock_after req now (ok none) = create_lock req now
  lock_after req now (ok (some existing)) =
      if is_held_by_pr existing req.repo req.pr_number
      then refresh_lock req now existing
      else pure (refused existing)

  unfoldable pub lock : LockRequest → ℕ → Action Db LockResult
  lock req now = do r ← attempt (get_lock req.application); lock_after req now (unless_nil r)

  unfoldable pub delete_lock : Text → Option Lock → Action Db (Unit {0})
  delete_lock application none = del (lock_key application)
  delete_lock application (some l) = do
    attempt (srem (pr_locks_key l.repo l.pr_number) application)
    attempt (del (plan_key application l.pr_number))
    del (lock_key application)

  unfoldable pub force_unlock : Text → Action Db (Unit {0})
  force_unlock application = do
    r ← attempt (get_lock application)
    l ← lift (unless_nil r)
    delete_lock application l

  unfoldable pub unlock_found : Text → Text → ℕ → Option Lock → Action Db (Unit {0})
  unlock_found application repo pr_number none = pure tt
  unlock_found application repo pr_number (some l) =
      if not (is_held_by_pr l repo pr_number)
      then fail (not_held pr_number)
      else force_unlock application

  unfoldable pub unlock : Text → Text → ℕ → Action Db (Unit {0})
  unlock application repo pr_number = do
    r ← attempt (get_lock application)
    l ← lift (unless_nil r)
    unlock_found application repo pr_number l

  -- The loops of `ListByPR` and `ListAll`: a name whose lock cannot be read is passed over.
  unfoldable pub keep_lock : (Lock → Bool) → Result (Option Lock) → List Lock → List Lock
  keep_lock p (err e) locks = locks
  keep_lock p (ok none) locks = locks
  keep_lock p (ok (some l)) locks = if p l then l ∷ locks else locks

  unfoldable pub collect_locks : (Lock → Bool) → List Text → Action Db (List Lock)
  collect_locks p [] = pure []
  collect_locks p (app ∷ apps) = do
    r ← attempt (get_lock app)
    rest ← collect_locks p apps
    pure (keep_lock p r rest)

  unfoldable pub list_by_pr : Text → ℕ → Action Db (List Lock)
  list_by_pr repo pr_number = do
    apps ← context (codes "getting PR locks") (smembers (pr_locks_key repo pr_number))
    collect_locks (λ l. is_held_by_pr l repo pr_number) apps

  unfoldable pub list_all : Action Db (List Lock)
  list_all = do
    ks ← context (codes "listing lock keys") (keys (lock_key_prefix ++ codes "*"))
    collect_locks (λ l. true) (map (drop (length lock_key_prefix)) ks)

  unfoldable pub store_plan_lock :
      ℕ → Text → Text → Text → List PlanDiffEntry → Option Lock → Action Db (Unit {0})
  store_plan_lock pr_number revision source_file plan_output diffs none = pure tt
  store_plan_lock pr_number revision source_file plan_output diffs (some l) =
      if nat_eq l.pr_number pr_number
      then set_lock (record l {
        plan_revision = revision;
        source_file = source_file;
        plan_output = plan_output;
        plan_diffs = diffs;
      })
      else pure tt

  unfoldable pub store_plan :
      Text → ℕ → Text → Text → Text → List PlanDiffEntry → Action Db (Unit {0})
  store_plan application pr_number revision source_file plan_output diffs = do
    set (plan_key application pr_number) revision lock_ttl
    l ← context (codes "getting lock to update plan revision") (get_lock application)
    store_plan_lock pr_number revision source_file plan_output diffs l

  unfoldable pub get_plan : Text → ℕ → Action Db Text
  get_plan application pr_number = get (plan_key application pr_number)

  unfoldable pub update_lock : Lock → Action Db (Unit {0})
  update_lock = set_lock
