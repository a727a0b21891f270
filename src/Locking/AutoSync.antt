-- ===== src/Locking/AutoSync.antt =====
-- internal/lock/redis.go: the original sync policies of ApplicationSets and of parent applications,
-- kept for the pull request that disabled them.
use lemuria.Prelude.{ℕ, Text, codes, Option, none, some, List, [], ◌∷◌, if◌then◌else◌}
use lemuria.Effect.{Result, ok, err, wrapped, is_nil, Action, pure, attempt, context, ◌>>=◌, ◌>>◌}
use lemuria.Redis.{Redis}
use lemuria.Locking.Keys.{
  lock_ttl, app_set_auto_sync_key, pr_app_sets_key, parent_auto_sync_key, pr_parents_key,
}

unfoldable pub policy_reply : Result Text → Result (Option Text)
policy_reply (ok policy) = ok (some policy)
policy_reply (err e) =
    if is_nil e then ok none else err (wrapped (codes "getting appset auto-sync policy") e)

module _ (R : Redis) where
  open R use {Db, get, set, del, sadd, srem, smembers, expire}

  unfoldable pub store_app_set_auto_sync : Text → Text → ℕ → Text → Action Db (Unit {0})
  store_app_set_auto_sync app_set_name repo pr_number original_policy = do
    let index_key = pr_app_sets_key repo pr_number
    context (codes "storing appset auto-sync policy")
        (set (app_set_auto_sync_key app_set_name repo pr_number) original_policy lock_ttl)
    context (codes "updating PR appsets index") (sadd index_key app_set_name)
    attempt (expire index_key lock_ttl)
    pure tt

  unfoldable pub get_app_set_auto_sync : Text → Text → ℕ → Action Db (Option Text)
  get_app_set_auto_sync app_set_name repo pr_number d =
      let (r, d') = get (app_set_auto_sync_key app_set_name repo pr_number) d in
      (policy_reply r, d')

  unfoldable pub delete_app_set_auto_sync : Text → Text → ℕ → Action Db (Unit {0})
  delete_app_set_auto_sync app_set_name repo pr_number = do
    context (codes "deleting appset auto-sync key")
        (del (app_set_auto_sync_key app_set_name repo pr_number))
    context (codes "removing appset from PR index")
        (srem (pr_app_sets_key repo pr_number) app_set_name)

  unfoldable pub store_parent_auto_sync : Text → Text → ℕ → Text → Action Db (Unit {0})
  store_parent_auto_sync parent_app_name repo pr_number original_policy = do
    let index_key = pr_parents_key repo pr_number
    context (codes "storing parent auto-sync policy")
        (set (parent_auto_sync_key parent_app_name repo pr_number) original_policy lock_ttl)
    context (codes "updating PR parents index") (sadd index_key parent_app_name)
    attempt (expire index_key lock_ttl)
    pure tt

  -- The loop of `ListParentAutoSync`: a policy that cannot be read is passed over. The map is the
  -- list of its entries; a set gives each name once.
  unfoldable pub keep_policy : Text → Result Text → List (Text × Text) → List (Text × Text)
  keep_policy name (err e) rest = rest
  keep_policy name (ok policy) rest = (name, policy) ∷ rest

  unfoldable pub collect_policies : Text → ℕ → List Text → Action Db (List (Text × Text))
  collect_policies repo pr_number [] = pure []
  collect_policies repo pr_number (name ∷ names) = do
    r ← attempt (get (parent_auto_sync_key name repo pr_number))
    rest ← collect_policies repo pr_number names
    pure (keep_policy name r rest)

  unfoldable pub list_parent_auto_sync : Text → ℕ → Action Db (List (Text × Text))
  list_parent_auto_sync repo pr_number = do
    names ←
        context (codes "listing parent auto-sync policies")
          (smembers (pr_parents_key repo pr_number))
    collect_policies repo pr_number names

  unfoldable pub delete_parent_auto_sync : Text → Text → ℕ → Action Db (Unit {0})
  delete_parent_auto_sync parent_app_name repo pr_number = do
    context (codes "deleting parent auto-sync key")
        (del (parent_auto_sync_key parent_app_name repo pr_number))
    context (codes "removing parent from PR index")
        (srem (pr_parents_key repo pr_number) parent_app_name)
