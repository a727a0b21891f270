-- ===== src/Locking/Policies.antt =====
-- A stored sync policy of internal/lock/redis.go is read back until it is deleted.
use lemuria.Prelude.{
  ℕ, Text, Option, none, some, List, [], ◌∷◌, All, ◌≡◌, ◌≢◌, refl, sym, inl, inr, ◌∙◌, arith,
}
use lemuria.Effect.{ok, Result-cases}
use lemuria.Redis.{Redis, RedisLaws}
use lemuria.Locking.Keys.{lock_ttl, app_set_auto_sync_key, pr_app_sets_key}
use lemuria.Locking.AutoSync.{
  policy_reply, store_app_set_auto_sync, get_app_set_auto_sync, delete_app_set_auto_sync,
}

-- A call that stores, reads or deletes the policy of an application set for a pull request.
pub data PolicyCall : Type 0 where
  store : (name repo : Text) (n : ℕ) (policy : Text) → PolicyCall
  get delete : (name repo : Text) (n : ℕ) → PolicyCall

abbrev pub policy_key : PolicyCall → Text
policy_key (PolicyCall.store name repo n policy) = app_set_auto_sync_key name repo n
policy_key (PolicyCall.get name repo n) = app_set_auto_sync_key name repo n
policy_key (PolicyCall.delete name repo n) = app_set_auto_sync_key name repo n

module _ (R : Redis) where
  abbrev pub perform : PolicyCall → R.Db → R.Db
  perform (PolicyCall.store name repo n policy) d =
      (store_app_set_auto_sync R name repo n policy d).1
  perform (PolicyCall.get name repo n) d = (get_app_set_auto_sync R name repo n d).1
  perform (PolicyCall.delete name repo n) d = (delete_app_set_auto_sync R name repo n d).1

  abbrev pub perform_all : List PolicyCall → R.Db → R.Db
  perform_all [] d = d
  perform_all (c ∷ calls) d = perform_all calls (perform c d)

module _ (R : Redis) (L : RedisLaws R) (k : Text) where
  value-perform_store :
      (name repo : Text) (n : ℕ) (policy : Text) (d : R.Db)
      → app_set_auto_sync_key name repo n ≢ k
      → R.value (store_app_set_auto_sync R name repo n policy d).1 k ≡ R.value d k
  unfolding store_app_set_auto_sync
  value-perform_store name repo n policy d other =
      let j = app_set_auto_sync_key name repo n in
      let index = pr_app_sets_key repo n in
      let d1 = (R.set j policy lock_ttl d).1 in
      let stored = L.value-set_ne j policy lock_ttl d k (λ e. other (sym e)) in
      let added = L.value-sadd index name d1 k in
      let aged = L.value-expire index lock_ttl (R.sadd index name d1).1 k in
      elim (Result-cases (R.set j policy lock_ttl d).0) [
        | inr (e, s) ↦ ground (arith, s)
        | inl (done, s) ↦ elim (Result-cases (R.sadd index name d1).0) [
          | inr (e, a) ↦ ground (arith, s, a)
          | inl (done', a) ↦ ground (arith, s, a)
        ]
      ]

  value-perform_delete :
      (name repo : Text) (n : ℕ) (d : R.Db)
      → app_set_auto_sync_key name repo n ≢ k
      → R.value (delete_app_set_auto_sync R name repo n d).1 k ≡ R.value d k
  unfolding delete_app_set_auto_sync
  value-perform_delete name repo n d other =
      let j = app_set_auto_sync_key name repo n in
      let d1 = (R.del j d).1 in
      let gone = L.value-del_ne j d k (λ e. other (sym e)) in
      let kept = L.value-srem (pr_app_sets_key repo n) name d1 k in
      elim (Result-cases (R.del j d).0) [
        | inr (e, s) ↦ ground (arith, s)
        | inl (done, s) ↦ ground (arith, s)
      ]

  value-perform :
      (c : PolicyCall) (d : R.Db) → policy_key c ≢ k → R.value (perform R c d) k ≡ R.value d k
  unfolding get_app_set_auto_sync
  value-perform (PolicyCall.store name repo n policy) d other =
      value-perform_store name repo n policy d other
  value-perform (PolicyCall.get name repo n) d other =
      L.value-get (app_set_auto_sync_key name repo n) d k
  value-perform (PolicyCall.delete name repo n) d other = value-perform_delete name repo n d other

  value-perform_all :
      (calls : List PolicyCall) (d : R.Db)
      → All (λ c. policy_key c ≢ k) calls
      → R.value (perform_all R calls d) k ≡ R.value d k
  value-perform_all [] d others = refl
  value-perform_all (c ∷ calls) d others =
      value-perform_all calls (perform R c d) others.1 ∙ value-perform c d others.0

module _ (R : Redis) (L : RedisLaws R) (name repo : Text) (n : ℕ) where
  abbrev key : Text
  key = app_set_auto_sync_key name repo n

  get_app_set_auto_sync-ok :
      (d : R.Db) (o : Option Text)
      → (get_app_set_auto_sync R name repo n d).0 ≡ ok o
      → o ≡ R.value d key
  unfolding get_app_set_auto_sync policy_reply
  get_app_set_auto_sync-ok d o h = grind (arith, L.get-ok key d, L.get-nil key d)

  value-store :
      (d : R.Db) (policy : Text)
      → (store_app_set_auto_sync R name repo n policy d).0 ≡ ok tt
      → R.value (store_app_set_auto_sync R name repo n policy d).1 key ≡ some policy
  unfolding store_app_set_auto_sync
  value-store d policy h =
      let index = pr_app_sets_key repo n in
      let d1 = (R.set key policy lock_ttl d).1 in
      let stored = L.set-ok key policy lock_ttl d in
      let added = L.value-sadd index name d1 key in
      let aged = L.value-expire index lock_ttl (R.sadd index name d1).1 key in
      elim (Result-cases (R.set key policy lock_ttl d).0) [
        | inr (e, s) ↦ ground (arith, s)
        | inl (done, s) ↦ elim (Result-cases (R.sadd index name d1).0) [
          | inr (e, a) ↦ ground (arith, s, a)
          | inl (done', a) ↦ ground (arith, s, a)
        ]
      ]

  value-delete :
      (d : R.Db)
      → (delete_app_set_auto_sync R name repo n d).0 ≡ ok tt
      → R.value (delete_app_set_auto_sync R name repo n d).1 key ≡ none
  unfolding delete_app_set_auto_sync
  value-delete d h =
      let d1 = (R.del key d).1 in
      let gone = L.del-ok key d in
      let kept = L.value-srem (pr_app_sets_key repo n) name d1 key in
      elim (Result-cases (R.del key d).0) [
        | inr (e, s) ↦ ground (arith, s)
        | inl (done, s) ↦ ground (arith, s)
      ]

  -- The policy of an application set that was stored is what a read returns, if both succeed, after
  -- any calls that store, read or delete policies under other keys, whether those succeed or fail.
  pub get-store_policy :
      (d : R.Db) (policy : Text) (calls : List PolicyCall) (o : Option Text)
      → let d' = perform_all R calls (store_app_set_auto_sync R name repo n policy d).1 in
        All (λ c. policy_key c ≢ key) calls
        → (store_app_set_auto_sync R name repo n policy d).0 ≡ ok tt
        → (get_app_set_auto_sync R name repo n d').0 ≡ ok o
        → o ≡ some policy
  get-store_policy d policy calls o others h g =
      get_app_set_auto_sync-ok _ o g
      ∙ value-perform_all R L key calls _ others
      ∙ value-store d policy h

  -- After a deletion that succeeds a read finds no policy.
  pub get-delete_policy :
      (d : R.Db) (o : Option Text)
      → let d' = (delete_app_set_auto_sync R name repo n d).1 in
        (delete_app_set_auto_sync R name repo n d).0 ≡ ok tt
        → (get_app_set_auto_sync R name repo n d').0 ≡ ok o
        → o ≡ none
  get-delete_policy d o h g = get_app_set_auto_sync-ok _ o g ∙ value-delete d h
