-- ===== src/Locking/PolicySteps.antt =====
-- internal/lock/redis.go: the listing of locks and the kept policies touch no lock.
use mathlib.Core.Path.{subst}
use lemuria.Prelude.{
  ℕ, Text, codes, List, [], ◌∷◌, All, ◌≡◌, ◌≢◌, sym, ap, ◌∙◌, map, some_injective, arith,
}
use lemuria.Effect.{ok, context}
use lemuria.Model.Lock.{Lock, is_held_by_pr}
use lemuria.Locking.Keys.{
  lock_key, lock_ttl, app_set_auto_sync_key, pr_app_sets_key, parent_auto_sync_key, pr_parents_key,
}
use lemuria.Locking.Manager.{list_by_pr}
use lemuria.Locking.AutoSync.{
  store_app_set_auto_sync, get_app_set_auto_sync, delete_app_set_auto_sync, store_parent_auto_sync,
  delete_parent_auto_sync,
}
use lemuria.Locking.Reads.{held}
use lemuria.Locking.Listing.{IsListed, list_by_pr_sound}
use lemuria.Locking.Respects.{
  Setting, IsKeyed, IsMine, IsOwn, Respects, Respects-same, Respects-value, IsKeyed-after,
}
use lemuria.Locking.Steps.{
  Respects-then, Respects-set, Respects-sadd, Respects-srem, Respects-expire, Respects-del_other,
}
use lemuria.Commands.Foreign.{held-list_by_pr}

lock_key-ne-app_set_auto_sync_key :
    (a s r : Text) (n : ℕ) → lock_key a ≢ app_set_auto_sync_key s r n
unfolding lock_key app_set_auto_sync_key
lock_key-ne-app_set_auto_sync_key a s r n = grind arith

lock_key-ne-parent_auto_sync_key : (a s r : Text) (n : ℕ) → lock_key a ≢ parent_auto_sync_key s r n
unfolding lock_key parent_auto_sync_key
lock_key-ne-parent_auto_sync_key a s r n = grind arith

module _ (c : Setting) where
  open c use {site, repo, number}
  open site use {redis, codec}

  pub list_by_pr-Respects :
      (d : redis.Db) → IsKeyed c d → Respects c d (list_by_pr redis codec repo number d).1
  list_by_pr-Respects d k =
      Respects-same c d _ k (held-list_by_pr redis codec c.site.laws repo number d)

  IsListed-IsOwn :
      (d : redis.Db) (ls : List Lock)
      → IsKeyed c d
      → All (IsListed redis codec (λ l. is_held_by_pr l repo number) d) ls
      → All (IsOwn c d) (map (λ (l : Lock). l.application) ls)
  IsListed-IsOwn d [] k h = tt
  IsListed-IsOwn d (l ∷ ls) k ((mine, (a, h)), hs) = (
    λ m e. subst (IsMine c) (some_injective (sym (ap (held redis codec d) (k a l h) ∙ h) ∙ e)) mine,
    IsListed-IsOwn d ls k hs,
  )

  -- The applications whose locks are listed are the pull request's own.
  pub list_by_pr-IsOwn :
      (d : redis.Db) (ls : List Lock)
      → IsKeyed c d
      → (list_by_pr redis codec repo number d).0 ≡ ok ls
      → All (IsOwn c d) (map (λ (l : Lock). l.application) ls)
  list_by_pr-IsOwn d ls k e =
      IsListed-IsOwn d ls k (list_by_pr_sound redis codec c.site.laws repo number d ls e)

  app_set_ne : (s : Text) (a : Text) → lock_key a ≢ app_set_auto_sync_key s repo number
  app_set_ne s a = lock_key-ne-app_set_auto_sync_key a s repo number

  parent_ne : (s : Text) (a : Text) → lock_key a ≢ parent_auto_sync_key s repo number
  parent_ne s a = lock_key-ne-parent_auto_sync_key a s repo number

  pub store_app_set_auto_sync-Respects :
      (s v : Text) (d : redis.Db)
      → IsKeyed c d
      → Respects c d (store_app_set_auto_sync redis s repo number v d).1
  unfolding store_app_set_auto_sync
  store_app_set_auto_sync-Respects s v d k =
      let key = app_set_auto_sync_key s repo number in
      let index_key = pr_app_sets_key repo number in
      let p = Respects-set c key v lock_ttl d (app_set_ne s) k in
      let q = Respects-sadd c index_key s _ (IsKeyed-after c p) in
      Respects-then c (context (codes "storing appset auto-sync policy") (redis.set key v lock_ttl))
        _ d p
        (λ x e.
          Respects-then c (context (codes "updating PR appsets index") (redis.sadd index_key s)) _ _
            q (λ y e'. Respects-expire c index_key lock_ttl _ (IsKeyed-after c q)))

  pub get_app_set_auto_sync-Respects :
      (s : Text) (d : redis.Db)
      → IsKeyed c d
      → Respects c d (get_app_set_auto_sync redis s repo number d).1
  unfolding get_app_set_auto_sync
  get_app_set_auto_sync-Respects s d k =
      Respects-value c d _ k
        (λ a. c.site.laws.value-get (app_set_auto_sync_key s repo number) d (lock_key a))

  pub delete_app_set_auto_sync-Respects :
      (s : Text) (d : redis.Db)
      → IsKeyed c d
      → Respects c d (delete_app_set_auto_sync redis s repo number d).1
  unfolding delete_app_set_auto_sync
  delete_app_set_auto_sync-Respects s d k =
      let key = app_set_auto_sync_key s repo number in
      let p = Respects-del_other c key d (app_set_ne s) k in
      Respects-then c (context (codes "deleting appset auto-sync key") (redis.del key)) _ d p
        (λ x e. Respects-srem c (pr_app_sets_key repo number) s _ (IsKeyed-after c p))

  pub store_parent_auto_sync-Respects :
      (s v : Text) (d : redis.Db)
      → IsKeyed c d
      → Respects c d (store_parent_auto_sync redis s repo number v d).1
  unfolding store_parent_auto_sync
  store_parent_auto_sync-Respects s v d k =
      let key = parent_auto_sync_key s repo number in
      let index_key = pr_parents_key repo number in
      let p = Respects-set c key v lock_ttl d (parent_ne s) k in
      let q = Respects-sadd c index_key s _ (IsKeyed-after c p) in
      Respects-then c (context (codes "storing parent auto-sync policy") (redis.set key v lock_ttl))
        _ d p
        (λ x e.
          Respects-then c (context (codes "updating PR parents index") (redis.sadd index_key s)) _ _
            q (λ y e'. Respects-expire c index_key lock_ttl _ (IsKeyed-after c q)))

  pub delete_parent_auto_sync-Respects :
      (s : Text) (d : redis.Db)
      → IsKeyed c d
      → Respects c d (delete_parent_auto_sync redis s repo number d).1
  unfolding delete_parent_auto_sync
  delete_parent_auto_sync-Respects s d k =
      let key = parent_auto_sync_key s repo number in
      let p = Respects-del_other c key d (parent_ne s) k in
      Respects-then c (context (codes "deleting parent auto-sync key") (redis.del key)) _ d p
        (λ x e. Respects-srem c (pr_parents_key repo number) s _ (IsKeyed-after c p))
