-- ===== src/Commands/Foreign.antt =====
-- internal/commands/unlock.go: the unlock command leaves the locks of other pull requests.
use lemuria.Prelude.{
  ℕ, Text, codes, Bool, Option, none, some, List, [], ◌∷◌, ◌≡◌, inl, inr, refl, ap, ◌∙◌,
}
use lemuria.Effect.{Error, Result, ok, err, attempt, ◌>>=◌, Result-cases}
use lemuria.Model.Lock.{Lock}
use lemuria.Model.Event.{PrEvent, Comment}
use lemuria.Redis.{Redis, RedisLaws}
use lemuria.Locking.Keys.{lock_key, pr_locks_key}
use lemuria.Locking.Manager.{LockCodec, get_lock, collect_locks, list_by_pr}
use lemuria.Locking.Reads.{decoded, held, held-get_lock}
use lemuria.Commands.Command.{Command}
use lemuria.Commands.Unlock.{
  Reporter, on_server, react, unlock_locks, chosen, unlock_chosen, unlock_listed, execute_unlock,
}
use lemuria.Commands.Release.{IsForeign, held-unlock_locks_foreign}

module _ (R : Redis) (J : LockCodec) (L : RedisLaws R) where
  held-collect_locks :
      (p : Lock → Bool) (apps : List Text) (d : R.Db) (a : Text)
      → held R J (collect_locks R J p apps d).1 a ≡ held R J d a
  unfolding collect_locks
  held-collect_locks p [] d a = refl
  held-collect_locks p (app ∷ apps) d a =
      let d' = (get_lock R J app d).1 in
      let behind = held-collect_locks p apps d' a ∙ held-get_lock R J L app d a in
      elim (Result-cases (collect_locks R J p apps d').0) [
        | inl (rest, e) ↦ rw e behind
        | inr (x, e) ↦ rw e behind
      ]

  pub held-list_by_pr :
      (repo : Text) (n : ℕ) (d : R.Db) (a : Text)
      → held R J (list_by_pr R J repo n d).1 a ≡ held R J d a
  unfolding list_by_pr held decoded
  held-list_by_pr repo n d a =
      let d' = (R.smembers (pr_locks_key repo n) d).1 in
      elim (Result-cases (R.smembers (pr_locks_key repo n) d).0) [
        | inr (x, e) ↦ rw e (held-smembers (pr_locks_key repo n) d a)
        | inl (apps, e) ↦
            rw e (held-collect_locks _ apps d' a ∙ held-smembers (pr_locks_key repo n) d a)
      ]
    where
      held-smembers :
          (k : Text) (d : R.Db) (a : Text) → held R J (R.smembers k d).1 a ≡ held R J d a
      held-smembers k d a = ap (decoded J) (L.value-smembers k d (lock_key a))

  module _ {V : Type 0} (P : Reporter V) (error_text : Error → Text) where
    unlock_chosen_foreign :
        (event : PrEvent) (app : Text) (locks : List Lock) (s : R.Db × V) (a : Text) (l : Lock)
        → IsForeign R J event.repo.full_name event.pr.number s.0 a l
        → held R J (unlock_chosen R J P error_text event app locks s).1.0 a ≡ some l
    unfolding unlock_chosen
    unlock_chosen_foreign event app [] s a l h = h.0
    unlock_chosen_foreign event app (m ∷ locks) s a l h =
        let behind =
          held-unlock_locks_foreign R J L event.repo.full_name event.pr.number (m ∷ locks) s.0 a l
            h in
        elim (Result-cases
          (unlock_locks R J event.repo.full_name event.pr.number (m ∷ locks) s.0).0) [
            | inl (results, e) ↦ rw e behind
            | inr (x, e) ↦ rw e behind
          ]

    unlock_listed_foreign :
        (event : PrEvent) (app : Text) (r : Result (List Lock)) (s : R.Db × V) (a : Text) (l : Lock)
        → IsForeign R J event.repo.full_name event.pr.number s.0 a l
        → held R J (unlock_listed R J P error_text event app r s).1.0 a ≡ some l
    unfolding unlock_listed
    unlock_listed_foreign event app (err e) s a l h = h.0
    unlock_listed_foreign event app (ok []) s a l h = h.0
    unlock_listed_foreign event app (ok (m ∷ locks)) s a l h =
        unlock_chosen_foreign event app (chosen app (m ∷ locks)) s a l h

    list_foreign :
        (app : Text) (event : PrEvent) (s : R.Db × V) (a : Text) (l : Lock)
        → IsForeign R J event.repo.full_name event.pr.number s.0 a l
        → held R J
            ((attempt
                  (on_server R J P error_text (list_by_pr R J event.repo.full_name event.pr.number))
                >>= unlock_listed R J P error_text event app)
              s).1.0
            a
          ≡ some l
    list_foreign app event s a l h =
        let (listed, d) = list_by_pr R J event.repo.full_name event.pr.number s.0 in
        unlock_listed_foreign event app listed (d, s.1) a l
          (held-list_by_pr event.repo.full_name event.pr.number s.0 a ∙ h.0, h.1)

    react_foreign :
        (app : Text) (event : PrEvent) (o : Option Comment) (s : R.Db × V) (a : Text) (l : Lock)
        → IsForeign R J event.repo.full_name event.pr.number s.0 a l
        → held R J
            ((react R J P error_text event o >>= λ _.
                attempt
                  (on_server R J P error_text (list_by_pr R J event.repo.full_name event.pr.number))
                >>= unlock_listed R J P error_text event app)
              s).1.0
            a
          ≡ some l
    react_foreign app event none s a l h = list_foreign app event s a l h
    react_foreign app event (some c) s a l h =
        list_foreign app event
          (s.0, (P.add_reaction event.repo.owner event.repo.name c.id (codes "eyes") s.1).1) a l h

    -- Whatever the comment says and the server and the provider answer, the unlock command leaves
    -- each application that another pull request has locked with that lock.
    pub execute_unlock_foreign :
        (cmd : Command) (event : PrEvent) (s : R.Db × V) (a : Text) (l : Lock)
        → IsForeign R J event.repo.full_name event.pr.number s.0 a l
        → held R J (execute_unlock R J P error_text cmd event s).1.0 a ≡ some l
    unfolding execute_unlock
    execute_unlock_foreign cmd event s a l h =
        react_foreign cmd.application event event.comment s a l h
