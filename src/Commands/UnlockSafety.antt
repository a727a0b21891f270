-- ===== src/Commands/UnlockSafety.antt =====
-- internal/commands/unlock.go: what the unlock command may do to the locks of other pull requests.
use lemuria.Prelude.{Text, codes, Option, none, some, List, [], ◌∷◌, inl, inr}
use lemuria.Effect.{Error, Result, ok, err, attempt, Result-cases, ◌>>=◌}
use lemuria.Model.Event.{PrEvent, Comment}
use lemuria.Model.Lock.{Lock}
use lemuria.Locking.Respects.{
  Site, Setting, IsKeyed, Respects, Respects-refl, Respects-trans, IsKeyed-after,
}
use lemuria.Locking.Steps.{Respects-then, unlock-Respects}
use lemuria.Locking.PolicySteps.{list_by_pr-Respects}
use lemuria.Locking.Manager.{list_by_pr, unlock}
use lemuria.Services.Safe.{setting}
use lemuria.Commands.Command.{Command}
use lemuria.Commands.Unlock.{
  Reporter, on_server, react, unlock_locks, unlock_chosen, unlock_listed, execute_unlock,
}

module _ (site : Site) {V : Type 0} (P : Reporter V) (error_text : Error → Text)
    (event : PrEvent) where
  open site use {redis, codec}

  abbrev c : Setting
  c = setting site event

  unlock_locks-Respects :
      (locks : List Lock) (d : redis.Db)
      → IsKeyed c d
      → Respects c d (unlock_locks redis codec event.repo.full_name event.pr.number locks d).1
  unfolding unlock_locks
  unlock_locks-Respects [] d k = Respects-refl c d k
  unlock_locks-Respects (l ∷ locks) d k =
      let p = unlock-Respects c l.application d k in
      let d' = (unlock redis codec l.application event.repo.full_name event.pr.number d).1 in
      let q = unlock_locks-Respects locks d' (IsKeyed-after c p) in
      Respects-trans c p (
        Respects-then c (unlock_locks redis codec event.repo.full_name event.pr.number locks) _ d' q
          (λ rest e. Respects-refl c _ (IsKeyed-after c q)))

  unlock_chosen-Respects :
      (app : Text) (locks : List Lock) (s : redis.Db × V)
      → IsKeyed c s.0
      → Respects c s.0 (unlock_chosen redis codec P error_text event app locks s).1.0
  unfolding unlock_chosen
  unlock_chosen-Respects app [] s k = Respects-refl c s.0 k
  unlock_chosen-Respects app (l ∷ locks) s k =
      let m = unlock_locks redis codec event.repo.full_name event.pr.number (l ∷ locks) in
      let p = unlock_locks-Respects (l ∷ locks) s.0 k in
      elim (Result-cases (m s.0).0) [ inl (x, e) ↦ rw e p | inr (x, e) ↦ rw e p ]

  unlock_listed-Respects :
      (app : Text) (r : Result (List Lock)) (s : redis.Db × V)
      → IsKeyed c s.0
      → Respects c s.0 (unlock_listed redis codec P error_text event app r s).1.0
  unfolding unlock_listed
  unlock_listed-Respects app (err e) s k = Respects-refl c s.0 k
  unlock_listed-Respects app (ok []) s k = Respects-refl c s.0 k
  unlock_listed-Respects app (ok (l ∷ locks)) s k = unlock_chosen-Respects app _ s k

  list-Respects :
      (app : Text) (s : redis.Db × V)
      → IsKeyed c s.0
      → Respects c s.0
          ((attempt (
                on_server redis codec P error_text
                  (list_by_pr redis codec event.repo.full_name event.pr.number))
              >>= unlock_listed redis codec P error_text event app)
            s).1.0
  list-Respects app s k =
      let p = list_by_pr-Respects c s.0 k in
      let m = list_by_pr redis codec event.repo.full_name event.pr.number s.0 in
      Respects-trans c p (unlock_listed-Respects app m.0 (m.1, s.1) (IsKeyed-after c p))

  react-Respects :
      (app : Text) (o : Option Comment) (s : redis.Db × V)
      → IsKeyed c s.0
      → Respects c s.0
          ((react redis codec P error_text event o >>= λ _.
              attempt (
                on_server redis codec P error_text
                  (list_by_pr redis codec event.repo.full_name event.pr.number))
              >>= unlock_listed redis codec P error_text event app)
            s).1.0
  react-Respects app none s k = list-Respects app s k
  react-Respects app (some comment) s k =
      list-Respects app
        (s.0, (P.add_reaction event.repo.owner event.repo.name comment.id (codes "eyes") s.1).1) k

  pub execute_unlock-Respects :
      (cmd : Command) (s : redis.Db × V)
      → IsKeyed c s.0
      → Respects c s.0 (execute_unlock redis codec P error_text cmd event s).1.0
  unfolding execute_unlock
  execute_unlock-Respects cmd s k = react-Respects cmd.application event.comment s k
