-- ===== src/Commands/Turns.antt =====
-- internal/commands/executor.go over internal/lock: every command is a turn of its pull request, and
-- what a sequence of commands of several pull requests leaves.
use lemuria.Prelude.{Text, false, Option, some, [], ◌≡◌, ◌≢◌, ◌⊎◌, inl, inr, refl, sym, ap, ◌∙◌}
use lemuria.Model.Event.{PrEvent}
use lemuria.Model.Lock.{Lock, is_held_by_pr}
use lemuria.Redis.{Redis, RedisLaws}
use lemuria.Locking.Manager.{LockCodec}
use lemuria.Locking.Reads.{held}
use lemuria.Locking.Respects.{Site, IsKeyed-after}
use lemuria.Services.World.{World}
use lemuria.Services.Config.{RepoConfig}
use lemuria.Services.Executor.{Services}
use lemuria.Services.Planner.{Planner}
use lemuria.Services.Safe.{setting, Safe}
use lemuria.Commands.Rollback.{execute_rollback}
use lemuria.Commands.Command.{Command, rollback}
use lemuria.Commands.UnlockAll.{unlock_all}
use lemuria.Commands.ReleaseSafety.{unlock_all-Safe}
use lemuria.Commands.RollbackSafety.{execute_rollback-Safe, execute_rollback_all-Safe}
use lemuria.Commands.Execute.{execute}
use lemuria.Commands.Exclusion.{
  Holder, holder, table, Turn, IsNotClosed, execute_as-Respects, Respects-Turn,
}

abbrev pub pull_request : PrEvent → Holder
pull_request event = (event.repo.full_name, event.pr.number)

-- Every lock stands under the name of its application.
abbrev pub IsKeyedBy : (R : Redis) → LockCodec → R.Db → Type 0
IsKeyedBy R J d = (a : Text) (l : Lock) → held R J d a ≡ some l → l.application ≡ a

module _ (R : Redis) (J : LockCodec) (L : RedisLaws R) where
  -- A lock that is kept has its holder.
  abbrev pub holder_site : (Holder → Type 0) → Site
  holder_site IsSafe = record {
    redis = R;
    codec = J;
    laws = L;
    IsSpared = λ repo n. IsSafe (repo, n);
    IsKept = λ k l. (k.repo ≡ l.repo) × (k.pr_number ≡ l.pr_number);
    kept-refl = λ l. (refl, refl);
    kept-trans = λ k l m p q. (p.0 ∙ q.0, p.1 ∙ q.1);
    kept-holder = λ k l h. h;
  }

  -- A lock that is kept is not changed.
  abbrev lock_site : (Holder → Type 0) → Site
  lock_site IsSafe = record {
    redis = R;
    codec = J;
    laws = L;
    IsSpared = λ repo n. IsSafe (repo, n);
    IsKept = λ k l. k ≡ l;
    kept-refl = λ l. refl;
    kept-trans = λ k l m p q. p ∙ q;
    kept-holder = λ k l h. (ap (λ (x : Lock). x.repo) h, ap (λ (x : Lock). x.pr_number) h);
  }

  module _ (E : Services) where
    -- UnlockAll of a pull request, whatever Argo CD answers, changes no lock of another, and keeps
    -- each lock under the name of its application.
    pub unlock_all-kept :
        (event : PrEvent) (s : World R.Db E.argo.State E.vcs.State) (a : Text) (l : Lock)
        → IsKeyedBy R J s.0
        → held R J s.0 a ≡ some l
        → is_held_by_pr l event.repo.full_name event.pr.number ≡ false
        → (held R J (unlock_all R J E event s).1.0 a ≡ some l)
          × IsKeyedBy R J (unlock_all R J E event s).1.0
    unlock_all-kept event s a l k h foreign =
        let site = lock_site (λ _. Unit {0}) in
        let r = (unlock_all-Safe site E event).step s k tt in
        let (m, h', same) = (r.at a).spared l h foreign tt in
        (h' ∙ ap some (sym same), IsKeyed-after (setting site event) r)

    unlock_all-Turn :
        (event : PrEvent) (s : World R.Db E.argo.State E.vcs.State)
        → IsKeyedBy R J s.0
        → Turn
            (pull_request event)
            (λ _. Unit {0})
            (table R J s.0)
            (table R J (unlock_all R J E event s).1.0)
          × IsKeyedBy R J (unlock_all R J E event s).1.0
    unlock_all-Turn event s k =
        let site = holder_site (λ _. Unit {0}) in
        let r = (unlock_all-Safe site E event).step s k tt in
        (
          Respects-Turn site E event (λ _. Unit {0}) (λ h x. x) _ _ r,
          IsKeyed-after (setting site event) r,
        )

    module _ (P : Planner E) where
      -- Every command is a turn of its pull request: whatever the servers answer, an application is
      -- held afterwards by that pull request or by who held it before, and whoever else held one, and
      -- is not reported as closed, holds it still. Each lock stays under its application's name.
      pub execute-Turn :
          (cmd : Command) (event : PrEvent) (cached : Option (Option RepoConfig))
          (s : World R.Db E.argo.State E.vcs.State)
          → IsKeyedBy R J s.0
          → Turn
              (pull_request event)
              (IsNotClosed E)
              (table R J s.0)
              (table R J (execute R J E P cmd event cached s).1.0)
            × IsKeyedBy R J (execute R J E P cmd event cached s).1.0
      unfolding execute
      execute-Turn cmd event cached s k =
          let site = holder_site (IsNotClosed E) in
          let r =
            execute_as-Respects site E event P cmd cached cmd.name
              (λ repo n owner name v pr h. h owner name v pr)
              (inl
                (λ _. execute_rollback-Safe site E event (λ l policy set_name. (refl, refl)) cmd))
              s k in
          (
            Respects-Turn site E event (IsNotClosed E) (λ h x. x) _ _ r,
            IsKeyed-after (setting site event) r,
          )

      -- A command that is no rollback of a named application changes no lock of another pull request
      -- that is not reported as closed.
      pub execute-kept :
          (cmd : Command) (event : PrEvent) (cached : Option (Option RepoConfig))
          (s : World R.Db E.argo.State E.vcs.State) (a : Text) (l : Lock)
          → IsKeyedBy R J s.0
          → (cmd.name ≢ rollback) ⊎ (cmd.application ≡ [])
          → held R J s.0 a ≡ some l
          → is_held_by_pr l event.repo.full_name event.pr.number ≡ false
          → IsNotClosed E (holder l)
          → held R J (execute R J E P cmd event cached s).1.0 a ≡ some l
      unfolding execute
      execute-kept cmd event cached s a l k unnamed h foreign alive =
          let site = lock_site (IsNotClosed E) in
          let back : ((x : Unit {0})
                → Safe (setting site event) [] (execute_rollback R J E cmd event))
              ⊎ (cmd.name ≢ rollback) =
            elim unnamed [
              | inl ne ↦ inr ne
              | inr empty ↦ inl (λ _. execute_rollback_all-Safe site E event cmd empty)
            ] in
          let r =
            execute_as-Respects site E event P cmd cached cmd.name
              (λ repo n owner name v pr x. x owner name v pr) back s k in
          let (m, h', same) = (r.at a).spared l h foreign alive in h' ∙ ap some (sym same)

      -- Commands of any pull requests but `h`, in any order: each on the state that the one before it
      -- left.
      pub data Run (h : Holder)
          : World R.Db E.argo.State E.vcs.State → World R.Db E.argo.State E.vcs.State → Type 0 where
        done : (s : World R.Db E.argo.State E.vcs.State) → Run h s s
        command :
            (cmd : Command) (event : PrEvent) (cached : Option (Option RepoConfig))
            (s s' : World R.Db E.argo.State E.vcs.State)
            → h ≢ pull_request event
            → Run h (execute R J E P cmd event cached s).1 s'
            → Run h s s'
        unlocking :
            (event : PrEvent) (s s' : World R.Db E.argo.State E.vcs.State)
            → h ≢ pull_request event
            → Run h (unlock_all R J E event s).1 s'
            → Run h s s'

      -- However many commands of other pull requests follow one another, an application that a pull
      -- request holds stays its, as long as it is not reported as closed.
      pub run-kept :
          (h : Holder) (s s' : World R.Db E.argo.State E.vcs.State) (a : Text)
          → IsNotClosed E h
          → IsKeyedBy R J s.0
          → table R J s.0 a ≡ some h
          → Run h s s'
          → table R J s'.0 a ≡ some h
      run-kept h s s' a alive k held_by (done _) = held_by
      run-kept h s s' a alive k held_by (command cmd event cached _ _ ne run) =
          let (turn, k') = execute-Turn cmd event cached s k in
          run-kept h _ s' a alive k' (turn.kept a h held_by ne alive) run
      run-kept h s s' a alive k held_by (unlocking event _ _ ne run) =
          let (turn, k') = unlock_all-Turn event s k in
          run-kept h _ s' a alive k' (turn.kept a h held_by ne tt) run
