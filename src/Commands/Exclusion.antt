-- ===== src/Commands/Exclusion.antt =====
-- internal/commands/executor.go over internal/lock: the table of the holders of applications, and
-- the turns that pull requests may take on it. Each command is such a turn.
use mathlib.Core.Path.{subst}
use lemuria.Prelude.{
  ℕ, Text, false, Option, none, some, [], ◌≡◌, ◌≢◌, ◌⊎◌, inl, inr, refl, sym, ap, ◌∙◌, Bool-cases,
  arith, Option-cases, some_injective,
}
use lemuria.Effect.{ok}
use lemuria.Model.Event.{PrEvent, PullRequestDetail, is_closed_state}
use lemuria.Model.Lock.{Lock, is_held_by_pr, held_by_lem}
use lemuria.Redis.{Redis}
use lemuria.Locking.Manager.{LockCodec}
use lemuria.Locking.Reads.{held}
use lemuria.Locking.Respects.{Site, Setting, IsKeyed, Respects}
use lemuria.Services.World.{World}
use lemuria.Services.Config.{RepoConfig}
use lemuria.Services.Executor.{Services}
use lemuria.Services.Planner.{Planner}
use lemuria.Services.Safe.{setting, Safe}
use lemuria.Commands.Command.{Command, CommandType, plan, sync, unlock, help, rollback}
use lemuria.Commands.UnlockSafety.{execute_unlock-Respects}
use lemuria.Commands.Rollback.{execute_rollback}
use lemuria.Commands.Help.{execute_help}
use lemuria.Commands.RollbackSafety.{post_comment-Safe}
use lemuria.Commands.Sync.Safety.{execute_sync-Safe}
use lemuria.Commands.Plan.Render.{split_repo_full_name}
use lemuria.Commands.Plan.Safety.{SparesOpen}
use lemuria.Commands.Plan.Whole.{execute_plan-Safe}
use lemuria.Commands.Execute.{reporter, on_unlock, execute_as}

-- A pull request: its repository and its number.
abbrev pub Holder : Type 0
Holder = Text × ℕ

abbrev pub Table : Type 0
Table = Text → Option Holder

abbrev pub holder : Lock → Holder
holder l = (l.repo, l.pr_number)

abbrev pub holder_of : Option Lock → Option Holder
holder_of none = none
holder_of (some l) = some (holder l)

unfoldable pub table : (R : Redis) → LockCodec → R.Db → Table
table R J d a = holder_of (held R J d a)

-- A turn of the pull request `p`: what is held afterwards is its own or was held before, and the
-- pull requests of `IsSafe` keep what they hold.
pub record Turn (p : Holder) (IsSafe : Holder → Type 0) (t t' : Table) : Type 0 where
  pub taken : (a : Text) (h : Holder) → t' a ≡ some h → (h ≡ p) ⊎ (t a ≡ some h)
  pub kept : (a : Text) (h : Holder) → t a ≡ some h → h ≢ p → IsSafe h → t' a ≡ some h

-- The provider does not answer that the pull request is closed.
abbrev pub IsNotClosed : Services → Holder → Type 0
IsNotClosed E h =
    (owner name : Text) (v : E.vcs.State) (pr : PullRequestDetail)
    → split_repo_full_name h.0 ≡ some (owner, name)
    → (E.vcs.get_pr owner name h.1 v).0 ≡ ok pr
    → is_closed_state pr.state ≡ false

module _ (site : Site) (E : Services) (event : PrEvent) where
  open site use {redis, codec}

  abbrev c : Setting
  c = setting site event

  pub execute_as-Respects :
      (P : Planner E) (cmd : Command) (cached : Option (Option RepoConfig)) (t : CommandType)
      → SparesOpen site E
      → ((x : Unit {0}) → Safe c [] (execute_rollback redis codec E cmd event)) ⊎ (t ≢ rollback)
      → (s : World redis.Db E.argo.State E.vcs.State) → IsKeyed c s.0
      → Respects c s.0 (execute_as redis codec E P t cmd event cached s).1.0
  unfolding execute_as execute_help on_unlock
  execute_as-Respects P cmd cached plan spares back s k =
      (execute_plan-Safe site E P event spares cmd).step s k tt
  execute_as-Respects P cmd cached sync spares back s k =
      (execute_sync-Safe site E event cmd cached).step s k tt
  execute_as-Respects P cmd cached unlock spares back s k =
      execute_unlock-Respects site (reporter E) E.error_text event cmd (s.0, s.2) k
  execute_as-Respects P cmd cached help spares back s k =
      (post_comment-Safe site E event [] _).step s k tt
  execute_as-Respects P cmd cached rollback spares (inl safe) s k = (safe tt).step s k tt
  execute_as-Respects P cmd cached rollback spares (inr ne) s k = absurd (ne refl)

  holder_ne :
      (l : Lock)
      → holder l ≢ (event.repo.full_name, event.pr.number)
      → is_held_by_pr l event.repo.full_name event.pr.number ≡ false
  holder_ne l ne = elim (Bool-cases (is_held_by_pr l event.repo.full_name event.pr.number)) [
    | inr e ↦ e
    | inl e ↦ let (p, q) = held_by_lem l _ _ e in absurd (ne (λ i. (p i, q i)))
  ]

  pub Respects-Turn :
      (IsSafe : Holder → Type 0)
      → ((h : Holder) → IsSafe h → site.IsSpared h.0 h.1)
      → (d d' : redis.Db) → Respects c d d'
      → Turn
          (event.repo.full_name, event.pr.number)
          IsSafe
          (table redis codec d)
          (table redis codec d')
  unfolding table
  Respects-Turn IsSafe spared d d' r = record {
    taken = λ a h e. elim (Option-cases (held redis codec d' a)) [
      | inl q ↦ absurd (ground (arith, q, e))
      | inr (l, q) ↦
          let same = some_injective (sym e ∙ ap holder_of q) in
          elim ((r.at a).taken l q) [
            | inl mine ↦ let (x, y) = held_by_lem l _ _ mine in inl (same ∙ (λ i. (x i, y i)))
            | inr (m, q', kept) ↦
                let (x, y) = site.kept-holder m l kept in
                inr (ap holder_of q' ∙ ap some ((λ i. (x i, y i)) ∙ sym same))
          ]
    ];
    kept = λ a h e ne safe. elim (Option-cases (held redis codec d a)) [
      | inl q ↦ absurd (ground (arith, q, e))
      | inr (l, q) ↦
          let same = some_injective (sym (ap holder_of q) ∙ e) in
          let (m, q', kept) =
            (r.at a).spared l q (holder_ne l (λ p. ne (sym same ∙ p)))
              (spared (holder l) (subst IsSafe (sym same) safe)) in
          let (x, y) = site.kept-holder l m kept in
          ap holder_of q' ∙ ap some ((λ i. (sym x i, sym y i)) ∙ same)
    ];
  }
