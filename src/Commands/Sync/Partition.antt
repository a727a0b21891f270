-- ===== src/Commands/Sync/Partition.antt =====
-- internal/commands/sync.go: which locks computeSyncTargets syncs, and which it skips as parents.
use mathlib.Core.List.{Memᴰ}
use lemuria.Prelude.{
  ℕ, zero, suc, ◌+◌, Text, Bool, List, [], ◌∷◌, Option, none, some, if◌then◌else◌, ◌≡◌, ◌⊎◌, refl,
  arith,
}
use lemuria.Effect.{Result}
use lemuria.Model.Lock.{Lock}
use lemuria.Redis.{Redis}
use lemuria.Services.World.{World}
use lemuria.Services.Argo.{ManagedResource}
use lemuria.Services.Executor.{Services}
use lemuria.Commands.Sync.Execute.{lock_at}
use lemuria.Commands.Sync.Targets.{is_parent_of}
use lemuria.Commands.Sync.Parents.{times, wanted, Manages}

wanted-some : (o : Option Lock) → wanted o ≡ 1 → (l : Lock) × (o ≡ some l)
wanted-some none h = absurd (ground (arith, h))
wanted-some (some l) h = (l, refl)

module _ (R : Redis) (E : Services) where
  abbrev Ask : Text → E.argo.State → Result (List ManagedResource) × E.argo.State
  Ask = E.argo.get_managed_resources

  -- Argo CD once it was asked for the resources of the locks before the `i`-th that are not of
  -- parents, in their order.
  abbrev pub asked : ℕ → List Lock → E.argo.State → E.argo.State
  asked i [] a = a
  asked zero (l ∷ locks) a = a
  asked (suc i) (l ∷ locks) a =
      asked i locks (if l.is_parent_app then a else (Ask l.application a).1)

  -- What Argo CD answers for the lock at an index.
  abbrev pub Answers : List Lock → E.argo.State → ℕ → Result (List ManagedResource) → Type 0
  Answers locks a i reply =
      (l : Lock) × (lock_at i locks ≡ some l) × (reply ≡ (Ask l.application (asked i locks a)).0)

  -- The indices to sync and those to skip.
  pub record IsSplit (locks : List Lock) (a : E.argo.State) (ts : List ℕ × List ℕ) : Type 0 where
    pub each : (i : ℕ) → times i ts.0 + times i ts.1 ≡ wanted (lock_at i locks)
    pub synced :
        (i : ℕ)
        → Memᴰ i ts.0
        → ((j : ℕ) → wanted (lock_at j locks) ≡ 1 → j ≡ i)
          ⊎ ((reply : Result (List ManagedResource)) × Answers locks a i reply
              × (¬ Manages locks reply))
    pub skipped :
        (i : ℕ)
        → Memᴰ i ts.1
        → (reply : Result (List ManagedResource)) × Answers locks a i reply × Manages locks reply

  abbrev flags_of : List Text → List (ℕ × Text) → E.argo.State → List Bool
  flags_of locked [] a = []
  flags_of locked (c ∷ cs) a = let r = Ask c.1 a in is_parent_of locked r.0 ∷ flags_of locked cs r.1

  -- Each flagged index is that of a lock, and the flag is the test of what Argo CD answers for it.
  abbrev IsFlag : List Text → Bool → ℕ → List Lock → E.argo.State → ℕ → Type 0
  IsFlag locked b k locks a j =
      (i : ℕ) × (j ≡ k + i)
      × (l : Lock) × (lock_at i locks ≡ some l)
      × (is_parent_of locked (Ask l.application (asked i locks a)).0 ≡ b)
