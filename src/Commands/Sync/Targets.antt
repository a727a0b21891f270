-- ===== src/Commands/Sync/Targets.antt =====
-- internal/commands/sync.go: computeSyncTargets. The resources of the candidates are fetched one
-- after the other.
use lemuria.Prelude.{
  ℕ, suc, Text, codes, ◌==◌, ◌||◌, ◌&&◌, if◌then◌else◌, Bool, true, false, not, elem, List, [], ◌∷◌,
  map,
}
use lemuria.Effect.{Result, ok, err}
use lemuria.Model.Lock.{Lock}
use lemuria.Redis.{Redis}
use lemuria.Services.World.{pure, attempt, ◌>>=◌, on_argo}
use lemuria.Services.Argo.{ManagedResource}
use lemuria.Services.Executor.{Services, Doing}

-- The index and the application of each lock that is no lock of a parent.
unfoldable pub candidates : ℕ → List Lock → List (ℕ × Text)
candidates i [] = []
candidates i (l ∷ locks) =
    let rest = candidates (suc i) locks in
    if l.is_parent_app then rest else (i, l.application) ∷ rest

abbrev pub indices : List (ℕ × Text) → List ℕ
indices cs = map (λ c. c.0) cs

abbrev pub names : List (ℕ × Text) → List Text
names cs = map (λ c. c.1) cs

abbrev pub manages_any : List Text → List ManagedResource → Bool
manages_any locked [] = false
manages_any locked (r ∷ resources) =
    (r.kind == codes "Application" && elem r.name locked) || manages_any locked resources

-- Resources that could not be fetched make no parent.
unfoldable pub is_parent_of : List Text → Result (List ManagedResource) → Bool
is_parent_of locked (err e) = false
is_parent_of locked (ok resources) = manages_any locked resources

-- The candidates whose flag is `b`.
unfoldable pub flagged : Bool → List (ℕ × Text) → List Bool → List ℕ
flagged b (c ∷ cs) (f ∷ fs) =
    let rest = flagged b cs fs in if (if b then f else not f) then c.0 ∷ rest else rest
flagged b _ _ = []

abbrev pub any_flag : List Bool → Bool
any_flag [] = false
any_flag (f ∷ fs) = f || any_flag fs

unfoldable pub split_targets : List (ℕ × Text) → List Bool → List ℕ × List ℕ
split_targets cs flags =
    if any_flag flags then (flagged false cs flags, flagged true cs flags) else (indices cs, [])

module _ (R : Redis) (E : Services) where
  unfoldable pub parent_flags : List Text → List (ℕ × Text) → Doing R E (List Bool)
  parent_flags locked [] = pure []
  parent_flags locked (c ∷ cs) = do
    resources ← attempt (on_argo (E.argo.get_managed_resources c.1))
    flags ← parent_flags locked cs
    pure (is_parent_of locked resources ∷ flags)

  unfoldable pub targets_of : List (ℕ × Text) → Doing R E (List ℕ × List ℕ)
  targets_of [] = pure ([], [])
  targets_of (c ∷ []) = pure (c.0 ∷ [], [])
  targets_of (c ∷ d ∷ cs) = do
    flags ← parent_flags (names (c ∷ d ∷ cs)) (c ∷ d ∷ cs)
    pure (split_targets (c ∷ d ∷ cs) flags)

  -- The indices to sync, and those of the parents that are skipped.
  unfoldable pub compute_sync_targets : List Lock → Doing R E (List ℕ × List ℕ)
  compute_sync_targets locks = targets_of (candidates 0 locks)
