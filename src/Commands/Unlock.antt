-- ===== src/Commands/Unlock.antt =====
-- internal/commands/unlock.go: the unlock command, over the lock manager. The provider's client and
-- the text of an error are parameters; the state is that of the server with that of the provider.
use lemuria.Prelude.{
  ℕ, Text, codes, Bool, true, false, ◌&&◌, Option, none, some, List, [], ◌∷◌, ◌++◌, select,
  if◌then◌else◌, ◌==◌, ltb, length,
}
use lemuria.Effect.{Error, Result, ok, err, wrapped, Action, pure, attempt, ◌>>=◌, ◌>>◌}
use lemuria.Model.Lock.{Lock}
use lemuria.Model.Event.{PrEvent, Comment}
use lemuria.Redis.{Redis}
use lemuria.Locking.Manager.{LockCodec, list_by_pr, unlock}
use lemuria.Commands.Command.{Command}

pub record UnlockResult : Type 0 where
  pub application : Text
  pub success : Bool
  pub error : Option Error

-- What the handlers of commands call of vcs.Client, each over the state of the provider.
pub record Reporter (V : Type 0) : Type 0 where
  pub add_reaction : Text → Text → ℕ → Text → Action V (Unit {0})
  pub post_comment : Text → Text → ℕ → Text → Bool → Action V (Unit {0})

abbrev pub result_line : (Error → Text) → UnlockResult → Option Error → Text
result_line error_text r (some e) =
    codes "❌ `" ++ (r.application ++ (codes "`: " ++ (error_text e ++ codes "\n")))
result_line error_text r none = codes "✅ `" ++ (r.application ++ codes "`: Unlocked\n")

abbrev pub result_lines : (Error → Text) → List UnlockResult → Text
result_lines error_text [] = []
result_lines error_text (r ∷ rs) = result_line error_text r r.error ++ result_lines error_text rs

abbrev pub lacks_error : Option Error → Bool
lacks_error none = true
lacks_error (some e) = false

abbrev pub all_succeeded : List UnlockResult → Bool
all_succeeded [] = true
all_succeeded (r ∷ rs) = lacks_error r.error && all_succeeded rs

unfoldable pub render_unlock_results : (Error → Text) → List UnlockResult → Text
render_unlock_results error_text results =
    codes "## Lemuria Unlock\n\n"
    ++ (result_lines error_text results
        ++ (if all_succeeded results && ltb 0 (length results)
            then codes "\n---\n" ++ codes "🔓 All locks released. Plans discarded.\n"
            else []))

-- The filter by `cmd.Application`.
unfoldable pub chosen : Text → List Lock → List Lock
chosen application locks =
    if application == [] then locks else select (λ l. l.application == application) locks

abbrev pub unlock_result : Text → Result (Unit {0}) → UnlockResult
unlock_result application (ok _) = record {
  application = application;
  success = true;
  error = none;
}
unlock_result application (err e) = record {
  application = application;
  success = false;
  error = some e;
}

module _ (R : Redis) (J : LockCodec) where
  -- The loop that unlocks each application.
  unfoldable pub unlock_locks : Text → ℕ → List Lock → Action R.Db (List UnlockResult)
  unlock_locks repo pr_number [] = pure []
  unlock_locks repo pr_number (l ∷ locks) = do
    r ← attempt (unlock R J l.application repo pr_number)
    rest ← unlock_locks repo pr_number locks
    pure (unlock_result l.application r ∷ rest)

  module _ {V : Type 0} (P : Reporter V) (error_text : Error → Text) where
    abbrev pub on_server : {A : Type 0} → Action R.Db A → Action (R.Db × V) A
    on_server m s = let (r, d) = m s.0 in (r, (d, s.1))

    abbrev pub on_provider : {A : Type 0} → Action V A → Action (R.Db × V) A
    on_provider m s = let (r, v) = m s.1 in (r, (s.0, v))

    -- A reaction that fails is only logged.
    abbrev pub react : PrEvent → Option Comment → Action (R.Db × V) (Unit {0})
    react event none = pure tt
    react event (some c) = do
      attempt (on_provider (P.add_reaction event.repo.owner event.repo.name c.id (codes "eyes")))
      pure tt

    -- internal/commands/plan.go
    abbrev pub post_comment : PrEvent → Text → Action (R.Db × V) (Unit {0})
    post_comment event body =
        on_provider (P.post_comment event.repo.owner event.repo.name event.pr.number body false)

    abbrev pub post_error : PrEvent → Error → Action (R.Db × V) (Unit {0})
    post_error event e =
        post_comment event (codes "## Lemuria Error\n\n```\n" ++ (error_text e ++ codes "\n```"))

    unfoldable pub unlock_chosen : PrEvent → Text → List Lock → Action (R.Db × V) (Unit {0})
    unlock_chosen event application [] = post_comment event (
        codes "## Lemuria Unlock\n\n⚠"
        ++ (0xfe0f ∷ codes " Application `"
            ++ (application ++ codes "` is not locked by this PR.")))
    unlock_chosen event application (l ∷ locks) = do
      results ← on_server (unlock_locks event.repo.full_name event.pr.number (l ∷ locks))
      post_comment event (render_unlock_results error_text results)

    unfoldable pub unlock_listed :
        PrEvent → Text → Result (List Lock) → Action (R.Db × V) (Unit {0})
    unlock_listed event application (err e) = post_error event (wrapped (codes "listing locks") e)
    unlock_listed event application (ok []) =
        post_comment event (codes "## Lemuria Unlock\n\nNo applications are locked by this PR.")
    unlock_listed event application (ok (l ∷ locks)) =
        unlock_chosen event application (chosen application (l ∷ locks))

    unfoldable pub execute_unlock : Command → PrEvent → Action (R.Db × V) (Unit {0})
    execute_unlock cmd event = do
      react event event.comment
      listed ← attempt (on_server (list_by_pr R J event.repo.full_name event.pr.number))
      unlock_listed event cmd.application listed
