-- ===== src/Commands/Help.antt =====
-- internal/commands/help.go: the help text, line by line.
use lemuria.Prelude.{Text, codes, List, [], ◌∷◌, ◌++◌}
use lemuria.Model.Event.{PrEvent}
use lemuria.Redis.{Redis}
use lemuria.Services.Executor.{Services, Doing, post_comment}

abbrev pub help_lines : List Text
help_lines =
    codes "## Lemuria Help\n"
    ∷ codes "\n"
    ∷ codes "Lemuria provides Argo CD pull request automation.\n"
    ∷ codes "\n"
    ∷ codes "### Commands\n"
    ∷ codes "\n"
    ∷ codes "| Command | Description |\n"
    ∷ codes "|---------|-------------|\n"
    ∷ codes "| `lemuria plan` | Generate diff of changes for affected applications |\n"
    ∷ codes "| `lemuria plan -a <app>` | Plan specific application |\n"
    ∷ codes "| `lemuria plan --all` | Plan all applications (ignore path filtering) |\n"
    ∷ codes "| `lemuria sync` | Sync all planned applications |\n"
    ∷ codes "| `lemuria sync -a <app>` | Sync specific application |\n"
    ∷ codes "| `lemuria sync --prune` | Sync with prune enabled |\n"
    ∷ codes "| `lemuria sync --dry-run` | Dry-run sync only |\n"
    ∷ codes "| `lemuria rollback` | Rollback all locked apps to their targetRevision |\n"
    ∷ codes "| `lemuria rollback -a <app>` | Rollback specific app to its targetRevision |\n"
    ∷ codes "| `lemuria rollback --dry-run` | Preview rollback |\n"
    ∷ codes "| `lemuria unlock` | Release all locks for this PR |\n"
    ∷ codes "| `lemuria unlock -a <app>` | Release lock for specific app |\n"
    ∷ codes "| `lemuria help` | Show this help message |\n"
    ∷ codes "\n"
    ∷ codes "### Workflow\n"
    ∷ codes "\n"
    ∷ codes
        "1. **Plan**: When a PR is opened or updated, Lemuria automatically runs `lemuria plan` to show what would change.\n"
    ∷ codes "2. **Review**: Review the diff in the PR comment.\n"
    ∷ codes "3. **Sync**: Comment `lemuria sync` to apply the changes.\n"
    ∷ codes "4. **Unlock**: If you need to abandon changes, comment `lemuria unlock`.\n"
    ∷ codes "\n"
    ∷ codes "### Rollback\n"
    ∷ codes "\n"
    ∷ codes "To rollback applications after a PR sync:\n"
    ∷ codes "- Run `lemuria rollback` to rollback all apps locked by this PR\n"
    ∷ codes "- Run `lemuria rollback -a <app>` to rollback a specific app\n"
    ∷ codes "- This syncs apps back to their configured targetRevision (main/master)\n"
    ∷ codes "\n"
    ∷ codes "### Locking\n"
    ∷ codes "\n"
    ∷ codes "- Applications are locked when planned to prevent concurrent modifications.\n"
    ∷ codes "- Only the PR that holds the lock can sync the application.\n"
    ∷ codes "- Locks are automatically released when the PR is closed or merged.\n"
    ∷ codes "\n"
    ∷ codes "### Requirements\n"
    ∷ codes "\n"
    ∷ codes "Depending on configuration, sync and rollback may require:\n"
    ∷ codes "- PR approval\n"
    ∷ codes "- No merge conflicts\n"
    ∷ codes "- Valid (non-stale) plan (for sync)\n"
    ∷ codes "\n"
    ∷ codes "---\n"
    ∷ codes "[Lemuria Documentation](https://github.com/pradithya/lemuria)"
    ∷ []

abbrev pub lines_text : List Text → Text
lines_text [] = []
lines_text (l ∷ ls) = l ++ lines_text ls

module _ (R : Redis) (E : Services) where
  unfoldable pub execute_help : PrEvent → Doing R E (Unit {0})
  execute_help event = post_comment R E event (lines_text help_lines)
