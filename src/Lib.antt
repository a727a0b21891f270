-- ===== src/Lib.antt =====
-- Lemuria answers the comments and the events of pull requests that change Argo CD applications: it
-- plans, locks, syncs and rolls back.
--
-- The program's parts and their files:
--
--   Redis            The server that internal/lock keeps its state on: a record of commands and the
--                    record of the laws that its documentation gives. It is a parameter.
--   Effect           The errors of Go calls, and actions: a state, and a result or an error. The
--                    state that an action has reached survives its error, as in the code.
--   Model            internal/models: Model/Lock (lock.go), Model/Application (application.go),
--                    Model/Event (event.go), Model/User (user.go).
--   Locking          internal/lock/redis.go, with internal/lock/manager.go for the interface.
--                    Keys: the keys; Manager: Lock, Unlock, ForceUnlock, Get, ListByPR, ListAll,
--                    StorePlan, GetPlan, UpdateLock, with `lock_after` for what follows the first
--                    read of Lock; AutoSync: the policies of application sets and of parents.
--                    Respects: what a pull request may do to the locks of others, with Steps and
--                    PolicySteps for each operation of the manager.
--                    The encoding of a lock to JSON is a parameter, LockCodec. Reads, Deletes and
--                    Grants carry the proofs; Holders, Index, Listing, Plans, Policies, Outcomes
--                    and Race are about what the manager promises.
--   Commands         internal/commands/parser.go. Command: the type and its print; Parser: from a
--                    comment to a command; Numbers, Tokens, Trim and Flags carry the proofs;
--                    RoundTrip joins them. internal/commands/unlock.go is Unlock, with Release and
--                    Foreign about its loop and about the whole command.
--                    internal/commands/autosync.go is AutoSync (Disable, Restore, Parents), with
--                    Safety about it; rollback.go is Rollback; sync.go is Sync (Requirements, Targets,
--                    Results, Tracker, Apply, Execute), DisableLocks and TargetRevision; plan.go is
--                    Plan (Render, Reclaim, Apply, Execute); executor.go is UnlockAll, Execute and
--                    Detect (Paths, Match, Affected; Mappings and Listing are about them), and help.go is
--                    Help. ReleaseSafety, RollbackSafety, UnlockSafety, Sync/PartSafety, Sync/Safety,
--                    Plan/Safety and Plan/Whole follow the commands line by line; Exclusion and Turns
--                    join them. Sync/Parents and Sync/Partition are about the targets of a sync,
--                    Sync/Gate about what is asked before it.
--   Services         What the executor works with: World is the state of Redis, of Argo CD and of the
--                    provider, with the actions on it; Argo and Provider are the clients
--                    (internal/argocd, internal/vcs/client.go), which are parameters; Config is
--                    internal/config/config.go; Executor is the struct; Planner is what the plan
--                    command calls besides. Safe and Replies say that a part of a command is safe for
--                    the locks of others, and how the parts are put together.
--   Queue            internal/queue/handler.go. Handler: from a task to a call of the executor, which
--                    is a parameter, as the clients of the providers and the decoding of a payload
--                    are; Dispatch: which call that is.
--   Auth             internal/auth/session.go (Sessions) and internal/auth/rbac.go (Roles). States,
--                    Expiry, Access and Domain are about them.
--   Glob             Go's filepath.Match.
--   Vcs              internal/vcs/helpers.go: Helpers, with Paths and Filter about it.
--   Server           internal/server/ratelimit.go. RateLimiter: the limiter; Window: its
--                    specification by a log of granted attempts; Bounds: what a window holds.
--   Tests            Runs at concrete inputs, over a Redis in memory (Tests/Store) and a codec
--                    (Tests/Codec).
--
-- A call of the lock manager is an action on the database of the server. Calls interleave at the
-- commands of the server: `race` runs two calls of Lock whose reads both come before their writes.
--
-- A Go string is the list of its code points. Times are numbers; a number is native and does not
-- wrap: an int64 that is parsed is bounded where strconv bounds it. The expiry of keys is the
-- parameter's `expire`, of which the laws say that it keeps the value; that time removes keys is not
-- modelled.
--
-- Fuel: the decimal print of a number gives each digit one unit and starts with one unit more than
-- the number, which is enough since a division by ten makes a positive number smaller. The matching
-- of a pattern takes a character of the pattern in each step, and is given its length.
--
-- The commands run to their end one after the other: a command of another pull request that runs
-- between two steps of a command is only modelled for two requests of a lock (`race`). The syncs that
-- a command runs at once follow one another. The recursion over the parents of an application is
-- bounded by the code's own limit of ten.
--
-- Not modelled: findAffectedApplications, which lists the applications that a pull request touches
-- (Detect is its test of one application and its loops over the changed ones), the differences of
-- an application and the print of results, which are parameters of the commands; the calls behind the
-- clients of Argo CD, GitHub, GitLab and the queue, the HTTP server, logs, metrics and the web
-- interface.

pub mod Prelude
pub mod Model
pub mod Effect
pub mod Redis
pub mod Locking
pub mod Server
pub mod Services
pub mod Commands
pub mod Queue
pub mod Auth
pub mod Glob
pub mod Vcs
mod Tests
