-- ===== src/Tests/Unlocks.antt =====
-- The unlock command on the server in memory.
use lemuria.Prelude.{
  ℕ, Text, codes, false, none, some, List, [], ◌∷◌, All, map, itoa, ◌==◌, ◌≡◌, refl,
}
use lemuria.Effect.{ok, is_nil, unless_nil}
use lemuria.Model.Application.{ApplicationChangeType}
use lemuria.Model.Lock.{Lock, LockRequest, is_held_by_pr}
use lemuria.Locking.Keys.{lock_key, plan_key, pr_locks_key}
use lemuria.Locking.Manager.{
  decode_lock, get_lock, set_lock, refresh_lock, create_lock, lock_after, lock, new_lock,
  delete_lock, force_unlock, unlock_found, unlock,
}
use lemuria.Locking.Reads.{decoded, held}
use lemuria.Commands.Unlock.{UnlockResult, Reporter, unlock_locks, execute_unlock}
use lemuria.Commands.Release.{IsForeign, IsReleased, unlock_locks-IsReleased}
use lemuria.Commands.Foreign.{execute_unlock_foreign}
use lemuria.Commands.Command.{CommandType}
use lemuria.Commands.Parser.{bare}
use lemuria.Model.Event.{github, issue_comment, created, open_state, PrEvent, UserInfo}
use lemuria.Tests.Store.{
  Memory, memory, memory_laws, empty, lookup, without, holds, drop_member, members, reply,
}
use lemuria.Tests.Codec.{codec}

abbrev request : Text → ℕ → LockRequest
request application n = record {
  application = application;
  pr_number = n;
  repo = codes "org/shop";
  repo_url = [];
  provider = codes "github";
  user = codes "ann";
  change_type = ApplicationChangeType.existing;
}

-- The shop is locked by 7 and the bank by 8.
abbrev shop : Memory
shop = (lock memory codec (request (codes "shop") 7) 100 empty).1

abbrev both : Memory
both = (lock memory codec (request (codes "bank") 8) 100 shop).1

abbrev shop_lock : Lock
shop_lock = new_lock (request (codes "shop") 7) 100

abbrev bank_lock : Lock
bank_lock = new_lock (request (codes "bank") 8) 100

bank_run : IsForeign memory codec (codes "org/shop") 7 both (codes "bank") bank_lock
unfolding ◌==◌ itoa is_nil is_held_by_pr lock_key plan_key pr_locks_key decode_lock get_lock
    set_lock refresh_lock create_lock lock_after lock delete_lock force_unlock unlock_found unlock
    new_lock decoded held unless_nil lookup without holds drop_member members reply codec
bank_run = (refl, refl)

abbrev reporter : Reporter (List Text)
reporter = record {
  add_reaction = λ o n id r s. (ok tt, s);
  post_comment = λ o n number body plan s. (ok tt, body ∷ s);
}

abbrev ann : UserInfo
ann = record { login = codes "ann"; id = 1; avatar_url = [] }

abbrev event : PrEvent
event = record {
  provider = github;
  type = issue_comment;
  action = created;
  repo = record {
    owner = codes "org";
    name = codes "shop";
    full_name = codes "org/shop";
    clone_url = [];
    html_url = [];
  };
  pr = record {
    number = 7;
    title = [];
    body = [];
    state = open_state;
    draft = false;
    merged = false;
    mergeable = none;
    head_sha = codes "abc";
    head_ref = codes "topic";
    base_ref = codes "main";
    author = ann;
    html_url = [];
    updated_at = 2;
  };
  comment = some (record { id = 5; body = codes "lemuria unlock"; author = ann; created_at = 3 });
  sender = ann;
  received_at = 4;
}

execute_unlock_foreign_example :
    held memory codec
      (execute_unlock memory codec reporter
        (λ e. [])
        (bare CommandType.unlock [])
        event
        (both, [])).1.0
      (codes "bank")
    ≡ some bank_lock
execute_unlock_foreign_example =
    execute_unlock_foreign memory codec memory_laws reporter (λ e. []) (bare CommandType.unlock [])
      event (both, []) (codes "bank") bank_lock bank_run

unlock_locks-IsReleased_example :
    (results : List UnlockResult) × ((unlock_locks memory codec
        (codes "org/shop")
        7
        (bank_lock ∷ shop_lock ∷ [])
        both).0
      ≡ ok results)
    × (map (λ r. r.application) results ≡ map (λ l. l.application) (bank_lock ∷ shop_lock ∷ []))
    × All
        (IsReleased memory codec
          (unlock_locks memory codec (codes "org/shop") 7 (bank_lock ∷ shop_lock ∷ []) both).1)
        results
unlock_locks-IsReleased_example =
    unlock_locks-IsReleased memory codec memory_laws (codes "org/shop") 7
      (bank_lock ∷ shop_lock ∷ []) both
