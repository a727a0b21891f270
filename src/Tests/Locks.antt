-- ===== src/Tests/Locks.antt =====
-- The lock manager run on the server in memory.
use mathlib.Core.List.{Memᴰ}
use lemuria.Prelude.{
  List, ◌≢◌, eq_iff, arith, All, Text, codes, [], ◌∷◌, none, some, true, false, ℕ, itoa, ◌==◌, ◌≡◌,
  ◌⊎◌, refl,
}
use lemuria.Effect.{Error, ok, err, is_nil, unless_nil}
use lemuria.Model.Application.{ApplicationChangeType}
use lemuria.Model.Lock.{Lock, LockRequest, is_held_by_pr}
use lemuria.Locking.Keys.{
  lock_key, plan_key, pr_locks_key, app_set_auto_sync_key, pr_app_sets_key, pr_locks_key-injective,
}
use lemuria.Locking.Manager.{
  decode_lock, get_lock, set_lock, refresh_lock, create_lock, lock_after, lock, delete_lock,
  force_unlock, unlock_found, unlock, keep_lock, collect_locks, list_by_pr, store_plan_lock,
  store_plan, new_lock, granted, refused,
}
use lemuria.Locking.Reads.{decoded, held}
use lemuria.Locking.Index.{IsIndexed, lock-IsIndexed, unlock-IsIndexed}
use lemuria.Locking.Holders.{Granted, lock_foreign, lock-Granted, unlock_ok, unlock_foreign}
use lemuria.Locking.Listing.{IsListed, list_by_pr_sound, list_by_pr_complete}
use lemuria.Locking.AutoSync.{
  policy_reply, store_app_set_auto_sync, get_app_set_auto_sync, delete_app_set_auto_sync,
}
use lemuria.Locking.Policies.{PolicyCall, policy_key, perform_all, get-store_policy}
use lemuria.Locking.Outcomes.{Decodes, outcome, lock_outcome}
use lemuria.Locking.Plans.{plan_outcome, store_plan-held}
use lemuria.Locking.Race.{race, race_both_granted}
use lemuria.Tests.Store.{
  Memory, memory, memory_laws, memory-Answers, empty, lookup, without, holds, drop_member, members,
  reply,
}
use lemuria.Tests.Codec.{codec, codec-Encodes}

abbrev request : Text → ℕ → LockRequest
request repo n = record {
  application = codes "shop";
  pr_number = n;
  repo = repo;
  repo_url = codes "https://github.com/org/shop";
  provider = codes "github";
  user = codes "ann";
  change_type = ApplicationChangeType.existing;
}

abbrev mine : LockRequest
mine = request (codes "org/shop") 7

abbrev theirs : LockRequest
theirs = request (codes "org/shop") 8

abbrev locked : Memory
locked = (lock memory codec mine 100 empty).1

-- All that a run calls.
runs : Unit {0}
unfolding ◌==◌ itoa is_nil unless_nil is_held_by_pr lock_key plan_key pr_locks_key
    app_set_auto_sync_key pr_app_sets_key decode_lock get_lock set_lock refresh_lock create_lock
    lock_after lock delete_lock force_unlock unlock_found unlock keep_lock collect_locks list_by_pr
    store_plan_lock store_plan new_lock decoded held policy_reply store_app_set_auto_sync
    get_app_set_auto_sync delete_app_set_auto_sync race lookup without holds drop_member members
    reply codec
runs = tt

lock_run : (lock memory codec mine 100 empty).0 ≡ ok (granted (new_lock mine 100))
unfolding runs
lock_run = refl

held_run : held memory codec locked (codes "shop") ≡ some (new_lock mine 100)
unfolding runs
held_run = refl

not_theirs : is_held_by_pr (new_lock mine 100) (codes "org/shop") 8 ≡ false
unfolding runs
not_theirs = refl

empty-IsIndexed : IsIndexed memory codec empty
unfolding runs
empty-IsIndexed = record { keyed = λ a l h. cc; indexed = λ a l h. cc }

lock-IsIndexed_example : IsIndexed memory codec locked
lock-IsIndexed_example =
    lock-IsIndexed memory codec memory_laws mine 100 empty (granted (new_lock mine 100))
      empty-IsIndexed lock_run

lock_foreign_example :
    (((e : Error) × ((lock memory codec theirs 200 locked).0 ≡ err e))
      ⊎ ((lock memory codec theirs 200 locked).0 ≡ ok (refused (new_lock mine 100))))
    × ((a : Text)
        → held memory codec (lock memory codec theirs 200 locked).1 a ≡ held memory codec locked a)
lock_foreign_example =
    lock_foreign memory codec memory_laws theirs 200 locked (new_lock mine 100) held_run not_theirs

lock-Granted_example :
    Granted mine
      (held memory codec empty (codes "shop"))
      (held memory codec locked (codes "shop"))
      (granted (new_lock mine 100))
lock-Granted_example =
    lock-Granted memory codec memory_laws mine 100 empty (granted (new_lock mine 100))
      (empty-IsIndexed.keyed (codes "shop")) lock_run refl

unlock_run : (unlock memory codec (codes "shop") (codes "org/shop") 7 locked).0 ≡ ok tt
unfolding runs
unlock_run = refl

abbrev unlocked : Memory
unlocked = (unlock memory codec (codes "shop") (codes "org/shop") 7 locked).1

unlock-IsIndexed_example : IsIndexed memory codec unlocked
unlock-IsIndexed_example =
    unlock-IsIndexed memory codec memory_laws (codes "shop") (codes "org/shop") 7 locked
      lock-IsIndexed_example unlock_run

unlock_ok_example :
    (held memory codec unlocked (codes "shop") ≡ none)
    × ((l : Lock)
        → held memory codec locked (codes "shop") ≡ some l
        → is_held_by_pr l (codes "org/shop") 7 ≡ true)
unlock_ok_example =
    unlock_ok memory codec memory_laws (codes "shop") (codes "org/shop") 7 locked unlock_run

unlock_foreign_example :
    ((e : Error) × ((unlock memory codec (codes "shop") (codes "org/shop") 8 locked).0 ≡ err e))
    × ((a : Text)
        → held memory codec (unlock memory codec (codes "shop") (codes "org/shop") 8 locked).1 a
          ≡ held memory codec locked a)
unlock_foreign_example =
    unlock_foreign memory codec memory_laws (codes "shop") (codes "org/shop") 8 locked
      (new_lock mine 100) held_run not_theirs

list_run : (list_by_pr memory codec (codes "org/shop") 7 locked).0 ≡ ok (new_lock mine 100 ∷ [])
unfolding runs
list_run = refl

mine_held : is_held_by_pr (new_lock mine 100) (codes "org/shop") 7 ≡ true
unfolding runs
mine_held = refl

list_by_pr_sound_example :
    All
      (IsListed memory codec (λ l. is_held_by_pr l (codes "org/shop") 7) locked)
      (new_lock mine 100 ∷ [])
list_by_pr_sound_example =
    list_by_pr_sound memory codec memory_laws (codes "org/shop") 7 locked (new_lock mine 100 ∷ [])
      list_run

list_by_pr_complete_example : Memᴰ (new_lock mine 100) (new_lock mine 100 ∷ [])
list_by_pr_complete_example =
    list_by_pr_complete memory codec memory_laws (codes "org/shop") 7 locked
      (new_lock mine 100 ∷ []) (codes "shop") (new_lock mine 100) memory-Answers.reads
      lock-IsIndexed_example list_run held_run mine_held

Decodes-empty : Decodes memory codec empty (codes "shop")
unfolding runs
Decodes-empty v h = absurd (cc h)

lock_outcome_example :
    (lock memory codec mine 100 empty).0
    ≡ ok (outcome mine 100 (held memory codec empty (codes "shop")))
lock_outcome_example =
    lock_outcome memory codec memory_laws memory-Answers codec-Encodes mine 100 empty Decodes-empty

nothing_there : memory.value empty (lock_key (codes "shop")) ≡ none
unfolding runs
nothing_there = refl

race_both_granted_example :
    ((race memory codec mine 100 theirs 101 empty).0 ≡ ok (granted (new_lock mine 100)))
    × ((race memory codec mine 100 theirs 101 empty).1 ≡ ok (granted (new_lock theirs 101)))
    × (held memory codec (race memory codec mine 100 theirs 101 empty).2 (codes "shop")
        ≡ some (new_lock theirs 101))
race_both_granted_example =
    race_both_granted memory codec memory_laws memory-Answers codec-Encodes mine theirs 100 101
      empty refl nothing_there

store_plan_run :
    (store_plan memory codec
      (codes "shop")
      7
      (codes "abc123")
      (codes "apps/shop.yaml")
      []
      []
      locked).0
    ≡ ok tt
unfolding runs
store_plan_run = refl

abbrev with_plan : Memory
with_plan =
    (store_plan memory codec (codes "shop") 7 (codes "abc123") (codes "apps/shop.yaml") [] []
      locked).1

store_plan-held_example :
    (held memory codec with_plan (codes "shop")
      ≡ plan_outcome 7
          (codes "abc123")
          (codes "apps/shop.yaml")
          []
          []
          (held memory codec locked (codes "shop")))
    × IsIndexed memory codec with_plan
store_plan-held_example =
    store_plan-held memory codec memory_laws 7 (codes "abc123") (codes "apps/shop.yaml") [] []
      (codes "shop") locked lock-IsIndexed_example store_plan_run

abbrev policy : Text
policy = codes "{}"

abbrev kept : Memory
kept = (store_app_set_auto_sync memory (codes "set") (codes "org/shop") 7 policy empty).1

kept_run :
    (store_app_set_auto_sync memory (codes "set") (codes "org/shop") 7 policy empty).0 ≡ ok tt
unfolding runs
kept_run = refl

-- A policy of another set is stored and deleted in between.
abbrev others : List PolicyCall
others =
    PolicyCall.store (codes "other") (codes "org/shop") 7 policy
    ∷ PolicyCall.delete (codes "other") (codes "org/shop") 7
    ∷ []

other_key :
    (app_set_auto_sync_key (codes "other") (codes "org/shop") 7
      == app_set_auto_sync_key (codes "set") (codes "org/shop") 7)
    ≡ false
unfolding app_set_auto_sync_key ◌==◌ itoa
other_key = refl

other_keys :
    All (λ c. policy_key c ≢ app_set_auto_sync_key (codes "set") (codes "org/shop") 7) others
other_keys = (differ, (differ, tt))
  where
    differ :
        app_set_auto_sync_key (codes "other") (codes "org/shop") 7
        ≢ app_set_auto_sync_key (codes "set") (codes "org/shop") 7
    differ e = ground (arith, other_key, (eq_iff _ _).1 e)

read_run :
    (get_app_set_auto_sync memory
      (codes "set")
      (codes "org/shop")
      7
      (perform_all memory others kept)).0
    ≡ ok (some policy)
unfolding runs
read_run = refl

get-store_policy_example : some policy ≡ some policy
get-store_policy_example =
    get-store_policy memory memory_laws (codes "set") (codes "org/shop") 7 empty policy others
      (some policy) other_keys kept_run read_run

pr_locks_key-injective_example : (codes "org/shop" ≡ codes "org/shop") × (◌≡◌ {A = ℕ} 7 7)
pr_locks_key-injective_example =
    pr_locks_key-injective (codes "org/shop") (codes "org/shop") 7 7 refl
