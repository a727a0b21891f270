-- ===== src/Redis.antt =====
-- The commands of the Redis server that the lock manager sends. The server is not part of the
-- repository, so its state and its commands are a parameter. No key expires while an operation
-- runs: an expiry is a step between two operations.
use lemuria.Prelude.{ℕ, Text, ◌≡◌, ◌≢◌, ◌⊎◌, Bool, true, false, Option, none, some, List, elem}
use lemuria.Effect.{Error, Action, ok, err, is_nil}

pub record Redis : Type 1 where
  pub Db : Type 0
  pub get : Text → Action Db Text
  pub set : Text → Text → ℕ → Action Db (Unit {0})
  pub del : Text → Action Db (Unit {0})
  pub sadd : Text → Text → Action Db (Unit {0})
  pub srem : Text → Text → Action Db (Unit {0})
  pub smembers : Text → Action Db (List Text)
  pub keys : Text → Action Db (List Text)
  pub expire : Text → ℕ → Action Db (Unit {0})
  -- What the server holds: the text under a key, and the members of the set under a key.
  pub value : Db → Text → Option Text
  pub member : Db → Text → Text → Bool

-- The documented effect of each command. A command that fails may or may not have taken effect on
-- its own key.
pub record RedisLaws (R : Redis) : Type 0 where
  pub value-get : (k : Text) (d : R.Db) (j : Text) → R.value (R.get k d).1 j ≡ R.value d j
  pub member-get : (k : Text) (d : R.Db) (j m : Text) → R.member (R.get k d).1 j m ≡ R.member d j m
  pub get-ok : (k : Text) (d : R.Db) (v : Text) → (R.get k d).0 ≡ ok v → R.value d k ≡ some v
  pub get-nil :
      (k : Text) (d : R.Db) (e : Error)
      → (R.get k d).0 ≡ err e
      → is_nil e ≡ true
      → R.value d k ≡ none
  pub value-set_ne :
      (k v : Text) (t : ℕ) (d : R.Db) (j : Text) → j ≢ k → R.value (R.set k v t d).1 j ≡ R.value d j
  pub member-set_ne :
      (k v : Text) (t : ℕ) (d : R.Db) (j m : Text)
      → j ≢ k
      → R.member (R.set k v t d).1 j m ≡ R.member d j m
  pub set-ok :
      (k v : Text) (t : ℕ) (d : R.Db)
      → (R.set k v t d).0 ≡ ok tt
      → R.value (R.set k v t d).1 k ≡ some v
  pub set-either :
      (k v : Text) (t : ℕ) (d : R.Db)
      → (R.value (R.set k v t d).1 k ≡ some v) ⊎ (R.value (R.set k v t d).1 k ≡ R.value d k)
  pub value-del_ne :
      (k : Text) (d : R.Db) (j : Text) → j ≢ k → R.value (R.del k d).1 j ≡ R.value d j
  pub member-del_ne :
      (k : Text) (d : R.Db) (j m : Text) → j ≢ k → R.member (R.del k d).1 j m ≡ R.member d j m
  pub del-ok : (k : Text) (d : R.Db) → (R.del k d).0 ≡ ok tt → R.value (R.del k d).1 k ≡ none
  pub del-either :
      (k : Text) (d : R.Db)
      → (R.value (R.del k d).1 k ≡ none) ⊎ (R.value (R.del k d).1 k ≡ R.value d k)
  pub value-sadd : (k a : Text) (d : R.Db) (j : Text) → R.value (R.sadd k a d).1 j ≡ R.value d j
  pub member-sadd_ne :
      (k a : Text) (d : R.Db) (j m : Text)
      → (j ≢ k) ⊎ (m ≢ a)
      → R.member (R.sadd k a d).1 j m ≡ R.member d j m
  pub sadd-ok :
      (k a : Text) (d : R.Db) → (R.sadd k a d).0 ≡ ok tt → R.member (R.sadd k a d).1 k a ≡ true
  pub value-srem : (k a : Text) (d : R.Db) (j : Text) → R.value (R.srem k a d).1 j ≡ R.value d j
  pub member-srem_ne :
      (k a : Text) (d : R.Db) (j m : Text)
      → (j ≢ k) ⊎ (m ≢ a)
      → R.member (R.srem k a d).1 j m ≡ R.member d j m
  pub srem-ok :
      (k a : Text) (d : R.Db) → (R.srem k a d).0 ≡ ok tt → R.member (R.srem k a d).1 k a ≡ false
  pub value-smembers : (k : Text) (d : R.Db) (j : Text) → R.value (R.smembers k d).1 j ≡ R.value d j
  pub member-smembers :
      (k : Text) (d : R.Db) (j m : Text) → R.member (R.smembers k d).1 j m ≡ R.member d j m
  pub smembers-ok :
      (k : Text) (d : R.Db) (ms : List Text)
      → (R.smembers k d).0 ≡ ok ms
      → (m : Text) → elem m ms ≡ R.member d k m
  pub value-expire :
      (k : Text) (t : ℕ) (d : R.Db) (j : Text) → R.value (R.expire k t d).1 j ≡ R.value d j
  pub member-expire :
      (k : Text) (t : ℕ) (d : R.Db) (j m : Text) → R.member (R.expire k t d).1 j m ≡ R.member d j m
