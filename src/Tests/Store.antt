-- ===== src/Tests/Store.antt =====
-- A Redis server in memory that answers every command: the texts under keys, and the pairs of the
-- key of a set and a member.
use lemuria.Prelude.{
  inl, Text, Bool, true, false, Option, none, some, List, [], ◌∷◌, map, elem, if◌then◌else◌, ◌==◌,
  ◌||◌, ◌&&◌, ◌≡◌, ◌≢◌, ◌⊎◌, refl, eq_iff, eq_refl, arith,
}
use lemuria.Effect.{ok, err, redis_nil, is_nil, Error, Result}
use lemuria.Redis.{Redis, RedisLaws}
use lemuria.Locking.Outcomes.{Answers}

abbrev pub Pairs : Type 0
Pairs = List (Text × Text)

pub record Memory : Type 0 where
  pub values : Pairs
  pub sets : Pairs

unfoldable pub lookup : Text → Pairs → Option Text
lookup k [] = none
lookup k ((j, v) ∷ m) = if j == k then some v else lookup k m

unfoldable pub without : Text → Pairs → Pairs
without k [] = []
without k ((j, v) ∷ m) = let rest = without k m in if j == k then rest else (j, v) ∷ rest

unfoldable pub holds : Text → Text → Pairs → Bool
holds k a [] = false
holds k a ((j, b) ∷ m) = (j == k && b == a) || holds k a m

unfoldable pub drop_member : Text → Text → Pairs → Pairs
drop_member k a [] = []
drop_member k a ((j, b) ∷ m) =
    let rest = drop_member k a m in if j == k && b == a then rest else (j, b) ∷ rest

unfoldable pub members : Text → Pairs → List Text
members k [] = []
members k ((j, b) ∷ m) = let rest = members k m in if j == k then b ∷ rest else rest

unfoldable pub reply : Option Text → Result Text
reply none = err redis_nil
reply (some v) = ok v

lookup-without_ne : (k j : Text) (m : Pairs) → j ≢ k → lookup j (without k m) ≡ lookup j m
unfolding lookup without
lookup-without_ne k j [] h = refl
lookup-without_ne k j ((i, v) ∷ m) h =
    ground (arith, lookup-without_ne k j m h, eq_iff i k, eq_iff i j)

lookup-without : (k : Text) (m : Pairs) → lookup k (without k m) ≡ none
unfolding lookup without
lookup-without k [] = refl
lookup-without k ((i, v) ∷ m) = ground (arith, lookup-without k m)

holds-drop_ne :
    (k a j b : Text) (m : Pairs) → (j ≢ k) ⊎ (b ≢ a) → holds j b (drop_member k a m) ≡ holds j b m
unfolding holds drop_member
holds-drop_ne k a j b [] h = refl
holds-drop_ne k a j b ((i, c) ∷ m) h =
    ground (arith, holds-drop_ne k a j b m h, eq_iff i k, eq_iff i j, eq_iff c a, eq_iff c b)

holds-drop : (k a : Text) (m : Pairs) → holds k a (drop_member k a m) ≡ false
unfolding holds drop_member
holds-drop k a [] = refl
holds-drop k a ((i, c) ∷ m) = ground (arith, holds-drop k a m)

elem-members : (k a : Text) (m : Pairs) → elem a (members k m) ≡ holds k a m
unfolding members holds
elem-members k a [] = refl
elem-members k a ((i, c) ∷ m) = ground (arith, elem-members k a m)

abbrev pub memory : Redis
memory = record {
  Db = Memory;
  get = λ k d. (reply (lookup k d.values), d);
  set = λ k v t d. (ok tt, record d { values = (k, v) ∷ without k d.values });
  del = λ k d. (ok tt, record d { values = without k d.values });
  sadd = λ k a d. (ok tt, record d { sets = (k, a) ∷ d.sets });
  srem = λ k a d. (ok tt, record d { sets = drop_member k a d.sets });
  smembers = λ k d. (ok (members k d.sets), d);
  keys = λ p d. (ok (map (λ (e : Text × Text). e.0) d.values), d);
  expire = λ k t d. (ok tt, d);
  value = λ d k. lookup k d.values;
  member = λ d k a. holds k a d.sets;
}

reply-ok : (o : Option Text) (v : Text) → reply o ≡ ok v → o ≡ some v
unfolding reply
reply-ok none v h = cc
reply-ok (some w) v h = cc

reply-err : (o : Option Text) (e : Error) → reply o ≡ err e → is_nil e ≡ true
unfolding reply is_nil
reply-err none e h = ground arith
reply-err (some w) e h = cc

pub memory_laws : RedisLaws memory
unfolding lookup without holds drop_member members reply
memory_laws = record {
  value-get = λ k d j. refl;
  member-get = λ k d j m. refl;
  get-ok = λ k d v h. reply-ok (lookup k d.values) v h;
  get-nil = λ k d e h n. ground (arith);
  value-set_ne = λ k v t d j h. ground (arith, lookup-without_ne k j d.values h, eq_iff k j);
  member-set_ne = λ k v t d j m h. refl;
  set-ok = λ k v t d h. ground (arith, eq_refl k);
  set-either = λ k v t d. inl (ground (arith, eq_refl k));
  value-del_ne = λ k d j h. lookup-without_ne k j d.values h;
  member-del_ne = λ k d j m h. refl;
  del-ok = λ k d h. lookup-without k d.values;
  del-either = λ k d. inl (lookup-without k d.values);
  value-sadd = λ k a d j. refl;
  member-sadd_ne = λ k a d j m h. ground (arith, eq_iff k j, eq_iff a m);
  sadd-ok = λ k a d h. ground (arith, eq_refl k, eq_refl a);
  value-srem = λ k a d j. refl;
  member-srem_ne = λ k a d j m h. holds-drop_ne k a j m d.sets h;
  srem-ok = λ k a d h. holds-drop k a d.sets;
  value-smembers = λ k d j. refl;
  member-smembers = λ k d j m. refl;
  smembers-ok = λ k d ms h m. ground (arith, elem-members k m d.sets);
  value-expire = λ k t d j. refl;
  member-expire = λ k t d j m. refl;
}

pub memory-Answers : Answers memory
memory-Answers = record {
  reads = λ k d e h. reply-err (lookup k d.values) e h;
  sets = λ k v t d. refl;
  dels = λ k d. refl;
  sadds = λ k m d. refl;
}

abbrev pub empty : Memory
empty = record { values = []; sets = [] }
