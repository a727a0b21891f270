-- ===== src/Locking/Keys.antt =====
-- The Redis keys of internal/lock/redis.go, and when two of them are one key.
use mathlib.Core.Path.{subst}
use mathlib.Core.List.{append_cancel_left, append_cancel_right}
use lemuria.Prelude.{
  ℕ, Text, codes, [], ◌∷◌, ◌++◌, ◌≡◌, ◌≢◌, refl, All, itoa, itoa-ne, itoa-injective, arith,
}

abbrev pub lock_key_prefix : Text
lock_key_prefix = codes "lemuria:lock:"

abbrev pub plan_key_prefix : Text
plan_key_prefix = codes "lemuria:plan:"

abbrev pub pr_locks_key_prefix : Text
pr_locks_key_prefix = codes "lemuria:pr-locks:"

abbrev pub app_set_auto_sync_key_prefix : Text
app_set_auto_sync_key_prefix = codes "lemuria:appset-autosync:"

abbrev pub pr_app_sets_key_prefix : Text
pr_app_sets_key_prefix = codes "lemuria:pr-appsets:"

abbrev pub parent_auto_sync_key_prefix : Text
parent_auto_sync_key_prefix = codes "lemuria:parent-autosync:"

abbrev pub pr_parents_key_prefix : Text
pr_parents_key_prefix = codes "lemuria:pr-parents:"

-- Seven days, in nanoseconds.
abbrev pub lock_ttl : ℕ
lock_ttl = 604800000000000

unfoldable pub lock_key : Text → Text
lock_key application = lock_key_prefix ++ application

unfoldable pub plan_key : Text → ℕ → Text
plan_key application pr_number = plan_key_prefix ++ (application ++ (codes ":" ++ itoa pr_number))

unfoldable pub pr_locks_key : Text → ℕ → Text
pr_locks_key repo pr_number = pr_locks_key_prefix ++ (repo ++ (codes ":" ++ itoa pr_number))

unfoldable pub app_set_auto_sync_key : Text → Text → ℕ → Text
app_set_auto_sync_key app_set_name repo pr_number =
    app_set_auto_sync_key_prefix
    ++ (app_set_name ++ (codes ":" ++ (repo ++ (codes ":" ++ itoa pr_number))))

unfoldable pub pr_app_sets_key : Text → ℕ → Text
pr_app_sets_key repo pr_number = pr_app_sets_key_prefix ++ (repo ++ (codes ":" ++ itoa pr_number))

unfoldable pub parent_auto_sync_key : Text → Text → ℕ → Text
parent_auto_sync_key parent_app_name repo pr_number =
    parent_auto_sync_key_prefix
    ++ (parent_app_name ++ (codes ":" ++ (repo ++ (codes ":" ++ itoa pr_number))))

unfoldable pub pr_parents_key : Text → ℕ → Text
pr_parents_key repo pr_number = pr_parents_key_prefix ++ (repo ++ (codes ":" ++ itoa pr_number))

pub lock_key-injective : (a b : Text) → lock_key a ≡ lock_key b → a ≡ b
unfolding lock_key
lock_key-injective a b h = cc

pub lock_key-ne : (a b : Text) → a ≢ b → lock_key a ≢ lock_key b
lock_key-ne a b h e = h (lock_key-injective a b e)

pub lock_key-ne-plan_key : (a b : Text) (n : ℕ) → lock_key a ≢ plan_key b n
unfolding lock_key plan_key
lock_key-ne-plan_key a b n = grind arith

pub pr_locks_key-ne-lock_key : (r : Text) (n : ℕ) (a : Text) → pr_locks_key r n ≢ lock_key a
unfolding lock_key pr_locks_key
pr_locks_key-ne-lock_key r n a = grind arith

pub pr_locks_key-ne-plan_key :
    (r : Text) (n : ℕ) (a : Text) (m : ℕ) → pr_locks_key r n ≢ plan_key a m
unfolding plan_key pr_locks_key
pr_locks_key-ne-plan_key r n a m = grind arith

-- The text behind the last colon, and the text before it, are determined by the whole.
colon_in_append : (s t : Text) → All (λ c. c ≢ b':') (s ++ b':' ∷ t) → ⊥
colon_in_append [] t (h, _) = h refl
colon_in_append (c ∷ s) t (_, h) = colon_in_append s t h

last_colon :
    (a b s t : Text)
    → All (λ c. c ≢ b':') s
    → All (λ c. c ≢ b':') t
    → a ++ b':' ∷ s ≡ b ++ b':' ∷ t
    → (a ≡ b) × (s ≡ t)
last_colon [] [] s t hs ht e = (refl, cc)
last_colon [] (c ∷ b) s t hs ht e =
    absurd (colon_in_append b t (subst (All (λ c. c ≢ b':')) (cc) hs))
last_colon (c ∷ a) [] s t hs ht e =
    absurd (colon_in_append a s (subst (All (λ c. c ≢ b':')) (cc) ht))
last_colon (c ∷ a) (d ∷ b) s t hs ht e = let (p, q) = last_colon a b s t hs ht (cc) in (cc, q)

-- Two pull requests, of one repository or of two, have two indexes of locks.
pub pr_locks_key-injective :
    (r s : Text) (m n : ℕ) → pr_locks_key r m ≡ pr_locks_key s n → (r ≡ s) × (m ≡ n)
unfolding pr_locks_key
pr_locks_key-injective r s m n h =
    let (p, q) = last_colon r s (itoa m) (itoa n) (itoa-ne m) (itoa-ne n) (cc) in
    (p, itoa-injective m n q)

-- A plan is stored under its application and the number of its pull request.
pub plan_key-injective : (a b : Text) (m n : ℕ) → plan_key a m ≡ plan_key b n → (a ≡ b) × (m ≡ n)
unfolding plan_key
plan_key-injective a b m n h =
    let (p, q) = last_colon a b (itoa m) (itoa n) (itoa-ne m) (itoa-ne n) (cc) in
    (p, itoa-injective m n q)

-- The part of a policy's key behind the prefix determines what it is stored for, where the name
-- of the application holds no colon.
first_colon :
    (a b s t : Text)
    → All (λ c. c ≢ b':') a
    → All (λ c. c ≢ b':') b
    → a ++ b':' ∷ s ≡ b ++ b':' ∷ t
    → (a ≡ b) × (s ≡ t)
first_colon [] [] s t ha hb e = (refl, cc)
first_colon [] (c ∷ b) s t ha (hc, hb) e = absurd (hc (cc))
first_colon (c ∷ a) [] s t (hc, ha) hb e = absurd (hc (cc))
first_colon (c ∷ a) (d ∷ b) s t (_, ha) (_, hb) e =
    let (p, q) = first_colon a b s t ha hb (cc) in (cc, q)

abbrev pub HasNoColon : Text → Type 0
HasNoColon = All (λ c. c ≢ b':')

pub app_set_auto_sync_key-injective :
    (a b r s : Text) (m n : ℕ)
    → HasNoColon a
    → HasNoColon b
    → app_set_auto_sync_key a r m ≡ app_set_auto_sync_key b s n
    → (a ≡ b) × (r ≡ s) × (m ≡ n)
unfolding app_set_auto_sync_key
app_set_auto_sync_key-injective a b r s m n ha hb h =
    let (p, rest) =
      first_colon a b _ _ ha hb (append_cancel_left app_set_auto_sync_key_prefix _ _ h) in
    let (q, u) = last_colon r s (itoa m) (itoa n) (itoa-ne m) (itoa-ne n) rest in
    (p, q, itoa-injective m n u)

pub parent_auto_sync_key-injective :
    (a b repo : Text) (n : ℕ)
    → parent_auto_sync_key a repo n ≡ parent_auto_sync_key b repo n
    → a ≡ b
unfolding parent_auto_sync_key
parent_auto_sync_key-injective a b repo n h =
    append_cancel_right a b _ (append_cancel_left parent_auto_sync_key_prefix _ _ h)
