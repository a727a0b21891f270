-- ===== src/Commands/Sync/Parents.antt =====
-- internal/commands/sync.go: the candidates of computeSyncTargets, and its test of a parent, as facts of the locks and of the answer.
use mathlib.Core.List.{Memᴰ}
use mathlib.Core.Path.{subst}
use lemuria.Prelude.{
  ℕ, zero, suc, ◌+◌, ◌<◌, Text, codes, ◌==◌, ◌&&◌, true, false, List, [], ◌∷◌, nat_eq, elem, Option,
  none, some, if◌then◌else◌, ◌≡◌, refl, sym, ap, ◌∙◌, inl, inr, Bool-cases, eq_iff, arith,
}
use lemuria.Effect.{Result, ok, err}
use lemuria.Model.Lock.{Lock}
use lemuria.Services.Argo.{ManagedResource}
use lemuria.Commands.Sync.Execute.{lock_at}
use lemuria.Commands.Sync.Targets.{candidates, indices, names, manages_any, is_parent_of}

-- How often a number stands in a list.
abbrev pub times : ℕ → List ℕ → ℕ
times i [] = 0
times i (j ∷ js) = (if nat_eq j i then 1 else 0) + times i js

-- One for a lock that is not of a parent.
abbrev pub wanted : Option Lock → ℕ
wanted none = 0
wanted (some l) = if l.is_parent_app then 0 else 1

-- The application has a lock that is not of a parent.
abbrev pub IsLocked : List Lock → Text → Type 0
IsLocked locks name = (l : Lock) × Memᴰ l locks × (l.is_parent_app ≡ false) × (l.application ≡ name)

-- Argo CD answers with resources, and one of them is an application that has such a lock.
abbrev pub Manages : List Lock → Result (List ManagedResource) → Type 0
Manages locks reply =
    (resources : List ManagedResource) × (reply ≡ ok resources)
    × (r : ManagedResource) × Memᴰ r resources
    × (r.kind ≡ codes "Application")
    × IsLocked locks r.name

times-below : (i k : ℕ) (locks : List Lock) → i < k → times i (indices (candidates k locks)) ≡ 0
unfolding candidates
times-below i k [] h = refl
times-below i k (l ∷ locks) h = ground (arith, h, times-below i (suc k) locks)

pub times-candidates :
    (i k : ℕ) (locks : List Lock)
    → times (k + i) (indices (candidates k locks)) ≡ wanted (lock_at i locks)
unfolding candidates
times-candidates i k [] = refl
times-candidates zero k (l ∷ locks) = ground (arith, times-below k (suc k) locks)
times-candidates (suc i) k (l ∷ locks) = ground (arith, times-candidates i (suc k) locks)

IsLocked-tail :
    {l : Lock} {locks : List Lock} {name : Text} → IsLocked locks name → IsLocked (l ∷ locks) name
IsLocked-tail (m, h, p, q) = (m, Memᴰ.tail h, p, q)

elem-IsLocked :
    (k : ℕ) (locks : List Lock) (name : Text)
    → elem name (names (candidates k locks)) ≡ true
    → IsLocked locks name
unfolding candidates
elem-IsLocked k [] name h = absurd (ground (arith, h))
elem-IsLocked k (l ∷ locks) name h = elim (Bool-cases l.is_parent_app) [
  | inl p ↦ IsLocked-tail (elem-IsLocked (suc k) locks name (rw p at h))
  | inr p ↦ elim (Bool-cases (l.application == name)) [
    | inl e ↦ (l, Memᴰ.head refl, p, (eq_iff l.application name).0 e)
    | inr e ↦ IsLocked-tail (elem-IsLocked (suc k) locks name (ground (arith, p, e, h)))
  ]
]

IsLocked-elem :
    (k : ℕ) (locks : List Lock) (name : Text) (l : Lock)
    → Memᴰ l locks
    → l.is_parent_app ≡ false
    → l.application ≡ name
    → elem name (names (candidates k locks)) ≡ true
unfolding candidates
IsLocked-elem k [] name l h p q = elim h [ ]
IsLocked-elem k (m ∷ locks) name l (Memᴰ.head e) p q = ground (
  arith,
  ap (λ (x : Lock). x.is_parent_app) e,
  p,
  (eq_iff m.application name).1 (ap (λ (x : Lock). x.application) (sym e) ∙ q),
)
IsLocked-elem k (m ∷ locks) name l (Memᴰ.tail h) p q =
    ground (arith, IsLocked-elem (suc k) locks name l h p q)

manages_any-Manages :
    (locks : List Lock) (resources : List ManagedResource)
    → manages_any (names (candidates 0 locks)) resources ≡ true
    → (r : ManagedResource) × Memᴰ r resources
      × (r.kind ≡ codes "Application")
      × IsLocked locks r.name
manages_any-Manages locks [] h = absurd (ground (arith, h))
manages_any-Manages locks (r ∷ resources) h =
    elim (Bool-cases (r.kind == codes "Application" && elem r.name (names (candidates 0 locks)))) [
      | inl e ↦ (
        r,
        Memᴰ.head refl,
        (eq_iff r.kind (codes "Application")).0 (ground (arith, e)),
        elem-IsLocked 0 locks r.name (ground (arith, e)),
      )
      | inr e ↦
          let (q, m, k, l) = manages_any-Manages locks resources (ground (arith, e, h)) in
          (q, Memᴰ.tail m, k, l)
    ]

Manages-manages_any :
    (locks : List Lock) (resources : List ManagedResource) (r : ManagedResource)
    → Memᴰ r resources
    → r.kind ≡ codes "Application"
    → IsLocked locks r.name
    → manages_any (names (candidates 0 locks)) resources ≡ true
Manages-manages_any locks [] r h k l = elim h [ ]
Manages-manages_any locks (q ∷ resources) r (Memᴰ.head e) k (l, m, p, n) =
    subst (λ (x : ManagedResource). manages_any (names (candidates 0 locks)) (x ∷ resources) ≡ true)
      e
      (ground
        (arith, (eq_iff r.kind (codes "Application")).1 k, IsLocked-elem 0 locks r.name l m p n))
Manages-manages_any locks (q ∷ resources) r (Memᴰ.tail h) k l =
    ground (arith, Manages-manages_any locks resources r h k l)

pub is_parent_of-Manages :
    (locks : List Lock) (reply : Result (List ManagedResource))
    → is_parent_of (names (candidates 0 locks)) reply ≡ true
    → Manages locks reply
unfolding is_parent_of
is_parent_of-Manages locks (err e) h = absurd (ground (arith, h))
is_parent_of-Manages locks (ok resources) h =
    let (r, m, k, l) = manages_any-Manages locks resources h in (resources, refl, r, m, k, l)

pub not_parent_of-Manages :
    (locks : List Lock) (reply : Result (List ManagedResource))
    → is_parent_of (names (candidates 0 locks)) reply ≡ false
    → ¬ Manages locks reply
unfolding is_parent_of
not_parent_of-Manages locks reply h (resources, e, r, m, k, l) =
    let p = ap (is_parent_of (names (candidates 0 locks))) e in
    ground (arith, h, p, Manages-manages_any locks resources r m k l)
