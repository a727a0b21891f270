-- ===== src/Auth/Domain.antt =====
-- internal/auth/rbac.go: a rule for a mail domain.
use mathlib.Core.Path.{subst}
use lemuria.Prelude.{
  ℕ, Text, codes, Bool, true, false, not, ◌&&◌, [], ◌∷◌, ◌++◌, ◌==◌, eq_iff, has_prefix, contains,
  ◌≡◌, inl, inr, refl, sym, ap, ◌∙◌, Bool-cases, nat_eq, length, arith,
}
use lemuria.Model.User.{User}
use lemuria.Glob.{star, glob, glob_from}
use lemuria.Auth.Roles.{RoleAssignment, matches_email, matches_assignment}

-- A character that stands for itself in a pattern.
abbrev pub is_literal : ℕ → Bool
is_literal c =
    not (nat_eq c b'*') && not (nat_eq c b'?') && not (nat_eq c b'[') && not (nat_eq c b'\\')

abbrev pub all_literal : Text → Bool
all_literal [] = true
all_literal (c ∷ s) = is_literal c && all_literal s

glob_from-literal : (p s : Text) → all_literal p ≡ true → glob_from (length p) p s ≡ (p == s)
unfolding glob_from ◌==◌
glob_from-literal [] [] h = refl
glob_from-literal [] (c ∷ s) h = refl
glob_from-literal (m ∷ p) [] h = ground (arith, h)
glob_from-literal (m ∷ p) (c ∷ s) h = ground (arith, h, glob_from-literal p s)

star-suffix :
    (k : Text → Bool) (d s : Text)
    → ((x : Text) → k x ≡ (d == x))
    → star k s ≡ true
    → (u : Text) × (s ≡ u ++ d)
unfolding star
star-suffix k d [] e h = ([], sym ((eq_iff d []).0 (sym (e []) ∙ h)))
star-suffix k d (c ∷ s) e h = elim (Bool-cases (k (c ∷ s))) [
  | inl t ↦ ([], sym ((eq_iff d (c ∷ s)).0 (sym (e (c ∷ s)) ∙ t)))
  | inr f ↦ let (u, q) = star-suffix k d s e (ground (arith, f, h)) in (c ∷ u, ap (λ x. c ∷ x) q)
]

glob-suffix :
    (d s : Text) → all_literal d ≡ true → glob (b'*' ∷ d) s ≡ true → (u : Text) × (s ≡ u ++ d)
unfolding glob glob_from
glob-suffix d s l h = star-suffix (glob_from (length d) d) d s (λ x. glob_from-literal d x l) h

email-suffix :
    (user : User) (domain : Text)
    → all_literal domain ≡ true
    → matches_email user (codes "*@" ++ domain) ≡ true
    → (name : Text) × (user.email ≡ name ++ (codes "@" ++ domain))
unfolding matches_email
email-suffix user domain l h = elim (Bool-cases (user.email == [])) [
  | inl e ↦ absurd (ground (arith, e, h))
  | inr e ↦ elim (Bool-cases (codes "*@" ++ domain == user.email)) [
    | inl x ↦ (codes "*", sym ((eq_iff (codes "*@" ++ domain) user.email).0 x))
    | inr x ↦ glob-suffix (codes "@" ++ domain) user.email l (ground (arith, e, x, h))
  ]
]

matched-email :
    (user : User) (a : RoleAssignment)
    → has_prefix a.pattern (codes "@") ≡ false
    → contains a.pattern (codes "@") ≡ true
    → matches_assignment user a ≡ true
    → matches_email user a.pattern ≡ true
unfolding matches_assignment
matched-email user a p c h = ground (arith, p, c, h)

-- A rule for the addresses of a domain gives its role to no user whose address does not end in the
-- domain, where the domain holds no character that is special in a pattern.
pub matches_assignment-domain :
    (user : User) (a : RoleAssignment) (domain : Text)
    → a.pattern ≡ codes "*@" ++ domain
    → all_literal domain ≡ true
    → matches_assignment user a ≡ true
    → (name : Text) × (user.email ≡ name ++ (codes "@" ++ domain))
unfolding has_prefix contains
matches_assignment-domain user a domain p l h = email-suffix user domain l (
    subst (λ q. matches_email user q ≡ true) p
      (matched-email user a (ap (λ q. has_prefix q (codes "@")) p)
        (ap (λ q. contains q (codes "@")) p) h))
