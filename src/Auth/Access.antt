-- ===== src/Auth/Access.antt =====
-- internal/auth/rbac.go: what decides the role of a user.
use mathlib.Core.Path.{subst}
use lemuria.Prelude.{
  ℕ, Text, Bool, true, false, ◌&&◌, Option, none, some, List, [], ◌∷◌, ◌==◌, ◌≡◌, inl, inr, refl,
  sym, ap, ◌∙◌, Bool-cases, arith,
}
use lemuria.Effect.{Result, ok, err, Result-cases}
use lemuria.Model.User.{Role, User, Session, AuthState, valid_role}
use lemuria.Redis.{Redis, RedisLaws}
use lemuria.Auth.Sessions.{Codec, user_role_key, role_reply, set_user_role, get_user_role}
use lemuria.Auth.Roles.{
  RoleAssignment, ConfigRoleResolver, new_config_role_resolver, matches_assignment, assigned,
  or_assigned, resolve_role,
}

-- A rule that decides the role of a user.
abbrev pub applies : User → RoleAssignment → Bool
applies user a = matches_assignment user a && valid_role a.role

-- Either no rule applies and the role is the default, or it is that of the first that applies.
pub data Assigned (user : User) (default_role : Role) : List RoleAssignment → Role → Type 0 where
  by_default : Assigned user default_role [] default_role
  by_rule :
      (a : RoleAssignment) (rest : List RoleAssignment)
      → applies user a ≡ true
      → Assigned user default_role (a ∷ rest) a.role
  by_later :
      (a : RoleAssignment) (rest : List RoleAssignment) (role : Role)
      → applies user a ≡ false
      → Assigned user default_role rest role
      → Assigned user default_role (a ∷ rest) role

assigned-Assigned :
    (user : User) (role : Role) (rules : List RoleAssignment)
    → Assigned user role rules (assigned user role rules)
unfolding assigned
assigned-Assigned user role [] = by_default
assigned-Assigned user role (a ∷ rest) = elim (Bool-cases (applies user a)) [
  | inl e ↦ rw e (by_rule a rest e)
  | inr e ↦ rw e (by_later a rest _ e (assigned-Assigned user role rest))
]

assigned-valid :
    (user : User) (role : Role) (rules : List RoleAssignment)
    → valid_role role ≡ true
    → valid_role (assigned user role rules) ≡ true
unfolding assigned
assigned-valid user role [] h = h
assigned-valid user role (a ∷ rest) h = ground (arith, assigned-valid user role rest h)

or_assigned-valid :
    (r : ConfigRoleResolver) (user : User) (reply : Result (Option Role))
    → valid_role r.default_role ≡ true
    → valid_role (or_assigned r user reply) ≡ true
unfolding or_assigned
or_assigned-valid r user (ok (some role)) h =
    ground (arith, assigned-valid user r.default_role r.assignments h)
or_assigned-valid r user (ok none) h = assigned-valid user r.default_role r.assignments h
or_assigned-valid r user (err e) h = assigned-valid user r.default_role r.assignments h

new-valid :
    (rules : List RoleAssignment) (role : Role) (b : Bool)
    → valid_role (new_config_role_resolver rules role b).default_role ≡ true
unfolding new_config_role_resolver valid_role ◌==◌
new-valid rules role b = ground arith

module _ (R : Redis) (J : Codec Session) (K : Codec AuthState) (ttl : ℕ) where
  -- Whatever the configuration and the server hold, the role of a user is one of the two that exist.
  pub resolve_role-valid :
      (rules : List RoleAssignment) (role : Role) (b : Bool) (user : User) (d : R.Db)
      → valid_role (resolve_role R J K ttl (new_config_role_resolver rules role b) user d).0 ≡ true
  unfolding resolve_role new_config_role_resolver or_assigned
  resolve_role-valid rules role b user d =
      let h = new-valid rules role b in
      let r = new_config_role_resolver rules role b in
      elim (Bool-cases r.has_store) [
        | inl e ↦ rw e (or_assigned-valid r user (get_user_role R J K ttl user.id d).0 h)
        | inr e ↦ rw e (assigned-valid user r.default_role r.assignments h)
      ]

  module _ (L : RedisLaws R) where
    get-set_user_role :
        (id : Text) (role : Role) (d : R.Db) (o : Option Role)
        → (set_user_role R J K ttl id role d).0 ≡ ok tt
        → (get_user_role R J K ttl id (set_user_role R J K ttl id role d).1).0 ≡ ok o
        → o ≡ some role
    unfolding set_user_role get_user_role role_reply
    get-set_user_role id role d o h g =
        let d' = (R.set (user_role_key id) role 0 d).1 in
        grind (
          arith,
          L.set-ok (user_role_key id) role 0 d,
          L.get-ok (user_role_key id) d',
          L.get-nil (user_role_key id) d',
        )

    -- A valid role that was set for a user is the role that is resolved next, whatever the rules
    -- say, if the server stores it and answers.
    pub resolve_role-override :
        (r : ConfigRoleResolver) (user : User) (role : Role) (d : R.Db) (o : Option Role)
        → let d' = (set_user_role R J K ttl user.id role d).1 in
          r.has_store ≡ true
          → valid_role role ≡ true
          → (set_user_role R J K ttl user.id role d).0 ≡ ok tt
          → (get_user_role R J K ttl user.id d').0 ≡ ok o
          → (resolve_role R J K ttl r user d').0 ≡ role
    unfolding resolve_role or_assigned
    resolve_role-override r user role d o s v h g =
        let q = g ∙ ap ok (get-set_user_role user.id role d o h g) in rw (s, q, v) refl

    resolve_role-none :
        (r : ConfigRoleResolver) (user : User) (d : R.Db)
        → R.value d (user_role_key user.id) ≡ none
        → (resolve_role R J K ttl r user d).0 ≡ assigned user r.default_role r.assignments
    unfolding resolve_role or_assigned get_user_role role_reply
    resolve_role-none r user d h = elim (Result-cases (R.get (user_role_key user.id) d).0) [
      | inl (v, g) ↦
          let there = L.get-ok (user_role_key user.id) d v g in absurd (ground (arith, h, there))
      | inr (e, g) ↦ ground (arith, g)
    ]

    -- Without an override the rules decide in their order: the role is that of the first rule that
    -- matches the user with a role that exists, or else the default.
    pub resolve_role-Assigned :
        (r : ConfigRoleResolver) (user : User) (d : R.Db)
        → R.value d (user_role_key user.id) ≡ none
        → Assigned user r.default_role r.assignments (resolve_role R J K ttl r user d).0
    resolve_role-Assigned r user d h =
        subst (Assigned user r.default_role r.assignments) (sym (resolve_role-none r user d h))
          (assigned-Assigned user r.default_role r.assignments)
