-- ===== src/Auth/Roles.antt =====
-- internal/auth/rbac.go: the role of a user, from overrides and rules.
use lemuria.Prelude.{
  ℕ, Text, codes, Bool, true, false, not, ◌&&◌, Option, none, some, List, [], ◌∷◌, ◌==◌, elem,
  has_prefix, contains, if◌then◌else◌,
}
use lemuria.Effect.{Result, ok, err, Action, pure}
use lemuria.Model.User.{Role, User, Session, AuthState, role_user, valid_role}
use lemuria.Redis.{Redis}
use lemuria.Auth.Sessions.{Codec, set_user_role, get_user_role, delete_user_role}
use lemuria.Glob.{glob, tail}

pub record RoleAssignment : Type 0 where
  pub pattern : Text
  pub role : Text
  pub provider : Text

-- `has_store` says whether `store` is not nil.
pub record ConfigRoleResolver : Type 0 where
  pub assignments : List RoleAssignment
  pub default_role : Role
  pub has_store : Bool

unfoldable pub new_config_role_resolver : List RoleAssignment → Role → Bool → ConfigRoleResolver
new_config_role_resolver assignments default_role has_store = record {
  assignments = assignments;
  default_role = if not (valid_role default_role) then role_user else default_role;
  has_store = has_store;
}

unfoldable pub matches_email : User → Text → Bool
matches_email user pattern =
    if user.email == []
    then false
    else if pattern == user.email
    then true
    else glob pattern user.email

unfoldable pub matches_group : User → Text → Bool
matches_group user group_name = elem group_name user.groups

-- The pattern begins with `@`, which strings.TrimPrefix takes away.
unfoldable pub matches_git_hub_team : User → Text → Bool
matches_git_hub_team user pattern =
    if not (user.provider == codes "github") then false else elem (tail pattern) user.groups

unfoldable pub matches_assignment : User → RoleAssignment → Bool
matches_assignment user a =
    if not (a.provider == []) && not (a.provider == user.provider)
    then false
    else if has_prefix a.pattern (codes "@")
    then matches_git_hub_team user a.pattern
    else if not (contains a.pattern (codes "@")) && not (contains a.pattern (codes "*"))
    then matches_group user a.pattern
    else matches_email user a.pattern

-- The loop over the rules: a rule that matches with a role that is none is passed over.
unfoldable pub assigned : User → Role → List RoleAssignment → Role
assigned user default_role [] = default_role
assigned user default_role (a ∷ rest) =
    let later = assigned user default_role rest in
    if matches_assignment user a && valid_role a.role then a.role else later

unfoldable pub or_assigned : ConfigRoleResolver → User → Result (Option Role) → Role
unfolding assigned
or_assigned r user (ok (some role)) =
    if valid_role role then role else assigned user r.default_role r.assignments
or_assigned r user (ok none) = assigned user r.default_role r.assignments
or_assigned r user (err e) = assigned user r.default_role r.assignments

module _ (R : Redis) (J : Codec Session) (K : Codec AuthState) (ttl : ℕ) where
  unfoldable pub resolve_role : ConfigRoleResolver → User → R.Db → Role × R.Db
  resolve_role r user d =
      if r.has_store
      then (let (reply, d') = get_user_role R J K ttl user.id d in (or_assigned r user reply, d'))
      else (assigned user r.default_role r.assignments, d)

  -- The methods of the resolver that change overrides; without a store they do nothing.
  unfoldable pub set_override : ConfigRoleResolver → Text → Role → Action R.Db (Unit {0})
  set_override r id role = if r.has_store then set_user_role R J K ttl id role else pure tt

  unfoldable pub get_override : ConfigRoleResolver → Text → Action R.Db (Option Role)
  get_override r id = if r.has_store then get_user_role R J K ttl id else pure none

  unfoldable pub delete_override : ConfigRoleResolver → Text → Action R.Db (Unit {0})
  delete_override r id = if r.has_store then delete_user_role R J K ttl id else pure tt
