-- ===== src/Model/User.antt =====
-- internal/models/user.go: users, sessions and what a role permits. A role is the text that the
-- code stores.
use lemuria.Prelude.{
  ℕ, Text, codes, Bool, true, false, not, ◌&&◌, ◌||◌, Option, none, some, List, [], ◌∷◌,
  if◌then◌else◌, ltb, elem, ◌==◌,
}

abbrev pub Role : Type 0
Role = Text

abbrev pub role_admin : Role
role_admin = codes "admin"

abbrev pub role_user : Role
role_user = codes "user"

pub record User : Type 0 where
  pub id : Text
  pub login : Text
  pub email : Text
  pub name : Text
  pub avatar_url : Text
  pub provider : Text
  pub role : Role
  pub groups : List Text
  pub created_at : ℕ
  pub last_login_at : ℕ

pub record Session : Type 0 where
  pub id : Text
  pub user_id : Text
  pub user : Option User
  pub created_at : ℕ
  pub expires_at : ℕ

pub record AuthState : Type 0 where
  pub state : Text
  pub redirect_url : Text
  pub created_at : ℕ

-- `time.Now()` is the argument.
unfoldable pub is_expired : Session → ℕ → Bool
is_expired s now = ltb s.expires_at now

abbrev pub has_user : Option User → Bool
has_user none = false
has_user (some u) = true

unfoldable pub is_valid : Session → ℕ → Bool
unfolding is_expired
is_valid s now = has_user s.user && not (is_expired s now)

abbrev pub permissions : Role → List Text
permissions r =
    if r == role_admin
    then codes "read" ∷ codes "write" ∷ codes "delete" ∷ codes "admin" ∷ []
    else if r == role_user
    then codes "read" ∷ []
    else []

unfoldable pub has_permission : Role → Text → Bool
has_permission r permission = elem permission (permissions r)

unfoldable pub is_admin : Role → Bool
is_admin r = r == role_admin

unfoldable pub valid_role : Role → Bool
valid_role r = r == role_admin || r == role_user
