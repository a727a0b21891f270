-- ===== src/Tests/Accounts.antt =====
-- Sessions, states and roles on the server in memory.
use mathlib.Core.Path.{subst}
use lemuria.Prelude.{
  some_injective, ℕ, Text, codes, true, false, Option, none, some, List, [], ◌∷◌, ◌++◌, All, ◌==◌,
  has_prefix, contains, ◌≡◌, refl, ap, arith,
}
use lemuria.Effect.{Error, Result, ok, err, is_nil}
use lemuria.Model.User.{User, Session, AuthState, is_expired, role_admin, role_user, valid_role}
use lemuria.Auth.Sessions.{
  Codec, session_key, state_key, user_role_key, hex, generate_session_id, new_state, session_ttl,
  sessions_index_key, create_state, state_reply, validate_state, list_sessions, collect_sessions,
  list_found, get_session, session_reply, unless_expired, delete_session, set_user_role,
  get_user_role, role_reply,
}
use lemuria.Auth.States.{validate_state-once, validate-create_state}
use lemuria.Auth.Expiry.{list_sessions-live}
use lemuria.Glob.{glob, glob_from, star, class_rest}
use lemuria.Auth.Roles.{
  RoleAssignment, ConfigRoleResolver, new_config_role_resolver, assigned, or_assigned, resolve_role,
  matches_assignment, matches_email, matches_group, matches_git_hub_team,
}
use lemuria.Auth.Access.{resolve_role-valid, resolve_role-override, resolve_role-Assigned, Assigned}
use lemuria.Auth.Domain.{matches_assignment-domain}
use lemuria.Tests.Store.{
  Memory, memory, memory_laws, empty, lookup, without, holds, drop_member, members, reply,
}
use lemuria.Tests.Codec.{Coder, number, pair, via, text}

abbrev state_coder : Coder AuthState
state_coder =
    via (pair text (pair text number)) (λ s. (s.state, (s.redirect_url, s.created_at)))
      (λ p. record { state = p.0; redirect_url = p.1.0; created_at = p.1.1 }) (λ s. refl)

abbrev state_of : Option (AuthState × Text) → Option AuthState
state_of none = none
state_of (some p) = some p.0

abbrev states : Codec AuthState
states = record {
  marshal = λ s. some (state_coder.write s []);
  unmarshal = λ t. state_of (state_coder.read t);
  unmarshal-marshal = λ s t h.
      subst (λ x. state_of (state_coder.read x) ≡ some s) (some_injective h)
        (ap state_of (state_coder.back s []));
}

no_text : {t : Text} → none ≡ some t → ⊥
no_text h = ground (arith, h)

abbrev ann : User
ann = record {
  id = codes "u1";
  login = codes "ann";
  email = codes "ann@example.com";
  name = codes "Ann";
  avatar_url = [];
  provider = codes "oidc";
  role = role_user;
  groups = codes "dev" ∷ [];
  created_at = 1;
  last_login_at = 2;
}

abbrev session : Session
session = record {
  id = codes "s1";
  user_id = codes "u1";
  user = some ann;
  created_at = 1;
  expires_at = 50;
}

-- Every text reads as the one session.
abbrev sessions : Codec Session
sessions = record {
  marshal = λ s. none;
  unmarshal = λ t. some session;
  unmarshal-marshal = λ s t h. absurd (no_text h);
}

abbrev random : Result (List ℕ)
random = ok (255 ∷ 1 ∷ [])

abbrev with_state : Memory
with_state = (create_state memory sessions states 100 (codes "/home") 7 random empty).1

runs : Unit {0}
unfolding hex generate_session_id new_state session_ttl create_state state_reply validate_state
    list_sessions collect_sessions list_found get_session session_reply unless_expired
    delete_session set_user_role get_user_role role_reply is_expired is_nil lookup without holds
    drop_member members reply ◌==◌ session_key state_key user_role_key assigned or_assigned
    resolve_role new_config_role_resolver valid_role matches_assignment matches_email matches_group
    matches_git_hub_team has_prefix contains glob glob_from star class_rest
runs = tt

hex_run : generate_session_id random ≡ ok (codes "ff01")
unfolding runs
hex_run = refl

state_run :
    (create_state memory sessions states 100 (codes "/home") 7 random empty).0
    ≡ ok (new_state (codes "/home") 7 (codes "ff01"))
unfolding runs
state_run = refl

validated :
    (validate_state memory sessions states 100 (codes "ff01") with_state).0
    ≡ ok (new_state (codes "/home") 7 (codes "ff01"))
unfolding runs
validated = refl

validate_state-once_example :
    (e : Error) × ((validate_state memory sessions states 100
        (codes "ff01")
        (validate_state memory sessions states 100 (codes "ff01") with_state).1).0
      ≡ err e)
validate_state-once_example =
    validate_state-once memory sessions states 100 memory_laws (codes "ff01") with_state
      (new_state (codes "/home") 7 (codes "ff01")) validated refl

validate-create_state_example :
    new_state (codes "/home") 7 (codes "ff01") ≡ new_state (codes "/home") 7 (codes "ff01")
unfolding new_state
validate-create_state_example =
    validate-create_state memory sessions states 100 memory_laws (codes "/home") 7 random empty
      (new_state (codes "/home") 7 (codes "ff01")) (new_state (codes "/home") 7 (codes "ff01"))
      state_run validated

abbrev with_session : Memory
with_session = record {
  values = (session_key (codes "s1"), codes "x") ∷ [];
  sets = (sessions_index_key, codes "s1") ∷ (sessions_index_key, codes "s2") ∷ [];
}

list_run : (list_sessions memory sessions states 100 9 with_session).0 ≡ ok (session ∷ [])
unfolding runs
list_run = refl

list_sessions-live_example : All (λ s. is_expired s 9 ≡ false) (session ∷ [])
list_sessions-live_example =
    list_sessions-live memory sessions states 100 9 with_session (session ∷ []) list_run

abbrev rule : RoleAssignment
rule = record { pattern = codes "*@example.com"; role = role_admin; provider = [] }

resolve_role-valid_example :
    valid_role
      (resolve_role memory sessions states 100
        (new_config_role_resolver (rule ∷ []) (codes "root") true)
        ann
        empty).0
    ≡ true
resolve_role-valid_example =
    resolve_role-valid memory sessions states 100 (rule ∷ []) (codes "root") true ann empty

abbrev resolver : ConfigRoleResolver
resolver = record { assignments = rule ∷ []; default_role = role_user; has_store = true }

set_run : (set_user_role memory sessions states 100 (codes "u1") role_user empty).0 ≡ ok tt
unfolding runs
set_run = refl

abbrev with_override : Memory
with_override = (set_user_role memory sessions states 100 (codes "u1") role_user empty).1

get_run :
    (get_user_role memory sessions states 100 (codes "u1") with_override).0 ≡ ok (some role_user)
unfolding runs
get_run = refl

user_valid : valid_role role_user ≡ true
unfolding runs
user_valid = refl

resolve_role-override_example :
    (resolve_role memory sessions states 100 resolver ann with_override).0 ≡ role_user
resolve_role-override_example =
    resolve_role-override memory sessions states 100 memory_laws resolver ann role_user empty
      (some role_user) refl user_valid set_run get_run

none_run : memory.value empty (user_role_key (codes "u1")) ≡ none
unfolding runs
none_run = refl

resolve_role-Assigned_example :
    Assigned ann role_user
      (rule ∷ [])
      (resolve_role memory sessions states 100 resolver ann empty).0
resolve_role-Assigned_example =
    resolve_role-Assigned memory sessions states 100 memory_laws resolver ann empty none_run

match_run : matches_assignment ann rule ≡ true
unfolding runs
match_run = refl

matches_assignment-domain_example :
    (name : Text) × (codes "ann@example.com" ≡ name ++ (codes "@" ++ codes "example.com"))
matches_assignment-domain_example =
    matches_assignment-domain ann rule (codes "example.com") refl refl match_run
