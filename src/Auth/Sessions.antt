-- ===== src/Auth/Sessions.antt =====
-- internal/auth/session.go: sessions, OAuth states and role overrides on Redis. A method of
-- `RedisSessionStore` is an action on the server; `time.Now()` and the bytes that crypto/rand gives
-- are arguments.
use lemuria.Prelude.{
  ℕ, ◌+◌, ◌/◌, ◌%◌, Text, codes, Option, none, some, List, [], ◌∷◌, ◌++◌, ◌≡◌, nat_eq, ltb,
  if◌then◌else◌,
}
use lemuria.Effect.{
  Result, ok, err, failure, bad_json, or_bad_json, wrapped, is_nil, Action, pure, fail, lift,
  attempt, context, ◌>>=◌, ◌>>◌,
}
use lemuria.Model.User.{Role, User, Session, AuthState, is_expired}
use lemuria.Redis.{Redis}

-- encoding/json on a type: what is written is read back.
pub record Codec (A : Type 0) : Type 0 where
  pub marshal : A → Option Text
  pub unmarshal : Text → Option A
  pub unmarshal-marshal : (a : A) (t : Text) → marshal a ≡ some t → unmarshal t ≡ some a

unfoldable pub session_key : Text → Text
session_key id = codes "lemuria:session:" ++ id

unfoldable pub state_key : Text → Text
state_key value = codes "lemuria:auth:state:" ++ value

unfoldable pub user_role_key : Text → Text
user_role_key id = codes "lemuria:user:role:" ++ id

abbrev pub sessions_index_key : Text
sessions_index_key = codes "lemuria:sessions:active"

-- Nanoseconds
abbrev pub state_ttl : ℕ
state_ttl = 600000000000

-- `NewRedisSessionStore`
unfoldable pub session_ttl : ℕ → ℕ
session_ttl ttl = if nat_eq ttl 0 then 86400000000000 else ttl

-- hex.EncodeToString
abbrev pub hex_digit : ℕ → ℕ
hex_digit n = if ltb n 10 then b'0' + n else 87 + n

unfoldable pub hex : List ℕ → Text
hex [] = []
hex (b ∷ bs) = hex_digit (b / 16) ∷ hex_digit (b % 16) ∷ hex bs

unfoldable pub generate_session_id : Result (List ℕ) → Result Text
unfolding hex
generate_session_id (ok bytes) = ok (hex bytes)
generate_session_id (err e) = err e

unfoldable pub new_session : ℕ → User → ℕ → Text → Session
new_session ttl user now id = record {
  id = id;
  user_id = user.id;
  user = some user;
  created_at = now;
  expires_at = now + session_ttl ttl;
}

unfoldable pub new_state : Text → ℕ → Text → AuthState
new_state redirect_url now value = record {
  state = value;
  redirect_url = redirect_url;
  created_at = now;
}

module _ (R : Redis) (J : Codec Session) (K : Codec AuthState) (ttl : ℕ) where
  open R use {Db, get, set, del, sadd, srem, smembers}

  unfoldable pub create_session : User → ℕ → Result (List ℕ) → Action Db Session
  create_session user now random = do
    id ← context (codes "generating session ID") (lift (generate_session_id random))
    let session = new_session ttl user now id
    text ← lift (or_bad_json (codes "marshaling session") (J.marshal session))
    context (codes "storing session") (set (session_key id) text (session_ttl ttl))
    attempt (sadd sessions_index_key id)
    pure session

  unfoldable pub delete_session : Text → Action Db (Unit {0})
  delete_session id = do
    context (codes "deleting session") (del (session_key id))
    attempt (srem sessions_index_key id)
    pure tt

  unfoldable pub session_reply : Result Text → Result (Option Session)
  session_reply (err e) = if is_nil e then ok none else err (wrapped (codes "getting session") e)
  session_reply (ok text) = elim (J.unmarshal text) [
    | some s ↦ ok (some s)
    | none ↦ err (wrapped (codes "unmarshaling session") bad_json)
  ]

  unfoldable pub unless_expired : Text → ℕ → Option Session → Action Db (Option Session)
  unless_expired id now none = pure none
  unless_expired id now (some s) =
      if is_expired s now then (do attempt (delete_session id); pure none) else pure (some s)

  unfoldable pub get_session : Text → ℕ → Action Db (Option Session)
  get_session id now = do
    r ← attempt (get (session_key id))
    s ← lift (session_reply r)
    unless_expired id now s

  unfoldable pub refresh_found : Text → ℕ → Option Session → Action Db (Unit {0})
  refresh_found id now none = fail (failure (codes "session not found"))
  refresh_found id now (some s) = do
    text ← lift (
        or_bad_json (codes "marshaling session")
          (J.marshal (record s { expires_at = now + session_ttl ttl })))
    context (codes "refreshing session") (set (session_key id) text (session_ttl ttl))

  unfoldable pub refresh_session : Text → ℕ → Action Db (Unit {0})
  refresh_session id now = do s ← get_session id now; refresh_found id now s

  -- One round of the loop of `ListAll`, with the sessions of the later rounds put behind.
  unfoldable pub list_found : Text → Result (Option Session) → Action Db (List Session)
  list_found id (err e) = pure []
  list_found id (ok none) = do attempt (srem sessions_index_key id); pure []
  list_found id (ok (some s)) = pure (s ∷ [])

  unfoldable pub collect_sessions : List Text → ℕ → Action Db (List Session)
  collect_sessions [] now = pure []
  collect_sessions (id ∷ ids) now = do
    r ← attempt (get_session id now)
    found ← list_found id r
    rest ← collect_sessions ids now
    pure (found ++ rest)

  unfoldable pub list_sessions : ℕ → Action Db (List Session)
  list_sessions now = do
    ids ← context (codes "listing session IDs") (smembers sessions_index_key)
    collect_sessions ids now

  unfoldable pub create_state : Text → ℕ → Result (List ℕ) → Action Db AuthState
  create_state redirect_url now random = do
    value ← context (codes "generating state") (lift (generate_session_id random))
    let state = new_state redirect_url now value
    text ← lift (or_bad_json (codes "marshaling state") (K.marshal state))
    context (codes "storing state") (set (state_key value) text state_ttl)
    pure state

  unfoldable pub state_reply : Result Text → Result Text
  state_reply (ok text) = ok text
  state_reply (err e) =
      if is_nil e
      then err (failure (codes "invalid or expired state"))
      else err (wrapped (codes "getting state") e)

  -- The error of the deletion is not looked at.
  unfoldable pub validate_state : Text → Action Db AuthState
  validate_state value = do
    r ← attempt (get (state_key value))
    text ← lift (state_reply r)
    attempt (del (state_key value))
    lift (or_bad_json (codes "unmarshaling state") (K.unmarshal text))

  unfoldable pub set_user_role : Text → Role → Action Db (Unit {0})
  set_user_role id role = context (codes "setting user role") (set (user_role_key id) role 0)

  -- `none` is the reply with `found` false.
  unfoldable pub role_reply : Result Text → Result (Option Role)
  role_reply (ok role) = ok (some role)
  role_reply (err e) = if is_nil e then ok none else err (wrapped (codes "getting user role") e)

  unfoldable pub get_user_role : Text → Action Db (Option Role)
  get_user_role id d = let (r, d') = get (user_role_key id) d in (role_reply r, d')

  unfoldable pub delete_user_role : Text → Action Db (Unit {0})
  delete_user_role id = del (user_role_key id)
