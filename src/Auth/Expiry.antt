-- ===== src/Auth/Expiry.antt =====
-- internal/auth/session.go: no session outlives its expiry.
use mathlib.Core.Path.{subst}
use lemuria.Prelude.{
  ℕ, Text, false, Option, none, some, List, [], ◌∷◌, ◌++◌, All, All-append, ◌≡◌, inl, inr, refl,
  Bool-cases, arith,
}
use lemuria.Effect.{Result, ok, err, Result-cases, ok_injective}
use lemuria.Model.User.{Session, AuthState, is_expired}
use lemuria.Redis.{Redis}
use lemuria.Auth.Sessions.{
  Codec, sessions_index_key, session_key, get_session, session_reply, unless_expired, list_found,
  collect_sessions, list_sessions,
}

module _ (R : Redis) (J : Codec Session) (K : Codec AuthState) (ttl : ℕ) where
  unless_expired-live :
      (id : Text) (now : ℕ) (o : Option Session) (d : R.Db) (s : Session)
      → (unless_expired R J K ttl id now o d).0 ≡ ok (some s)
      → (o ≡ some s) × (is_expired s now ≡ false)
  unfolding unless_expired
  unless_expired-live id now none d s h = ground (arith, h)
  unless_expired-live id now (some s') d s h = elim (Bool-cases (is_expired s' now)) [
    | inl e ↦ ground (arith, e, h)
    | inr e ↦ (ground (arith, e, h), ground (arith, e, h))
  ]

  -- A session that a read returns has not expired.
  pub get_session-live :
      (id : Text) (now : ℕ) (d : R.Db) (s : Session)
      → (get_session R J K ttl id now d).0 ≡ ok (some s)
      → is_expired s now ≡ false
  unfolding get_session
  get_session-live id now d s h =
      elim (Result-cases (session_reply R J K ttl (R.get (session_key id) d).0)) [
        | inr (e, g) ↦ absurd (ground (arith, h, g))
        | inl (o, g) ↦ (unless_expired-live id now o (R.get (session_key id) d).1 s (rw g at h)).1
      ]

  list_found-live :
      (id : Text) (now : ℕ) (r : Result (Option Session)) (d : R.Db) (found : List Session)
      → ((s : Session) → r ≡ ok (some s) → is_expired s now ≡ false)
      → (list_found R J K ttl id r d).0 ≡ ok found
      → All (λ s. is_expired s now ≡ false) found
  unfolding list_found
  list_found-live id now (err e) d found live h =
      subst (All (λ s. is_expired s now ≡ false)) (ok_injective h) tt
  list_found-live id now (ok none) d found live h =
      subst (All (λ s. is_expired s now ≡ false)) (ok_injective h) tt
  list_found-live id now (ok (some s)) d found live h =
      subst (All (λ s. is_expired s now ≡ false)) (ok_injective h) (live s refl, tt)

  collect_sessions-live :
      (ids : List Text) (now : ℕ) (d : R.Db) (ss : List Session)
      → (collect_sessions R J K ttl ids now d).0 ≡ ok ss
      → All (λ s. is_expired s now ≡ false) ss
  unfolding collect_sessions
  collect_sessions-live [] now d ss h =
      subst (All (λ s. is_expired s now ≡ false)) (ok_injective h) tt
  collect_sessions-live (id ∷ ids) now d ss h =
      let r = (get_session R J K ttl id now d).0 in
      let d1 = (get_session R J K ttl id now d).1 in
      let d2 = (list_found R J K ttl id r d1).1 in
      elim (Result-cases (list_found R J K ttl id r d1).0) [
        | inr (e, g) ↦ absurd (ground (arith, h, g))
        | inl (found, g) ↦ elim (Result-cases (collect_sessions R J K ttl ids now d2).0) [
          | inr (e, q) ↦ absurd (ground (arith, h, g, q))
          | inl (rest, q) ↦
              let same : found ++ rest ≡ ss = ground (arith, h, g, q) in
              subst (All (λ s. is_expired s now ≡ false)) same (
                All-append (λ s. is_expired s now ≡ false) found rest
                  (list_found-live id now r d1 found (λ s. get_session-live id now d s) g)
                  (collect_sessions-live ids now d2 rest q))
        ]
      ]

  -- No session that is listed has expired.
  pub list_sessions-live :
      (now : ℕ) (d : R.Db) (ss : List Session)
      → (list_sessions R J K ttl now d).0 ≡ ok ss
      → All (λ s. is_expired s now ≡ false) ss
  unfolding list_sessions
  list_sessions-live now d ss h = elim (Result-cases (R.smembers sessions_index_key d).0) [
    | inr (e, g) ↦ absurd (ground (arith, h, g))
    | inl (ids, g) ↦
        collect_sessions-live ids now (R.smembers sessions_index_key d).1 ss (rw g at h)
  ]
