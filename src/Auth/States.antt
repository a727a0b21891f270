-- ===== src/Auth/States.antt =====
-- internal/auth/session.go: what an OAuth state is worth, and the role overrides.
use mathlib.Core.Path.{subst}
use lemuria.Prelude.{ℕ, Text, codes, none, some, List, ◌≡◌, inl, inr, refl, Option-cases, arith}
use lemuria.Effect.{Error, Result, ok, err, or_bad_json-ok, Result-cases}
use lemuria.Model.User.{Session, AuthState}
use lemuria.Redis.{Redis, RedisLaws}
use lemuria.Auth.Sessions.{
  Codec, state_key, state_ttl, generate_session_id, new_state, create_state, state_reply,
  validate_state,
}

module _ (R : Redis) (J : Codec Session) (K : Codec AuthState) (ttl : ℕ) (L : RedisLaws R) where
  -- A validation that succeeds returns the state that the server holds.
  validate_state-ok :
      (v : Text) (d : R.Db) (st : AuthState)
      → (validate_state R J K ttl v d).0 ≡ ok st
      → (text : Text) × (R.value d (state_key v) ≡ some text) × (K.unmarshal text ≡ some st)
  unfolding validate_state state_reply
  validate_state-ok v d st h = elim (Result-cases (R.get (state_key v) d).0) [
    | inr (e, g) ↦ absurd (ground (arith, h, g))
    | inl (text, g) ↦ (
      text,
      L.get-ok (state_key v) d text g,
      or_bad_json-ok (codes "unmarshaling state") (K.unmarshal text) st (rw g at h),
    )
  ]

  value-validate_state :
      (v : Text) (d : R.Db) (st : AuthState)
      → (validate_state R J K ttl v d).0 ≡ ok st
      → (R.del (state_key v) (R.get (state_key v) d).1).0 ≡ ok tt
      → R.value (validate_state R J K ttl v d).1 (state_key v) ≡ none
  unfolding validate_state state_reply
  value-validate_state v d st h done =
      let gone = L.del-ok (state_key v) (R.get (state_key v) d).1 done in
      elim (Result-cases (R.get (state_key v) d).0) [
        | inr (e, g) ↦ absurd (ground (arith, h, g))
        | inl (text, g) ↦ rw g gone
      ]

  -- A state is validated once: behind a validation that succeeds and deletes the state, the same
  -- state is refused.
  pub validate_state-once :
      (v : Text) (d : R.Db) (st : AuthState)
      → (validate_state R J K ttl v d).0 ≡ ok st
      → (R.del (state_key v) (R.get (state_key v) d).1).0 ≡ ok tt
      → (e : Error) × ((validate_state R J K ttl v (validate_state R J K ttl v d).1).0 ≡ err e)
  validate_state-once v d st h done =
      let d' = (validate_state R J K ttl v d).1 in
      let gone = value-validate_state v d st h done in
      elim (Result-cases (validate_state R J K ttl v d').0) [
        | inr refused ↦ refused
        | inl (st', again) ↦
            let (text, there, _) = validate_state-ok v d' st' again in
            absurd (ground (arith, gone, there))
      ]

  create_state_lem :
      (url : Text) (now : ℕ) (random : Result (List ℕ)) (d : R.Db) (v text : Text)
      → generate_session_id random ≡ ok v
      → K.marshal (new_state url now v) ≡ some text
      → (R.set (state_key v) text state_ttl d).0 ≡ ok tt
      → create_state R J K ttl url now random d
        ≡ (ok (new_state url now v), (R.set (state_key v) text state_ttl d).1)
  unfolding create_state
  create_state_lem url now random d v text g m s = rw (g, m, s) refl

  -- The state that a creation returns is stored.
  IsStored : AuthState → R.Db → Type 0
  IsStored st d =
      (text : Text) × (K.marshal st ≡ some text) × (R.value d (state_key st.state) ≡ some text)

  create_state-IsStored :
      (url : Text) (now : ℕ) (random : Result (List ℕ)) (d : R.Db) (st : AuthState)
      → (create_state R J K ttl url now random d).0 ≡ ok st
      → IsStored st (create_state R J K ttl url now random d).1
  unfolding create_state IsStored new_state
  create_state-IsStored url now random d st h = elim (Result-cases (generate_session_id random)) [
    | inr (e, g) ↦ absurd (ground (arith, h, g))
    | inl (v, g) ↦ elim (Option-cases (K.marshal (new_state url now v))) [
      | inl m ↦ absurd (ground (arith, h, g, m))
      | inr (text, m) ↦ elim (Result-cases (R.set (state_key v) text state_ttl d).0) [
        | inr (e, s) ↦ absurd (ground (arith, h, g, m, s))
        | inl (done, s) ↦
            let run = create_state_lem url now random d v text g m s in
            let same : new_state url now v ≡ st = ground (arith, run, h) in
            subst (λ x. IsStored x (create_state R J K ttl url now random d).1) same
              (text, m, rw run (L.set-ok (state_key v) text state_ttl d s))
      ]
    ]
  ]

  -- A state that was created validates to what the creation returned, if the server answers and
  -- nothing came between.
  pub validate-create_state :
      (url : Text) (now : ℕ) (random : Result (List ℕ)) (d : R.Db) (st st' : AuthState)
      → let d' = (create_state R J K ttl url now random d).1 in
        (create_state R J K ttl url now random d).0 ≡ ok st
        → (validate_state R J K ttl st.state d').0 ≡ ok st'
        → st' ≡ st
  unfolding IsStored
  validate-create_state url now random d st st' h a =
      let (text, m, there) = create_state-IsStored url now random d st h in
      let (text', there', m') = validate_state-ok st.state _ st' a in
      ground (arith, m, there, there', m', K.unmarshal-marshal st text m)
