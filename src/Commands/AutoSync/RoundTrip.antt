-- ===== src/Commands/AutoSync/RoundTrip.antt =====
-- internal/commands/autosync.go: what is disabled is restored.
use lemuria.Prelude.{
  Text, Bool, true, false, not, ◌||◌, ◌==◌, Option, none, some, List, [], ◌∷◌, ◌≡◌, ◌≢◌, inl, inr,
  refl, sym, ap, ◌∙◌, Bool-cases, some_injective, arith,
}
use lemuria.Effect.{Error, ok, err, Result-cases, ok_injective}
use lemuria.Model.Lock.{Lock}
use lemuria.Services.World.{pure, lift, attempt, context, ◌>>=◌}
use lemuria.Services.Argo.{Extern, Argo, SyncPolicy, RawSource, RawSpec, RawApplication}
use lemuria.Commands.AutoSync.Disable.{
  AutoSyncState, automated_policy, without_automated, disable_automated, disable_auto_sync,
}
use lemuria.Commands.AutoSync.Restore.{with_automated, restore_raw, restore_auto_sync}

-- What Argo CD holds of an application, and what the client's calls do to it.
pub record ArgoLaws (X : Extern) (argo : Argo X) : Type 0 where
  pub spec_of : argo.State → Text → Option (RawSpec X)
  pub get-ok :
      (a : Text) (s : argo.State) (raw : RawApplication X)
      → (argo.get_application_raw a s).0 ≡ ok raw
      → spec_of s a ≡ some raw.spec
  pub get-missing :
      (a : Text) (s : argo.State) (e : Error)
      → (argo.get_application_raw a s).0 ≡ err e
      → argo.is_not_found e ≡ true
      → spec_of s a ≡ none
  pub spec-get :
      (a : Text) (s : argo.State) (b : Text)
      → spec_of (argo.get_application_raw a s).1 b ≡ spec_of s b
  pub update-ok :
      (a : Text) (spec : RawSpec X) (s : argo.State)
      → (argo.update_application_spec a spec s).0 ≡ ok tt
      → spec_of (argo.update_application_spec a spec s).1 a ≡ some spec
  -- encoding/json on a policy
  pub unmarshal-marshal :
      (p : X.Policy) (t : Text) → argo.marshal_policy p ≡ some t → argo.unmarshal_policy t ≡ some p

is_restored : (b : Bool) (policy : Text) → b ≡ true → policy ≢ [] → (not b || policy == []) ≡ false
unfolding ◌==◌
is_restored true [] h ne = absurd (ne refl)
is_restored true (c ∷ policy) h ne = refl
is_restored false policy h ne = absurd (ground (arith, h))

module _ (X : Extern) (argo : Argo X) (L : ArgoLaws X argo) where
  -- The fields of a spec, one by one.
  with-without_fields :
      (o : Option (SyncPolicy X)) (source : Option (RawSource X)) (sources : List (RawSource X))
      (rest : X.SpecRest) (p : X.Policy)
      → automated_policy X
          (record { sync_policy = o; source = source; sources = sources; rest = rest })
        ≡ some p
      → with_automated X p (
          without_automated X
            (record { sync_policy = o; source = source; sources = sources; rest = rest }))
        ≡ record { sync_policy = o; source = source; sources = sources; rest = rest }
  with-without_fields none source sources rest p h = ground (arith, h)
  with-without_fields (some q) source sources rest p h = λ i. record {
    sync_policy = some (record q { automated = sym h i });
    source = source;
    sources = sources;
    rest = rest;
  }

  with-without_automated :
      (spec : RawSpec X) (p : X.Policy)
      → automated_policy X spec ≡ some p
      → with_automated X p (without_automated X spec) ≡ spec
  with-without_automated spec p h =
      with-without_fields spec.sync_policy spec.source spec.sources spec.rest p h

  disable_automated_ok :
      (a : Text) (raw : RawApplication X) (o : Option X.Policy) (s : argo.State)
      (st : AutoSyncState X)
      → (disable_automated X argo a raw o s).0 ≡ ok (some st)
      → (o ≡ some st.original_policy)
        × (L.spec_of (disable_automated X argo a raw o s).1 a ≡ some (without_automated X raw.spec))
  unfolding disable_automated pure context ◌>>=◌
  disable_automated_ok a raw none s st h = absurd (ground (arith, h))
  disable_automated_ok a raw (some p) s st h =
      elim (Result-cases (argo.update_application_spec a (without_automated X raw.spec) s).0) [
        | inr (e, q) ↦ absurd (ground (arith, q, h))
        | inl (done, q) ↦ (
          ap (λ (x : AutoSyncState X). some x.original_policy)
              (some_injective (ok_injective (rw q at h))),
          rw q (L.update-ok a (without_automated X raw.spec) s q),
        )
      ]

  disable_auto_sync_ok :
      (a : Text) (s : argo.State) (st : AutoSyncState X)
      → (disable_auto_sync X argo a s).0 ≡ ok (some st)
      → (spec : RawSpec X) × (L.spec_of s a ≡ some spec)
        × (automated_policy X spec ≡ some st.original_policy)
        × (L.spec_of (disable_auto_sync X argo a s).1 a ≡ some (without_automated X spec))
  unfolding disable_auto_sync context ◌>>=◌
  disable_auto_sync_ok a s st h = elim (Result-cases (argo.get_application_raw a s).0) [
    | inr (e, q) ↦ absurd (ground (arith, q, h))
    | inl (raw, q) ↦
        let (x, y) =
          disable_automated_ok a raw (automated_policy X raw.spec) (argo.get_application_raw a s).1
            st (rw q at h) in
        (raw.spec, L.get-ok a s raw q, x, rw q y)
  ]

  restore_raw_ok :
      (a : Text) (p : X.Policy) (s : argo.State) (spec : RawSpec X)
      → L.spec_of s a ≡ some spec
      → (restore_raw X argo a p (argo.get_application_raw a s).0 (argo.get_application_raw a s).1).0
        ≡ ok tt
      → L.spec_of
          (restore_raw X argo a p
            (argo.get_application_raw a s).0
            (argo.get_application_raw a s).1).1
          a
        ≡ some (with_automated X p spec)
  unfolding restore_raw pure lift context
  restore_raw_ok a p s spec live h = elim (Result-cases (argo.get_application_raw a s).0) [
    | inr (e, q) ↦ elim (Bool-cases (argo.is_not_found e)) [
      | inl missing ↦ absurd (ground (arith, L.get-missing a s e q missing, live))
      | inr other ↦ absurd (ground (arith, q, other, h))
    ]
    | inl (raw, q) ↦
        let spec' = with_automated X p raw.spec in
        let same = some_injective (sym (L.get-ok a s raw q) ∙ live) in
        elim (Result-cases
          (argo.update_application_spec a spec' (argo.get_application_raw a s).1).0) [
            | inr (e, q') ↦ absurd (ground (arith, q, q', h))
            | inl (done, q') ↦ rw q (
                L.update-ok a spec' (argo.get_application_raw a s).1 q'
                ∙ ap (λ x. some (with_automated X p x)) same)
          ]
  ]

  restore_auto_sync_ok :
      (l : Lock) (p : X.Policy) (s : argo.State) (spec : RawSpec X)
      → (not l.auto_sync_disabled || l.original_sync_policy == []) ≡ false
      → argo.unmarshal_policy l.original_sync_policy ≡ some p
      → L.spec_of s l.application ≡ some spec
      → (restore_auto_sync X argo l s).0 ≡ ok tt
      → L.spec_of (restore_auto_sync X argo l s).1 l.application ≡ some (with_automated X p spec)
  unfolding restore_auto_sync lift attempt ◌>>=◌
  restore_auto_sync_ok l p s spec kept decoded live h =
      rw (kept, decoded) (restore_raw_ok l.application p s spec live (rw (kept, decoded) at h))

  -- Auto-sync that was disabled is restored from the lock: if the lock keeps the policy that the
  -- disabling returned, and the application's spec is what the disabling left, a restoration that
  -- succeeds gives the application the spec that it had at first, in every field.
  pub restore-disable_auto_sync :
      (l : Lock) (s s' : argo.State) (st : AutoSyncState X)
      → (disable_auto_sync X argo l.application s).0 ≡ ok (some st)
      → argo.marshal_policy st.original_policy ≡ some l.original_sync_policy
      → l.auto_sync_disabled ≡ true
      → l.original_sync_policy ≢ []
      → L.spec_of s' l.application
        ≡ L.spec_of (disable_auto_sync X argo l.application s).1 l.application
      → (restore_auto_sync X argo l s').0 ≡ ok tt
      → L.spec_of (restore_auto_sync X argo l s').1 l.application ≡ L.spec_of s l.application
  restore-disable_auto_sync l s s' st disabled stored flag filled left restored =
      let (spec, before, policy, after) = disable_auto_sync_ok l.application s st disabled in
      let kept = is_restored l.auto_sync_disabled l.original_sync_policy flag filled in
      restore_auto_sync_ok l st.original_policy s' (without_automated X spec) kept
        (L.unmarshal-marshal st.original_policy l.original_sync_policy stored) (left ∙ after)
        restored
      ∙ ap some (with-without_automated spec st.original_policy policy)
      ∙ sym before
