-- ===== src/Commands/Release.antt =====
-- internal/commands/unlock.go: what the loop of the unlock command releases.
use mathlib.Core.Path.{subst}
use lemuria.Prelude.{
  ℕ, Text, true, false, Option, none, some, List, [], ◌∷◌, All, map, ◌≡◌, ◌≢◌, inl, inr, refl, sym,
  ap, ◌∙◌, Bool-cases, text_discrete, arith,
}
use lemuria.Effect.{Result, ok, err, ok_injective}
use lemuria.Model.Lock.{Lock, is_held_by_pr}
use lemuria.Redis.{Redis, RedisLaws}
use lemuria.Locking.Manager.{LockCodec, unlock, unlock_found}
use lemuria.Locking.Reads.{held, held-get_lock}
use lemuria.Locking.Deletes.{unlock_lem, held-force_unlock_ne}
use lemuria.Locking.Holders.{unlock_ok, unlock_foreign}
use lemuria.Commands.Unlock.{UnlockResult, unlock_result, unlock_locks}

module _ (R : Redis) (J : LockCodec) where
  -- An application that another pull request than the given one has locked.
  abbrev pub IsForeign : Text → ℕ → R.Db → Text → Lock → Type 0
  IsForeign repo n d a l = (held R J d a ≡ some l) × (is_held_by_pr l repo n ≡ false)

  -- A result of the loop tells the truth about a state.
  abbrev pub IsReleased : R.Db → UnlockResult → Type 0
  IsReleased d r = r.success ≡ true → held R J d r.application ≡ none

module _ (R : Redis) (J : LockCodec) (L : RedisLaws R) where
  held-unlock_found_ne :
      (app repo : Text) (n : ℕ) (o : Option Lock) (d : R.Db) (a : Text)
      → a ≢ app
      → held R J (unlock_found R J app repo n o d).1 a ≡ held R J d a
  unfolding unlock_found
  held-unlock_found_ne app repo n none d a h = refl
  held-unlock_found_ne app repo n (some l) d a h = elim (Bool-cases (is_held_by_pr l repo n)) [
    | inl e ↦ rw e (held-force_unlock_ne R J L app d a h)
    | inr e ↦ rw e refl
  ]

  held-unlock_ne :
      (app repo : Text) (n : ℕ) (d : R.Db) (a : Text)
      → a ≢ app
      → held R J (unlock R J app repo n d).1 a ≡ held R J d a
  held-unlock_ne app repo n d a h = elim (unlock_lem R J L app repo n d) [
    | inl (e, p) ↦ rw p (held-get_lock R J L app d a)
    | inr p ↦ rw p (held-unlock_found_ne app repo n _ _ a h ∙ held-get_lock R J L app d a)
  ]

  held-unlock_free :
      (app repo : Text) (n : ℕ) (d : R.Db)
      → held R J d app ≡ none
      → held R J (unlock R J app repo n d).1 app ≡ none
  unfolding unlock_found
  held-unlock_free app repo n d h = elim (unlock_lem R J L app repo n d) [
    | inl (e, p) ↦ rw p (held-get_lock R J L app d app ∙ h)
    | inr p ↦ rw (p, h) (held-get_lock R J L app d app ∙ h)
  ]

  held-unlock_none :
      (app repo : Text) (n : ℕ) (d : R.Db) (a : Text)
      → held R J d a ≡ none
      → held R J (unlock R J app repo n d).1 a ≡ none
  held-unlock_none app repo n d a h = elim (text_discrete a app) [
    | yes e ↦ rw e (held-unlock_free app repo n d (rw e at h))
    | no e ↦ held-unlock_ne app repo n d a e ∙ h
  ]

  held-unlock_foreign :
      (app repo : Text) (n : ℕ) (d : R.Db) (a : Text) (l : Lock)
      → IsForeign R J repo n d a l
      → held R J (unlock R J app repo n d).1 a ≡ some l
  held-unlock_foreign app repo n d a l (h, f) = elim (text_discrete a app) [
    | yes e ↦ (unlock_foreign R J L app repo n d l (rw e at h) f).1 a ∙ h
    | no e ↦ held-unlock_ne app repo n d a e ∙ h
  ]

  -- The loop reaches its end whatever the unlocks answer.
  unlock_locks-cons :
      (repo : Text) (n : ℕ) (l : Lock) (locks : List Lock) (d : R.Db)
      → let d' = (unlock R J l.application repo n d).1 in
        (rest : List UnlockResult) × ((unlock_locks R J repo n locks d').0 ≡ ok rest)
        × (unlock_locks R J repo n (l ∷ locks) d ≡ (
          ok (unlock_result l.application (unlock R J l.application repo n d).0 ∷ rest),
          (unlock_locks R J repo n locks d').1,
        ))
  unfolding unlock_locks
  unlock_locks-cons repo n l [] d = ([], refl, refl)
  unlock_locks-cons repo n l (m ∷ locks) d =
      let (rest, e, run) = unlock_locks-cons repo n m locks (unlock R J l.application repo n d).1 in
      (_, ap (λ r. r.0) run, rw run refl)

  held-unlock_locks_none :
      (repo : Text) (n : ℕ) (locks : List Lock) (d : R.Db) (a : Text)
      → held R J d a ≡ none
      → held R J (unlock_locks R J repo n locks d).1 a ≡ none
  unfolding unlock_locks
  held-unlock_locks_none repo n [] d a h = h
  held-unlock_locks_none repo n (l ∷ locks) d a h =
      let (rest, e, run) = unlock_locks-cons repo n l locks d in
      ap (λ r. held R J r.1 a) run
      ∙ held-unlock_locks_none repo n locks _ a (held-unlock_none l.application repo n d a h)

  -- The loop leaves each application that another pull request has locked with that lock.
  pub held-unlock_locks_foreign :
      (repo : Text) (n : ℕ) (locks : List Lock) (d : R.Db) (a : Text) (l : Lock)
      → IsForeign R J repo n d a l
      → held R J (unlock_locks R J repo n locks d).1 a ≡ some l
  unfolding unlock_locks
  held-unlock_locks_foreign repo n [] d a l (h, f) = h
  held-unlock_locks_foreign repo n (m ∷ locks) d a l (h, f) =
      let (rest, e, run) = unlock_locks-cons repo n m locks d in
      ap (λ r. held R J r.1 a) run
      ∙ held-unlock_locks_foreign repo n locks _ a l
          (held-unlock_foreign m.application repo n d a l (h, f), f)

  result_application :
      (app : Text) (r : Result (Unit {0})) → (unlock_result app r).application ≡ app
  result_application app (ok _) = refl
  result_application app (err e) = refl

  result-IsReleased :
      (app : Text) (r : Result (Unit {0})) (d : R.Db)
      → (r ≡ ok tt → held R J d app ≡ none)
      → IsReleased R J d (unlock_result app r)
  result-IsReleased app (ok tt) d h = λ s. h refl
  result-IsReleased app (err e) d h = λ s. absurd (ground (arith, s))

  -- The loop of the unlock command reaches its end, and names the applications of the locks in their
  -- order. Each application that it reports as unlocked has no lock in the end.
  pub unlock_locks-IsReleased :
      (repo : Text) (n : ℕ) (locks : List Lock) (d : R.Db)
      → (results : List UnlockResult) × ((unlock_locks R J repo n locks d).0 ≡ ok results)
        × (map (λ r. r.application) results ≡ map (λ l. l.application) locks)
        × All (IsReleased R J (unlock_locks R J repo n locks d).1) results
  unfolding unlock_locks
  unlock_locks-IsReleased repo n [] d = ([], refl, refl, tt)
  unlock_locks-IsReleased repo n (l ∷ locks) d =
      let d' = (unlock R J l.application repo n d).1 in
      let r = (unlock R J l.application repo n d).0 in
      let (rest, e, run) = unlock_locks-cons repo n l locks d in
      let (rest', e', names, released) = unlock_locks-IsReleased repo n locks d' in
      let same : rest' ≡ rest = ok_injective (sym e' ∙ e) in
      let first : IsReleased R J (unlock_locks R J repo n locks d').1
          (unlock_result l.application r) =
        result-IsReleased l.application r (unlock_locks R J repo n locks d').1 (λ done.
          held-unlock_locks_none repo n locks d' l.application
            (unlock_ok R J L l.application repo n d done).0) in
      (
        unlock_result l.application r ∷ rest',
        ap (λ x. x.0) run ∙ ap (λ x. ok (unlock_result l.application r ∷ x)) (sym same),
        ap (λ x. x ∷ map (λ q. q.application) rest') (result_application l.application r)
            ∙ ap (λ x. l.application ∷ x) names,
        subst (λ s. All (IsReleased R J s) (unlock_result l.application r ∷ rest'))
            (sym (ap (λ x. x.1) run)) (first, released),
      )
