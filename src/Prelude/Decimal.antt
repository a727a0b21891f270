-- ===== src/Prelude/Decimal.antt =====
-- strconv.Itoa of a number that is not negative. A number is below the fuel that it is given, so
-- the fuel is never used up.
use Prim.Native.Nat.{ℕ, zero, suc, ◌+◌, ◌-◌, ◌*◌, ◌/◌, ◌%◌, ◌<◌, ◌≤◌}
use mathlib.Core.Path.{◌≡◌, refl, sym, ap, ◌∙◌}
use mathlib.Core.Logic.{◌≢◌, inl, inr}
use mathlib.Core.List.{[], ◌∷◌, ◌++◌}
use native.Mathlib.Omega.{arith}
use lemuria.Prelude.Tests.{ltb, if◌then◌else◌, Bool-cases}
use lemuria.Prelude.Lists.{All, All-append}
use lemuria.Prelude.Strings.{Text}

digits : ℕ → ℕ → Text
digits zero n = []
digits (suc fuel) n =
    let rest = digits fuel (n / 10) in
    if ltb n 10 then (b'0' + n) ∷ [] else rest ++ (b'0' + n % 10) ∷ []

unfoldable pub itoa : ℕ → Text
unfolding digits
itoa n = digits (suc n) n

-- The number that digits spell behind `n`.
unfoldable pub spelled : ℕ → Text → ℕ
spelled n [] = n
spelled n (c ∷ s) = spelled (n * 10 + (c - b'0')) s

spelled-append :
    (n : ℕ) (s : Text) (c : ℕ) → spelled n (s ++ c ∷ []) ≡ spelled n s * 10 + (c - b'0')
unfolding spelled
spelled-append n [] c = refl
spelled-append n (d ∷ s) c = spelled-append (n * 10 + (d - b'0')) s c

spelled-digits : (fuel n : ℕ) → n < fuel → spelled 0 (digits fuel n) ≡ n
unfolding digits spelled
spelled-digits zero n h = absurd (omega arith)
spelled-digits (suc fuel) n h =
    ground
      (arith, spelled-digits fuel (n / 10), spelled-append 0 (digits fuel (n / 10)) (b'0' + n % 10))

pub itoa-injective : (m n : ℕ) → itoa m ≡ itoa n → m ≡ n
unfolding itoa
itoa-injective m n h =
    sym (spelled-digits (suc m) m (omega arith))
    ∙ ap (spelled 0) h
    ∙ spelled-digits (suc n) n (omega arith)

-- A printed number holds digits only.
digits-All : (fuel n : ℕ) → All (λ c. (b'0' ≤ c) × (c ≤ b'9')) (digits fuel n)
unfolding digits
digits-All zero n = tt
digits-All (suc fuel) n = elim (Bool-cases (ltb n 10)) [
  | inl small ↦ rw small (ground arith, tt)
  | inr large ↦ rw large (
      All-append (λ c. (b'0' ≤ c) × (c ≤ b'9')) (digits fuel (n / 10)) ((b'0' + n % 10) ∷ [])
        (digits-All fuel (n / 10)) ((omega arith, omega arith), tt))
]

pub itoa-All : (n : ℕ) → All (λ c. (b'0' ≤ c) × (c ≤ b'9')) (itoa n)
unfolding itoa
itoa-All n = digits-All (suc n) n

pub spelled-itoa : (n : ℕ) → spelled 0 (itoa n) ≡ n
unfolding itoa
spelled-itoa n = spelled-digits (suc n) n (omega arith)

append-cons : (s : Text) (c : ℕ) (t : Text) → s ++ c ∷ t ≢ []
append-cons [] c t = ground arith
append-cons (d ∷ s) c t = ground arith

digits-cons : (fuel n : ℕ) → n < fuel → digits fuel n ≢ []
unfolding digits
digits-cons zero n h = absurd (omega arith)
digits-cons (suc fuel) n h = elim (Bool-cases (ltb n 10)) [
  | inl small ↦ rw small (ground arith)
  | inr large ↦ rw large (append-cons (digits fuel (n / 10)) (b'0' + n % 10) [])
]

pub itoa-cons : (n : ℕ) → itoa n ≢ []
unfolding itoa
itoa-cons n = digits-cons (suc n) n (omega arith)

-- A printed number holds no colon.
pub itoa-ne : (n : ℕ) → All (λ c. c ≢ b':') (itoa n)
itoa-ne n = weaken (itoa n) (itoa-All n)
  where
    weaken : (s : Text) → All (λ c. (b'0' ≤ c) × (c ≤ b'9')) s → All (λ c. c ≢ b':') s
    weaken [] _ = tt
    weaken (c ∷ s) (pc, ps) = (omega (arith, pc), weaken s ps)
