-- ===== src/Commands/Trim.antt =====
-- strings.TrimSpace and strings.Split on the text of tokens that one blank each separates.
use lemuria.Prelude.{
  ℕ, ◌≡◌, ◌≢◌, refl, ap, ◌∙◌, true, false, List, [], ◌∷◌, ◌++◌, All, All-append, Text, codes,
  is_space, trim_left, trim_right, trim_space, split, ◌==◌, arith, join,
}
use lemuria.Commands.Tokens.{IsToken, all_plain, plain_parts}

right-cons : (c : ℕ) (s : Text) → trim_right s ≡ s → (s == []) ≡ false → trim_right (c ∷ s) ≡ c ∷ s
unfolding trim_right
right-cons c s h n = rw (h, n) (ground arith)

append-ne : (s t : Text) → (t == []) ≡ false → (s ++ t == []) ≡ false
unfolding ◌==◌
append-ne [] t n = n
append-ne (c ∷ s) t n = refl

right-append : (s t : Text) → trim_right t ≡ t → (t == []) ≡ false → trim_right (s ++ t) ≡ s ++ t
right-append [] t h n = h
right-append (c ∷ s) t h n = right-cons c (s ++ t) (right-append s t h n) (append-ne s t n)

right-plain : (s : Text) → all_plain s ≡ true → trim_right s ≡ s
unfolding trim_right
right-plain [] _ = refl
right-plain (c ∷ s) h = let (hc, hs) = plain_parts c s h in ground (arith, hc, right-plain s hs)

pub join-ne :
    (t : Text) (ts : List Text) → All IsToken (t ∷ ts) → (join (codes " ") (t ∷ ts) == []) ≡ false
unfolding join ◌==◌
join-ne t [] ((n, _), _) = n
join-ne [] (u ∷ ts) ((n, _), _) = absurd (ground (arith, n))
join-ne (c ∷ t) (u ∷ ts) _ = refl

right-join :
    (ts : List Text) → All IsToken ts → trim_right (join (codes " ") ts) ≡ join (codes " ") ts
unfolding join trim_right
right-join [] _ = refl
right-join (t ∷ []) ((_, hp), _) = right-plain t hp
right-join (t ∷ u ∷ ts) (_, hs) =
    right-append t (32 ∷ join (codes " ") (u ∷ ts))
      (right-cons 32 (join (codes " ") (u ∷ ts)) (right-join (u ∷ ts) hs) (join-ne u ts hs))
      (append-ne (32 ∷ []) (join (codes " ") (u ∷ ts)) (join-ne u ts hs))

first-plain : (c : ℕ) (s : Text) → all_plain (c ∷ s) ≡ true → is_space c ≡ false
first-plain c s h = ground (arith, h)

left-join :
    (ts : List Text) → All IsToken ts → trim_left (join (codes " ") ts) ≡ join (codes " ") ts
unfolding join trim_left ◌==◌
left-join [] _ = refl
left-join ([] ∷ ts) ((n, _), _) = absurd (ground (arith, n))
left-join ((c ∷ s) ∷ []) ((_, hp), _) = rw (first-plain c s hp) refl
left-join ((c ∷ s) ∷ u ∷ ts) ((_, hp), _) = rw (first-plain c s hp) refl

-- Tokens that one blank each separates have no space at either end.
pub trim_space-join :
    (ts : List Text) → All IsToken ts → trim_space (join (codes " ") ts) ≡ join (codes " ") ts
unfolding trim_space
trim_space-join ts h = ap trim_right (left-join ts h) ∙ right-join ts h

split-one : (s : Text) → All (λ c. c ≢ 10) s → split 10 s ≡ s ∷ []
unfolding split
split-one [] _ = refl
split-one (c ∷ s) (n, h) = rw (split-one s h) (ground (arith, n))

plain-ne : (s : Text) → all_plain s ≡ true → All (λ c. c ≢ 10) s
unfolding is_space
plain-ne [] _ = tt
plain-ne (c ∷ s) h = let (hc, hs) = plain_parts c s h in (ground (arith, hc), plain-ne s hs)

pub join-All : (ts : List Text) → All IsToken ts → All (λ c. c ≢ 10) (join (codes " ") ts)
unfolding join
join-All [] _ = tt
join-All (t ∷ []) ((_, hp), _) = plain-ne t hp
join-All (t ∷ u ∷ ts) ((_, hp), hs) =
    All-append (λ c. c ≢ 10) t (32 ∷ join (codes " ") (u ∷ ts)) (plain-ne t hp)
      (omega arith, join-All (u ∷ ts) hs)

pub split-join :
    (ts : List Text) → All IsToken ts → split 10 (join (codes " ") ts) ≡ join (codes " ") ts ∷ []
split-join ts h = split-one (join (codes " ") ts) (join-All ts h)
