-- ===== src/Commands/Tokens.antt =====
-- internal/commands/parser.go: `tokenize` on texts without quotes.
use lemuria.Prelude.{
  ℕ, ◌≡◌, refl, sym, ap, ◌∙◌, Bool, true, false, not, ◌&&◌, none, List, [], ◌∷◌, ◌++◌, All, Text,
  nat_eq, is_space, codes, ◌==◌, arith, join,
}
use mathlib.Core.List.{append-nil, append_assoc}
use lemuria.Commands.Parser.{tokenize_step, tokenize_from, tokenize}

-- A character that neither ends a token nor opens a quote.
abbrev pub is_plain : ℕ → Bool
is_plain c = not (is_space c) && not (nat_eq c b'"') && not (nat_eq c b'\'')

abbrev pub all_plain : Text → Bool
all_plain [] = true
all_plain (c ∷ s) = is_plain c && all_plain s

abbrev pub IsToken : Text → Type 0
IsToken s = ((s == []) ≡ false) × (all_plain s ≡ true)

pub plain_parts :
    (c : ℕ) (s : Text) → all_plain (c ∷ s) ≡ true → (is_plain c ≡ true) × (all_plain s ≡ true)
plain_parts c s h = ground (arith, h)

step-plain :
    (current : Text) (c : ℕ)
    → is_plain c ≡ true
    → tokenize_step current none c ≡ ([], current ++ c ∷ [], none)
unfolding tokenize_step is_space
step-plain current c h = ground (arith, h)

from-step :
    (current : Text) (c : ℕ) (s : Text)
    → is_plain c ≡ true
    → tokenize_from current none (c ∷ s) ≡ tokenize_from (current ++ c ∷ []) none s
unfolding tokenize_from
from-step current c s h = rw (step-plain current c h) refl

from-plain :
    (current s rest : Text)
    → all_plain s ≡ true
    → tokenize_from current none (s ++ rest) ≡ tokenize_from (current ++ s) none rest
from-plain current [] rest _ = ap (λ x. tokenize_from x none rest) (sym (append-nil current))
from-plain current (c ∷ s) rest h =
    let (hc, hs) = plain_parts c s h in
    from-step current c (s ++ rest) hc
    ∙ from-plain (current ++ c ∷ []) s rest hs
    ∙ ap (λ x. tokenize_from x none rest) (append_assoc current (c ∷ []) s)

from-blank :
    (current s : Text)
    → (current == []) ≡ false
    → tokenize_from current none (32 ∷ s) ≡ current ∷ tokenize_from [] none s
unfolding tokenize_from tokenize_step
from-blank current s h = rw h refl

from-end : (current : Text) → (current == []) ≡ false → tokenize_from current none [] ≡ current ∷ []
unfolding tokenize_from
from-end current h = rw h refl

-- Tokens that one blank each separates are read as they are.
pub tokenize-join : (ts : List Text) → All IsToken ts → tokenize (join (codes " ") ts) ≡ ts
unfolding tokenize join tokenize_from ◌==◌
tokenize-join [] _ = refl
tokenize-join (t ∷ []) ((ht, hp), _) =
    ap (λ x. tokenize_from [] none x) (sym (append-nil t)) ∙ from-plain [] t [] hp ∙ from-end t ht
tokenize-join (t ∷ u ∷ ts) ((ht, hp), hs) =
    from-plain [] t (32 ∷ join (codes " ") (u ∷ ts)) hp
    ∙ from-blank t (join (codes " ") (u ∷ ts)) ht
    ∙ ap (λ x. t ∷ x) (tokenize-join (u ∷ ts) hs)
