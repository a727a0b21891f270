-- ===== src/Commands/Numbers.antt =====
-- internal/commands/parser.go: the history id of a rollback, printed and read again.
use lemuria.Prelude.{
  ℕ, ◌+◌, ◌-◌, ◌*◌, ◌≤◌, ◌≡◌, ◌≢◌, refl, ap, ◌∙◌, some, [], ◌∷◌, All, Text, itoa, itoa-All,
  itoa-cons, spelled, spelled-itoa, arith,
}
use lemuria.Commands.Parser.{read_digits, parse_int, in_range, max_int64, ◌>>=◌}

read_digits-spelled :
    (n : ℕ) (s : Text) → All (λ c. (b'0' ≤ c) × (c ≤ b'9')) s → read_digits n s ≡ some (spelled n s)
unfolding read_digits spelled
read_digits-spelled n [] _ = refl
read_digits-spelled n (c ∷ s) ((low, high), rest) =
    ground (arith, low, high, read_digits-spelled (n * 10 + (c - b'0')) s rest)

parse_digits :
    (s : Text)
    → s ≢ []
    → All (λ c. (b'0' ≤ c) × (c ≤ b'9')) s
    → parse_int s ≡ (read_digits 0 s >>= in_range)
unfolding parse_int
parse_digits [] h _ = absurd (h refl)
parse_digits (c ∷ s) h ((low, high), rest) = ground (arith, low, high)

-- A number that an int64 holds is read as it is printed.
pub parse_int-itoa : (n : ℕ) → n ≤ max_int64 → parse_int (itoa n) ≡ some n
parse_int-itoa n h =
    parse_digits (itoa n) (itoa-cons n) (itoa-All n)
    ∙ ap (λ r. r >>= in_range) (read_digits-spelled 0 (itoa n) (itoa-All n))
    ∙ ap in_range (spelled-itoa n)
    ∙ ground (arith, h)
