-- ===== src/Glob.antt =====
-- filepath.Match of Go on a Unix system, as its documentation gives it: `*` and `?` match no
-- separator, a class is closed by `]`, and a backslash quotes. A malformed pattern is an error in
-- Go, which each caller takes as no match. Each step takes a character off the pattern, so its
-- length is enough fuel.
use lemuria.Prelude.{
  ℕ, zero, suc, Bool, true, false, not, ◌&&◌, ◌||◌, Option, none, some, [], ◌∷◌, Text, length,
  if◌then◌else◌, leb, nat_eq, ◌==◌,
}

abbrev pub is_separator : ℕ → Bool
is_separator c = nat_eq c b'/'

-- A character of a class, which may be quoted: something must follow it.
abbrev pub followed : ℕ → Text → Option (ℕ × Text)
followed c [] = none
followed c (d ∷ p) = some (c, d ∷ p)

abbrev pub quoted : Text → Option (ℕ × Text)
quoted [] = none
quoted (c ∷ p) = followed c p

unfoldable pub get_esc : Text → Option (ℕ × Text)
get_esc [] = none
get_esc (c ∷ p) =
    if nat_eq c b'-' || nat_eq c b']'
    then none
    else if nat_eq c b'\\'
    then quoted p
    else followed c p

abbrev pub range_end : ℕ → Text → Option (ℕ × Text)
range_end lo [] = some (lo, [])
range_end lo (c ∷ p) = if nat_eq c b'-' then get_esc p else some (lo, c ∷ p)

abbrev pub is_close : Text → Bool
is_close [] = false
is_close (c ∷ p) = nat_eq c b']'

abbrev pub tail : Text → Text
tail [] = []
tail (c ∷ p) = p

-- The ranges of a class: whether one holds the character, and what stands behind the class. The
-- first Boolean says whether a range was read.
unfoldable pub ranges : ℕ → ℕ → Bool → Bool → Text → Option (Bool × Text)
unfolding get_esc
ranges zero r some_read found p = none
ranges (suc fuel) r some_read found p =
    if is_close p && some_read then some (found, tail p) else elim (get_esc p) [
      | none ↦ none
      | some (lo, q) ↦ elim (range_end lo q) [
        | none ↦ none
        | some (hi, q') ↦ ranges fuel r true (found || (leb lo r && leb r hi)) q'
      ]
    ]

abbrev pub negated : Text → Bool
negated [] = false
negated (c ∷ p) = nat_eq c b'^'

abbrev pub differs : Bool → Bool → Bool
differs true b = not b
differs false b = b

-- A class on a character: what stands behind it, where it matches.
unfoldable pub class_rest : ℕ → Text → Option Text
unfolding ranges
class_rest r p = elim (ranges (length p) r false false (if negated p then tail p else p)) [
  | none ↦ none
  | some (found, q) ↦ if differs (negated p) found then some q else none
]

-- `*` before what the function accepts.
unfoldable pub star : (Text → Bool) → Text → Bool
star k [] = k []
star k (c ∷ s) = let rest = star k s in k (c ∷ s) || (not (is_separator c) && rest)

unfoldable pub glob_from : ℕ → Text → Text → Bool
unfolding star class_rest
glob_from fuel [] s = s == []
glob_from zero (m ∷ p) s = false
glob_from (suc fuel) (m ∷ p) s = if nat_eq m b'*' then star (glob_from fuel p) s else elim s [
  | [] ↦ false
  | c ∷ s' ↦
      if nat_eq m b'?'
      then not (is_separator c) && glob_from fuel p s'
      else if nat_eq m b'['
      then (elim (class_rest c p) [ none ↦ false | some q ↦ glob_from fuel q s' ])
      else if nat_eq m b'\\'
      then (elim p [ [] ↦ false | e ∷ q ↦ nat_eq e c && glob_from fuel q s' ])
      else nat_eq m c && glob_from fuel p s'
]

unfoldable pub glob : Text → Text → Bool
unfolding glob_from
glob p s = glob_from (length p) p s
