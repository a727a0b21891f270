-- ===== src/Commands/Flags.antt =====
-- internal/commands/parser.go: the tokens that `String` prints, read by `parseArgs`.
use lemuria.Prelude.{
  ℕ, zero, suc, ◌≤◌, ◌≡◌, ◌≢◌, refl, ap, ◌∙◌, Bool, true, false, not, Option, none, some, List, [],
  ◌∷◌, ◌++◌, All, All-append, Text, codes, ltb, is_space, has_prefix, ◌==◌, itoa, itoa-All,
  itoa-cons, arith,
}
use lemuria.Commands.Command.{Command, flag_parts, if_set}
use lemuria.Commands.Parser.{apply_token, apply_tokens, bare, max_int64}
use lemuria.Commands.Numbers.{parse_int-itoa}
use lemuria.Commands.Tokens.{IsToken, all_plain}

-- The application of a command, as one token of a comment can carry it.
abbrev pub IsPrintable : Command → Type 0
IsPrintable c =
    (all_plain c.application ≡ true)
    × (has_prefix c.application (codes "-") ≡ false)
    × (c.history_id ≤ max_int64)

digits-plain : (s : Text) → All (λ c. (b'0' ≤ c) × (c ≤ b'9')) s → all_plain s ≡ true
unfolding is_space
digits-plain [] _ = refl
digits-plain (c ∷ s) ((low, high), rest) = ground (arith, low, high, digits-plain s rest)

digits-dash : (s : Text) → All (λ c. (b'0' ≤ c) × (c ≤ b'9')) s → has_prefix s (codes "-") ≡ false
unfolding has_prefix
digits-dash [] _ = refl
digits-dash (c ∷ s) ((low, high), rest) = ground (arith, low, high)

ne-false : (s : Text) → s ≢ [] → (s == []) ≡ false
unfolding ◌==◌
ne-false [] h = absurd (h refl)
ne-false (c ∷ s) h = refl

itoa-IsToken : (n : ℕ) → IsToken (itoa n)
itoa-IsToken n = (ne-false (itoa n) (itoa-cons n), digits-plain (itoa n) (itoa-All n))

if_set-All : (b : Bool) (ts : List Text) → (b ≡ true → All IsToken ts) → All IsToken (if_set b ts)
if_set-All true ts h = h refl
if_set-All false ts h = tt

pub flag_parts-All : (c : Command) → IsPrintable c → All IsToken (flag_parts c)
unfolding flag_parts ◌==◌ is_space
flag_parts-All c (hp, hd, hi) =
    All-append IsToken (if_set (not (c.application == [])) (codes "-a" ∷ c.application ∷ [])) _
      (if_set-All (not (c.application == [])) (codes "-a" ∷ c.application ∷ [])
        (λ h. ((refl, refl), ((ground (arith, h), hp), tt))))
      (All-append IsToken (if_set c.all (codes "--all" ∷ [])) _
        (if_set-All c.all _ (λ h. ((refl, refl), tt)))
        (All-append IsToken (if_set c.prune (codes "--prune" ∷ [])) _
          (if_set-All c.prune _ (λ h. ((refl, refl), tt)))
          (All-append IsToken (if_set c.dry_run (codes "--dry-run" ∷ [])) _
            (if_set-All c.dry_run _ (λ h. ((refl, refl), tt)))
            (if_set-All (ltb 0 c.history_id) _
              (λ h. ((refl, refl), (itoa-IsToken c.history_id, tt)))))))

-- A token that takes no value, in front of others.
apply-flag :
    (cmd cmd' : Command) (t : Text) (ts : List Text)
    → ((next : Option Text) → apply_token cmd t next ≡ (cmd', false))
    → apply_tokens cmd (t ∷ ts) ≡ apply_tokens cmd' ts
unfolding apply_tokens
apply-flag cmd cmd' t [] h = ap (λ r. r.0) (h none)
apply-flag cmd cmd' t (v ∷ ts) h = rw (h (some v)) refl

apply-value :
    (cmd cmd' : Command) (t v : Text) (ts : List Text)
    → apply_token cmd t (some v) ≡ (cmd', true)
    → apply_tokens cmd (t ∷ v ∷ ts) ≡ apply_tokens cmd' ts
unfolding apply_tokens
apply-value cmd cmd' t v ts h = rw h refl

app-value :
    (cmd : Command) (v : Text)
    → has_prefix v (codes "-") ≡ false
    → apply_token cmd (codes "-a") (some v) ≡ (record cmd { application = v }, true)
unfolding apply_token ◌==◌
app-value cmd v h = rw h refl

id-value :
    (cmd : Command) (n : ℕ)
    → n ≤ max_int64
    → apply_token cmd (codes "--id") (some (itoa n)) ≡ (record cmd { history_id = n }, true)
unfolding apply_token ◌==◌
id-value cmd n h = rw (digits-dash (itoa n) (itoa-All n), parse_int-itoa n h) refl

apply-all :
    (cmd : Command) (b : Bool) (ts : List Text)
    → cmd.all ≡ false
    → apply_tokens cmd (if_set b (codes "--all" ∷ []) ++ ts)
      ≡ apply_tokens (record cmd { all = b }) ts
unfolding apply_token ◌==◌
apply-all cmd true ts _ = apply-flag cmd (record cmd { all = true }) (codes "--all") ts (λ _. refl)
apply-all cmd false ts h = ap (λ b. apply_tokens (record cmd { all = b }) ts) h

apply-prune :
    (cmd : Command) (b : Bool) (ts : List Text)
    → cmd.prune ≡ false
    → apply_tokens cmd (if_set b (codes "--prune" ∷ []) ++ ts)
      ≡ apply_tokens (record cmd { prune = b }) ts
unfolding apply_token ◌==◌
apply-prune cmd true ts _ =
    apply-flag cmd (record cmd { prune = true }) (codes "--prune") ts (λ _. refl)
apply-prune cmd false ts h = ap (λ b. apply_tokens (record cmd { prune = b }) ts) h

apply-dry_run :
    (cmd : Command) (b : Bool) (ts : List Text)
    → cmd.dry_run ≡ false
    → apply_tokens cmd (if_set b (codes "--dry-run" ∷ []) ++ ts)
      ≡ apply_tokens (record cmd { dry_run = b }) ts
unfolding apply_token ◌==◌
apply-dry_run cmd true ts _ =
    apply-flag cmd (record cmd { dry_run = true }) (codes "--dry-run") ts (λ _. refl)
apply-dry_run cmd false ts h = ap (λ b. apply_tokens (record cmd { dry_run = b }) ts) h

apply-id :
    (cmd : Command) (n : ℕ)
    → n ≤ max_int64
    → cmd.history_id ≡ 0
    → apply_tokens cmd (if_set (ltb 0 n) (codes "--id" ∷ itoa n ∷ []))
      ≡ record cmd { history_id = n }
unfolding apply_tokens
apply-id cmd zero _ h = ap (λ n. record cmd { history_id = n }) h
apply-id cmd (suc n) le _ =
    ap (λ b. apply_tokens cmd (if_set b (codes "--id" ∷ itoa (suc n) ∷ []))) (positive n)
    ∙ apply-value cmd (record cmd { history_id = suc n }) (codes "--id") (itoa (suc n)) []
        (id-value cmd (suc n) le)
  where
    positive : (n : ℕ) → ltb 0 (suc n) ≡ true
    positive n = ground arith

apply-app :
    (cmd : Command) (v : Text) (ts : List Text)
    → has_prefix v (codes "-") ≡ false
    → cmd.application ≡ []
    → apply_tokens cmd (if_set (not (v == [])) (codes "-a" ∷ v ∷ []) ++ ts)
      ≡ apply_tokens (record cmd { application = v }) ts
unfolding ◌==◌
apply-app cmd [] ts _ h = ap (λ v. apply_tokens (record cmd { application = v }) ts) h
apply-app cmd (c ∷ s) ts h _ =
    apply-value cmd (record cmd { application = c ∷ s }) (codes "-a") (c ∷ s) ts
      (app-value cmd (c ∷ s) h)

-- The tokens that a command prints bring a fresh command to the same fields.
pub apply-flag_parts :
    (c : Command) (args : Text)
    → IsPrintable c
    → apply_tokens (bare c.name args) (flag_parts c) ≡ record c { raw_args = args }
unfolding flag_parts
apply-flag_parts c args (hp, hd, hi) =
    apply-app (bare c.name args) c.application _ hd refl
    ∙ apply-all (with_app) c.all _ refl
    ∙ apply-prune (record with_app { all = c.all }) c.prune _ refl
    ∙ apply-dry_run (record with_app { all = c.all; prune = c.prune }) c.dry_run _ refl
    ∙ apply-id (record with_app { all = c.all; prune = c.prune; dry_run = c.dry_run }) c.history_id
        hi refl
  where
    with_app : Command
    with_app = record (bare c.name args) { application = c.application }
