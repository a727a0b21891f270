-- ===== src/Commands/Parser.antt =====
-- internal/commands/parser.go: from the body of a comment to a command.
use lemuria.Prelude.{
  ℕ, ◌+◌, ◌-◌, ◌*◌, Text, codes, Bool, true, false, not, ◌&&◌, ◌||◌, Option, none, some, List, [],
  ◌∷◌, ◌++◌, if◌then◌else◌, nat_eq, leb, has_prefix, trim_space, split, ◌==◌,
}
use lemuria.Commands.Command.{Command, CommandType, plan, sync, unlock, help, rollback}

-- `\s` of regexp
abbrev pub is_re_space : ℕ → Bool
is_re_space c = nat_eq c 32 || nat_eq c 9 || nat_eq c 10 || nat_eq c 12 || nat_eq c 13

-- `\w` under `(?i)`: folding adds U+017F (to s) and U+212A (to k)
abbrev pub is_word : ℕ → Bool
is_word c =
    leb b'a' c && leb c b'z'
    || leb b'A' c && leb c b'Z'
    || leb b'0' c && leb c b'9'
    || nat_eq c b'_'
    || nat_eq c 0x17f
    || nat_eq c 0x212a

-- unicode.ToLower on a character of a word
abbrev pub to_lower : ℕ → ℕ
to_lower c = if leb b'A' c && leb c b'Z' then c + 32 else if nat_eq c 0x212a then b'k' else c

abbrev pub lower : Text → Text
lower [] = []
lower (c ∷ s) = to_lower c ∷ lower s

unfoldable pub skip_spaces : Text → Text
skip_spaces [] = []
skip_spaces (c ∷ s) = let rest = skip_spaces s in if is_re_space c then rest else c ∷ s

-- The text behind a word in lower case, which is compared with the case ignored.
unfoldable pub skip_word : Text → Text → Option Text
skip_word [] s = some s
skip_word (w ∷ ws) [] = none
skip_word (w ∷ ws) (c ∷ s) = if nat_eq (to_lower c) w then skip_word ws s else none

unfoldable pub skip_some_spaces : Text → Option Text
skip_some_spaces [] = none
skip_some_spaces (c ∷ s) = if is_re_space c then some (skip_spaces s) else none

-- `(\w+)(.*)$`, where the first group takes all that it can
unfoldable pub take_word : Text → Text × Text
take_word [] = ([], [])
take_word (c ∷ s) = let (w, rest) = take_word s in if is_word c then (c ∷ w, rest) else ([], c ∷ s)

abbrev pub lacks_newline : Text → Bool
lacks_newline [] = true
lacks_newline (c ∷ s) = not (nat_eq c 10) && lacks_newline s

abbrev pub groups : Text × Text → Option (Text × Text)
groups ([], rest) = none
groups (c ∷ w, rest) = if lacks_newline rest then some (c ∷ w, rest) else none

infixl 5 ◌>>=◌
abbrev pub ◌>>=◌ {ℓ κ} : {A : Type ℓ} {B : Type κ} → Option A → (A → Option B) → Option B
none >>= f = none
some a >>= f = f a

-- commandPattern.FindStringSubmatch, without the group of the whole match
unfoldable pub command_pattern : Text → Option (Text × Text)
unfolding skip_spaces skip_word skip_some_spaces take_word
command_pattern line = do
  s ← skip_word (codes "lemuria") (skip_spaces line)
  t ← skip_some_spaces s
  groups (take_word t)

-- strconv.ParseInt(s, 10, 64) of a text that does not begin with `-`
abbrev pub is_digit : ℕ → Bool
is_digit c = leb b'0' c && leb c b'9'

abbrev pub max_int64 : ℕ
max_int64 = 9223372036854775807

unfoldable pub read_digits : ℕ → Text → Option ℕ
read_digits n [] = some n
read_digits n (c ∷ s) = if is_digit c then read_digits (n * 10 + (c - b'0')) s else none

abbrev pub in_range : ℕ → Option ℕ
in_range n = if leb n max_int64 then some n else none

abbrev pub some_digits : Text → Option ℕ
some_digits [] = none
some_digits (c ∷ s) = read_digits 0 (c ∷ s) >>= in_range

unfoldable pub parse_int : Text → Option ℕ
unfolding read_digits
parse_int [] = none
parse_int (c ∷ s) = if nat_eq c b'+' then some_digits s else some_digits (c ∷ s)

-- One rune of the loop of `tokenize`: the tokens that it finishes, and the new state. The quote that
-- is open stands for both `inQuote` and `quoteChar`.
unfoldable pub tokenize_step : Text → Option ℕ → ℕ → List Text × Text × Option ℕ
tokenize_step current quote r =
    if nat_eq r b'"' || nat_eq r b'\''
    then (elim quote [
      | some q ↦ if nat_eq r q then ([], current, none) else ([], current ++ r ∷ [], some q)
      | none ↦ ([], current, some r)
    ])
    else (elim quote [
      | some q ↦ ([], current ++ r ∷ [], some q)
      | none ↦
          if nat_eq r 32
          then (if current == [] then ([], [], none) else (current ∷ [], [], none))
          else ([], current ++ r ∷ [], none)
    ])

unfoldable pub tokenize_from : Text → Option ℕ → Text → List Text
unfolding tokenize_step
tokenize_from current quote [] = if current == [] then [] else current ∷ []
tokenize_from current quote (r ∷ s) =
    let (done, current', quote') = tokenize_step current quote r in
    done ++ tokenize_from current' quote' s

unfoldable pub tokenize : Text → List Text
unfolding tokenize_from
tokenize args = tokenize_from [] none args

-- `i+1 < len(tokens) && !strings.HasPrefix(tokens[i+1], "-")`
abbrev pub value_of : Option Text → Option Text
value_of none = none
value_of (some t) = if has_prefix t (codes "-") then none else some t

abbrev pub set_id : Command → Option ℕ → Command
set_id cmd none = cmd
set_id cmd (some id) = record cmd { history_id = id }

-- The switch of `parseArgs` on one token and the next: the command, and whether the next is taken.
unfoldable pub apply_token : Command → Text → Option Text → Command × Bool
apply_token cmd token next =
    if token == codes "-a" || token == codes "--app" || token == codes "--application"
    then (elim (value_of next) [
      | some v ↦ (record cmd { application = v }, true)
      | none ↦ (cmd, false)
    ])
    else if token == codes "--all"
    then (record cmd { all = true }, false)
    else if token == codes "--prune"
    then (record cmd { prune = true }, false)
    else if token == codes "--dry-run"
    then (record cmd { dry_run = true }, false)
    else if token == codes "--id"
    then (elim (value_of next) [ some v ↦ (set_id cmd (parse_int v), true) | none ↦ (cmd, false) ])
    else if not (has_prefix token (codes "-")) && cmd.application == []
    then (record cmd { application = token }, false)
    else (cmd, false)

unfoldable pub apply_tokens : Command → List Text → Command
unfolding apply_token
apply_tokens cmd [] = cmd
apply_tokens cmd (t ∷ []) = (apply_token cmd t none).0
apply_tokens cmd (t ∷ v ∷ rest) =
    let (cmd', taken) = apply_token cmd t (some v) in
    let behind = apply_tokens cmd' rest in
    let next = apply_tokens cmd' (v ∷ rest) in if taken then behind else next

unfoldable pub parse_args : Command → Text → Command
unfolding tokenize apply_tokens
parse_args cmd args = if args == [] then cmd else apply_tokens cmd (tokenize args)

abbrev pub command_type : Text → Option CommandType
command_type name =
    if name == codes "plan"
    then some plan
    else if name == codes "sync"
    then some sync
    else if name == codes "unlock"
    then some unlock
    else if name == codes "help"
    then some help
    else if name == codes "rollback"
    then some rollback
    else none

abbrev pub bare : CommandType → Text → Command
bare name args = record {
  name = name;
  application = [];
  all = false;
  prune = false;
  dry_run = false;
  history_id = 0;
  raw_args = args;
}

-- `none` is ErrNotCommand.
unfoldable pub parse_line : Text → Option Command
unfolding command_pattern parse_args
parse_line line = do
  m ← command_pattern line
  let args = trim_space m.1
  name ← command_type (lower m.0)
  some (parse_args (bare name args) args)

unfoldable pub first_command : List Text → Option Command
unfolding parse_line
first_command [] = none
first_command (line ∷ lines) =
    let later = first_command lines in
    elim (parse_line (trim_space line)) [ some cmd ↦ some cmd | none ↦ later ]

unfoldable pub parse : Text → Option Command
unfolding first_command
parse body = first_command (split 10 body)
