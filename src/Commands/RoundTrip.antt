-- ===== src/Commands/RoundTrip.antt =====
-- internal/commands/parser.go: the print of a command, parsed again.
use lemuria.Prelude.{
  ◌≡◌, ◌≢◌, refl, ap, ◌∙◌, true, Option, none, some, List, [], ◌∷◌, ◌++◌, All, Text, codes,
  if◌then◌else◌, is_space, trim_left, trim_right, trim_space, ◌==◌, arith, join,
}
use lemuria.Commands.Command.{
  Command, CommandType, plan, sync, unlock, help, rollback, flag_parts, type_name, command_string,
}
use lemuria.Commands.Parser.{
  tokenize, apply_tokens, bare, parse, parse_line, first_command, parse_args, command_pattern,
  command_type, lower, skip_word, skip_spaces, skip_some_spaces, take_word, lacks_newline, ◌>>=◌,
}
use lemuria.Commands.Tokens.{IsToken, tokenize-join}
use lemuria.Commands.Trim.{trim_space-join, split-join, join-All, join-ne}
use lemuria.Commands.Flags.{IsPrintable, flag_parts-All, apply-flag_parts}

args_of : List Text → Text
args_of ts = join (codes " ") ts

-- What stands behind the name of the command.
behind : List Text → Text
behind [] = []
behind (t ∷ ts) = 32 ∷ join (codes " ") (t ∷ ts)

printed :
    (name : CommandType) (ts : List Text)
    → join (codes " ") (codes "lemuria" ∷ type_name name ∷ ts)
      ≡ codes "lemuria " ++ (type_name name ++ behind ts)
unfolding join behind
printed plan [] = refl
printed plan (t ∷ ts) = refl
printed sync [] = refl
printed sync (t ∷ ts) = refl
printed unlock [] = refl
printed unlock (t ∷ ts) = refl
printed help [] = refl
printed help (t ∷ ts) = refl
printed rollback [] = refl
printed rollback (t ∷ ts) = refl

matched :
    (name : CommandType) (ts : List Text)
    → lacks_newline (behind ts) ≡ true
    → command_pattern (codes "lemuria " ++ (type_name name ++ behind ts))
      ≡ some (type_name name, behind ts)
unfolding command_pattern skip_word skip_spaces skip_some_spaces take_word behind
matched plan [] _ = refl
matched plan (t ∷ ts) h = rw h refl
matched sync [] _ = refl
matched sync (t ∷ ts) h = rw h refl
matched unlock [] _ = refl
matched unlock (t ∷ ts) h = rw h refl
matched help [] _ = refl
matched help (t ∷ ts) h = rw h refl
matched rollback [] _ = refl
matched rollback (t ∷ ts) h = rw h refl

name-IsToken : (name : CommandType) → IsToken (type_name name)
unfolding is_space ◌==◌
name-IsToken plan = (refl, refl)
name-IsToken sync = (refl, refl)
name-IsToken unlock = (refl, refl)
name-IsToken help = (refl, refl)
name-IsToken rollback = (refl, refl)

lower-name : (name : CommandType) → command_type (lower (type_name name)) ≡ some name
unfolding ◌==◌
lower-name plan = refl
lower-name sync = refl
lower-name unlock = refl
lower-name help = refl
lower-name rollback = refl

trim-behind : (ts : List Text) → All IsToken ts → trim_space (behind ts) ≡ args_of ts
unfolding behind args_of trim_space trim_left trim_right is_space join
trim-behind [] _ = refl
trim-behind (t ∷ ts) h = trim_space-join (t ∷ ts) h

behind-lacks : (ts : List Text) → All IsToken ts → lacks_newline (behind ts) ≡ true
unfolding behind
behind-lacks [] _ = refl
behind-lacks (t ∷ ts) h = lacks (join (codes " ") (t ∷ ts)) (join-All (t ∷ ts) h)
  where
    lacks : (s : Text) → All (λ c. c ≢ 10) s → lacks_newline s ≡ true
    lacks [] _ = refl
    lacks (c ∷ s) (n, hs) = ground (arith, n, lacks s hs)

args-tokens :
    (cmd : Command) (ts : List Text)
    → All IsToken ts
    → parse_args cmd (args_of ts) ≡ apply_tokens cmd ts
unfolding parse_args args_of join apply_tokens ◌==◌
args-tokens cmd [] _ = refl
args-tokens cmd (t ∷ ts) h =
    ap (λ b. if b then cmd else apply_tokens cmd (tokenize (join (codes " ") (t ∷ ts))))
      (join-ne t ts h)
    ∙ ap (apply_tokens cmd) (tokenize-join (t ∷ ts) h)

-- What `parse_line` does with the groups of the pattern.
read_groups : Text × Text → Option Command
read_groups m = do
  let args = trim_space m.1
  name ← command_type (lower m.0)
  some (parse_args (bare name args) args)

read_groups-name :
    (c : Command)
    → IsPrintable c
    → read_groups (type_name c.name, behind (flag_parts c))
      ≡ some (record c { raw_args = args_of (flag_parts c) })
unfolding read_groups
read_groups-name c h =
    let parts = flag_parts-All c h in
    rw (lower-name c.name, trim-behind (flag_parts c) parts)
      (ap some (
        args-tokens (bare c.name (args_of (flag_parts c))) (flag_parts c) parts
        ∙ apply-flag_parts c (args_of (flag_parts c)) h))

parse_line-printed :
    (c : Command)
    → IsPrintable c
    → parse_line (command_string c) ≡ some (record c { raw_args = args_of (flag_parts c) })
unfolding parse_line command_string read_groups
parse_line-printed c h =
    ap parse_line (printed c.name (flag_parts c))
    ∙ ap (λ r. r >>= read_groups)
        (matched c.name (flag_parts c) (behind-lacks (flag_parts c) (flag_parts-All c h)))
    ∙ read_groups-name c h

printed-All :
    (c : Command) → IsPrintable c → All IsToken (codes "lemuria" ∷ type_name c.name ∷ flag_parts c)
unfolding is_space ◌==◌
printed-All c h = ((refl, refl), (name-IsToken c.name, flag_parts-All c h))

first-one :
    (line : Text) (c : Command)
    → trim_space line ≡ line
    → parse_line line ≡ some c
    → first_command (line ∷ []) ≡ some c
unfolding first_command
first-one line c h p =
    ap (λ l. elim (parse_line l) as (λ _. Option Command) [ some cmd ↦ some cmd | none ↦ none ]) h
    ∙ rw p refl

-- A command whose application is a text without spaces and quotes that does not begin with a dash,
-- and whose history id an int64 holds, is parsed from its own print: the parser returns the same
-- command, its arguments being what the print has behind the name.
pub parse-command_string :
    (c : Command)
    → IsPrintable c
    → parse (command_string c) ≡ some (record c { raw_args = join (codes " ") (flag_parts c) })
unfolding parse first_command command_string args_of
parse-command_string c h =
    let tokens = codes "lemuria" ∷ type_name c.name ∷ flag_parts c in
    ap first_command (split-join tokens (printed-All c h))
    ∙ first-one (command_string c) (record c { raw_args = args_of (flag_parts c) })
        (trim_space-join tokens (printed-All c h)) (parse_line-printed c h)
