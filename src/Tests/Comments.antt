-- ===== src/Tests/Comments.antt =====
-- Comments parsed.
use lemuria.Prelude.{
  Text, codes, true, false, some, [], ◌==◌, split, trim_space, has_prefix, is_space, join, ◌≡◌,
  refl, arith,
}
use lemuria.Commands.Command.{Command, rollback, flag_parts, command_string}
use lemuria.Commands.Parser.{parse, parse_int}
use lemuria.Commands.Flags.{IsPrintable}
use lemuria.Commands.RoundTrip.{parse-command_string}

abbrev command : Text → Text → Command
command application args = record {
  name = rollback;
  application = application;
  all = false;
  prune = true;
  dry_run = false;
  history_id = 12;
  raw_args = args;
}

parse_run :
    parse (codes "hi\n Lemuria  ROLLBACK --id 12 -a 'my app' --prune\nlemuria plan")
    ≡ some (command (codes "my app") (codes "--id 12 -a 'my app' --prune"))
unfolding parse parse_int split trim_space has_prefix is_space ◌==◌
parse_run = refl

command-IsPrintable : IsPrintable (command (codes "shop") [])
unfolding is_space has_prefix
command-IsPrintable = (refl, refl, omega arith)

parse-command_string_example :
    parse (command_string (command (codes "shop") []))
    ≡ some (command (codes "shop") (join (codes " ") (flag_parts (command (codes "shop") []))))
parse-command_string_example = parse-command_string (command (codes "shop") []) command-IsPrintable
