-- ===== src/Commands/Command.antt =====
-- internal/commands/parser.go: the type of a command, and its print.
use lemuria.Prelude.{
  ℕ, Text, codes, Bool, List, [], ◌∷◌, ◌++◌, not, if◌then◌else◌, ltb, itoa, join, ◌==◌,
}

pub data CommandType : Type 0 where
  plan sync unlock help rollback : CommandType

-- `history_id` is an int64 that is never negative: `parseArgs` refuses a value that begins with a dash.
pub record Command : Type 0 where
  pub name : CommandType
  pub application : Text
  pub all : Bool
  pub prune : Bool
  pub dry_run : Bool
  pub history_id : ℕ
  pub raw_args : Text

abbrev pub type_name : CommandType → Text
type_name plan = codes "plan"
type_name sync = codes "sync"
type_name unlock = codes "unlock"
type_name help = codes "help"
type_name rollback = codes "rollback"

-- The parts that `String` appends behind the name.
abbrev pub if_set : Bool → List Text → List Text
if_set b parts = if b then parts else []

unfoldable pub flag_parts : Command → List Text
flag_parts c =
    if_set (not (c.application == [])) (codes "-a" ∷ c.application ∷ [])
    ++ (if_set c.all (codes "--all" ∷ [])
        ++ (if_set c.prune (codes "--prune" ∷ [])
            ++ (if_set c.dry_run (codes "--dry-run" ∷ [])
                ++ if_set (ltb 0 c.history_id) (codes "--id" ∷ itoa c.history_id ∷ []))))

unfoldable pub command_string : Command → Text
unfolding flag_parts
command_string c = join (codes " ") (codes "lemuria" ∷ type_name c.name ∷ flag_parts c)
