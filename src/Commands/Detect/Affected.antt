-- ===== src/Commands/Detect/Affected.antt =====
-- internal/commands/executor.go, the loops of findAffectedApplications that enter the new, the
-- modified and the deleted applications in the list, with the names that were detected.
use lemuria.Prelude.{
  none, some, Option, Text, ◌==◌, ◌||◌, ◌&&◌, if◌then◌else◌, Bool, true, false, not, elem, List, [],
  ◌∷◌, ◌++◌, map, ◌≡◌,
}
use lemuria.Model.Application.{Application, ApplicationChangeType, unset, existing, deleted}
use lemuria.Commands.Detect.Match.{update_affected, update_or_append_affected}

-- `affected` and `alreadyDetected`
abbrev pub Detected : Type 0
Detected = List Application × List Text

abbrev pub add_new : List Application → Detected → Detected
add_new [] d = d
add_new (app ∷ apps) d = add_new apps (update_or_append_affected d.0 app d.1)

unfoldable pub add_modified_app : List Text → Application → Detected → Detected
add_modified_app files app d =
    if elem app.name d.1
    then (update_affected d.0 app.name existing app.source_file, d.1)
    else if not (app.source_file == []) && elem app.source_file files
    then (d.0 ++ (record app { change_type = existing } ∷ []), app.name ∷ d.1)
    else d

abbrev pub add_modified : List Text → List Application → Detected → Detected
add_modified files [] d = d
add_modified files (app ∷ apps) d = add_modified files apps (add_modified_app files app d)

-- The source file of a deleted application is overwritten.
unfoldable pub mark_deleted : Text → Text → List Application → List Application
mark_deleted name source_file [] = []
mark_deleted name source_file (a ∷ affected) =
    let rest = mark_deleted name source_file affected in
    if a.name == name
    then record a { change_type = deleted; source_file = source_file } ∷ affected
    else a ∷ rest

unfoldable pub add_deleted_app : Application → Detected → Detected
add_deleted_app app d =
    if not (elem app.name d.1)
    then (d.0 ++ (app ∷ []), app.name ∷ d.1)
    else (mark_deleted app.name app.source_file d.0, d.1)

abbrev pub add_deleted : List Application → Detected → Detected
add_deleted [] d = d
add_deleted (app ∷ apps) d = add_deleted apps (add_deleted_app app d)

unfoldable pub or_existing : ApplicationChangeType → ApplicationChangeType
or_existing unset = existing
or_existing other = other

abbrev pub classify : List Application → List Application
classify apps = map (λ (a : Application). record a { change_type = or_existing a.change_type }) apps

abbrev pub named : Text → List Application → Bool
named name [] = false
named name (a ∷ apps) = a.name == name || named name apps

unfoldable pub add_generated_app : Application → Detected → Detected
add_generated_app app d =
    if not (elem app.name d.1)
    then (d.0 ++ (record app { is_generated_app = true } ∷ []), app.name ∷ d.1)
    else d

abbrev pub add_generated : List Application → Detected → Detected
add_generated [] d = d
add_generated (app ∷ apps) d = add_generated apps (add_generated_app app d)

-- What the changed application sets add to the deleted applications.
abbrev pub add_generated_deleted : List Application → List Application → List Application
add_generated_deleted [] deleted_apps = deleted_apps
add_generated_deleted (app ∷ apps) deleted_apps = add_generated_deleted apps (
    if not (named app.name deleted_apps)
    then deleted_apps ++ (record app { is_generated_app = true } ∷ [])
    else deleted_apps)

-- What detectApplicationChangesFromScan finds, less the applications that the check of Argo CD takes
-- out, and what detectApplicationSetChangesFromScan finds: `none` where that fails.
pub record Changes : Type 0 where
  pub new_apps : List Application
  pub modified : List Application
  pub deleted_apps : List Application
  pub sets : Option (List Application × List Application)

abbrev pub set_new : Option (List Application × List Application) → List Application
set_new none = []
set_new (some p) = p.0

abbrev pub set_deleted : Option (List Application × List Application) → List Application
set_deleted none = []
set_deleted (some p) = p.1

abbrev pub entered : List Text → Changes → Detected → Detected
entered files c d =
    add_generated (set_new c.sets) (add_modified files c.modified (add_new c.new_apps d))

unfoldable pub classified : List Text → Changes → Detected → Detected
classified files c d =
    let whole =
      add_deleted (add_generated_deleted (set_deleted c.sets) c.deleted_apps) (entered files c d) in
    (classify whole.0, whole.1)

abbrev pub distinct : List Application → Bool
distinct [] = true
distinct (a ∷ apps) = not (named a.name apps) && distinct apps

-- No name stands twice in the list, and every name of the list is one that was detected.
abbrev pub IsListing : Detected → Type 0
IsListing d = (distinct d.0 ≡ true) × ((name : Text) → named name d.0 ≡ true → elem name d.1 ≡ true)

abbrev pub names : List Application → List Text
names apps = map (λ (a : Application). a.name) apps
