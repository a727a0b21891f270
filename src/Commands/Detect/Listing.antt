-- ===== src/Commands/Detect/Listing.antt =====
-- internal/commands/executor.go: the list of affected applications names each of them once.
use lemuria.Prelude.{
  Text, ◌==◌, ◌||◌, ◌&&◌, if◌then◌else◌, Bool, true, false, not, elem, List, [], ◌∷◌, ◌++◌, ◌≡◌,
  refl, ap, sym, ◌∙◌, arith, inl, inr, Bool-cases, eq_iff,
}
use lemuria.Model.Application.{Application, ApplicationChangeType, existing}
use lemuria.Commands.Detect.Match.{update_affected, update_or_append_affected}
use lemuria.Commands.Detect.Affected.{
  Changes, entered, set_new, set_deleted, add_generated, add_generated_app, add_generated_deleted,
  Detected, add_new, add_modified_app, add_modified, mark_deleted, add_deleted_app, add_deleted,
  classify, classified, named, distinct, IsListing, names,
}

names-update_affected :
    (apps : List Application) (name : Text) (c : ApplicationChangeType) (file : Text)
    → names (update_affected apps name c file) ≡ names apps
unfolding update_affected
names-update_affected [] name c file = refl
names-update_affected (a ∷ apps) name c file = elim (Bool-cases (a.name == name)) [
  | inl e ↦ rw (e) refl
  | inr e ↦ rw (e) (ap (λ t. a.name ∷ t) (names-update_affected apps name c file))
]

names-mark_deleted :
    (name file : Text) (apps : List Application) → names (mark_deleted name file apps) ≡ names apps
unfolding mark_deleted
names-mark_deleted name file [] = refl
names-mark_deleted name file (a ∷ apps) = elim (Bool-cases (a.name == name)) [
  | inl e ↦ rw (e) refl
  | inr e ↦ rw (e) (ap (λ t. a.name ∷ t) (names-mark_deleted name file apps))
]

abbrev distinct_names : List Text → Bool
distinct_names [] = true
distinct_names (n ∷ ns) = not (elem n ns) && distinct_names ns

named-elem : (name : Text) (apps : List Application) → named name apps ≡ elem name (names apps)
named-elem name [] = refl
named-elem name (a ∷ apps) = ap (λ b. a.name == name || b) (named-elem name apps)

distinct-names : (apps : List Application) → distinct apps ≡ distinct_names (names apps)
distinct-names [] = refl
distinct-names (a ∷ apps) = ground (arith, named-elem a.name apps, distinct-names apps)

renamed-IsListing :
    (apps apps2 : List Application) (detected : List Text)
    → names apps2 ≡ names apps
    → IsListing (apps, detected)
    → IsListing (apps2, detected)
renamed-IsListing apps apps2 detected same h = (
  distinct-names apps2 ∙ ap distinct_names same ∙ sym (distinct-names apps) ∙ h.0,
  λ name e.
      h.1 name (named-elem name apps ∙ ap (elem name) (sym same) ∙ sym (named-elem name apps2) ∙ e),
)

named-append :
    (name : Text) (apps : List Application) (a : Application)
    → named name (apps ++ (a ∷ [])) ≡ (named name apps || a.name == name)
named-append name [] a = ground (arith)
named-append name (b ∷ apps) a = ground (arith, named-append name apps a)

eq_comm : (s t : Text) → (s == t) ≡ (t == s)
eq_comm s t = ground (arith, eq_iff s t, eq_iff t s)

distinct-append :
    (apps : List Application) (a : Application)
    → named a.name apps ≡ false
    → distinct apps ≡ true
    → distinct (apps ++ (a ∷ [])) ≡ true
distinct-append [] a fresh h = refl
distinct-append (b ∷ apps) a fresh h =
    let later : named a.name apps ≡ false
        → distinct apps ≡ true
        → distinct (apps ++ (a ∷ [])) ≡ true =
      distinct-append apps a in
    ground (arith, fresh, h, later, named-append b.name apps a, eq_comm a.name b.name)

append-IsListing :
    (d : Detected) (a : Application)
    → elem a.name d.1 ≡ false
    → IsListing d
    → IsListing (d.0 ++ (a ∷ []), a.name ∷ d.1)
append-IsListing d a fresh h = (
  distinct-append d.0 a (ground (arith, fresh, h.1 a.name)) h.0,
  λ name e. ground (arith, e, named-append name d.0 a, h.1 name),
)

if_IsListing :
    (b : Bool) (c d : Detected)
    → (b ≡ true → IsListing c)
    → (b ≡ false → IsListing d)
    → IsListing (if b then c else d)
if_IsListing true c d h k = h refl
if_IsListing false c d h k = k refl

update_or_append_affected-IsListing :
    (app : Application) (d : Detected)
    → IsListing d
    → IsListing (update_or_append_affected d.0 app d.1)
unfolding update_or_append_affected
update_or_append_affected-IsListing app d h =
    if_IsListing (not (elem app.name d.1)) _ _ (λ e. append-IsListing d app (ground (arith, e)) h)
      (λ e.
        renamed-IsListing d.0 (update_affected d.0 app.name app.change_type app.source_file) d.1
          (names-update_affected d.0 app.name app.change_type app.source_file) h)

add_deleted_app-IsListing :
    (app : Application) (d : Detected) → IsListing d → IsListing (add_deleted_app app d)
unfolding add_deleted_app
add_deleted_app-IsListing app d h =
    if_IsListing (not (elem app.name d.1)) _ _ (λ e. append-IsListing d app (ground (arith, e)) h)
      (λ e.
        renamed-IsListing d.0 (mark_deleted app.name app.source_file d.0) d.1
          (names-mark_deleted app.name app.source_file d.0) h)

add_modified_app-IsListing :
    (files : List Text) (app : Application) (d : Detected)
    → IsListing d
    → IsListing (add_modified_app files app d)
unfolding add_modified_app
add_modified_app-IsListing files app d h =
    if_IsListing (elem app.name d.1) _ _
      (λ e.
        renamed-IsListing d.0 (update_affected d.0 app.name existing app.source_file) d.1
          (names-update_affected d.0 app.name existing app.source_file) h)
      (λ e.
        if_IsListing (not (app.source_file == []) && elem app.source_file files) _ _
          (λ f. append-IsListing d (record app { change_type = existing }) e h) (λ f. h))

add_new-IsListing :
    (apps : List Application) (d : Detected) → IsListing d → IsListing (add_new apps d)
add_new-IsListing [] d h = h
add_new-IsListing (app ∷ apps) d h =
    add_new-IsListing apps (update_or_append_affected d.0 app d.1)
      (update_or_append_affected-IsListing app d h)

add_modified-IsListing :
    (files : List Text) (apps : List Application) (d : Detected)
    → IsListing d
    → IsListing (add_modified files apps d)
add_modified-IsListing files [] d h = h
add_modified-IsListing files (app ∷ apps) d h =
    add_modified-IsListing files apps (add_modified_app files app d)
      (add_modified_app-IsListing files app d h)

add_deleted-IsListing :
    (apps : List Application) (d : Detected) → IsListing d → IsListing (add_deleted apps d)
add_deleted-IsListing [] d h = h
add_deleted-IsListing (app ∷ apps) d h =
    add_deleted-IsListing apps (add_deleted_app app d) (add_deleted_app-IsListing app d h)

names-classify : (apps : List Application) → names (classify apps) ≡ names apps
names-classify [] = refl
names-classify (a ∷ apps) = ap (λ t. a.name ∷ t) (names-classify apps)

add_generated_app-IsListing :
    (app : Application) (d : Detected) → IsListing d → IsListing (add_generated_app app d)
unfolding add_generated_app
add_generated_app-IsListing app d h =
    if_IsListing (not (elem app.name d.1)) _ _
      (λ e. append-IsListing d (record app { is_generated_app = true }) (ground (arith, e)) h)
      (λ e. h)

add_generated-IsListing :
    (apps : List Application) (d : Detected) → IsListing d → IsListing (add_generated apps d)
add_generated-IsListing [] d h = h
add_generated-IsListing (app ∷ apps) d h =
    add_generated-IsListing apps (add_generated_app app d) (add_generated_app-IsListing app d h)

entered-IsListing :
    (files : List Text) (c : Changes) (d : Detected) → IsListing d → IsListing (entered files c d)
entered-IsListing files c d h =
    let changed = add_modified files c.modified (add_new c.new_apps d) in
    add_generated-IsListing (set_new c.sets) changed (
      add_modified-IsListing files c.modified (add_new c.new_apps d)
        (add_new-IsListing c.new_apps d h))

-- The loops that enter the new, the modified, the generated and the deleted applications, and the
-- classification of the rest, enter no application twice in a list without one, and every name they
-- leave in it is one that was detected.
pub classified-IsListing :
    (files : List Text) (c : Changes) (d : Detected)
    → IsListing d
    → IsListing (classified files c d)
unfolding classified
classified-IsListing files c d h =
    let gone = add_generated_deleted (set_deleted c.sets) c.deleted_apps in
    let whole = add_deleted gone (entered files c d) in
    renamed-IsListing whole.0 (classify whole.0) whole.1 (names-classify whole.0)
      (add_deleted-IsListing gone (entered files c d) (entered-IsListing files c d h))
