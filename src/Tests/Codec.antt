-- ===== src/Tests/Codec.antt =====
-- A codec of locks that reads back all that it writes, in place of the JSON of encoding/json.
use lemuria.Prelude.{
  ℕ, zero, suc, Text, Bool, true, false, List, [], ◌∷◌, length, Option, none, some, ◌≡◌, refl,
}
use lemuria.Model.Application.{DiffAction, ApplicationChangeType}
use lemuria.Model.Lock.{Lock, PlanDiffEntry}
use lemuria.Locking.Manager.{LockCodec}
use lemuria.Locking.Outcomes.{Encodes}

-- Values written in front of a text, and read from its front.
pub record Coder (A : Type 0) : Type 0 where
  pub write : A → Text → Text
  pub read : Text → Option (A × Text)
  pub back : (a : A) (rest : Text) → read (write a rest) ≡ some (a, rest)

infixl 5 ◌>>=◌
abbrev ◌>>=◌ : {A B : Type 0} → Option A → (A → Option B) → Option B
none >>= f = none
some a >>= f = f a

abbrev first : Text → Option (ℕ × Text)
first [] = none
first (n ∷ s) = some (n, s)

abbrev pub number : Coder ℕ
number = record { write = λ n s. n ∷ s; read = first; back = λ n s. refl }

module _ {A : Type 0} (c : Coder A) where
  abbrev write_all : List A → Text → Text
  write_all [] rest = rest
  write_all (a ∷ xs) rest = c.write a (write_all xs rest)

  abbrev read_all : ℕ → Text → Option (List A × Text)
  read_all zero s = some ([], s)
  read_all (suc n) s = c.read s >>= λ p. read_all n p.1 >>= λ q. some (p.0 ∷ q.0, q.1)

  pub read-write_all :
      (xs : List A) (rest : Text) → read_all (length xs) (write_all xs rest) ≡ some (xs, rest)
  read-write_all [] rest = refl
  read-write_all (a ∷ xs) rest =
      rw (c.back a (write_all xs rest)) (rw (read-write_all xs rest) refl)

  abbrev pub list : Coder (List A)
  list = record {
    write = λ xs rest. length xs ∷ write_all xs rest;
    read = λ s. first s >>= λ p. read_all p.0 p.1;
    back = λ xs rest. read-write_all xs rest;
  }

  abbrev pub pair : {B : Type 0} → Coder B → Coder (A × B)
  pair {B} e = record {
    write = λ p rest. c.write p.0 (e.write p.1 rest);
    read = λ s. c.read s >>= λ p. e.read p.1 >>= λ q. some ((p.0, q.0), q.1);
    back = λ p rest. rw (c.back p.0 (e.write p.1 rest)) (rw (e.back p.1 rest) refl);
  }

  abbrev pub via : {B : Type 0} (f : B → A) (g : A → B) → ((b : B) → g (f b) ≡ b) → Coder B
  via {B} f g h = record {
    write = λ b rest. c.write (f b) rest;
    read = λ s. c.read s >>= λ p. some (g p.0, p.1);
    back = λ b rest. rw (c.back (f b) rest) (rw (h b) refl);
  }

abbrev pub text : Coder Text
text = list number

abbrev to_bool : ℕ → Bool
to_bool zero = false
to_bool (suc n) = true

abbrev of_bool : Bool → ℕ
of_bool false = 0
of_bool true = 1

bool-back : (b : Bool) → to_bool (of_bool b) ≡ b
bool-back false = refl
bool-back true = refl

abbrev bool : Coder Bool
bool = via number of_bool to_bool bool-back

abbrev of_change : ApplicationChangeType → ℕ
of_change ApplicationChangeType.unset = 0
of_change ApplicationChangeType.existing = 1
of_change ApplicationChangeType.new = 2
of_change ApplicationChangeType.deleted = 3

abbrev to_change : ℕ → ApplicationChangeType
to_change zero = ApplicationChangeType.unset
to_change (suc zero) = ApplicationChangeType.existing
to_change (suc (suc zero)) = ApplicationChangeType.new
to_change _ = ApplicationChangeType.deleted

change-back : (c : ApplicationChangeType) → to_change (of_change c) ≡ c
change-back ApplicationChangeType.unset = refl
change-back _ = refl

abbrev change : Coder ApplicationChangeType
change = via number of_change to_change change-back

abbrev of_action : DiffAction → ℕ
of_action DiffAction.unset = 0
of_action DiffAction.create = 1
of_action DiffAction.update = 2
of_action DiffAction.delete = 3
of_action DiffAction.none = 4

abbrev to_action : ℕ → DiffAction
to_action zero = DiffAction.unset
to_action (suc zero) = DiffAction.create
to_action (suc (suc zero)) = DiffAction.update
to_action (suc (suc (suc zero))) = DiffAction.delete
to_action _ = DiffAction.none

action-back : (c : DiffAction) → to_action (of_action c) ≡ c
action-back DiffAction.unset = refl
action-back _ = refl

abbrev action : Coder DiffAction
action = via number of_action to_action action-back

abbrev entry : Coder PlanDiffEntry
entry =
    via (pair (pair (pair text text) (pair text text)) (pair action text))
      (λ e. (
        ((e.resource.api_version, e.resource.kind), (e.resource.name, e.resource.namespace)),
        (e.action, e.diff),
      ))
      (λ p. record {
        resource = record {
          api_version = p.0.0.0;
          kind = p.0.0.1;
          name = p.0.1.0;
          namespace = p.0.1.1;
        };
        action = p.1.0;
        diff = p.1.1;
      })
      (λ e. refl)

abbrev fields :
    Lock
    → ((Text × ℕ) × (Text × Text))
      × (((Text × Text) × (ℕ × Text))
          × (((Text × Text) × (List PlanDiffEntry × ApplicationChangeType))
              × ((Bool × Text) × (Text × Bool))))
fields l = (
  ((l.application, l.pr_number), (l.repo, l.repo_url)),
  (
    ((l.provider, l.user), (l.locked_at, l.plan_revision)),
    (
      ((l.source_file, l.plan_output), (l.plan_diffs, l.change_type)),
      ((l.auto_sync_disabled, l.original_sync_policy), (l.application_set_name, l.is_parent_app)),
    ),
  ),
)

abbrev lock_coder : Coder Lock
lock_coder =
    via
      (pair (pair (pair text number) (pair text text)) (
        pair (pair (pair text text) (pair number text)) (
          pair (pair (pair text text) (pair (list entry) change))
            (pair (pair bool text) (pair text bool)))))
      fields
      (λ p. record {
        application = p.0.0.0;
        pr_number = p.0.0.1;
        repo = p.0.1.0;
        repo_url = p.0.1.1;
        provider = p.1.0.0.0;
        user = p.1.0.0.1;
        locked_at = p.1.0.1.0;
        plan_revision = p.1.0.1.1;
        source_file = p.1.1.0.0.0;
        plan_output = p.1.1.0.0.1;
        plan_diffs = p.1.1.0.1.0;
        change_type = p.1.1.0.1.1;
        auto_sync_disabled = p.1.1.1.0.0;
        original_sync_policy = p.1.1.1.0.1;
        application_set_name = p.1.1.1.1.0;
        is_parent_app = p.1.1.1.1.1;
      })
      (λ l. refl)

write_lock : Lock → Text
write_lock l = lock_coder.write l []

read_lock : Text → Option Lock
read_lock s = lock_coder.read s >>= λ p. some p.0

read-write_lock : (l : Lock) (t : Text) → some (write_lock l) ≡ some t → read_lock t ≡ some l
unfolding write_lock read_lock
read-write_lock l t h = let e : write_lock l ≡ t = cc in rw (← e) (rw (lock_coder.back l []) refl)

unfoldable pub codec : LockCodec
unfolding write_lock read_lock read-write_all action-back change-back bool-back read-write_lock
codec = record {
  marshal = λ l. some (write_lock l);
  unmarshal = read_lock;
  unmarshal-marshal = read-write_lock;
}

pub codec-Encodes : Encodes codec
unfolding codec
codec-Encodes l = (write_lock l, refl)
