-- ===== src/Migrations/Downgrade.antt =====
-- `alembic upgrade` and `alembic downgrade` along the history.
use webhook_delivery_service.Base.{
  ℕ, String, Bool, false, Option, none, some, List, [], ◌∷◌, ◌++◌, take, drop, All, All-drop,
  All-take, ◌≡◌, refl, ◌∙◌, subst, Bool-cases, Option-cases, inl, inr, any, or_false,
}
use mathlib.Core.Option.{some-injective}
use webhook_delivery_service.Migrations.{
  Op, create_table_op, drop_table_op, add_column_op, drop_column_op, create_unique_constraint_op,
  drop_constraint_op, create_index_op, drop_index_op, Schema, owns, is_taken, unless_taken,
  add_column_to, add_unique_to, add_index_to, drop_column_of, drop_unique_of, drop_index_of,
  next_op, apply, run,
}
use webhook_delivery_service.Migrations.History.{Migration, history}
use webhook_delivery_service.Migrations.Valid.{IsSound, IsWellFormed}
use webhook_delivery_service.Migrations.Undo.{
  alter-undo, add_column_to-undo, add_unique_to-undo, add_index_to-undo, create_table-undo,
}
use webhook_delivery_service.Migrations.Sound.{
  add_column_to-IsFine, add_unique_to-IsFine, add_index_to-IsFine, alter-IsWellFormed,
  create_table-IsWellFormed,
}

-- The migrations in order, and back from the last one.
unfoldable pub upgrade_all : List Migration → Schema → Option Schema
unfolding run
upgrade_all [] s = some s
upgrade_all (m ∷ ms) s = next_op (upgrade_all ms) (run m.upgrade s)

unfoldable pub downgrade_all : List Migration → Schema → Option Schema
unfolding run
downgrade_all [] s = some s
downgrade_all (m ∷ ms) s = next_op (run m.downgrade) (downgrade_all ms s)

-- The operations of the upgrades, and what undoes each.
abbrev pub IsCreation : Op → Type 0
IsCreation (create_table_op n cs ks) = Unit
IsCreation (add_column_op n c) = Unit
IsCreation (create_unique_constraint_op k n ns) = Unit
IsCreation (create_index_op i n ns) = Unit
IsCreation _ = ⊥

abbrev pub inverse : Op → Op
inverse (create_table_op n cs ks) = drop_table_op n
inverse (add_column_op n c) = drop_column_op n c.name
inverse (create_unique_constraint_op k n ns) = drop_constraint_op k n
inverse (create_index_op i n ns) = drop_index_op i n
inverse o = o

abbrev pub inverses : List Op → List Op
inverses [] = []
inverses (o ∷ os) = inverses os ++ inverse o ∷ []

any-none {ℓ} :
    {A : Type ℓ} (p : A → Bool) (xs : List A) → any p xs ≡ false → All (λ x. p x ≡ false) xs
any-none p [] h = tt
any-none p (x ∷ xs) h = let (head, tail) = or_false (p x) (any p xs) h in (head, any-none p xs tail)

pub unless_taken-some :
    (n : String) (s : Schema) (out : Option Schema) {s' : Schema}
    → unless_taken n s out ≡ some s'
    → (is_taken n s ≡ false) × (out ≡ some s')
unless_taken-some n s out h = elim (Bool-cases (is_taken n s)) [
  | inl taken ↦ absurd (let e : none ≡ some _ = rw taken at h in cc)
  | inr free ↦ (free, rw free at h)
]

apply-undo :
    (o : Op) (s : Schema) {s' : Schema}
    → IsCreation o
    → IsWellFormed s
    → apply o s ≡ some s'
    → (apply (inverse o) s' ≡ some s) × IsWellFormed s'
unfolding apply
apply-undo (create_table_op n cs ks) s c wf e =
    (create_table-undo n cs ks s wf e, create_table-IsWellFormed n cs ks s wf e)
apply-undo (add_column_op n c) s _ wf e = (
  alter-undo n (add_column_to c) (drop_column_of c.name) IsSound (add_column_to-undo c) s
      wf.tables_sound e,
  alter-IsWellFormed n (add_column_to c) s (λ t u fine. add_column_to-IsFine s t u fine c) wf e,
)
apply-undo (create_unique_constraint_op k n ns) s _ wf e =
    let (free, done) = unless_taken-some k s _ e in
    (
      alter-undo n (add_unique_to k ns) (drop_unique_of k) (λ t. owns k t ≡ false)
          (add_unique_to-undo k ns) s (any-none (owns k) s free) done,
      alter-IsWellFormed n (add_unique_to k ns) s (λ t u fine. add_unique_to-IsFine s t u fine k ns)
          wf done,
    )
apply-undo (create_index_op i n ns) s _ wf e =
    let (free, done) = unless_taken-some i s _ e in
    (
      alter-undo n (add_index_to i ns) (drop_index_of i) (λ t. owns i t ≡ false)
          (add_index_to-undo i ns) s (any-none (owns i) s free) done,
      alter-IsWellFormed n (add_index_to i ns) s (λ t u fine. add_index_to-IsFine s t u fine i ns)
          wf done,
    )
apply-undo (drop_table_op n) s c wf e = absurd c
apply-undo (drop_column_op n c) s cr wf e = absurd cr
apply-undo (drop_constraint_op k n) s c wf e = absurd c
apply-undo (drop_index_op i n) s c wf e = absurd c

-- What follows an operation or a migration that ran.
pub next_op-some :
    (rest : Schema → Option Schema) (o : Option Schema) {s' : Schema}
    → next_op rest o ≡ some s'
    → (s : Schema) × (o ≡ some s) × (rest s ≡ some s')
next_op-some rest none h = cc
next_op-some rest (some s) h = (s, refl, h)

next_op-last : (out : Option Schema) → next_op (λ s. some s) out ≡ out
next_op-last none = refl
next_op-last (some s) = refl

run-append :
    (os : List Op) (o : Op) (s : Schema) → run (os ++ o ∷ []) s ≡ next_op (apply o) (run os s)
unfolding run
run-append [] o s = next_op-last (apply o s)
run-append (p ∷ os) o s = elim (Option-cases (apply p s)) [
  | inl refused ↦ rw refused refl
  | inr (s1, done) ↦ rw done (run-append os o s1)
]

run-undo :
    (os : List Op) (s : Schema) {s' : Schema}
    → All IsCreation os
    → IsWellFormed s
    → run os s ≡ some s'
    → (run (inverses os) s' ≡ some s) × IsWellFormed s'
unfolding run
run-undo [] s c wf e =
    subst (λ x. (run [] x ≡ some s) × IsWellFormed x) (some-injective _ _ e) (refl, wf)
run-undo (o ∷ os) s c wf e =
    let (s1, first, rest) = next_op-some (run os) (apply o s) e in
    let (back, wf1) = apply-undo o s c.0 wf first in
    let (backs, wf2) = run-undo os s1 c.1 wf1 rest in
    (run-append (inverses os) (inverse o) _ ∙ rw backs back, wf2)

-- Each downgrade is written as the inverse of its upgrade.
pub record IsReversible (m : Migration) : Type 0 where
  pub creates : All IsCreation m.upgrade
  pub inverts : m.downgrade ≡ inverses m.upgrade

history-IsReversible : All IsReversible history
history-IsReversible = (
  record { creates = (tt, tt); inverts = refl },
  (
    record { creates = (tt, (tt, (tt, tt))); inverts = refl },
    (
      record { creates = (tt, (tt, tt)); inverts = refl },
      (
        record { creates = (tt, (tt, tt)); inverts = refl },
        (
          record { creates = (tt, tt); inverts = refl },
          (
            record { creates = (tt, tt); inverts = refl },
            (record { creates = (tt, tt); inverts = refl }, tt),
          ),
        ),
      ),
    ),
  ),
)

pub stretch-IsReversible : (j k : ℕ) → All IsReversible (take k (drop j history))
stretch-IsReversible j k =
    All-take IsReversible k (drop j history) (All-drop IsReversible j history history-IsReversible)

downgrade_all-upgrade_all :
    (ms : List Migration) (s : Schema) {s' : Schema}
    → All IsReversible ms
    → IsWellFormed s
    → upgrade_all ms s ≡ some s'
    → (downgrade_all ms s' ≡ some s) × IsWellFormed s'
unfolding upgrade_all downgrade_all
downgrade_all-upgrade_all [] s r wf e =
    subst (λ x. (downgrade_all [] x ≡ some s) × IsWellFormed x) (some-injective _ _ e) (refl, wf)
downgrade_all-upgrade_all (m ∷ ms) s r wf e =
    let (s1, first, rest) = next_op-some (upgrade_all ms) (run m.upgrade s) e in
    let (back, wf1) = run-undo m.upgrade s r.0.creates wf first in
    let (backs, wf2) = downgrade_all-upgrade_all ms s1 r.1 wf1 rest in
    (rw (backs, r.0.inverts) back, wf2)

-- In a well-formed schema, when a stretch of the history runs, from any revision and of any length,
-- its downgrades run and give the schema back; the schema between is well-formed.
pub downgrade_undoes_upgrade :
    (j k : ℕ) (s : Schema) {s' : Schema}
    → IsWellFormed s
    → upgrade_all (take k (drop j history)) s ≡ some s'
    → (downgrade_all (take k (drop j history)) s' ≡ some s) × IsWellFormed s'
downgrade_undoes_upgrade j k s wf e =
    downgrade_all-upgrade_all (take k (drop j history)) s (stretch-IsReversible j k) wf e
