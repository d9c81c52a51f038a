-- ===== src/Migrations/Rows.antt =====
-- What the upgrades do to a database that holds rows.
use webhook_delivery_service.Base.{
  ℕ, String, true, false, Option, none, some, List, [], ◌∷◌, ◌&&◌, ◌||◌, not, take, drop, All, ◌≡◌,
  ◌≢◌, refl, ap, ◌∙◌, subst, Bool-cases, inl, inr, if◌then◌else◌, str_eq, eq_iff, arith,
}
use mathlib.Core.Option.{some-injective}
use webhook_delivery_service.Migrations.{
  Op, create_table_op, drop_table_op, add_column_op, drop_column_op, create_unique_constraint_op,
  drop_constraint_op, create_index_op, drop_index_op, Column, column, string_type, Constraint,
  Table, Schema, has_table, is_taken, alter, create_table, add_column_to, add_unique_to,
  add_index_to, all_valid, needs_value, has_column, all_columns, apply, run,
}
use webhook_delivery_service.Migrations.History.{
  Migration, history, add_api_key, add_signing_secret,
}
use webhook_delivery_service.Migrations.Valid.{map-some, unless-some, when-some}
use webhook_delivery_service.Migrations.Undo.{free-has_table}
use webhook_delivery_service.Migrations.Downgrade.{
  IsCreation, IsReversible, stretch-IsReversible, next_op-some, unless_taken-some, upgrade_all,
}

-- The number of rows of a table.
unfoldable pub rows_of : String → Schema → Option ℕ
rows_of n [] = none
rows_of n (t ∷ s) = if str_eq t.name n then some t.rows else rows_of n s

rows_of-has_table : (n : String) (s : Schema) {r : ℕ} → rows_of n s ≡ some r → has_table n s ≡ true
unfolding rows_of
rows_of-has_table n [] h = cc
rows_of-has_table n (t ∷ s) h = elim (Bool-cases (str_eq t.name n)) [
  | inl hit ↦ rw hit refl
  | inr miss ↦ rw (miss, rows_of-has_table n s (rw miss at h)) refl
]

module _ (n : String) (f : Table → Option Table)
    (keep : (t u : Table) → f t ≡ some u → (u.name ≡ t.name) × (u.rows ≡ t.rows)) where
  alter-rows_of :
      (m : String) (s : Schema) {s' : Schema} → alter n f s ≡ some s' → rows_of m s' ≡ rows_of m s
  unfolding alter rows_of
  alter-rows_of m [] e = cc
  alter-rows_of m (t ∷ s) e = elim (Bool-cases (str_eq t.name n)) [
    | inl hit ↦
        let (u, made, same) = map-some (λ v. v ∷ s) (f t) (rw hit at e) in
        let (name, rows) = keep t u made in
        subst (λ x. rows_of m x ≡ rows_of m (t ∷ s)) same (rw (name, rows) refl)
    | inr miss ↦
        let (s2, made, same) = map-some (λ x. t ∷ x) (alter n f s) (rw miss at e) in
        subst (λ x. rows_of m x ≡ rows_of m (t ∷ s)) same (rw (alter-rows_of m s made) refl)
  ]

module _ (t u : Table) where
  abbrev Keeps : Table → Type 0
  Keeps v = (v.name ≡ t.name) × (v.rows ≡ t.rows)

  add_column_to-Keeps : (c : Column) → add_column_to c t ≡ some u → Keeps u
  unfolding add_column_to
  add_column_to-Keeps c e =
      subst Keeps (unless-some (has_column c.name t.columns || (needs_value c && _)) e).1
        (refl, refl)

  add_unique_to-Keeps : (k : String) (ns : List String) → add_unique_to k ns t ≡ some u → Keeps u
  unfolding add_unique_to
  add_unique_to-Keeps k ns e =
      subst Keeps (when-some (all_columns ns t.columns && _) e).1 (refl, refl)

  add_index_to-Keeps : (i : String) (ns : List String) → add_index_to i ns t ≡ some u → Keeps u
  unfolding add_index_to
  add_index_to-Keeps i ns e = subst Keeps (when-some (all_columns ns t.columns) e).1 (refl, refl)

module _ (m : String) (r : ℕ) where
  create_table-rows_of :
      (n : String) (cs : List Column) (ks : List Constraint) (s : Schema) {s' : Schema}
      → create_table n cs ks s ≡ some s'
      → rows_of m s ≡ some r
      → rows_of m s' ≡ some r
  unfolding create_table rows_of
  create_table-rows_of n cs ks s e h =
      let (guard, same) = when-some (not (is_taken n s) && all_valid s cs ks) e in
      let missing = free-has_table n s (ground (arith, guard)) in
      subst (λ x. rows_of m x ≡ some r) same
        (elim (Bool-cases (str_eq n m)) [
          | inl clash ↦ absurd (
              ground (
                arith,
                subst (λ x. has_table x s ≡ false) ((eq_iff n m).0 clash) missing,
                rows_of-has_table m s h,
              ))
          | inr other ↦ rw other h
        ])

  apply-rows_of :
      (o : Op) (s : Schema) {s' : Schema}
      → IsCreation o
      → apply o s ≡ some s'
      → rows_of m s ≡ some r
      → rows_of m s' ≡ some r
  unfolding apply
  apply-rows_of (create_table_op n cs ks) s c e h = create_table-rows_of n cs ks s e h
  apply-rows_of (add_column_op n c) s _ e h =
      alter-rows_of n (add_column_to c) (λ t u. add_column_to-Keeps t u c) m s e ∙ h
  apply-rows_of (create_unique_constraint_op k n ns) s _ e h =
      alter-rows_of n (add_unique_to k ns) (λ t u. add_unique_to-Keeps t u k ns) m s
        (unless_taken-some k s _ e).1
      ∙ h
  apply-rows_of (create_index_op i n ns) s _ e h =
      alter-rows_of n (add_index_to i ns) (λ t u. add_index_to-Keeps t u i ns) m s
        (unless_taken-some i s _ e).1
      ∙ h
  apply-rows_of (drop_table_op n) s c e h = absurd c
  apply-rows_of (drop_column_op n c) s k e h = absurd k
  apply-rows_of (drop_constraint_op k n) s c e h = absurd c
  apply-rows_of (drop_index_op i n) s c e h = absurd c

  run-rows_of :
      (os : List Op) (s : Schema) {s' : Schema}
      → All IsCreation os
      → run os s ≡ some s'
      → rows_of m s ≡ some r
      → rows_of m s' ≡ some r
  unfolding run
  run-rows_of [] s c e h = subst (λ x. rows_of m x ≡ some r) (some-injective _ _ e) h
  run-rows_of (o ∷ os) s c e h =
      let (s1, first, rest) = next_op-some (run os) (apply o s) e in
      run-rows_of os s1 c.1 rest (apply-rows_of o s c.0 first h)

  upgrade_all-rows_of :
      (ms : List Migration) (s : Schema) {s' : Schema}
      → All IsReversible ms
      → upgrade_all ms s ≡ some s'
      → rows_of m s ≡ some r
      → rows_of m s' ≡ some r
  unfolding upgrade_all
  upgrade_all-rows_of [] s c e h = subst (λ x. rows_of m x ≡ some r) (some-injective _ _ e) h
  upgrade_all-rows_of (g ∷ ms) s c e h =
      let (s1, first, rest) = next_op-some (upgrade_all ms) (run g.upgrade s) e in
      upgrade_all-rows_of ms s1 c.1 rest (run-rows_of g.upgrade s c.0.creates first h)

-- When any stretch of the history runs, each table that was there has as many rows as before.
pub upgrade_keeps_rows :
    (j k : ℕ) (s : Schema) {s' : Schema} (n : String) {r : ℕ}
    → upgrade_all (take k (drop j history)) s ≡ some s'
    → rows_of n s ≡ some r
    → rows_of n s' ≡ some r
upgrade_keeps_rows j k s n {r} e h =
    upgrade_all-rows_of n r (take k (drop j history)) s (stretch-IsReversible j k) e h

alter-refused :
    (n : String) (f : Table → Option Table) (s : Schema)
    → ((t : Table) → t.rows ≢ 0 → f t ≡ none)
    → rows_of n s ≢ some 0
    → alter n f s ≡ none
unfolding alter rows_of
alter-refused n f [] refused h = refl
alter-refused n f (t ∷ s) refused h = elim (Bool-cases (str_eq t.name n)) [
  | inl hit ↦
      let counted : some t.rows ≢ some 0 = rw hit at h in
      rw (hit, refused t (λ z. counted (ap some z))) refl
  | inr miss ↦ rw (miss, alter-refused n f s refused (rw miss at h)) refl
]

add_column_to-refused :
    (c : Column) (t : Table) → needs_value c ≡ true → t.rows ≢ 0 → add_column_to c t ≡ none
unfolding add_column_to
add_column_to-refused c t needs h = ground (arith, needs, h)

-- The API key and the signing secret are columns that are not nullable and have no default: both
-- migrations are refused where there is no table of tenants without rows.
pub populated_is_refused :
    (s : Schema)
    → rows_of "tenant" s ≢ some 0
    → (run add_api_key.upgrade s ≡ none) × (run add_signing_secret.upgrade s ≡ none)
unfolding run apply
populated_is_refused s h = (
  rw (refused (column "api_key" (string_type 64) false) refl) refl,
  rw (refused (column "signing_secret" (string_type 64) false) refl) refl,
)
  where
    refused : (c : Column) → needs_value c ≡ true → alter "tenant" (add_column_to c) s ≡ none
    refused c needs =
        alter-refused "tenant" (add_column_to c) s (λ t. add_column_to-refused c t needs) h
