-- ===== src/Migrations/Undo.antt =====
-- Each operation that creates something is undone by the one that drops it.
use webhook_delivery_service.Base.{
  String, Bool, true, false, Option, some, List, [], ◌∷◌, ◌++◌, ◌&&◌, ◌||◌, not, any, select, All,
  All-mono, ◌≡◌, refl, ap, subst, arith, str_eq, eq_iff, Bool-cases, inl, inr, or_false,
}
use text.Mathlib.TextPositions.{eq_refl}
use webhook_delivery_service.Migrations.{
  Column, Constraint, primary_key, foreign_key_cascade, unique_constraint, Index, Table, Schema,
  has_column, all_columns, columns_of, is_named, refers_to, has_table, owns, is_taken, alter,
  create_table, drop_table, add_column_to, drop_column_of, add_unique_to, drop_unique_of,
  add_index_to, drop_index_of, mentions, all_valid, needs_value,
}
use webhook_delivery_service.Migrations.Valid.{
  Exist, HasColumns, IsSound, HasTarget, IsWellFormed, map-some, unless-some, when-some,
}

select_all {ℓ} :
    {A : Type ℓ} (p : A → Bool) (xs : List A) → All (λ x. p x ≡ true) xs → select p xs ≡ xs
select_all p [] h = refl
select_all p (x ∷ xs) h = rw h.0 (ap (λ l. x ∷ l) (select_all p xs h.1))

-- What was appended goes again.
select_appended {ℓ} :
    {A : Type ℓ} (p : A → Bool) (xs : List A) (x : A)
    → All (λ y. p y ≡ true) xs
    → p x ≡ false
    → select p (xs ++ x ∷ []) ≡ xs
select_appended p [] x h miss = rw miss refl
select_appended p (y ∷ xs) x h miss = rw h.0 (ap (λ l. y ∷ l) (select_appended p xs x h.1 miss))

any_appended {ℓ} :
    {A : Type ℓ} (p : A → Bool) (xs : List A) (x : A) → p x ≡ true → any p (xs ++ x ∷ []) ≡ true
any_appended p [] x h = rw h refl
any_appended p (y ∷ xs) x h = rw (any_appended p xs x h) (ground arith)

any-false {ℓ} :
    {A : Type ℓ} (p : A → Bool) (xs : List A) → any p xs ≡ false → All (λ x. not (p x) ≡ true) xs
any-false p [] h = tt
any-false p (x ∷ xs) h = (ground arith, any-false p xs (ground arith))

any-true {ℓ} :
    {A : Type ℓ} (p : A → Bool) (xs : List A) → All (λ x. p x ≡ false) xs → any p xs ≡ false
any-true p [] h = refl
any-true p (x ∷ xs) h = rw h.0 (any-true p xs h.1)

-- An existing column is not the missing one.
other_column :
    (c n : String) (cs : List Column)
    → has_column c cs ≡ false
    → has_column n cs ≡ true
    → str_eq n c ≡ false
other_column c n cs h k = elim (Bool-cases (str_eq n c)) [
  | inl same ↦
      absurd (ground (arith, h, subst (λ x. has_column x cs ≡ true) ((eq_iff n c).0 same) k))
  | inr other ↦ other
]

module _ (n : String) (f g : Table → Option Table) (P : Table → Type 0)
    (undo : (t u : Table) → P t → f t ≡ some u → (g u ≡ some t) × (u.name ≡ t.name)) where
  pub alter-undo :
      (s : Schema) {s' : Schema} → All P s → alter n f s ≡ some s' → alter n g s' ≡ some s
  unfolding alter
  alter-undo [] h e = cc
  alter-undo (t ∷ s) h e = elim (Bool-cases (str_eq t.name n)) [
    | inl hit ↦
        let (u, made, same) = map-some (λ v. v ∷ s) (f t) (rw hit at e) in
        let (back, name) = undo t u h.0 made in
        subst (λ x. alter n g x ≡ some (t ∷ s)) same (rw (name, hit, back) refl)
    | inr miss ↦
        let (s2, made, same) = map-some (λ x. t ∷ x) (alter n f s) (rw miss at e) in
        subst (λ x. alter n g x ≡ some (t ∷ s)) same (rw (miss, alter-undo s h.1 made) refl)
  ]

not_mentioned :
    (c : String) (cs : List Column) (ns : List String)
    → has_column c cs ≡ false
    → Exist cs ns
    → not (mentions c ns) ≡ true
not_mentioned c cs [] h k = refl
not_mentioned c cs (n ∷ ns) h k = rw (other_column c n cs h k.0) (not_mentioned c cs ns h k.1)

pub add_column_to-undo :
    (c : Column) (t u : Table)
    → IsSound t
    → add_column_to c t ≡ some u
    → (drop_column_of c.name u ≡ some t) × (u.name ≡ t.name)
unfolding add_column_to drop_column_of
add_column_to-undo c t u sound e =
    let (guard, same) = unless-some (has_column c.name t.columns || (needs_value c && _)) e in
    let fresh = (or_false _ _ guard).0 in
    subst (λ v. (drop_column_of c.name v ≡ some t) × (v.name ≡ t.name)) same
      (
        rw
            (
              any_appended (λ d. str_eq d.name c.name) t.columns c (eq_refl c.name),
              select_appended (λ d. not (str_eq d.name c.name)) t.columns c
                  (any-false _ t.columns fresh) (ap not (eq_refl c.name)),
              select_all (λ k. not (mentions c.name (columns_of k))) t.constraints
                  (All-mono (HasColumns t.columns) _
                    (λ k. not_mentioned c.name t.columns (columns_of k) fresh) t.constraints
                    sound.constraints_sound),
              select_all (λ i. not (mentions c.name i.columns)) t.indexes
                  (All-mono _ _ (λ i. not_mentioned c.name t.columns i.columns fresh) t.indexes
                    sound.indexes_sound),
            )
            refl,
        refl,
      )

pub add_unique_to-undo :
    (k : String) (ns : List String) (t u : Table)
    → owns k t ≡ false
    → add_unique_to k ns t ≡ some u
    → (drop_unique_of k u ≡ some t) × (u.name ≡ t.name)
unfolding add_unique_to drop_unique_of
add_unique_to-undo k ns t u free e =
    let (guard, same) = when-some (all_columns ns t.columns && _) e in
    let unnamed = (or_false _ _ (or_false _ _ free).1).0 in
    subst (λ v. (drop_unique_of k v ≡ some t) × (v.name ≡ t.name)) same
      (
        rw
            (
              any_appended (is_named k) t.constraints (unique_constraint k ns) (eq_refl k),
              select_appended (λ c. not (is_named k c)) t.constraints (unique_constraint k ns)
                  (any-false (is_named k) t.constraints unnamed) (ap not (eq_refl k)),
            )
            refl,
        refl,
      )

pub add_index_to-undo :
    (i : String) (ns : List String) (t u : Table)
    → owns i t ≡ false
    → add_index_to i ns t ≡ some u
    → (drop_index_of i u ≡ some t) × (u.name ≡ t.name)
unfolding add_index_to drop_index_of
add_index_to-undo i ns t u free e =
    let (guard, same) = when-some (all_columns ns t.columns) e in
    let index : Index = record { name = i; columns = ns } in
    let unnamed = (or_false _ _ (or_false _ _ free).1).1 in
    subst (λ v. (drop_index_of i v ≡ some t) × (v.name ≡ t.name)) same
      (
        rw
            (
              any_appended (λ x. str_eq x.name i) t.indexes index (eq_refl i),
              select_appended (λ x. not (str_eq x.name i)) t.indexes index
                  (any-false (λ x. str_eq x.name i) t.indexes unnamed) (ap not (eq_refl i)),
            )
            refl,
        refl,
      )

-- A foreign key to an existing table is none to a missing one.
other_target :
    (n : String) (s : Schema) (k : Constraint)
    → has_table n s ≡ false
    → HasTarget s k
    → refers_to n k ≡ false
other_target n s (primary_key ns) h k = refl
other_target n s (unique_constraint m ns) h k = refl
other_target n s (foreign_key_cascade c target) h k = elim (Bool-cases (str_eq target n)) [
  | inl same ↦
      absurd (ground (arith, h, subst (λ x. has_table x s ≡ true) ((eq_iff target n).0 same) k))
  | inr other ↦ other
]

not_referred :
    (n : String) (s : Schema)
    → has_table n s ≡ false
    → (t : Table) → All (HasTarget s) t.constraints
    → (not (str_eq t.name n) && any (refers_to n) t.constraints) ≡ false
not_referred n s h t targets =
    rw
      (any-true (refers_to n) t.constraints
        (All-mono (HasTarget s) _ (λ k. other_target n s k h) t.constraints targets))
      (ground arith)

pub free-has_table : (n : String) (s : Schema) → is_taken n s ≡ false → has_table n s ≡ false
free-has_table n [] h = refl
free-has_table n (t ∷ s) h =
    let (head, tail) = or_false (owns n t) (is_taken n s) h in
    let named : str_eq t.name n ≡ false = (or_false _ _ head).0 in
    rw (named, free-has_table n s tail) refl

pub create_table-undo :
    (n : String) (cs : List Column) (ks : List Constraint) (s : Schema) {s' : Schema}
    → IsWellFormed s
    → create_table n cs ks s ≡ some s'
    → drop_table n s' ≡ some s
unfolding create_table drop_table
create_table-undo n cs ks s wf e =
    let (guard, same) = when-some (not (is_taken n s) && all_valid s cs ks) e in
    let missing = free-has_table n s (ground (arith, guard)) in
    subst (λ x. drop_table n x ≡ some s) same
      (rw
        (
          eq_refl n,
          any-true (λ t. not (str_eq t.name n) && any (refers_to n) t.constraints) s
              (All-mono (λ t. All (HasTarget s) t.constraints) _ (not_referred n s missing) s
                wf.targets_exist),
          select_all (λ t. not (str_eq t.name n)) s (any-false (λ t. str_eq t.name n) s missing),
        )
        refl)
