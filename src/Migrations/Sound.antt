-- ===== src/Migrations/Sound.antt =====
-- Each operation that creates something keeps a schema well-formed.
use webhook_delivery_service.Base.{
  String, true, Option, some, List, [], ◌∷◌, ◌++◌, ◌&&◌, ◌||◌, not, All, All-append, All-mono, ◌≡◌,
  refl, ap, ◌∙◌, subst, arith, str_eq, Bool-cases, inl, inr, &&_left, &&_right,
}
use webhook_delivery_service.Migrations.{
  Column, Constraint, primary_key, foreign_key_cascade, unique_constraint, Table, Schema,
  has_column, all_columns, columns_of, has_table, is_taken, alter, create_table, add_column_to,
  add_unique_to, add_index_to, all_valid, valid_constraint, needs_value,
}
use webhook_delivery_service.Migrations.Valid.{
  Exist, HasColumns, HasTarget, IsSound, IsWellFormed, map-some, unless-some, when-some,
}

-- A sound table whose foreign keys refer to tables of `s`.
pub record IsFine (s : Schema) (t : Table) : Type 0 where
  pub sound : IsSound t
  pub targets : All (HasTarget s) t.constraints

all-IsFine :
    (s s0 : Schema)
    → All IsSound s
    → All (λ t. All (HasTarget s0) t.constraints) s
    → All (IsFine s0) s
all-IsFine [] s0 h k = tt
all-IsFine (t ∷ s) s0 h k = (record { sound = h.0; targets = k.0 }, all-IsFine s s0 h.1 k.1)

has_column-append :
    (n : String) (cs : List Column) (c : Column)
    → has_column n cs ≡ true
    → has_column n (cs ++ c ∷ []) ≡ true
has_column-append n [] c h = absurd (ground arith)
has_column-append n (d ∷ cs) c h = elim (Bool-cases (str_eq d.name n)) [
  | inl hit ↦ rw hit refl
  | inr miss ↦ rw (has_column-append n cs c (rw miss at h)) (ground arith)
]

Exist-append :
    (cs : List Column) (c : Column) (ns : List String) → Exist cs ns → Exist (cs ++ c ∷ []) ns
Exist-append cs c ns h = All-mono _ _ (λ n. has_column-append n cs c) ns h

all_columns-Exist : (ns : List String) (cs : List Column) → all_columns ns cs ≡ true → Exist cs ns
all_columns-Exist [] cs h = tt
all_columns-Exist (n ∷ ns) cs h = (&&_left _ _ h, all_columns-Exist ns cs (&&_right _ _ h))

module _ (s : Schema) (t u : Table) (fine : IsFine s t) where
  pub add_column_to-IsFine :
      (c : Column) → add_column_to c t ≡ some u → IsFine s u × (u.name ≡ t.name)
  unfolding add_column_to
  add_column_to-IsFine c e =
      let (guard, same) = unless-some (has_column c.name t.columns || (needs_value c && _)) e in
      subst (λ v. IsFine s v × (v.name ≡ t.name)) same
        (
          record {
            sound = record {
              constraints_sound =
                  All-mono (HasColumns t.columns) _ (λ k. Exist-append t.columns c (columns_of k))
                    t.constraints fine.sound.constraints_sound;
              indexes_sound =
                  All-mono _ _ (λ i. Exist-append t.columns c i.columns) t.indexes
                    fine.sound.indexes_sound;
            };
            targets = fine.targets;
          },
          refl,
        )

  pub add_unique_to-IsFine :
      (k : String) (ns : List String)
      → add_unique_to k ns t ≡ some u
      → IsFine s u × (u.name ≡ t.name)
  unfolding add_unique_to
  add_unique_to-IsFine k ns e =
      let (guard, same) = when-some (all_columns ns t.columns && _) e in
      let exist = all_columns-Exist ns t.columns (&&_left _ _ guard) in
      subst (λ v. IsFine s v × (v.name ≡ t.name)) same
        (
          record {
            sound = record {
              constraints_sound =
                  All-append (HasColumns t.columns) t.constraints (unique_constraint k ns ∷ [])
                    fine.sound.constraints_sound (exist, tt);
              indexes_sound = fine.sound.indexes_sound;
            };
            targets =
                All-append (HasTarget s) t.constraints (unique_constraint k ns ∷ []) fine.targets
                  (tt, tt);
          },
          refl,
        )

  pub add_index_to-IsFine :
      (i : String) (ns : List String)
      → add_index_to i ns t ≡ some u
      → IsFine s u × (u.name ≡ t.name)
  unfolding add_index_to
  add_index_to-IsFine i ns e =
      let (guard, same) = when-some (all_columns ns t.columns) e in
      subst (λ v. IsFine s v × (v.name ≡ t.name)) same
        (
          record {
            sound = record {
              constraints_sound = fine.sound.constraints_sound;
              indexes_sound =
                  All-append (λ i. Exist t.columns i.columns) t.indexes _ fine.sound.indexes_sound
                    (all_columns-Exist ns t.columns guard, tt);
            };
            targets = fine.targets;
          },
          refl,
        )

module _ (n : String) (f : Table → Option Table) (s0 : Schema)
    (keep : (t u : Table) → IsFine s0 t → f t ≡ some u → IsFine s0 u × (u.name ≡ t.name)) where
  -- Every table of the new schema is fine, and the names are the old ones.
  alter-IsFine :
      (s : Schema) {s' : Schema}
      → All (IsFine s0) s
      → alter n f s ≡ some s'
      → All (IsFine s0) s' × ((x : String) → has_table x s' ≡ has_table x s)
  unfolding alter
  alter-IsFine [] h e = cc
  alter-IsFine (t ∷ s) h e = elim (Bool-cases (str_eq t.name n)) [
    | inl hit ↦
        let (u, made, same) = map-some (λ v. v ∷ s) (f t) (rw hit at e) in
        let (fine, name) = keep t u h.0 made in
        subst (λ x. All (IsFine s0) x × ((y : String) → has_table y x ≡ has_table y (t ∷ s))) same
          ((fine, h.1), λ y. rw name refl)
    | inr miss ↦
        let (s2, made, same) = map-some (λ x. t ∷ x) (alter n f s) (rw miss at e) in
        let (fine, names) = alter-IsFine s h.1 made in
        subst (λ x. All (IsFine s0) x × ((y : String) → has_table y x ≡ has_table y (t ∷ s))) same
          ((h.0, fine), λ y. ap (λ b. str_eq t.name y || b) (names y))
  ]

HasTarget-mono :
    (s s' : Schema)
    → ((x : String) → has_table x s ≡ true → has_table x s' ≡ true)
    → (k : Constraint) → HasTarget s k
    → HasTarget s' k
HasTarget-mono s s' more (primary_key ns) h = tt
HasTarget-mono s s' more (unique_constraint m ns) h = tt
HasTarget-mono s s' more (foreign_key_cascade c target) h = more target h

IsFine-IsSound :
    (s0 s' : Schema)
    → ((x : String) → has_table x s0 ≡ true → has_table x s' ≡ true)
    → (s : Schema) → All (IsFine s0) s
    → All IsSound s × All (λ t. All (HasTarget s') t.constraints) s
IsFine-IsSound s0 s' more [] h = (tt, tt)
IsFine-IsSound s0 s' more (t ∷ s) h =
    let (sound, targets) = IsFine-IsSound s0 s' more s h.1 in
    (
      (h.0.sound, sound),
      (All-mono (HasTarget s0) _ (HasTarget-mono s0 s' more) t.constraints h.0.targets, targets),
    )

pub alter-IsWellFormed :
    (n : String) (f : Table → Option Table) (s : Schema) {s' : Schema}
    → ((t u : Table) → IsFine s t → f t ≡ some u → IsFine s u × (u.name ≡ t.name))
    → IsWellFormed s
    → alter n f s ≡ some s'
    → IsWellFormed s'
alter-IsWellFormed n f s {s'} keep wf e =
    let (fine, names) =
      alter-IsFine n f s keep s (all-IsFine s s wf.tables_sound wf.targets_exist) e in
    let (sound, targets) = IsFine-IsSound s s' (λ x h. names x ∙ h) s' fine in
    record { tables_sound = sound; targets_exist = targets }

valid-HasColumns :
    (s : Schema) (cs : List Column) (k : Constraint)
    → valid_constraint s cs k ≡ true
    → HasColumns cs k × HasTarget s k
valid-HasColumns s cs (primary_key ns) h = (all_columns-Exist ns cs h, tt)
valid-HasColumns s cs (unique_constraint m ns) h = (all_columns-Exist ns cs (&&_left _ _ h), tt)
valid-HasColumns s cs (foreign_key_cascade c target) h = ((&&_left _ _ h, tt), &&_right _ _ h)

all_valid-HasColumns :
    (s : Schema) (cs : List Column) (ks : List Constraint)
    → all_valid s cs ks ≡ true
    → All (HasColumns cs) ks × All (HasTarget s) ks
all_valid-HasColumns s cs [] h = (tt, tt)
all_valid-HasColumns s cs (k ∷ ks) h =
    let (columns, target) = valid-HasColumns s cs k (&&_left _ _ h) in
    let (rest, targets) = all_valid-HasColumns s cs ks (&&_right _ _ h) in
    ((columns, rest), (target, targets))

has_table-cons :
    (t : Table) (s : Schema) (x : String) → has_table x s ≡ true → has_table x (t ∷ s) ≡ true
has_table-cons t s x h = ground (arith, h)

pub create_table-IsWellFormed :
    (n : String) (cs : List Column) (ks : List Constraint) (s : Schema) {s' : Schema}
    → IsWellFormed s
    → create_table n cs ks s ≡ some s'
    → IsWellFormed s'
unfolding create_table
create_table-IsWellFormed n cs ks s wf e =
    let (guard, same) = when-some (not (is_taken n s) && all_valid s cs ks) e in
    let (columns, targets) = all_valid-HasColumns s cs ks (&&_right _ _ guard) in
    let t : Table = record { name = n; columns = cs; constraints = ks; indexes = []; rows = 0 } in
    let fine : IsFine s t = record {
      sound = record { constraints_sound = columns; indexes_sound = tt };
      targets = targets;
    } in
    let others = all-IsFine s s wf.tables_sound wf.targets_exist in
    let (sound, exist) = IsFine-IsSound s (t ∷ s) (has_table-cons t s) (t ∷ s) (fine, others) in
    subst IsWellFormed same (record { tables_sound = sound; targets_exist = exist })
