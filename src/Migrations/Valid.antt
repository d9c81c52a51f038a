-- ===== src/Migrations/Valid.antt =====
-- What holds of every schema that the migrations reach, and how a guarded operation is taken apart.
use webhook_delivery_service.Base.{
  String, Bool, true, false, Option, none, some, List, All, ◌≡◌, refl, if◌then◌else◌,
}
use mathlib.Core.Option.{map as map_option, some-injective}
use webhook_delivery_service.Migrations.{
  Column, Constraint, foreign_key_cascade, Table, Schema, has_column, columns_of, has_table,
}

-- The columns that a constraint or an index is on exist.
abbrev pub Exist : List Column → List String → Type 0
Exist cs ns = All (λ n. has_column n cs ≡ true) ns

abbrev pub HasColumns : List Column → Constraint → Type 0
HasColumns cs k = Exist cs (columns_of k)

pub record IsSound (t : Table) : Type 0 where
  pub constraints_sound : All (HasColumns t.columns) t.constraints
  pub indexes_sound : All (λ i. Exist t.columns i.columns) t.indexes

-- A table that a foreign key refers to exists.
abbrev pub HasTarget : Schema → Constraint → Type 0
HasTarget s (foreign_key_cascade c target) = has_table target s ≡ true
HasTarget s _ = Unit

pub record IsWellFormed (s : Schema) : Type 0 where
  pub tables_sound : All IsSound s
  pub targets_exist : All (λ t. All (HasTarget s) t.constraints) s

pub map-some {ℓ κ} :
    {A : Type ℓ} {B : Type κ} (f : A → B) (o : Option A) {b : B}
    → map_option f o ≡ some b
    → (a : A) × (o ≡ some a) × (f a ≡ b)
map-some f none h = cc
map-some f (some a) {b} h = (a, refl, some-injective (f a) b h)

pub unless-some {ℓ} :
    {A : Type ℓ} (b : Bool) {x y : A}
    → (if b then none else some x) ≡ some y
    → (b ≡ false) × (x ≡ y)
unless-some true h = cc
unless-some false {x} {y} h = (refl, some-injective x y h)

pub when-some {ℓ} :
    {A : Type ℓ} (b : Bool) {x y : A} → (if b then some x else none) ≡ some y → (b ≡ true) × (x ≡ y)
when-some true {x} {y} h = (refl, some-injective x y h)
when-some false h = cc
