-- ===== src/Migrations.antt =====
-- The operations of `alembic.op` that alembic/versions calls, on a schema: the tables with their
-- columns, constraints, indexes and number of rows. Postgres runs a migration in one transaction, so
-- an operation that it refuses (`none`) leaves the schema as it was.
pub mod History
pub mod Valid
pub mod Undo
pub mod Sound
pub mod Downgrade
pub mod Rows
use webhook_delivery_service.Base.{
  ℕ, String, Bool, true, false, Option, none, some, List, [], ◌∷◌, ◌++◌, ◌&&◌, ◌||◌, not, any,
  select, is_none, ltb, leb, str_eq, if◌then◌else◌,
}
use mathlib.Core.Option.{map as map_option}

pub data ColumnType : Type 0 where
  uuid_type jsonb_type datetime_type integer_type boolean_type : ColumnType
  string_type string_array_type : ℕ → ColumnType

pub record Column : Type 0 where
  pub name : String
  pub type : ColumnType
  pub server_default : Option String
  pub nullable : Bool

-- `sa.Column(name, type, nullable=…)`
abbrev pub column : String → ColumnType → Bool → Column
column name type nullable = record {
  name = name;
  type = type;
  server_default = none;
  nullable = nullable;
}

pub data Constraint : Type 0 where
  primary_key : List String → Constraint
  foreign_key_cascade : String → String → Constraint
  unique_constraint : String → List String → Constraint

pub record Index : Type 0 where
  pub name : String
  pub columns : List String

pub record Table : Type 0 where
  pub name : String
  pub columns : List Column
  pub constraints : List Constraint
  pub indexes : List Index
  pub rows : ℕ

abbrev pub Schema : Type 0
Schema = List Table

abbrev pub has_column : String → List Column → Bool
has_column n cs = any (λ c. str_eq c.name n) cs

abbrev pub all_columns : List String → List Column → Bool
all_columns [] cs = true
all_columns (n ∷ ns) cs = has_column n cs && all_columns ns cs

-- The columns of its own table that a constraint is on.
abbrev pub columns_of : Constraint → List String
columns_of (primary_key cs) = cs
columns_of (foreign_key_cascade c target) = c ∷ []
columns_of (unique_constraint n cs) = cs

abbrev pub is_named : String → Constraint → Bool
is_named n (unique_constraint m cs) = str_eq m n
is_named n _ = false

abbrev pub refers_to : String → Constraint → Bool
refers_to n (foreign_key_cascade c target) = str_eq target n
refers_to n _ = false

abbrev pub has_table : String → Schema → Bool
has_table n s = any (λ t. str_eq t.name n) s

-- A table, an index and a unique constraint share one space of names.
abbrev pub owns : String → Table → Bool
owns n t =
    str_eq t.name n || (any (is_named n) t.constraints || any (λ i. str_eq i.name n) t.indexes)

abbrev pub is_taken : String → Schema → Bool
is_taken n s = any (owns n) s

abbrev pub valid_constraint : Schema → List Column → Constraint → Bool
valid_constraint s cs (foreign_key_cascade c target) = has_column c cs && has_table target s
valid_constraint s cs (primary_key ns) = all_columns ns cs
valid_constraint s cs (unique_constraint n ns) = all_columns ns cs && not (is_taken n s)

abbrev pub all_valid : Schema → List Column → List Constraint → Bool
all_valid s cs [] = true
all_valid s cs (k ∷ ks) = valid_constraint s cs k && all_valid s cs ks

-- A change of one table, where there is such a table.
unfoldable pub alter : String → (Table → Option Table) → Schema → Option Schema
alter n f [] = none
alter n f (t ∷ s) =
    let rest = alter n f s in
    if str_eq t.name n then map_option (λ u. u ∷ s) (f t) else map_option (λ s'. t ∷ s') rest

unfoldable pub create_table : String → List Column → List Constraint → Schema → Option Schema
create_table n cs ks s =
    if not (is_taken n s) && all_valid s cs ks
    then some (record { name = n; columns = cs; constraints = ks; indexes = []; rows = 0 } ∷ s)
    else none

-- Without CASCADE, a table that a foreign key of another one refers to is kept.
unfoldable pub drop_table : String → Schema → Option Schema
drop_table n s =
    if has_table n s && not (any (λ t. not (str_eq t.name n) && any (refers_to n) t.constraints) s)
    then some (select (λ t. not (str_eq t.name n)) s)
    else none

-- The rows that there are get the default, or NULL.
abbrev pub needs_value : Column → Bool
needs_value c = not c.nullable && is_none c.server_default

unfoldable pub add_column_to : Column → Table → Option Table
add_column_to c t =
    if has_column c.name t.columns || (needs_value c && ltb 0 t.rows)
    then none
    else some (record t { columns = t.columns ++ c ∷ [] })

abbrev pub mentions : String → List String → Bool
mentions n ns = any (λ m. str_eq m n) ns

-- What is on the column goes with it.
unfoldable pub drop_column_of : String → Table → Option Table
drop_column_of n t =
    if has_column n t.columns
    then some (record t {
      columns = select (λ c. not (str_eq c.name n)) t.columns;
      constraints = select (λ k. not (mentions n (columns_of k))) t.constraints;
      indexes = select (λ i. not (mentions n i.columns)) t.indexes;
    })
    else none

-- Two rows could have the same values: both calls stand behind an `add_column` that wants no rows.
unfoldable pub add_unique_to : String → List String → Table → Option Table
add_unique_to n ns t =
    if all_columns ns t.columns && leb t.rows 1
    then some (record t { constraints = t.constraints ++ unique_constraint n ns ∷ [] })
    else none

unfoldable pub drop_unique_of : String → Table → Option Table
drop_unique_of n t =
    if any (is_named n) t.constraints
    then some (record t { constraints = select (λ k. not (is_named n k)) t.constraints })
    else none

unfoldable pub add_index_to : String → List String → Table → Option Table
add_index_to n ns t =
    if all_columns ns t.columns
    then some (record t { indexes = t.indexes ++ record { name = n; columns = ns } ∷ [] })
    else none

unfoldable pub drop_index_of : String → Table → Option Table
drop_index_of n t =
    if any (λ i. str_eq i.name n) t.indexes
    then some (record t { indexes = select (λ i. not (str_eq i.name n)) t.indexes })
    else none

pub data Op : Type 0 where
  create_table_op : String → List Column → List Constraint → Op
  drop_table_op : String → Op
  add_column_op : String → Column → Op
  drop_column_op : String → String → Op
  create_unique_constraint_op : String → String → List String → Op
  drop_constraint_op : String → String → Op
  create_index_op : String → String → List String → Op
  drop_index_op : String → String → Op

abbrev pub unless_taken : String → Schema → Option Schema → Option Schema
unless_taken n s out = if is_taken n s then none else out

unfoldable pub apply : Op → Schema → Option Schema
unfolding create_table drop_table alter add_column_to drop_column_of add_unique_to drop_unique_of
    add_index_to drop_index_of
apply (create_table_op n cs ks) s = create_table n cs ks s
apply (drop_table_op n) s = drop_table n s
apply (add_column_op n c) s = alter n (add_column_to c) s
apply (drop_column_op n c) s = alter n (drop_column_of c) s
apply (create_unique_constraint_op k n ns) s = unless_taken k s (alter n (add_unique_to k ns) s)
apply (drop_constraint_op k n) s = alter n (drop_unique_of k) s
apply (create_index_op i n ns) s = unless_taken i s (alter n (add_index_to i ns) s)
apply (drop_index_op i n) s = alter n (drop_index_of i) s

abbrev pub next_op : (Schema → Option Schema) → Option Schema → Option Schema
next_op rest none = none
next_op rest (some s) = rest s

unfoldable pub run : List Op → Schema → Option Schema
unfolding apply
run [] s = some s
run (o ∷ os) s = next_op (run os) (apply o s)
