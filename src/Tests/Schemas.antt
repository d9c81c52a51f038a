-- ===== src/Tests/Schemas.antt =====
-- Schemas on the way through the history.
use mathlib.Core.Option.{some-injective}
use webhook_delivery_service.Base.{
  ◌≡◌, arith, refl, false, Option, none, some, List, [], ◌∷◌, take, drop, map,
}
use webhook_delivery_service.Migrations.{
  Column, column, uuid_type, string_type, datetime_type, Schema, primary_key, unique_constraint,
  run,
}
use webhook_delivery_service.Migrations.History.{history, add_api_key, add_signing_secret}
use webhook_delivery_service.Migrations.Valid.{IsWellFormed}
use webhook_delivery_service.Migrations.Downgrade.{
  upgrade_all, downgrade_all, downgrade_undoes_upgrade,
}
use webhook_delivery_service.Migrations.Rows.{rows_of, upgrade_keeps_rows, populated_is_refused}

-- The table of tenants as the first migration makes it, and as the third leaves it with two rows.
abbrev tenant_columns : List Column
tenant_columns = column "id" uuid_type false ∷ column "name" (string_type 255) false ∷ []

abbrev named_tenants : Schema
named_tenants =
    record {
      name = "tenant";
      columns = tenant_columns;
      constraints = primary_key ("id" ∷ []) ∷ [];
      indexes = [];
      rows = 2;
    }
    ∷ []

abbrev two_tenants : Schema
two_tenants =
    record {
      name = "tenant";
      columns =
          column "id" uuid_type false
          ∷ column "name" (string_type 255) false
          ∷ column "api_key" (string_type 64) false
          ∷ column "created_at" datetime_type false
          ∷ column "signing_secret" (string_type 64) false
          ∷ [];
      constraints =
          primary_key ("id" ∷ [])
          ∷ unique_constraint "uq_tenant_api_key" ("api_key" ∷ [])
          ∷ unique_constraint "uq_tenant_signing_secret" ("signing_secret" ∷ [])
          ∷ [];
      indexes = [];
      rows = 2;
    }
    ∷ []

two_tenants-IsWellFormed : IsWellFormed two_tenants
two_tenants-IsWellFormed = record {
  tables_sound = (
    record { constraints_sound = ((refl, tt), ((refl, tt), ((refl, tt), tt))); indexes_sound = tt },
    tt,
  );
  targets_exist = ((tt, (tt, (tt, tt))), tt);
}

abbrev schema_of : Option Schema → Schema
schema_of none = []
schema_of (some s) = s

abbrev at_head : Schema
unfolding upgrade_all
at_head = schema_of (upgrade_all (take 4 (drop 3 history)) two_tenants)

-- The last four migrations run beside two tenants.
tables_at_head : map (λ t. t.name) at_head ≡ "delivery" ∷ "event" ∷ "endpoint" ∷ "tenant" ∷ []
unfolding at_head
tables_at_head = refl

downgrade_undoes_upgrade_example :
    (downgrade_all (take 4 (drop 3 history)) at_head ≡ some two_tenants) × IsWellFormed at_head
unfolding at_head
downgrade_undoes_upgrade_example =
    downgrade_undoes_upgrade 3 4 two_tenants two_tenants-IsWellFormed refl

upgrade_keeps_rows_example : rows_of "tenant" at_head ≡ some 2
unfolding at_head rows_of
upgrade_keeps_rows_example = upgrade_keeps_rows 3 4 two_tenants "tenant" refl refl

populated_is_refused_example :
    (run add_api_key.upgrade named_tenants ≡ none)
    × (run add_signing_secret.upgrade named_tenants ≡ none)
unfolding rows_of
populated_is_refused_example =
    populated_is_refused named_tenants (λ e. omega (arith, some-injective 2 0 e))
