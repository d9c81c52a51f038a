-- ===== src/Migrations/History.antt =====
-- The seven migrations of alembic/versions, the oldest first, each with the revision before it.
use webhook_delivery_service.Base.{String, true, false, Option, none, some, List, [], ◌∷◌}
use webhook_delivery_service.Migrations.{
  Column, column, uuid_type, string_type, string_array_type, datetime_type, jsonb_type,
  boolean_type, integer_type, primary_key, foreign_key_cascade, unique_constraint, Op,
  create_table_op, drop_table_op, add_column_op, drop_column_op, create_unique_constraint_op,
  drop_constraint_op, create_index_op, drop_index_op,
}

pub record Migration : Type 0 where
  pub revision : String
  pub down_revision : Option String
  pub upgrade : List Op
  pub downgrade : List Op

-- A column that is not nullable and has a server default.
abbrev pub defaulted : Column → String → Column
defaulted c text = record c { server_default = some text }

abbrev pub create_tenant_table : Migration
create_tenant_table = record {
  revision = "b0f998fc5e08";
  down_revision = none;
  upgrade =
      create_table_op "tenant"
        (column "id" uuid_type false ∷ column "name" (string_type 255) false ∷ [])
        (primary_key ("id" ∷ []) ∷ [])
      ∷ [];
  downgrade = drop_table_op "tenant" ∷ [];
}

abbrev pub add_api_key : Migration
add_api_key = record {
  revision = "620d4829eb8c";
  down_revision = some "b0f998fc5e08";
  upgrade =
      add_column_op "tenant" (column "api_key" (string_type 64) false)
      ∷ add_column_op "tenant" (column "created_at" datetime_type false)
      ∷ create_unique_constraint_op "uq_tenant_api_key" "tenant" ("api_key" ∷ [])
      ∷ [];
  downgrade =
      drop_constraint_op "uq_tenant_api_key" "tenant"
      ∷ drop_column_op "tenant" "created_at"
      ∷ drop_column_op "tenant" "api_key"
      ∷ [];
}

abbrev pub add_signing_secret : Migration
add_signing_secret = record {
  revision = "904574ba2e5b";
  down_revision = some "620d4829eb8c";
  upgrade =
      add_column_op "tenant" (column "signing_secret" (string_type 64) false)
      ∷ create_unique_constraint_op "uq_tenant_signing_secret" "tenant" ("signing_secret" ∷ [])
      ∷ [];
  downgrade =
      drop_constraint_op "uq_tenant_signing_secret" "tenant"
      ∷ drop_column_op "tenant" "signing_secret"
      ∷ [];
}

abbrev pub add_endpoint_model : Migration
add_endpoint_model = record {
  revision = "944222792284";
  down_revision = some "904574ba2e5b";
  upgrade =
      create_table_op "endpoint"
        (column "id" uuid_type false
          ∷ column "tenant_id" uuid_type false
          ∷ column "url" (string_type 2048) false
          ∷ column "event_types" (string_array_type 255) false
          ∷ defaulted (column "is_active" boolean_type false) "true"
          ∷ column "created_at" datetime_type false
          ∷ [])
        (foreign_key_cascade "tenant_id" "tenant" ∷ primary_key ("id" ∷ []) ∷ [])
      ∷ create_index_op "ix_endpoint_tenant_id_is_active" "endpoint"
          ("tenant_id" ∷ "is_active" ∷ [])
      ∷ [];
  downgrade =
      drop_index_op "ix_endpoint_tenant_id_is_active" "endpoint" ∷ drop_table_op "endpoint" ∷ [];
}

abbrev pub add_event_model : Migration
add_event_model = record {
  revision = "1bfc7186f528";
  down_revision = some "944222792284";
  upgrade =
      create_table_op "event"
        (column "id" uuid_type false
          ∷ column "tenant_id" uuid_type false
          ∷ column "event_type" (string_type 255) false
          ∷ column "payload" jsonb_type false
          ∷ column "idempotency_key" (string_type 255) true
          ∷ column "received_at" datetime_type false
          ∷ [])
        (foreign_key_cascade "tenant_id" "tenant"
          ∷ primary_key ("id" ∷ [])
          ∷ unique_constraint "uq_event_tenant_id_idempotency_key"
              ("tenant_id" ∷ "idempotency_key" ∷ [])
          ∷ [])
      ∷ [];
  downgrade = drop_table_op "event" ∷ [];
}

abbrev pub add_delivery_model : Migration
add_delivery_model = record {
  revision = "303974e46da3";
  down_revision = some "1bfc7186f528";
  upgrade =
      create_table_op "delivery"
        (column "id" uuid_type false
          ∷ column "event_id" uuid_type false
          ∷ column "endpoint_id" uuid_type false
          ∷ column "tenant_id" uuid_type false
          ∷ defaulted (column "status" (string_type 32) false) "pending"
          ∷ defaulted (column "attempt_number" integer_type false) "0"
          ∷ column "http_status_code" integer_type true
          ∷ column "response_body" (string_type 500) true
          ∷ column "latency_ms" integer_type true
          ∷ column "created_at" datetime_type false
          ∷ column "updated_at" datetime_type false
          ∷ [])
        (foreign_key_cascade "endpoint_id" "endpoint"
          ∷ foreign_key_cascade "event_id" "event"
          ∷ foreign_key_cascade "tenant_id" "tenant"
          ∷ primary_key ("id" ∷ [])
          ∷ [])
      ∷ [];
  downgrade = drop_table_op "delivery" ∷ [];
}

abbrev pub add_next_retry_at : Migration
add_next_retry_at = record {
  revision = "2ea825b91c0a";
  down_revision = some "303974e46da3";
  upgrade = add_column_op "delivery" (column "next_retry_at" datetime_type true) ∷ [];
  downgrade = drop_column_op "delivery" "next_retry_at" ∷ [];
}

abbrev pub history : List Migration
history =
    create_tenant_table ∷ add_api_key ∷ add_signing_secret ∷ add_endpoint_model ∷ add_event_model
    ∷ add_delivery_model ∷ add_next_retry_at ∷ []
