-- ===== src/Protocol/Responses/CoordinatorSchemas.antt =====
-- proxy/protocol/responses.go: createFindCoordinatorResponseSchemaVersions.
use kafka_gcp_proxy.Base.{List, [], ◌∷◌}
use kafka_gcp_proxy.Protocol.Schema.{
  Schema, type_int16, type_int32, type_str, type_nullable_str, type_compact_str,
  type_compact_nullable_str, mfield, compact_array, schema_tagged_fields,
}
use kafka_gcp_proxy.Protocol.Responses.Names.{
  new_schema, host_key_name, port_key_name, node_key_name, coordinator_key_name,
  coordinators_key_name,
}

unfoldable pub find_coordinator_broker_v0 : Schema
find_coordinator_broker_v0 = new_schema "find_coordinator_broker_v0" (
    mfield node_key_name type_int32
    ∷ mfield host_key_name type_str
    ∷ mfield port_key_name type_int32
    ∷ [])

unfoldable pub find_coordinator_broker_schema9 : Schema
find_coordinator_broker_schema9 = new_schema "find_coordinator_broker_schema9" (
    mfield node_key_name type_int32
    ∷ mfield host_key_name type_compact_str
    ∷ mfield port_key_name type_int32
    ∷ [])

unfoldable pub find_coordinator_response_v0 : Schema
unfolding find_coordinator_broker_v0
find_coordinator_response_v0 =
    new_schema "find_coordinator_response_v0"
      (mfield "error_code" type_int16 ∷ mfield coordinator_key_name find_coordinator_broker_v0 ∷ [])

unfoldable pub find_coordinator_response_v1 : Schema
unfolding find_coordinator_broker_v0
find_coordinator_response_v1 = new_schema "find_coordinator_response_v1" (
    mfield "throttle_time_ms" type_int32
    ∷ mfield "error_code" type_int16
    ∷ mfield "error_message" type_nullable_str
    ∷ mfield coordinator_key_name find_coordinator_broker_v0
    ∷ [])

unfoldable pub find_coordinator_response_v2 : Schema
unfolding find_coordinator_response_v1
find_coordinator_response_v2 = find_coordinator_response_v1

unfoldable pub find_coordinator_response_v3 : Schema
unfolding find_coordinator_broker_schema9
find_coordinator_response_v3 = new_schema "find_coordinator_response_v3" (
    mfield "throttle_time_ms" type_int32
    ∷ mfield "error_code" type_int16
    ∷ mfield "error_message" type_compact_nullable_str
    ∷ mfield coordinator_key_name find_coordinator_broker_schema9
    ∷ schema_tagged_fields "response_tagged_fields"
    ∷ [])

unfoldable pub find_coordinator_coordinators_schema4 : Schema
unfolding find_coordinator_broker_schema9
find_coordinator_coordinators_schema4 = new_schema "find_coordinator_coordinators_schema4" (
    mfield "key" type_compact_str
    ∷ mfield coordinator_key_name find_coordinator_broker_schema9
    ∷ mfield "error_code" type_int16
    ∷ mfield "error_message" type_compact_nullable_str
    ∷ schema_tagged_fields "coordinators_tagged_fields"
    ∷ [])

unfoldable pub find_coordinator_response_v4 : Schema
unfolding find_coordinator_coordinators_schema4
find_coordinator_response_v4 = new_schema "find_coordinator_response_v4" (
    mfield "throttle_time_ms" type_int32
    ∷ compact_array coordinators_key_name find_coordinator_coordinators_schema4
    ∷ schema_tagged_fields "response_tagged_fields"
    ∷ [])

unfoldable pub find_coordinator_response_v5 : Schema
unfolding find_coordinator_response_v4
find_coordinator_response_v5 = find_coordinator_response_v4

unfoldable pub find_coordinator_response_v6 : Schema
unfolding find_coordinator_response_v5
find_coordinator_response_v6 = find_coordinator_response_v5

-- The index is the version.
unfoldable pub find_coordinator_response_schema_versions : List Schema
unfolding find_coordinator_response_v0 find_coordinator_response_v1 find_coordinator_response_v2
    find_coordinator_response_v3 find_coordinator_response_v4 find_coordinator_response_v5
    find_coordinator_response_v6
find_coordinator_response_schema_versions =
    find_coordinator_response_v0 ∷ find_coordinator_response_v1 ∷ find_coordinator_response_v2
    ∷ find_coordinator_response_v3 ∷ find_coordinator_response_v4 ∷ find_coordinator_response_v5
    ∷ find_coordinator_response_v6 ∷ []
