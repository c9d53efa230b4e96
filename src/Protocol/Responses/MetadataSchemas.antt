-- ===== src/Protocol/Responses/MetadataSchemas.antt =====
-- proxy/protocol/responses.go: createMetadataResponseSchemaVersions.
use kafka_gcp_proxy.Base.{List, [], ◌∷◌}
use kafka_gcp_proxy.Protocol.Schema.{
  Schema, type_int16, type_int32, type_nullable_str, type_compact_nullable_str, mfield, array,
  compact_array, schema_tagged_fields,
}
use kafka_gcp_proxy.Protocol.Responses.Names.{new_schema, brokers_key_name}
use kafka_gcp_proxy.Protocol.Responses.MetadataParts.{
  metadata_broker_v0, topic_metadata_v0, metadata_broker_v1, metadata_broker_schema9,
  topic_metadata_v1, topic_metadata_v2, topic_metadata_v7, topic_metadata_v8,
  topic_metadata_schema9, topic_metadata_schema10, topic_metadata_schema12,
}

unfoldable pub metadata_response_v0 : Schema
unfolding metadata_broker_v0 topic_metadata_v0
metadata_response_v0 =
    new_schema "metadata_response_v0"
      (array brokers_key_name metadata_broker_v0 ∷ array "topic_metadata" topic_metadata_v0 ∷ [])

unfoldable pub metadata_response_v1 : Schema
unfolding metadata_broker_v1 topic_metadata_v1
metadata_response_v1 = new_schema "metadata_response_v1" (
    array brokers_key_name metadata_broker_v1
    ∷ mfield "controller_id" type_int32
    ∷ array "topic_metadata" topic_metadata_v1
    ∷ [])

unfoldable pub metadata_response_v2 : Schema
unfolding metadata_broker_v1 topic_metadata_v1
metadata_response_v2 = new_schema "metadata_response_v2" (
    array brokers_key_name metadata_broker_v1
    ∷ mfield "cluster_id" type_nullable_str
    ∷ mfield "controller_id" type_int32
    ∷ array "topic_metadata" topic_metadata_v1
    ∷ [])

unfoldable pub metadata_response_v3 : Schema
unfolding metadata_broker_v1 topic_metadata_v1
metadata_response_v3 = new_schema "metadata_response_v3" (
    mfield "throttle_time_ms" type_int32
    ∷ array brokers_key_name metadata_broker_v1
    ∷ mfield "cluster_id" type_nullable_str
    ∷ mfield "controller_id" type_int32
    ∷ array "topic_metadata" topic_metadata_v1
    ∷ [])

unfoldable pub metadata_response_v4 : Schema
unfolding metadata_response_v3
metadata_response_v4 = metadata_response_v3

unfoldable pub metadata_response_v5 : Schema
unfolding metadata_broker_v1 topic_metadata_v2
metadata_response_v5 = new_schema "metadata_response_v5" (
    mfield "throttle_time_ms" type_int32
    ∷ array brokers_key_name metadata_broker_v1
    ∷ mfield "cluster_id" type_nullable_str
    ∷ mfield "controller_id" type_int32
    ∷ array "topic_metadata" topic_metadata_v2
    ∷ [])

unfoldable pub metadata_response_v6 : Schema
unfolding metadata_response_v5
metadata_response_v6 = metadata_response_v5

unfoldable pub metadata_response_v7 : Schema
unfolding metadata_broker_v1 topic_metadata_v7
metadata_response_v7 = new_schema "metadata_response_v7" (
    mfield "throttle_time_ms" type_int32
    ∷ array brokers_key_name metadata_broker_v1
    ∷ mfield "cluster_id" type_nullable_str
    ∷ mfield "controller_id" type_int32
    ∷ array "topic_metadata" topic_metadata_v7
    ∷ [])

unfoldable pub metadata_response_v8 : Schema
unfolding metadata_broker_v1 topic_metadata_v8
metadata_response_v8 = new_schema "metadata_response_v8" (
    mfield "throttle_time_ms" type_int32
    ∷ array brokers_key_name metadata_broker_v1
    ∷ mfield "cluster_id" type_nullable_str
    ∷ mfield "controller_id" type_int32
    ∷ array "topic_metadata" topic_metadata_v8
    ∷ mfield "cluster_authorized_operations" type_int32
    ∷ [])

unfoldable pub metadata_response_v9 : Schema
unfolding metadata_broker_schema9 topic_metadata_schema9
metadata_response_v9 = new_schema "metadata_response_v9" (
    mfield "throttle_time_ms" type_int32
    ∷ compact_array brokers_key_name metadata_broker_schema9
    ∷ mfield "cluster_id" type_compact_nullable_str
    ∷ mfield "controller_id" type_int32
    ∷ compact_array "topic_metadata" topic_metadata_schema9
    ∷ mfield "cluster_authorized_operations" type_int32
    ∷ schema_tagged_fields "response_tagged_fields"
    ∷ [])

unfoldable pub metadata_response_v10 : Schema
unfolding metadata_broker_schema9 topic_metadata_schema10
metadata_response_v10 = new_schema "metadata_response_v10" (
    mfield "throttle_time_ms" type_int32
    ∷ compact_array brokers_key_name metadata_broker_schema9
    ∷ mfield "cluster_id" type_compact_nullable_str
    ∷ mfield "controller_id" type_int32
    ∷ compact_array "topic_metadata" topic_metadata_schema10
    ∷ mfield "cluster_authorized_operations" type_int32
    ∷ schema_tagged_fields "response_tagged_fields"
    ∷ [])

unfoldable pub metadata_response_v11 : Schema
unfolding metadata_broker_schema9 topic_metadata_schema10
metadata_response_v11 = new_schema "metadata_response_v11" (
    mfield "throttle_time_ms" type_int32
    ∷ compact_array brokers_key_name metadata_broker_schema9
    ∷ mfield "cluster_id" type_compact_nullable_str
    ∷ mfield "controller_id" type_int32
    ∷ compact_array "topic_metadata" topic_metadata_schema10
    ∷ schema_tagged_fields "response_tagged_fields"
    ∷ [])

unfoldable pub metadata_response_v12 : Schema
unfolding metadata_broker_schema9 topic_metadata_schema12
metadata_response_v12 = new_schema "metadata_response_v12" (
    mfield "throttle_time_ms" type_int32
    ∷ compact_array brokers_key_name metadata_broker_schema9
    ∷ mfield "cluster_id" type_compact_nullable_str
    ∷ mfield "controller_id" type_int32
    ∷ compact_array "topic_metadata" topic_metadata_schema12
    ∷ schema_tagged_fields "response_tagged_fields"
    ∷ [])

unfoldable pub metadata_response_v13 : Schema
unfolding metadata_broker_schema9 topic_metadata_schema12
metadata_response_v13 = new_schema "metadata_response_v13" (
    mfield "throttle_time_ms" type_int32
    ∷ compact_array brokers_key_name metadata_broker_schema9
    ∷ mfield "cluster_id" type_compact_nullable_str
    ∷ mfield "controller_id" type_int32
    ∷ compact_array "topic_metadata" topic_metadata_schema12
    ∷ mfield "error_code" type_int16
    ∷ schema_tagged_fields "response_tagged_fields"
    ∷ [])

-- The index is the version.
unfoldable pub metadata_response_schema_versions : List Schema
unfolding metadata_response_v0 metadata_response_v1 metadata_response_v2 metadata_response_v3
    metadata_response_v4 metadata_response_v5 metadata_response_v6 metadata_response_v7
    metadata_response_v8 metadata_response_v9 metadata_response_v10 metadata_response_v11
    metadata_response_v12 metadata_response_v13
metadata_response_schema_versions =
    metadata_response_v0 ∷ metadata_response_v1 ∷ metadata_response_v2 ∷ metadata_response_v3
    ∷ metadata_response_v4 ∷ metadata_response_v5 ∷ metadata_response_v6 ∷ metadata_response_v7
    ∷ metadata_response_v8 ∷ metadata_response_v9 ∷ metadata_response_v10 ∷ metadata_response_v11
    ∷ metadata_response_v12 ∷ metadata_response_v13 ∷ []
