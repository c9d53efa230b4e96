-- ===== src/Protocol/Responses/MetadataParts.antt =====
-- proxy/protocol/responses.go: the brokers, partitions and topics of the metadata responses
-- (createMetadataResponseSchemaVersions).
use kafka_gcp_proxy.Base.{[], ◌∷◌}
use kafka_gcp_proxy.Protocol.Schema.{
  Schema, type_bool, type_int16, type_int32, type_str, type_nullable_str, type_compact_str,
  type_compact_nullable_str, type_uuid, mfield, array, compact_array, schema_tagged_fields,
}
use kafka_gcp_proxy.Protocol.Responses.Names.{
  new_schema, host_key_name, port_key_name, node_key_name,
}

unfoldable pub metadata_broker_v0 : Schema
metadata_broker_v0 = new_schema "metadata_broker_v0" (
    mfield node_key_name type_int32
    ∷ mfield host_key_name type_str
    ∷ mfield port_key_name type_int32
    ∷ [])

unfoldable pub partition_metadata_v0 : Schema
partition_metadata_v0 = new_schema "partition_metadata_v0" (
    mfield "error_code" type_int16
    ∷ mfield "partition" type_int32
    ∷ mfield "leader" type_int32
    ∷ array "replicas" type_int32
    ∷ array "isr" type_int32
    ∷ [])

unfoldable pub topic_metadata_v0 : Schema
unfolding partition_metadata_v0
topic_metadata_v0 = new_schema "topic_metadata_v0" (
    mfield "error_code" type_int16
    ∷ mfield "topic" type_str
    ∷ array "partition_metadata" partition_metadata_v0
    ∷ [])

unfoldable pub metadata_broker_v1 : Schema
metadata_broker_v1 = new_schema "metadata_broker_v1" (
    mfield node_key_name type_int32
    ∷ mfield host_key_name type_str
    ∷ mfield port_key_name type_int32
    ∷ mfield "rack" type_nullable_str
    ∷ [])

unfoldable pub metadata_broker_schema9 : Schema
metadata_broker_schema9 = new_schema "metadata_broker_schema9" (
    mfield node_key_name type_int32
    ∷ mfield host_key_name type_compact_str
    ∷ mfield port_key_name type_int32
    ∷ mfield "rack" type_compact_nullable_str
    ∷ schema_tagged_fields "broker_tagged_fields"
    ∷ [])

unfoldable pub partition_metadata_v1 : Schema
unfolding partition_metadata_v0
partition_metadata_v1 = partition_metadata_v0

unfoldable pub partition_metadata_v2 : Schema
partition_metadata_v2 = new_schema "partition_metadata_v2" (
    mfield "error_code" type_int16
    ∷ mfield "partition" type_int32
    ∷ mfield "leader" type_int32
    ∷ array "replicas" type_int32
    ∷ array "isr" type_int32
    ∷ array "offline_replicas" type_int32
    ∷ [])

unfoldable pub partition_metadata_v7 : Schema
partition_metadata_v7 = new_schema "partition_metadata_v7" (
    mfield "error_code" type_int16
    ∷ mfield "partition" type_int32
    ∷ mfield "leader" type_int32
    ∷ mfield "leader_epoch" type_int32
    ∷ array "replicas" type_int32
    ∷ array "isr" type_int32
    ∷ array "offline_replicas" type_int32
    ∷ [])

unfoldable pub partition_metadata_schema9 : Schema
partition_metadata_schema9 = new_schema "partition_metadata_schema9" (
    mfield "error_code" type_int16
    ∷ mfield "partition" type_int32
    ∷ mfield "leader" type_int32
    ∷ mfield "leader_epoch" type_int32
    ∷ compact_array "replicas" type_int32
    ∷ compact_array "isr" type_int32
    ∷ compact_array "offline_replicas" type_int32
    ∷ schema_tagged_fields "partition_metadata_tagged_fields"
    ∷ [])

unfoldable pub topic_metadata_v1 : Schema
unfolding partition_metadata_v1
topic_metadata_v1 = new_schema "topic_metadata_v1" (
    mfield "error_code" type_int16
    ∷ mfield "topic" type_str
    ∷ mfield "is_internal" type_bool
    ∷ array "partition_metadata" partition_metadata_v1
    ∷ [])

unfoldable pub topic_metadata_v2 : Schema
unfolding partition_metadata_v2
topic_metadata_v2 = new_schema "topic_metadata_v2" (
    mfield "error_code" type_int16
    ∷ mfield "topic" type_str
    ∷ mfield "is_internal" type_bool
    ∷ array "partition_metadata" partition_metadata_v2
    ∷ [])

unfoldable pub topic_metadata_v7 : Schema
unfolding partition_metadata_v7
topic_metadata_v7 = new_schema "topic_metadata_v7" (
    mfield "error_code" type_int16
    ∷ mfield "topic" type_str
    ∷ mfield "is_internal" type_bool
    ∷ array "partition_metadata" partition_metadata_v7
    ∷ [])

unfoldable pub topic_metadata_v8 : Schema
unfolding partition_metadata_v7
topic_metadata_v8 = new_schema "topic_metadata_v8" (
    mfield "error_code" type_int16
    ∷ mfield "name" type_str
    ∷ mfield "is_internal" type_bool
    ∷ array "partition_metadata" partition_metadata_v7
    ∷ mfield "topic_authorized_operations" type_int32
    ∷ [])

unfoldable pub topic_metadata_schema9 : Schema
unfolding partition_metadata_schema9
topic_metadata_schema9 = new_schema "topic_metadata_schema9" (
    mfield "error_code" type_int16
    ∷ mfield "name" type_compact_str
    ∷ mfield "is_internal" type_bool
    ∷ compact_array "partition_metadata" partition_metadata_schema9
    ∷ mfield "topic_authorized_operations" type_int32
    ∷ schema_tagged_fields "topic_metadata_tagged_fields"
    ∷ [])

unfoldable pub topic_metadata_schema10 : Schema
unfolding partition_metadata_schema9
topic_metadata_schema10 = new_schema "topic_metadata_schema10" (
    mfield "error_code" type_int16
    ∷ mfield "name" type_compact_str
    ∷ mfield "topic_id" type_uuid
    ∷ mfield "is_internal" type_bool
    ∷ compact_array "partition_metadata" partition_metadata_schema9
    ∷ mfield "topic_authorized_operations" type_int32
    ∷ schema_tagged_fields "topic_metadata_tagged_fields"
    ∷ [])

unfoldable pub topic_metadata_schema12 : Schema
unfolding partition_metadata_schema9
topic_metadata_schema12 = new_schema "topic_metadata_schema12" (
    mfield "error_code" type_int16
    ∷ mfield "name" type_compact_nullable_str
    ∷ mfield "topic_id" type_uuid
    ∷ mfield "is_internal" type_bool
    ∷ compact_array "partition_metadata" partition_metadata_schema9
    ∷ mfield "topic_authorized_operations" type_int32
    ∷ schema_tagged_fields "topic_metadata_tagged_fields"
    ∷ [])
