-- ===== src/Protocol/Responses/Versions.antt =====
-- proxy/protocol/responses.go: the tables of schemas by version.
use kafka_gcp_proxy.Base.{
  ℕ, zero, suc, ◌≡◌, refl, Bool, true, ◌&&◌, &&-true, some, List, [], ◌∷◌, get_elem?,
}
use kafka_gcp_proxy.Protocol.Schema.{
  Schema, Field, Fields, schema, mfield, array, compact_array, compact_nullable_array,
  schema_tagged_fields, no_field, field, no_duplicates, has_field,
}
use kafka_gcp_proxy.Protocol.Schema.FieldTypes.{field_of}
use kafka_gcp_proxy.Protocol.Responses.Total.{
  addressed, metadata_addressed, coordinator_addressed, find_coordinator_addressed,
}
use kafka_gcp_proxy.Protocol.Schema.Typing.{solid, well_formed}
use kafka_gcp_proxy.Protocol.Responses.MetadataParts.{
  metadata_broker_v0, partition_metadata_v0, topic_metadata_v0, metadata_broker_v1,
  metadata_broker_schema9, partition_metadata_v1, partition_metadata_v2, partition_metadata_v7,
  partition_metadata_schema9, topic_metadata_v1, topic_metadata_v2, topic_metadata_v7,
  topic_metadata_v8, topic_metadata_schema9, topic_metadata_schema10, topic_metadata_schema12,
}
use kafka_gcp_proxy.Protocol.Responses.MetadataSchemas.{
  metadata_response_schema_versions, metadata_response_v0, metadata_response_v1,
  metadata_response_v2, metadata_response_v3, metadata_response_v4, metadata_response_v5,
  metadata_response_v6, metadata_response_v7, metadata_response_v8, metadata_response_v9,
  metadata_response_v10, metadata_response_v11, metadata_response_v12, metadata_response_v13,
}
use kafka_gcp_proxy.Protocol.Responses.CoordinatorSchemas.{
  find_coordinator_response_schema_versions, find_coordinator_broker_v0,
  find_coordinator_broker_schema9, find_coordinator_response_v0, find_coordinator_response_v1,
  find_coordinator_response_v2, find_coordinator_response_v3, find_coordinator_coordinators_schema4,
  find_coordinator_response_v4, find_coordinator_response_v5, find_coordinator_response_v6,
}

-- NewSchema panics at no schema within this one.
unfoldable mutual
  pub distinct : Schema → Bool
  distinct (schema n fs) = no_duplicates fs && distinct_fields fs
  distinct _ = true

  pub distinct_field : Field → Bool
  distinct_field (mfield n t) = distinct t
  distinct_field (array n t) = distinct t
  distinct_field (compact_array n t) = distinct t
  distinct_field (compact_nullable_array n t) = distinct t
  distinct_field (schema_tagged_fields n) = true

  pub distinct_fields : Fields → Bool
  distinct_fields no_field = true
  distinct_fields (field f fs) = distinct_field f && distinct_fields fs

unfoldable pub all_schemas : (Schema → Bool) → List Schema → Bool
all_schemas test [] = true
all_schemas test (t ∷ ts) = test t && all_schemas test ts

pub all_schemas-get_elem? :
    (test : Schema → Bool) (ts : List Schema) (i : ℕ) (t : Schema)
    → all_schemas test ts ≡ true
    → get_elem? ts i ≡ some t
    → test t ≡ true
unfolding all_schemas
all_schemas-get_elem? test [] i t h e = cc
all_schemas-get_elem? test (s ∷ ts) zero t h e =
    let (now, later) = &&-true (test s) (all_schemas test ts) h in cc
all_schemas-get_elem? test (s ∷ ts) (suc i) t h e =
    let (now, later) = &&-true (test s) (all_schemas test ts) h in
    all_schemas-get_elem? test ts i t later e

-- Every schema of the tables passes NewSchema, and its arrays' elements take a byte at least.
pub metadata_response_schema_versions-well_formed :
    all_schemas well_formed metadata_response_schema_versions ≡ true
unfolding all_schemas well_formed solid metadata_response_schema_versions metadata_broker_v0
    partition_metadata_v0 topic_metadata_v0 metadata_response_v0 metadata_broker_v1
    metadata_broker_schema9 partition_metadata_v1 partition_metadata_v2 partition_metadata_v7
    partition_metadata_schema9 topic_metadata_v1 topic_metadata_v2 topic_metadata_v7
    topic_metadata_v8 topic_metadata_schema9 topic_metadata_schema10 topic_metadata_schema12
    metadata_response_v1 metadata_response_v2 metadata_response_v3 metadata_response_v4
    metadata_response_v5 metadata_response_v6 metadata_response_v7 metadata_response_v8
    metadata_response_v9 metadata_response_v10 metadata_response_v11 metadata_response_v12
    metadata_response_v13
metadata_response_schema_versions-well_formed = refl

pub find_coordinator_response_schema_versions-well_formed :
    all_schemas well_formed find_coordinator_response_schema_versions ≡ true
unfolding all_schemas well_formed solid find_coordinator_response_schema_versions
    find_coordinator_broker_v0 find_coordinator_broker_schema9 find_coordinator_response_v0
    find_coordinator_response_v1 find_coordinator_response_v2 find_coordinator_response_v3
    find_coordinator_coordinators_schema4 find_coordinator_response_v4 find_coordinator_response_v5
    find_coordinator_response_v6
find_coordinator_response_schema_versions-well_formed = refl

metadata_schemas-distinct : all_schemas distinct metadata_response_schema_versions ≡ true
unfolding all_schemas distinct no_duplicates has_field metadata_response_schema_versions
    metadata_broker_v0 partition_metadata_v0 topic_metadata_v0 metadata_response_v0
    metadata_broker_v1 metadata_broker_schema9 partition_metadata_v1 partition_metadata_v2
    partition_metadata_v7 partition_metadata_schema9 topic_metadata_v1 topic_metadata_v2
    topic_metadata_v7 topic_metadata_v8 topic_metadata_schema9 topic_metadata_schema10
    topic_metadata_schema12 metadata_response_v1 metadata_response_v2 metadata_response_v3
    metadata_response_v4 metadata_response_v5 metadata_response_v6 metadata_response_v7
    metadata_response_v8 metadata_response_v9 metadata_response_v10 metadata_response_v11
    metadata_response_v12 metadata_response_v13
metadata_schemas-distinct = refl

coordinator_schemas-distinct : all_schemas distinct find_coordinator_response_schema_versions ≡ true
unfolding all_schemas distinct no_duplicates has_field find_coordinator_response_schema_versions
    find_coordinator_broker_v0 find_coordinator_broker_schema9 find_coordinator_response_v0
    find_coordinator_response_v1 find_coordinator_response_v2 find_coordinator_response_v3
    find_coordinator_coordinators_schema4 find_coordinator_response_v4 find_coordinator_response_v5
    find_coordinator_response_v6
coordinator_schemas-distinct = refl

pub metadata_response_schema_versions-addressed :
    all_schemas metadata_addressed metadata_response_schema_versions ≡ true
unfolding all_schemas metadata_addressed addressed field_of metadata_response_schema_versions
    metadata_broker_v0 partition_metadata_v0 topic_metadata_v0 metadata_response_v0
    metadata_broker_v1 metadata_broker_schema9 partition_metadata_v1 partition_metadata_v2
    partition_metadata_v7 partition_metadata_schema9 topic_metadata_v1 topic_metadata_v2
    topic_metadata_v7 topic_metadata_v8 topic_metadata_schema9 topic_metadata_schema10
    topic_metadata_schema12 metadata_response_v1 metadata_response_v2 metadata_response_v3
    metadata_response_v4 metadata_response_v5 metadata_response_v6 metadata_response_v7
    metadata_response_v8 metadata_response_v9 metadata_response_v10 metadata_response_v11
    metadata_response_v12 metadata_response_v13
metadata_response_schema_versions-addressed = refl

pub find_coordinator_response_schema_versions-addressed :
    all_schemas find_coordinator_addressed find_coordinator_response_schema_versions ≡ true
unfolding all_schemas find_coordinator_addressed coordinator_addressed addressed field_of
    find_coordinator_response_schema_versions find_coordinator_broker_v0
    find_coordinator_broker_schema9 find_coordinator_response_v0 find_coordinator_response_v1
    find_coordinator_response_v2 find_coordinator_response_v3 find_coordinator_coordinators_schema4
    find_coordinator_response_v4 find_coordinator_response_v5 find_coordinator_response_v6
find_coordinator_response_schema_versions-addressed = refl
