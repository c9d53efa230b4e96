-- ===== src/Protocol/Responses/HeaderVersions.antt =====
-- The response header's version and the response's schema agree: request_key_version.go beside
-- responses.go, where the proxy reads the header first and decodes the rest with the schema.
use kafka_gcp_proxy.Base.{
  ℕ, zero, suc, ◌+◌, ◌≡◌, refl, ap, sym, ◌∙◌, arith, ℤ, pos, beq_ℤ, beq_ℤ→eq, Bool, true, false,
  ◌&&◌, &&-true, some, List, [], ◌∷◌, get_elem?, ok, if◌then◌else◌, leb_ℤ_refl, inl, inr,
}
use kafka_gcp_proxy.Protocol.KeyVersion.{key_version, header_version_0_24, response_header_version}
use kafka_gcp_proxy.Protocol.KeyVersion.Flexible.{response_header_version_lem}
use kafka_gcp_proxy.Protocol.Headers.{new_response_header_tagged_fields}
use kafka_gcp_proxy.Protocol.Schema.{Schema, Fields, schema, no_field, field, schema_tagged_fields}
use kafka_gcp_proxy.Protocol.Responses.MetadataParts.{
  metadata_broker_v0, partition_metadata_v0, topic_metadata_v0, metadata_broker_v1,
  metadata_broker_schema9, partition_metadata_v1, partition_metadata_v2, partition_metadata_v7,
  partition_metadata_schema9, topic_metadata_v1, topic_metadata_v2, topic_metadata_v7,
  topic_metadata_v8, topic_metadata_schema9, topic_metadata_schema10, topic_metadata_schema12,
}
use kafka_gcp_proxy.Protocol.Responses.MetadataSchemas.{
  metadata_response_schema_versions, metadata_response_v0, metadata_response_v1,
  metadata_response_v2, metadata_response_v3, metadata_response_v4, metadata_response_v5,
  metadata_response_v6, metadata_response_v7, metadata_response_v8, metadata_response_v9,
  metadata_response_v10, metadata_response_v11, metadata_response_v12, metadata_response_v13,
}
use kafka_gcp_proxy.Protocol.Responses.CoordinatorSchemas.{
  find_coordinator_response_schema_versions, find_coordinator_broker_v0,
  find_coordinator_broker_schema9, find_coordinator_response_v0, find_coordinator_response_v1,
  find_coordinator_response_v2, find_coordinator_response_v3, find_coordinator_coordinators_schema4,
  find_coordinator_response_v4, find_coordinator_response_v5, find_coordinator_response_v6,
}

-- Tagged fields end the response.
unfoldable pub ends_tagged : Fields → Bool
ends_tagged no_field = false
ends_tagged (field (schema_tagged_fields n) no_field) = true
ends_tagged (field f fs) = ends_tagged fs

unfoldable pub flexible : Schema → Bool
unfolding ends_tagged
flexible (schema n fs) = ends_tagged fs
flexible _ = false

abbrev pub flexible_header : Schema → ℤ
flexible_header t = if flexible t then pos 1 else pos 0

-- The schemas from version v on agree with the header's version.
abbrev agree : ℕ → ℕ → List Schema → Bool
agree k v [] = true
agree k v (t ∷ ts) = beq_ℤ (header_version_0_24 k (pos v)) (flexible_header t) && agree k (suc v) ts

agree_at :
    (k v : ℕ) (ts : List Schema) (i : ℕ) (t : Schema)
    → agree k v ts ≡ true
    → get_elem? ts i ≡ some t
    → header_version_0_24 k (pos (i + v)) ≡ flexible_header t
agree_at k v [] i t h e = cc
agree_at k v (s ∷ ts) zero t h e =
    let now =
      &&-true (beq_ℤ (header_version_0_24 k (pos v)) (flexible_header s)) (agree k (suc v) ts) h in
    let start : 0 + v ≡ v = omega arith in
    ap (λ n. header_version_0_24 k (pos n)) start
    ∙ beq_ℤ→eq _ _ now.0
    ∙ ap flexible_header (some-injective e)
  where
    some-injective : {a b : Schema} → some a ≡ some b → a ≡ b
    some-injective q = cc
agree_at k v (s ∷ ts) (suc i) t h e =
    let later =
      &&-true (beq_ℤ (header_version_0_24 k (pos v)) (flexible_header s)) (agree k (suc v) ts) h in
    let same : i + suc v ≡ suc i + v = omega arith in
    ap (λ n. header_version_0_24 k (pos n)) (sym same) ∙ agree_at k (suc v) ts i t later.1 e

metadata_agree : agree 3 0 metadata_response_schema_versions ≡ true
unfolding header_version_0_24 flexible ends_tagged metadata_response_schema_versions
    metadata_broker_v0 partition_metadata_v0 topic_metadata_v0 metadata_response_v0
    metadata_broker_v1 metadata_broker_schema9 partition_metadata_v1 partition_metadata_v2
    partition_metadata_v7 partition_metadata_schema9 topic_metadata_v1 topic_metadata_v2
    topic_metadata_v7 topic_metadata_v8 topic_metadata_schema9 topic_metadata_schema10
    topic_metadata_schema12 metadata_response_v1 metadata_response_v2 metadata_response_v3
    metadata_response_v4 metadata_response_v5 metadata_response_v6 metadata_response_v7
    metadata_response_v8 metadata_response_v9 metadata_response_v10 metadata_response_v11
    metadata_response_v12 metadata_response_v13
metadata_agree = refl

coordinator_agree : agree 10 0 find_coordinator_response_schema_versions ≡ true
unfolding header_version_0_24 flexible ends_tagged find_coordinator_response_schema_versions
    find_coordinator_broker_v0 find_coordinator_broker_schema9 find_coordinator_response_v0
    find_coordinator_response_v1 find_coordinator_response_v2 find_coordinator_response_v3
    find_coordinator_coordinators_schema4 find_coordinator_response_v4 find_coordinator_response_v5
    find_coordinator_response_v6
coordinator_agree = refl

-- A metadata response of a supported version has a response header with tagged fields exactly if its
-- schema ends with tagged fields.
pub metadata-response_header_version :
    (n : ℤ) (i : ℕ) (t : Schema)
    → get_elem? metadata_response_schema_versions i ≡ some t
    → response_header_version (key_version n (pos 3) (pos i)) ≡ flexible_header t
unfolding response_header_version
metadata-response_header_version n i t e =
    let same : i ≡ i + 0 = omega arith in
    ap (λ j. header_version_0_24 3 (pos j)) same
    ∙ agree_at 3 0 metadata_response_schema_versions i t metadata_agree e

-- A find coordinator response of a supported version has a response header with tagged fields exactly
-- if its schema ends with tagged fields.
pub find_coordinator-response_header_version :
    (n : ℤ) (i : ℕ) (t : Schema)
    → get_elem? find_coordinator_response_schema_versions i ≡ some t
    → response_header_version (key_version n (pos 10) (pos i)) ≡ flexible_header t
unfolding response_header_version
find_coordinator-response_header_version n i t e =
    let same : i ≡ i + 0 = omega arith in
    ap (λ j. header_version_0_24 10 (pos j)) same
    ∙ agree_at 10 0 find_coordinator_response_schema_versions i t coordinator_agree e

-- NewResponseHeaderTaggedFields never refuses a request: it takes the version of
-- ResponseHeaderVersion, which is never negative.
pub new_response_header_tagged_fields_lem :
    (n k v : ℤ)
    → new_response_header_tagged_fields (key_version n k v)
      ≡ ok (record { version = response_header_version (key_version n k v) })
unfolding new_response_header_tagged_fields
new_response_header_tagged_fields_lem n k v =
    elim (response_header_version_lem n n k v v (leb_ℤ_refl v)).first [
      | inl e ↦ rw e refl
      | inr e ↦ rw e refl
    ]
