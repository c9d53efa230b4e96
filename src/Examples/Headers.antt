-- ===== src/Examples/Headers.antt =====
-- proxy/protocol: the response headers and their versions.
use kafka_gcp_proxy.Base.{
  ℕ, ◌≡◌, ◌≢◌, ◌⊎◌, refl, arith, pos, negsuc, none, some, List, [], ◌∷◌, ok, get_elem?,
}
use kafka_gcp_proxy.Protocol.PrepEncoder.{prep_encoder}
use kafka_gcp_proxy.Protocol.RealEncoder.{real_encoder}
use kafka_gcp_proxy.Protocol.Encoding.{encode, decode}
use kafka_gcp_proxy.Protocol.Schema.{RawTaggedField}
use kafka_gcp_proxy.Protocol.KeyVersion.{key_version, response_header_version}
use kafka_gcp_proxy.Protocol.KeyVersion.Flexible.{Grows, response_header_version_lem}
use kafka_gcp_proxy.Protocol.Headers.{
  response_header, decode_response_header, response_header_v1, decode_response_header_v1,
  new_response_header_tagged_fields,
}
use kafka_gcp_proxy.Protocol.Headers.Encode.{encode_response_header, encode_response_header_v1}
use kafka_gcp_proxy.Protocol.Headers.RoundTrip.{
  decode_response_header-encode, decode_response_header_v1-encode,
}
use kafka_gcp_proxy.Protocol.Responses.MetadataSchemas.{
  metadata_response_v9, metadata_response_schema_versions,
}
use kafka_gcp_proxy.Protocol.Responses.CoordinatorSchemas.{
  find_coordinator_response_v2, find_coordinator_response_schema_versions,
}
use kafka_gcp_proxy.Protocol.Responses.HeaderVersions.{
  flexible_header, metadata-response_header_version, find_coordinator-response_header_version,
  new_response_header_tagged_fields_lem,
}
use kafka_gcp_proxy.Protocol.Responses.Modify.{get_response_modifier}
use kafka_gcp_proxy.Protocol.Responses.Supported.{ByVersion, get_response_modifier_lem}

-- Length 51, correlation 1.
abbrev header_bytes : List ℕ
header_bytes = 0 ∷ 0 ∷ 0 ∷ 51 ∷ 0 ∷ 0 ∷ 0 ∷ 1 ∷ []

header_written :
    encode
      (encode_response_header ⦃pe = prep_encoder⦄ (response_header (pos 51) (pos 1)))
      (encode_response_header ⦃pe = real_encoder⦄ (response_header (pos 51) (pos 1)))
    ≡ ok header_bytes
unfolding kafka_gcp_proxy.Protocol.Headers.Encode.encode_response_header
    kafka_gcp_proxy.Protocol.Headers.Encode.encode_response_header_v1
    kafka_gcp_proxy.Protocol.Encoding.encode
    kafka_gcp_proxy.Protocol.Schema.Encode.encode_array_elements
    kafka_gcp_proxy.Protocol.Schema.Encode.encode_schema
    kafka_gcp_proxy.Protocol.Schema.Encode.encode_struct
    kafka_gcp_proxy.Protocol.Encoding.two_passes
    kafka_gcp_proxy.Protocol.PrepEncoder.put_array_length
    kafka_gcp_proxy.Protocol.PrepEncoder.put_bytes
    kafka_gcp_proxy.Protocol.PrepEncoder.put_compact_array_length
    kafka_gcp_proxy.Protocol.PrepEncoder.put_compact_bytes
    kafka_gcp_proxy.Protocol.PrepEncoder.put_compact_nullable_array_length
    kafka_gcp_proxy.Protocol.PrepEncoder.put_compact_nullable_string
    kafka_gcp_proxy.Protocol.PrepEncoder.put_compact_string
    kafka_gcp_proxy.Protocol.PrepEncoder.put_int_array
    kafka_gcp_proxy.Protocol.PrepEncoder.put_nullable_string
    kafka_gcp_proxy.Protocol.PrepEncoder.put_raw_bytes
    kafka_gcp_proxy.Protocol.PrepEncoder.put_string
    kafka_gcp_proxy.Protocol.PrepEncoder.put_string_array
    kafka_gcp_proxy.Protocol.PrepEncoder.put_strings kafka_gcp_proxy.Protocol.PrepEncoder.put_varint
    kafka_gcp_proxy.Protocol.PrepEncoder.put_varint_bytes kafka_gcp_proxy.Protocol.RealEncoder.copy
    kafka_gcp_proxy.Protocol.RealEncoder.write kafka_gcp_proxy.Protocol.RealEncoder.put_array_length
    kafka_gcp_proxy.Protocol.RealEncoder.put_bool kafka_gcp_proxy.Protocol.RealEncoder.put_bytes
    kafka_gcp_proxy.Protocol.RealEncoder.put_compact_array_length
    kafka_gcp_proxy.Protocol.RealEncoder.put_compact_bytes
    kafka_gcp_proxy.Protocol.RealEncoder.put_compact_nullable_string
    kafka_gcp_proxy.Protocol.RealEncoder.put_compact_string
    kafka_gcp_proxy.Protocol.RealEncoder.put_each kafka_gcp_proxy.Protocol.RealEncoder.put_int16
    kafka_gcp_proxy.Protocol.RealEncoder.put_int32 kafka_gcp_proxy.Protocol.RealEncoder.put_int64
    kafka_gcp_proxy.Protocol.RealEncoder.put_int8 kafka_gcp_proxy.Protocol.RealEncoder.put_int_array
    kafka_gcp_proxy.Protocol.RealEncoder.put_nullable_string
    kafka_gcp_proxy.Protocol.RealEncoder.put_string
    kafka_gcp_proxy.Protocol.RealEncoder.put_string_array
    kafka_gcp_proxy.Protocol.RealEncoder.put_varint
    kafka_gcp_proxy.Protocol.RealEncoder.put_varint_bytes kafka_gcp_proxy.Protocol.Varint.uvarint
    kafka_gcp_proxy.Protocol.Varint.uvarint_loop kafka_gcp_proxy.Protocol.Varint.put_uvarint
    kafka_gcp_proxy.Protocol.Varint.put_uvarint_loop
header_written = refl

decode_response_header-encode_example :
    decode header_bytes decode_response_header ≡ ok (response_header (pos 51) (pos 1))
decode_response_header-encode_example =
    decode_response_header-encode (pos 51) (pos 1) (omega arith, refl) (omega arith) header_bytes
      header_written

-- One tagged field, 5 with the content "ab".
abbrev one_field : List RawTaggedField
one_field = record { tag = pos 5; content = some (97 ∷ 98 ∷ []) } ∷ []

abbrev header_v1_bytes : List ℕ
header_v1_bytes = 0 ∷ 0 ∷ 0 ∷ 57 ∷ 0 ∷ 0 ∷ 0 ∷ 2 ∷ 1 ∷ 5 ∷ 2 ∷ 97 ∷ 98 ∷ []

header_v1_written :
    encode
      (encode_response_header_v1 ⦃pe = prep_encoder⦄
        (response_header_v1 (pos 57) (pos 2) one_field))
      (encode_response_header_v1 ⦃pe = real_encoder⦄
        (response_header_v1 (pos 57) (pos 2) one_field))
    ≡ ok header_v1_bytes
unfolding kafka_gcp_proxy.Protocol.Headers.Encode.encode_response_header
    kafka_gcp_proxy.Protocol.Headers.Encode.encode_response_header_v1
    kafka_gcp_proxy.Protocol.Encoding.encode
    kafka_gcp_proxy.Protocol.Schema.Encode.encode_array_elements
    kafka_gcp_proxy.Protocol.Schema.Encode.encode_schema
    kafka_gcp_proxy.Protocol.Schema.Encode.encode_struct
    kafka_gcp_proxy.Protocol.Encoding.two_passes
    kafka_gcp_proxy.Protocol.PrepEncoder.put_array_length
    kafka_gcp_proxy.Protocol.PrepEncoder.put_bytes
    kafka_gcp_proxy.Protocol.PrepEncoder.put_compact_array_length
    kafka_gcp_proxy.Protocol.PrepEncoder.put_compact_bytes
    kafka_gcp_proxy.Protocol.PrepEncoder.put_compact_nullable_array_length
    kafka_gcp_proxy.Protocol.PrepEncoder.put_compact_nullable_string
    kafka_gcp_proxy.Protocol.PrepEncoder.put_compact_string
    kafka_gcp_proxy.Protocol.PrepEncoder.put_int_array
    kafka_gcp_proxy.Protocol.PrepEncoder.put_nullable_string
    kafka_gcp_proxy.Protocol.PrepEncoder.put_raw_bytes
    kafka_gcp_proxy.Protocol.PrepEncoder.put_string
    kafka_gcp_proxy.Protocol.PrepEncoder.put_string_array
    kafka_gcp_proxy.Protocol.PrepEncoder.put_strings kafka_gcp_proxy.Protocol.PrepEncoder.put_varint
    kafka_gcp_proxy.Protocol.PrepEncoder.put_varint_bytes kafka_gcp_proxy.Protocol.RealEncoder.copy
    kafka_gcp_proxy.Protocol.RealEncoder.write kafka_gcp_proxy.Protocol.RealEncoder.put_array_length
    kafka_gcp_proxy.Protocol.RealEncoder.put_bool kafka_gcp_proxy.Protocol.RealEncoder.put_bytes
    kafka_gcp_proxy.Protocol.RealEncoder.put_compact_array_length
    kafka_gcp_proxy.Protocol.RealEncoder.put_compact_bytes
    kafka_gcp_proxy.Protocol.RealEncoder.put_compact_nullable_string
    kafka_gcp_proxy.Protocol.RealEncoder.put_compact_string
    kafka_gcp_proxy.Protocol.RealEncoder.put_each kafka_gcp_proxy.Protocol.RealEncoder.put_int16
    kafka_gcp_proxy.Protocol.RealEncoder.put_int32 kafka_gcp_proxy.Protocol.RealEncoder.put_int64
    kafka_gcp_proxy.Protocol.RealEncoder.put_int8 kafka_gcp_proxy.Protocol.RealEncoder.put_int_array
    kafka_gcp_proxy.Protocol.RealEncoder.put_nullable_string
    kafka_gcp_proxy.Protocol.RealEncoder.put_string
    kafka_gcp_proxy.Protocol.RealEncoder.put_string_array
    kafka_gcp_proxy.Protocol.RealEncoder.put_varint
    kafka_gcp_proxy.Protocol.RealEncoder.put_varint_bytes kafka_gcp_proxy.Protocol.Varint.uvarint
    kafka_gcp_proxy.Protocol.Varint.uvarint_loop kafka_gcp_proxy.Protocol.Varint.put_uvarint
    kafka_gcp_proxy.Protocol.Varint.put_uvarint_loop
header_v1_written = refl

decode_response_header_v1-encode_example :
    decode header_v1_bytes decode_response_header_v1
    ≡ ok (response_header_v1 (pos 57) (pos 2) one_field)
decode_response_header_v1-encode_example =
    decode_response_header_v1-encode (pos 57) (pos 2) (omega arith, refl) (omega arith) one_field
      (omega arith) ((omega arith, omega arith), tt) header_v1_bytes header_v1_written

response_header_version_example :
    Grows
      (response_header_version (key_version (pos 20) (pos 3) (pos 8)))
      (response_header_version (key_version (pos 30) (pos 3) (pos 9)))
response_header_version_example =
    response_header_version_lem (pos 20) (pos 30) (pos 3) (pos 8) (pos 9) refl

metadata_version_9 : get_elem? metadata_response_schema_versions 9 ≡ some metadata_response_v9
unfolding metadata_response_schema_versions
metadata_version_9 = refl

find_coordinator_version_2 :
    get_elem? find_coordinator_response_schema_versions 2 ≡ some find_coordinator_response_v2
unfolding find_coordinator_response_schema_versions
find_coordinator_version_2 = refl

metadata-response_header_version_example :
    response_header_version (key_version (pos 20) (pos 3) (pos 9))
    ≡ flexible_header metadata_response_v9
metadata-response_header_version_example =
    metadata-response_header_version (pos 20) 9 metadata_response_v9 metadata_version_9

find_coordinator-response_header_version_example :
    response_header_version (key_version (pos 20) (pos 10) (pos 2))
    ≡ flexible_header find_coordinator_response_v2
find_coordinator-response_header_version_example =
    find_coordinator-response_header_version (pos 20) 2 find_coordinator_response_v2
      find_coordinator_version_2

new_response_header_tagged_fields_example :
    new_response_header_tagged_fields (key_version (pos 20) (negsuc 4) (pos 1))
    ≡ ok (record { version = response_header_version (key_version (pos 20) (negsuc 4) (pos 1)) })
new_response_header_tagged_fields_example =
    new_response_header_tagged_fields_lem (pos 20) (negsuc 4) (pos 1)

get_response_modifier_example :
    ((pos 3 ≡ pos 3) × ByVersion (pos 14) 13 none (get_response_modifier (pos 3) (pos 14) none))
    ⊎ (((pos 3 ≡ pos 10) × ByVersion (pos 14) 6 none (get_response_modifier (pos 3) (pos 14) none))
        ⊎ ((pos 3 ≢ pos 3)
            × (pos 3 ≢ pos 10)
            × (get_response_modifier (pos 3) (pos 14) none ≡ ok none)))
get_response_modifier_example = get_response_modifier_lem (pos 3) (pos 14) none
