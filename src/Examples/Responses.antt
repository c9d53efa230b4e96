-- ===== src/Examples/Responses.antt =====
-- proxy/protocol/responses.go on two small responses.
use kafka_gcp_proxy.Base.{
  ℕ, ◌<◌, ◌≡◌, refl, ap, sym, subst, ◌∙◌, arith, ℤ, pos, half16, half32, InRange, Bool, true, false,
  Option, none, some, List, [], ◌∷◌, Error, Result, ok, err, ok-injective, length,
}
use kafka_gcp_proxy.Protocol.Schema.{
  Schema, Value, Values, string, int16, int32, list, struct, item, no_value,
}
use kafka_gcp_proxy.Protocol.Schema.Decode.{decode_struct}
use kafka_gcp_proxy.Protocol.Responses.MetadataParts.{
  metadata_broker_v0, topic_metadata_v0, partition_metadata_v0,
}
use kafka_gcp_proxy.Protocol.Responses.MetadataSchemas.{
  metadata_response_v0, metadata_response_schema_versions,
}
use kafka_gcp_proxy.Protocol.Responses.CoordinatorSchemas.{
  find_coordinator_broker_v0, find_coordinator_response_v0,
  find_coordinator_response_schema_versions,
}
use kafka_gcp_proxy.Protocol.Responses.Modify.{
  NetAddressMapping, ResponseModifier, apply, get_response_modifier, modify_metadata_response,
  modify_find_coordinator_response,
}
use kafka_gcp_proxy.Protocol.Responses.Address.{MapsWithin}
use kafka_gcp_proxy.Protocol.Responses.Applied.{
  modifier_of, Rewritten, metadata_response-Rewritten, find_coordinator_response-Rewritten,
}
use kafka_gcp_proxy.Protocol.Responses.Supported.{
  EncodesOr, metadata_response-Encodes, find_coordinator_response-Encodes,
}
use kafka_gcp_proxy.Protocol.Responses.Refusals.{MetadataRefused, FindCoordinatorRefused}
use kafka_gcp_proxy.Protocol.Responses.Rewrite.{MetadataMapped, FindCoordinatorMapped}

-- Every broker is behind "p", at port 30000.
abbrev pub to_proxy : NetAddressMapping
to_proxy host port node_id = ok (112 ∷ [], pos 30000)

to_proxy-within : MapsWithin to_proxy
to_proxy-within host h port node_id p e =
    subst (λ (r : List ℕ × ℤ). (length r.0 < half16) × InRange half32 r.1) (ok-injective e)
      (omega arith, omega arith)

-- One broker, 1 at "k:9092", and no topic.
abbrev metadata_bytes : List ℕ
metadata_bytes = 0 ∷ 0 ∷ 0 ∷ 1 ∷ 0 ∷ 0 ∷ 0 ∷ 1 ∷ 0 ∷ 1 ∷ 107 ∷ 0 ∷ 0 ∷ 35 ∷ 132 ∷ 0 ∷ 0 ∷ 0 ∷ 0 ∷ []

abbrev metadata_mapped_bytes : List ℕ
metadata_mapped_bytes =
    0 ∷ 0 ∷ 0 ∷ 1 ∷ 0 ∷ 0 ∷ 0 ∷ 1 ∷ 0 ∷ 1 ∷ 112 ∷ 0 ∷ 0 ∷ 117 ∷ 48 ∷ 0 ∷ 0 ∷ 0 ∷ 0 ∷ []

abbrev pub broker_values : Values
broker_values = item (int32 (pos 1)) (item (string (107 ∷ [])) (item (int32 (pos 9092)) no_value))

abbrev pub metadata_values : Values
metadata_values =
    item (list (item (struct metadata_broker_v0 broker_values) no_value))
      (item (list no_value) no_value)

-- No error, and the coordinator 1 at "k:9092".
abbrev pub find_coordinator_bytes : List ℕ
find_coordinator_bytes = 0 ∷ 0 ∷ 0 ∷ 0 ∷ 0 ∷ 1 ∷ 0 ∷ 1 ∷ 107 ∷ 0 ∷ 0 ∷ 35 ∷ 132 ∷ []

abbrev find_coordinator_mapped_bytes : List ℕ
find_coordinator_mapped_bytes = 0 ∷ 0 ∷ 0 ∷ 0 ∷ 0 ∷ 1 ∷ 0 ∷ 1 ∷ 112 ∷ 0 ∷ 0 ∷ 117 ∷ 48 ∷ []

abbrev pub find_coordinator_values : Values
find_coordinator_values =
    item (int16 (pos 0)) (item (struct find_coordinator_broker_v0 broker_values) no_value)

abbrev metadata_modifier : ResponseModifier
metadata_modifier = modifier_of metadata_response_v0 modify_metadata_response to_proxy

metadata-get_response_modifier :
    get_response_modifier (pos 3) (pos 0) (some to_proxy) ≡ ok (some metadata_modifier)
unfolding kafka_gcp_proxy.Protocol.Responses.Modify.get_response_modifier
    kafka_gcp_proxy.Protocol.Responses.Modify.new_response_modifier
    kafka_gcp_proxy.Protocol.Responses.Modify.get_response_schema
    kafka_gcp_proxy.Protocol.Responses.MetadataSchemas.metadata_response_schema_versions
metadata-get_response_modifier = refl

metadata-apply : apply metadata_modifier (some metadata_bytes) ≡ ok metadata_mapped_bytes
unfolding kafka_gcp_proxy.Protocol.Decoder.get_array_length
    kafka_gcp_proxy.Protocol.Decoder.get_int32 kafka_gcp_proxy.Protocol.Decoder.get_string
    kafka_gcp_proxy.Protocol.Decoder.get_string_length kafka_gcp_proxy.Protocol.Decoder.get_int16
    kafka_gcp_proxy.Protocol.Decoder.get_bool kafka_gcp_proxy.Protocol.Decoder.get_compact_length
    kafka_gcp_proxy.Protocol.Decoder.get_compact_nullable_length
    kafka_gcp_proxy.Protocol.Decoder.get_compact_nullable_string
    kafka_gcp_proxy.Protocol.Decoder.get_compact_string kafka_gcp_proxy.Protocol.Decoder.get_each
    kafka_gcp_proxy.Protocol.Decoder.get_int8 kafka_gcp_proxy.Protocol.Decoder.get_nullable_string
    kafka_gcp_proxy.Protocol.Decoder.get_raw_bytes kafka_gcp_proxy.Protocol.Decoder.get_uuid
    kafka_gcp_proxy.Protocol.Decoder.get_varint kafka_gcp_proxy.Protocol.Decoder.get_varint_bytes
    kafka_gcp_proxy.Protocol.Varint.uvarint kafka_gcp_proxy.Protocol.Varint.uvarint_loop
    kafka_gcp_proxy.Protocol.Varint.put_uvarint kafka_gcp_proxy.Protocol.Varint.put_uvarint_loop
    kafka_gcp_proxy.Protocol.Schema.Decode.decode_struct
    kafka_gcp_proxy.Protocol.Schema.Decode.decode_schema
    kafka_gcp_proxy.Protocol.Schema.Decode.decode_each
    kafka_gcp_proxy.Protocol.Schema.Decode.decode_tagged_fields kafka_gcp_proxy.Protocol.Schema.get
    kafka_gcp_proxy.Protocol.Schema.index_of kafka_gcp_proxy.Protocol.Schema.replace
    kafka_gcp_proxy.Protocol.PrepEncoder.put_array_length
    kafka_gcp_proxy.Protocol.PrepEncoder.put_bytes
    kafka_gcp_proxy.Protocol.PrepEncoder.put_compact_array_length
    kafka_gcp_proxy.Protocol.PrepEncoder.put_compact_bytes
    kafka_gcp_proxy.Protocol.PrepEncoder.put_compact_nullable_array_length
    kafka_gcp_proxy.Protocol.PrepEncoder.put_compact_nullable_string
    kafka_gcp_proxy.Protocol.PrepEncoder.put_compact_string
    kafka_gcp_proxy.Protocol.PrepEncoder.put_int_array
    kafka_gcp_proxy.Protocol.PrepEncoder.put_nullable_string
    kafka_gcp_proxy.Protocol.PrepEncoder.put_raw_bytes
    kafka_gcp_proxy.Protocol.PrepEncoder.put_string
    kafka_gcp_proxy.Protocol.PrepEncoder.put_string_array
    kafka_gcp_proxy.Protocol.PrepEncoder.put_strings kafka_gcp_proxy.Protocol.PrepEncoder.put_varint
    kafka_gcp_proxy.Protocol.PrepEncoder.put_varint_bytes kafka_gcp_proxy.Protocol.RealEncoder.copy
    kafka_gcp_proxy.Protocol.RealEncoder.write kafka_gcp_proxy.Protocol.RealEncoder.put_array_length
    kafka_gcp_proxy.Protocol.RealEncoder.put_bool kafka_gcp_proxy.Protocol.RealEncoder.put_bytes
    kafka_gcp_proxy.Protocol.RealEncoder.put_compact_array_length
    kafka_gcp_proxy.Protocol.RealEncoder.put_compact_bytes
    kafka_gcp_proxy.Protocol.RealEncoder.put_compact_nullable_string
    kafka_gcp_proxy.Protocol.RealEncoder.put_compact_string
    kafka_gcp_proxy.Protocol.RealEncoder.put_each kafka_gcp_proxy.Protocol.RealEncoder.put_int16
    kafka_gcp_proxy.Protocol.RealEncoder.put_int32 kafka_gcp_proxy.Protocol.RealEncoder.put_int64
    kafka_gcp_proxy.Protocol.RealEncoder.put_int8 kafka_gcp_proxy.Protocol.RealEncoder.put_int_array
    kafka_gcp_proxy.Protocol.RealEncoder.put_nullable_string
    kafka_gcp_proxy.Protocol.RealEncoder.put_string
    kafka_gcp_proxy.Protocol.RealEncoder.put_string_array
    kafka_gcp_proxy.Protocol.RealEncoder.put_varint
    kafka_gcp_proxy.Protocol.RealEncoder.put_varint_bytes
    kafka_gcp_proxy.Protocol.Schema.Encode.encode_array_elements
    kafka_gcp_proxy.Protocol.Schema.Encode.encode_schema
    kafka_gcp_proxy.Protocol.Schema.Encode.encode_struct
    kafka_gcp_proxy.Protocol.Encoding.two_passes kafka_gcp_proxy.Protocol.Responses.Modify.apply
    kafka_gcp_proxy.Protocol.Responses.Modify.modify_metadata_response
    kafka_gcp_proxy.Protocol.Responses.Modify.modify_each
    kafka_gcp_proxy.Protocol.Responses.Modify.modify_broker
    kafka_gcp_proxy.Protocol.Responses.Modify.modify_address
    kafka_gcp_proxy.Protocol.Responses.Modify.modify_find_coordinator_response
    kafka_gcp_proxy.Protocol.Responses.Modify.modify_coordinator kafka_gcp_proxy.Base.beq_bytes
    kafka_gcp_proxy.Protocol.Schema.Access.set_field
    kafka_gcp_proxy.Protocol.Responses.MetadataParts.metadata_broker_v0
    kafka_gcp_proxy.Protocol.Responses.MetadataParts.partition_metadata_v0
    kafka_gcp_proxy.Protocol.Responses.MetadataParts.topic_metadata_v0
    kafka_gcp_proxy.Protocol.Responses.MetadataSchemas.metadata_response_v0
metadata-apply = refl

metadata-decode_struct :
    decode_struct (some metadata_bytes) metadata_response_v0
    ≡ ok (some (metadata_response_v0, metadata_values))
unfolding kafka_gcp_proxy.Protocol.Decoder.get_array_length
    kafka_gcp_proxy.Protocol.Decoder.get_int32 kafka_gcp_proxy.Protocol.Decoder.get_string
    kafka_gcp_proxy.Protocol.Decoder.get_string_length kafka_gcp_proxy.Protocol.Decoder.get_int16
    kafka_gcp_proxy.Protocol.Decoder.get_bool kafka_gcp_proxy.Protocol.Decoder.get_compact_length
    kafka_gcp_proxy.Protocol.Decoder.get_compact_nullable_length
    kafka_gcp_proxy.Protocol.Decoder.get_compact_nullable_string
    kafka_gcp_proxy.Protocol.Decoder.get_compact_string kafka_gcp_proxy.Protocol.Decoder.get_each
    kafka_gcp_proxy.Protocol.Decoder.get_int8 kafka_gcp_proxy.Protocol.Decoder.get_nullable_string
    kafka_gcp_proxy.Protocol.Decoder.get_raw_bytes kafka_gcp_proxy.Protocol.Decoder.get_uuid
    kafka_gcp_proxy.Protocol.Decoder.get_varint kafka_gcp_proxy.Protocol.Decoder.get_varint_bytes
    kafka_gcp_proxy.Protocol.Schema.Decode.decode_struct
    kafka_gcp_proxy.Protocol.Schema.Decode.decode_schema
    kafka_gcp_proxy.Protocol.Schema.Decode.decode_each
    kafka_gcp_proxy.Protocol.Schema.Decode.decode_tagged_fields
    kafka_gcp_proxy.Protocol.Responses.MetadataParts.metadata_broker_v0
    kafka_gcp_proxy.Protocol.Responses.MetadataParts.partition_metadata_v0
    kafka_gcp_proxy.Protocol.Responses.MetadataParts.topic_metadata_v0
    kafka_gcp_proxy.Protocol.Responses.MetadataSchemas.metadata_response_v0
metadata-decode_struct = refl

metadata_response-Rewritten_example :
    Rewritten metadata_response_v0 (MetadataMapped to_proxy) metadata_bytes metadata_mapped_bytes
metadata_response-Rewritten_example =
    metadata_response-Rewritten to_proxy to_proxy-within (pos 0) metadata_modifier metadata_bytes
      metadata_mapped_bytes metadata-get_response_modifier metadata-apply

metadata_response-Encodes_example :
    EncodesOr
      (MetadataRefused to_proxy metadata_response_v0 metadata_values)
      to_proxy
      metadata_modifier
      metadata_values
      metadata_bytes
metadata_response-Encodes_example =
    metadata_response-Encodes to_proxy (pos 0) metadata_modifier metadata_response_v0 metadata_bytes
      metadata_values metadata-get_response_modifier metadata-decode_struct

abbrev find_coordinator_modifier : ResponseModifier
find_coordinator_modifier =
    modifier_of find_coordinator_response_v0 modify_find_coordinator_response to_proxy

find_coordinator-get_response_modifier :
    get_response_modifier (pos 10) (pos 0) (some to_proxy) ≡ ok (some find_coordinator_modifier)
unfolding kafka_gcp_proxy.Protocol.Responses.Modify.get_response_modifier
    kafka_gcp_proxy.Protocol.Responses.Modify.new_response_modifier
    kafka_gcp_proxy.Protocol.Responses.Modify.get_response_schema
    kafka_gcp_proxy.Protocol.Responses.CoordinatorSchemas.find_coordinator_response_schema_versions
find_coordinator-get_response_modifier = refl

find_coordinator-apply :
    apply find_coordinator_modifier (some find_coordinator_bytes) ≡ ok find_coordinator_mapped_bytes
unfolding kafka_gcp_proxy.Protocol.Decoder.get_array_length
    kafka_gcp_proxy.Protocol.Decoder.get_int32 kafka_gcp_proxy.Protocol.Decoder.get_string
    kafka_gcp_proxy.Protocol.Decoder.get_string_length kafka_gcp_proxy.Protocol.Decoder.get_int16
    kafka_gcp_proxy.Protocol.Decoder.get_bool kafka_gcp_proxy.Protocol.Decoder.get_compact_length
    kafka_gcp_proxy.Protocol.Decoder.get_compact_nullable_length
    kafka_gcp_proxy.Protocol.Decoder.get_compact_nullable_string
    kafka_gcp_proxy.Protocol.Decoder.get_compact_string kafka_gcp_proxy.Protocol.Decoder.get_each
    kafka_gcp_proxy.Protocol.Decoder.get_int8 kafka_gcp_proxy.Protocol.Decoder.get_nullable_string
    kafka_gcp_proxy.Protocol.Decoder.get_raw_bytes kafka_gcp_proxy.Protocol.Decoder.get_uuid
    kafka_gcp_proxy.Protocol.Decoder.get_varint kafka_gcp_proxy.Protocol.Decoder.get_varint_bytes
    kafka_gcp_proxy.Protocol.Varint.uvarint kafka_gcp_proxy.Protocol.Varint.uvarint_loop
    kafka_gcp_proxy.Protocol.Varint.put_uvarint kafka_gcp_proxy.Protocol.Varint.put_uvarint_loop
    kafka_gcp_proxy.Protocol.Schema.Decode.decode_struct
    kafka_gcp_proxy.Protocol.Schema.Decode.decode_schema
    kafka_gcp_proxy.Protocol.Schema.Decode.decode_each
    kafka_gcp_proxy.Protocol.Schema.Decode.decode_tagged_fields kafka_gcp_proxy.Protocol.Schema.get
    kafka_gcp_proxy.Protocol.Schema.index_of kafka_gcp_proxy.Protocol.Schema.replace
    kafka_gcp_proxy.Protocol.PrepEncoder.put_array_length
    kafka_gcp_proxy.Protocol.PrepEncoder.put_bytes
    kafka_gcp_proxy.Protocol.PrepEncoder.put_compact_array_length
    kafka_gcp_proxy.Protocol.PrepEncoder.put_compact_bytes
    kafka_gcp_proxy.Protocol.PrepEncoder.put_compact_nullable_array_length
    kafka_gcp_proxy.Protocol.PrepEncoder.put_compact_nullable_string
    kafka_gcp_proxy.Protocol.PrepEncoder.put_compact_string
    kafka_gcp_proxy.Protocol.PrepEncoder.put_int_array
    kafka_gcp_proxy.Protocol.PrepEncoder.put_nullable_string
    kafka_gcp_proxy.Protocol.PrepEncoder.put_raw_bytes
    kafka_gcp_proxy.Protocol.PrepEncoder.put_string
    kafka_gcp_proxy.Protocol.PrepEncoder.put_string_array
    kafka_gcp_proxy.Protocol.PrepEncoder.put_strings kafka_gcp_proxy.Protocol.PrepEncoder.put_varint
    kafka_gcp_proxy.Protocol.PrepEncoder.put_varint_bytes kafka_gcp_proxy.Protocol.RealEncoder.copy
    kafka_gcp_proxy.Protocol.RealEncoder.write kafka_gcp_proxy.Protocol.RealEncoder.put_array_length
    kafka_gcp_proxy.Protocol.RealEncoder.put_bool kafka_gcp_proxy.Protocol.RealEncoder.put_bytes
    kafka_gcp_proxy.Protocol.RealEncoder.put_compact_array_length
    kafka_gcp_proxy.Protocol.RealEncoder.put_compact_bytes
    kafka_gcp_proxy.Protocol.RealEncoder.put_compact_nullable_string
    kafka_gcp_proxy.Protocol.RealEncoder.put_compact_string
    kafka_gcp_proxy.Protocol.RealEncoder.put_each kafka_gcp_proxy.Protocol.RealEncoder.put_int16
    kafka_gcp_proxy.Protocol.RealEncoder.put_int32 kafka_gcp_proxy.Protocol.RealEncoder.put_int64
    kafka_gcp_proxy.Protocol.RealEncoder.put_int8 kafka_gcp_proxy.Protocol.RealEncoder.put_int_array
    kafka_gcp_proxy.Protocol.RealEncoder.put_nullable_string
    kafka_gcp_proxy.Protocol.RealEncoder.put_string
    kafka_gcp_proxy.Protocol.RealEncoder.put_string_array
    kafka_gcp_proxy.Protocol.RealEncoder.put_varint
    kafka_gcp_proxy.Protocol.RealEncoder.put_varint_bytes
    kafka_gcp_proxy.Protocol.Schema.Encode.encode_array_elements
    kafka_gcp_proxy.Protocol.Schema.Encode.encode_schema
    kafka_gcp_proxy.Protocol.Schema.Encode.encode_struct
    kafka_gcp_proxy.Protocol.Encoding.two_passes kafka_gcp_proxy.Protocol.Responses.Modify.apply
    kafka_gcp_proxy.Protocol.Responses.Modify.modify_metadata_response
    kafka_gcp_proxy.Protocol.Responses.Modify.modify_each
    kafka_gcp_proxy.Protocol.Responses.Modify.modify_broker
    kafka_gcp_proxy.Protocol.Responses.Modify.modify_address
    kafka_gcp_proxy.Protocol.Responses.Modify.modify_find_coordinator_response
    kafka_gcp_proxy.Protocol.Responses.Modify.modify_coordinator kafka_gcp_proxy.Base.beq_bytes
    kafka_gcp_proxy.Protocol.Schema.Access.set_field
    kafka_gcp_proxy.Protocol.Responses.CoordinatorSchemas.find_coordinator_broker_v0
    kafka_gcp_proxy.Protocol.Responses.CoordinatorSchemas.find_coordinator_response_v0
find_coordinator-apply = refl

pub find_coordinator-decode_struct :
    decode_struct (some find_coordinator_bytes) find_coordinator_response_v0
    ≡ ok (some (find_coordinator_response_v0, find_coordinator_values))
unfolding kafka_gcp_proxy.Protocol.Decoder.get_array_length
    kafka_gcp_proxy.Protocol.Decoder.get_int32 kafka_gcp_proxy.Protocol.Decoder.get_string
    kafka_gcp_proxy.Protocol.Decoder.get_string_length kafka_gcp_proxy.Protocol.Decoder.get_int16
    kafka_gcp_proxy.Protocol.Decoder.get_bool kafka_gcp_proxy.Protocol.Decoder.get_compact_length
    kafka_gcp_proxy.Protocol.Decoder.get_compact_nullable_length
    kafka_gcp_proxy.Protocol.Decoder.get_compact_nullable_string
    kafka_gcp_proxy.Protocol.Decoder.get_compact_string kafka_gcp_proxy.Protocol.Decoder.get_each
    kafka_gcp_proxy.Protocol.Decoder.get_int8 kafka_gcp_proxy.Protocol.Decoder.get_nullable_string
    kafka_gcp_proxy.Protocol.Decoder.get_raw_bytes kafka_gcp_proxy.Protocol.Decoder.get_uuid
    kafka_gcp_proxy.Protocol.Decoder.get_varint kafka_gcp_proxy.Protocol.Decoder.get_varint_bytes
    kafka_gcp_proxy.Protocol.Schema.Decode.decode_struct
    kafka_gcp_proxy.Protocol.Schema.Decode.decode_schema
    kafka_gcp_proxy.Protocol.Schema.Decode.decode_each
    kafka_gcp_proxy.Protocol.Schema.Decode.decode_tagged_fields
    kafka_gcp_proxy.Protocol.Responses.CoordinatorSchemas.find_coordinator_broker_v0
    kafka_gcp_proxy.Protocol.Responses.CoordinatorSchemas.find_coordinator_response_v0
find_coordinator-decode_struct = refl

find_coordinator_response-Rewritten_example :
    Rewritten find_coordinator_response_v0
      (FindCoordinatorMapped to_proxy)
      find_coordinator_bytes
      find_coordinator_mapped_bytes
find_coordinator_response-Rewritten_example =
    find_coordinator_response-Rewritten to_proxy to_proxy-within (pos 0) find_coordinator_modifier
      find_coordinator_bytes find_coordinator_mapped_bytes find_coordinator-get_response_modifier
      find_coordinator-apply

find_coordinator_response-Encodes_example :
    EncodesOr
      (FindCoordinatorRefused to_proxy find_coordinator_response_v0 find_coordinator_values)
      to_proxy
      find_coordinator_modifier
      find_coordinator_values
      find_coordinator_bytes
find_coordinator_response-Encodes_example =
    find_coordinator_response-Encodes to_proxy (pos 0) find_coordinator_modifier
      find_coordinator_response_v0 find_coordinator_bytes find_coordinator_values
      find_coordinator-get_response_modifier find_coordinator-decode_struct
