-- ===== src/Examples/Structs.antt =====
-- proxy/protocol/schema.go, varint coding and the two passes, on a find coordinator response.
use kafka_gcp_proxy.Base.{
  ℕ, ◌+◌, ◌<◌, ◌≡◌, refl, sym, subst, arith, ℤ, pos, half16, half32, InRange, Bool, true, false,
  Option, none, some, List, [], ◌∷◌, ◌++◌, Error, schema_encoding, failure, Result, ok, err, ◌>>=◌,
  ltb, if◌then◌else◌, length,
}
use kafka_gcp_proxy.Protocol.Varint.{
  value, uvarint, put_uvarint, uvarint-put_uvarint, put_uvarint_size,
}
use kafka_gcp_proxy.Protocol.PrepEncoder.{prep_encoder}
use kafka_gcp_proxy.Protocol.RealEncoder.{real_encoder}
use kafka_gcp_proxy.Protocol.Encoding.{max_request_size}
use kafka_gcp_proxy.Protocol.Encoding.Writes.{Writes}
use kafka_gcp_proxy.Protocol.Schema.{
  Schema, Value, Values, string, int16, int32, list, struct, item, no_value,
}
use kafka_gcp_proxy.Protocol.Schema.Decode.{decode_struct, decode_schema}
use kafka_gcp_proxy.Protocol.Schema.Encode.{encode_struct, encode_schema}
use kafka_gcp_proxy.Protocol.Schema.Layout.{wire_schema}
use kafka_gcp_proxy.Protocol.Schema.Typing.{
  HasType, FieldHasType, is_struct, one_more, none_left, in_mfield, is_int16, is_int32, is_str,
  well_formed, solid,
}
use kafka_gcp_proxy.Protocol.Schema.Whole.{decode_struct-HasType, decode_struct-encode_struct}
use kafka_gcp_proxy.Protocol.Schema.RoundTrip.{decode_schema-wire_schema}
use kafka_gcp_proxy.Protocol.Schema.Writes.{encode_schema-Writes, encode_struct_lem}
use kafka_gcp_proxy.Protocol.Responses.CoordinatorSchemas.{
  find_coordinator_broker_v0, find_coordinator_response_v0,
}
use kafka_gcp_proxy.Protocol.Responses.Modify.{
  NetAddressMapping, modify_address, modify_metadata_response, modify_find_coordinator_response,
}
use kafka_gcp_proxy.Protocol.Responses.MetadataParts.{metadata_broker_v0}
use kafka_gcp_proxy.Protocol.Responses.MetadataSchemas.{metadata_response_v0}
use kafka_gcp_proxy.Protocol.Responses.Address.{AddressMapped, modify_address-AddressMapped}
use kafka_gcp_proxy.Protocol.Responses.Rewrite.{
  MetadataMapped, FindCoordinatorMapped, modify_metadata_response-MetadataMapped,
  modify_find_coordinator_response-FindCoordinatorMapped,
}
use kafka_gcp_proxy.Examples.Responses.{
  to_proxy, broker_values, find_coordinator_bytes, find_coordinator_values, metadata_values,
  find_coordinator-decode_struct,
}

broker-HasType :
    HasType find_coordinator_broker_v0 (struct find_coordinator_broker_v0 broker_values)
unfolding kafka_gcp_proxy.Protocol.Responses.CoordinatorSchemas.find_coordinator_broker_v0
    kafka_gcp_proxy.Protocol.Responses.CoordinatorSchemas.find_coordinator_response_v0
broker-HasType = is_struct (
    one_more (in_mfield (is_int32 (pos 1) (omega arith))) (
      one_more (in_mfield (is_str (107 ∷ []) (omega arith)))
        (one_more (in_mfield (is_int32 (pos 9092) (omega arith))) none_left)))

find_coordinator-HasType :
    HasType find_coordinator_response_v0
      (struct find_coordinator_response_v0 find_coordinator_values)
unfolding kafka_gcp_proxy.Protocol.Responses.CoordinatorSchemas.find_coordinator_broker_v0
    kafka_gcp_proxy.Protocol.Responses.CoordinatorSchemas.find_coordinator_response_v0
find_coordinator-HasType = is_struct (
    one_more (in_mfield (is_int16 (pos 0) (omega arith)))
      (one_more (in_mfield broker-HasType) none_left))

find_coordinator-encode_struct :
    encode_struct
      (find_coordinator_response_v0, find_coordinator_values)
      find_coordinator_response_v0
    ≡ ok find_coordinator_bytes
unfolding kafka_gcp_proxy.Protocol.Schema.Encode.encode_array_elements
    kafka_gcp_proxy.Protocol.Schema.Encode.encode_schema
    kafka_gcp_proxy.Protocol.Schema.Encode.encode_struct
    kafka_gcp_proxy.Protocol.Encoding.two_passes
    kafka_gcp_proxy.Protocol.PrepEncoder.put_array_length
    kafka_gcp_proxy.Protocol.PrepEncoder.put_bytes
    kafka_gcp_proxy.Protocol.PrepEncoder.put_compact_array_length
    kafka_gcp_proxy.Protocol.PrepEncoder.put_compact_bytes
    kafka_gcp_proxy.Protocol.PrepEncoder.put_compact_nullable_array_length
    kafka_gcp_proxy.Protocol.PrepEncoder.put_compact_nullable_string
    kafka_gcp_proxy.Protocol.PrepEncoder.put_compact_string
    kafka_gcp_proxy.Protocol.PrepEncoder.put_int_array
    kafka_gcp_proxy.Protocol.PrepEncoder.put_nullable_string
    kafka_gcp_proxy.Protocol.PrepEncoder.put_raw_bytes
    kafka_gcp_proxy.Protocol.PrepEncoder.put_string
    kafka_gcp_proxy.Protocol.PrepEncoder.put_string_array
    kafka_gcp_proxy.Protocol.PrepEncoder.put_strings kafka_gcp_proxy.Protocol.PrepEncoder.put_varint
    kafka_gcp_proxy.Protocol.PrepEncoder.put_varint_bytes kafka_gcp_proxy.Protocol.RealEncoder.copy
    kafka_gcp_proxy.Protocol.RealEncoder.write kafka_gcp_proxy.Protocol.RealEncoder.put_array_length
    kafka_gcp_proxy.Protocol.RealEncoder.put_bool kafka_gcp_proxy.Protocol.RealEncoder.put_bytes
    kafka_gcp_proxy.Protocol.RealEncoder.put_compact_array_length
    kafka_gcp_proxy.Protocol.RealEncoder.put_compact_bytes
    kafka_gcp_proxy.Protocol.RealEncoder.put_compact_nullable_string
    kafka_gcp_proxy.Protocol.RealEncoder.put_compact_string
    kafka_gcp_proxy.Protocol.RealEncoder.put_each kafka_gcp_proxy.Protocol.RealEncoder.put_int16
    kafka_gcp_proxy.Protocol.RealEncoder.put_int32 kafka_gcp_proxy.Protocol.RealEncoder.put_int64
    kafka_gcp_proxy.Protocol.RealEncoder.put_int8 kafka_gcp_proxy.Protocol.RealEncoder.put_int_array
    kafka_gcp_proxy.Protocol.RealEncoder.put_nullable_string
    kafka_gcp_proxy.Protocol.RealEncoder.put_string
    kafka_gcp_proxy.Protocol.RealEncoder.put_string_array
    kafka_gcp_proxy.Protocol.RealEncoder.put_varint
    kafka_gcp_proxy.Protocol.RealEncoder.put_varint_bytes kafka_gcp_proxy.Protocol.Varint.uvarint
    kafka_gcp_proxy.Protocol.Varint.uvarint_loop kafka_gcp_proxy.Protocol.Varint.put_uvarint
    kafka_gcp_proxy.Protocol.Varint.put_uvarint_loop
    kafka_gcp_proxy.Protocol.Responses.CoordinatorSchemas.find_coordinator_broker_v0
    kafka_gcp_proxy.Protocol.Responses.CoordinatorSchemas.find_coordinator_response_v0
find_coordinator-encode_struct = refl

decode_struct-encode_struct_example :
    decode_struct (some find_coordinator_bytes) find_coordinator_response_v0
    ≡ ok (some (find_coordinator_response_v0, find_coordinator_values))
decode_struct-encode_struct_example =
    decode_struct-encode_struct find_coordinator_response_v0 find_coordinator_values
      find_coordinator_bytes find_coordinator-HasType find_coordinator-encode_struct

find_coordinator-well_formed : well_formed find_coordinator_response_v0 ≡ true
unfolding kafka_gcp_proxy.Protocol.Responses.CoordinatorSchemas.find_coordinator_broker_v0
    kafka_gcp_proxy.Protocol.Responses.CoordinatorSchemas.find_coordinator_response_v0
    kafka_gcp_proxy.Protocol.Schema.Typing.well_formed kafka_gcp_proxy.Protocol.Schema.Typing.solid
find_coordinator-well_formed = refl

decode_struct-HasType_example :
    (find_coordinator_response_v0 ≡ find_coordinator_response_v0)
    × HasType find_coordinator_response_v0
        (struct find_coordinator_response_v0 find_coordinator_values)
decode_struct-HasType_example =
    decode_struct-HasType find_coordinator_response_v0 find_coordinator_response_v0
      find_coordinator_bytes find_coordinator_values find_coordinator-well_formed
      find_coordinator-decode_struct

decode_schema-wire_schema_example :
    decode_schema find_coordinator_response_v0 (
      wire_schema find_coordinator_response_v0
        (struct find_coordinator_response_v0 find_coordinator_values)
      ++ (7 ∷ []))
    ≡ ok (struct find_coordinator_response_v0 find_coordinator_values, 7 ∷ [])
decode_schema-wire_schema_example = decode_schema-wire_schema (7 ∷ []) find_coordinator-HasType

encode_schema-Writes_example :
    Writes
      (wire_schema find_coordinator_response_v0
        (struct find_coordinator_response_v0 find_coordinator_values))
      (encode_schema ⦃pe = prep_encoder⦄ find_coordinator_response_v0
        (struct find_coordinator_response_v0 find_coordinator_values))
      (encode_schema ⦃pe = real_encoder⦄ find_coordinator_response_v0
        (struct find_coordinator_response_v0 find_coordinator_values))
encode_schema-Writes_example =
    encode_schema-Writes find_coordinator_response_v0
      (struct find_coordinator_response_v0 find_coordinator_values)

encode_struct_example :
    encode_struct
      (find_coordinator_response_v0, find_coordinator_values)
      find_coordinator_response_v0
    ≡ (encode_schema ⦃pe = prep_encoder⦄ find_coordinator_response_v0
          (struct find_coordinator_response_v0 find_coordinator_values)
          0
        >>= λ n.
            if ltb max_request_size n
            then err (schema_encoding "invalid request size")
            else ok (
                wire_schema find_coordinator_response_v0
                  (struct find_coordinator_response_v0 find_coordinator_values)))
encode_struct_example =
    encode_struct_lem find_coordinator_response_v0 find_coordinator_values
      find_coordinator_response_v0

abbrev mapped_values : Values
mapped_values = item (int32 (pos 1)) (item (string (112 ∷ [])) (item (int32 (pos 30000)) no_value))

abbrev no_host : Error
no_host = failure "host not found"

broker-modify_address :
    modify_address no_host no_host no_host to_proxy find_coordinator_broker_v0 broker_values
    ≡ ok mapped_values
unfolding kafka_gcp_proxy.Protocol.Responses.CoordinatorSchemas.find_coordinator_broker_v0
    kafka_gcp_proxy.Protocol.Responses.CoordinatorSchemas.find_coordinator_response_v0
    kafka_gcp_proxy.Protocol.Responses.Modify.apply
    kafka_gcp_proxy.Protocol.Responses.Modify.modify_metadata_response
    kafka_gcp_proxy.Protocol.Responses.Modify.modify_each
    kafka_gcp_proxy.Protocol.Responses.Modify.modify_broker
    kafka_gcp_proxy.Protocol.Responses.Modify.modify_address
    kafka_gcp_proxy.Protocol.Responses.Modify.modify_find_coordinator_response
    kafka_gcp_proxy.Protocol.Responses.Modify.modify_coordinator kafka_gcp_proxy.Base.beq_bytes
    kafka_gcp_proxy.Protocol.Schema.Access.set_field kafka_gcp_proxy.Protocol.Schema.get
    kafka_gcp_proxy.Protocol.Schema.index_of kafka_gcp_proxy.Protocol.Schema.replace
broker-modify_address = refl

modify_address-AddressMapped_example :
    AddressMapped to_proxy find_coordinator_broker_v0 broker_values mapped_values
modify_address-AddressMapped_example =
    modify_address-AddressMapped no_host no_host no_host to_proxy find_coordinator_broker_v0
      broker_values mapped_values broker-modify_address

abbrev metadata_mapped_values : Values
metadata_mapped_values =
    item (list (item (struct metadata_broker_v0 mapped_values) no_value))
      (item (list no_value) no_value)

abbrev find_coordinator_mapped_values : Values
find_coordinator_mapped_values =
    item (int16 (pos 0)) (item (struct find_coordinator_broker_v0 mapped_values) no_value)

metadata-modified :
    modify_metadata_response to_proxy metadata_response_v0 metadata_values
    ≡ ok metadata_mapped_values
unfolding kafka_gcp_proxy.Protocol.Responses.MetadataParts.metadata_broker_v0
    kafka_gcp_proxy.Protocol.Responses.MetadataParts.partition_metadata_v0
    kafka_gcp_proxy.Protocol.Responses.MetadataParts.topic_metadata_v0
    kafka_gcp_proxy.Protocol.Responses.MetadataSchemas.metadata_response_v0
    kafka_gcp_proxy.Protocol.Responses.Modify.apply
    kafka_gcp_proxy.Protocol.Responses.Modify.modify_metadata_response
    kafka_gcp_proxy.Protocol.Responses.Modify.modify_each
    kafka_gcp_proxy.Protocol.Responses.Modify.modify_broker
    kafka_gcp_proxy.Protocol.Responses.Modify.modify_address
    kafka_gcp_proxy.Protocol.Responses.Modify.modify_find_coordinator_response
    kafka_gcp_proxy.Protocol.Responses.Modify.modify_coordinator kafka_gcp_proxy.Base.beq_bytes
    kafka_gcp_proxy.Protocol.Schema.Access.set_field kafka_gcp_proxy.Protocol.Schema.get
    kafka_gcp_proxy.Protocol.Schema.index_of kafka_gcp_proxy.Protocol.Schema.replace
metadata-modified = refl

find_coordinator-modified :
    modify_find_coordinator_response to_proxy find_coordinator_response_v0 find_coordinator_values
    ≡ ok find_coordinator_mapped_values
unfolding kafka_gcp_proxy.Protocol.Responses.CoordinatorSchemas.find_coordinator_broker_v0
    kafka_gcp_proxy.Protocol.Responses.CoordinatorSchemas.find_coordinator_response_v0
    kafka_gcp_proxy.Protocol.Responses.Modify.apply
    kafka_gcp_proxy.Protocol.Responses.Modify.modify_metadata_response
    kafka_gcp_proxy.Protocol.Responses.Modify.modify_each
    kafka_gcp_proxy.Protocol.Responses.Modify.modify_broker
    kafka_gcp_proxy.Protocol.Responses.Modify.modify_address
    kafka_gcp_proxy.Protocol.Responses.Modify.modify_find_coordinator_response
    kafka_gcp_proxy.Protocol.Responses.Modify.modify_coordinator kafka_gcp_proxy.Base.beq_bytes
    kafka_gcp_proxy.Protocol.Schema.Access.set_field kafka_gcp_proxy.Protocol.Schema.get
    kafka_gcp_proxy.Protocol.Schema.index_of kafka_gcp_proxy.Protocol.Schema.replace
find_coordinator-modified = refl

modify_metadata_response-MetadataMapped_example :
    MetadataMapped to_proxy metadata_response_v0 metadata_values metadata_mapped_values
modify_metadata_response-MetadataMapped_example =
    modify_metadata_response-MetadataMapped to_proxy metadata_response_v0 metadata_values
      metadata_mapped_values metadata-modified

modify_find_coordinator_response-FindCoordinatorMapped_example :
    FindCoordinatorMapped to_proxy find_coordinator_response_v0 find_coordinator_values
      find_coordinator_mapped_values
modify_find_coordinator_response-FindCoordinatorMapped_example =
    modify_find_coordinator_response-FindCoordinatorMapped to_proxy find_coordinator_response_v0
      find_coordinator_values find_coordinator_mapped_values find_coordinator-modified

uvarint-put_uvarint_example : uvarint (put_uvarint 300 ++ (7 ∷ [])) ≡ value 300 (7 ∷ [])
uvarint-put_uvarint_example = uvarint-put_uvarint 300 (7 ∷ []) (omega arith)
