-- ===== src/Protocol/Schema/Layout.antt =====
-- The bytes of a value under a schema, in terms of the wire format of the primitive types. A value
-- that does not fit the schema has none.
use kafka_gcp_proxy.Base.{ℕ, pos, minus_one, List, [], ◌++◌, Result, ok, err, length, if◌then◌else◌}
use kafka_gcp_proxy.Protocol.Wire.{
  wire_bool, wire_int16, wire_int32, wire_varint, wire_string, wire_nullable_string,
  wire_compact_string, wire_compact_nullable_string, wire_varint_bytes, wire_each,
  wire_compact_length,
}
use kafka_gcp_proxy.Protocol.Schema.Encode.{
  as_bool, as_int16, as_int32, as_string, as_string_ptr, as_uuid, as_tagged_fields, as_list,
  as_struct, is_nil,
}
use kafka_gcp_proxy.Protocol.Schema.{
  Schema, Field, Fields, type_bool, type_int16, type_int32, type_str, type_nullable_str,
  type_compact_str, type_compact_nullable_str, type_uuid, schema, mfield, array, compact_array,
  compact_nullable_array, schema_tagged_fields, no_field, field, RawTaggedField, Value, Values,
  no_value, item, count,
}

abbrev pub bytes_of {ℓ} : {A : Type ℓ} → Result A → (A → List ℕ) → List ℕ
bytes_of (ok a) wire = wire a
bytes_of (err e) wire = []

abbrev pub wire_tagged_field : RawTaggedField → List ℕ
wire_tagged_field f = wire_varint f.tag ++ wire_varint_bytes f.content

abbrev pub wire_tagged_fields : List RawTaggedField → List ℕ
wire_tagged_fields fs = wire_varint (pos (length fs)) ++ wire_each wire_tagged_field fs

abbrev pub wire_values : (Value → List ℕ) → Values → List ℕ
wire_values wire no_value = []
wire_values wire (item v vs) = wire v ++ wire_values wire vs

unfoldable mutual
  pub wire_schema : Schema → Value → List ℕ
  wire_schema type_bool v = bytes_of (as_bool v) wire_bool
  wire_schema type_int16 v = bytes_of (as_int16 v) wire_int16
  wire_schema type_int32 v = bytes_of (as_int32 v) wire_int32
  wire_schema type_str v = bytes_of (as_string v) wire_string
  wire_schema type_nullable_str v = bytes_of (as_string_ptr v) wire_nullable_string
  wire_schema type_compact_str v = bytes_of (as_string v) wire_compact_string
  wire_schema type_compact_nullable_str v = bytes_of (as_string_ptr v) wire_compact_nullable_string
  wire_schema type_uuid v = bytes_of (as_uuid v) (λ u. u)
  wire_schema (schema n fs) v = bytes_of (as_struct v) (wire_fields fs)

  pub wire_field : Field → Value → List ℕ
  wire_field (mfield n t) v = wire_schema t v
  wire_field (array n t) v =
      bytes_of (as_list v) (λ vs. wire_int32 (pos (count vs)) ++ wire_values (wire_schema t) vs)
  wire_field (compact_array n t) v =
      bytes_of (as_list v)
        (λ vs. wire_compact_length (pos (count vs)) ++ wire_values (wire_schema t) vs)
  wire_field (compact_nullable_array n t) v =
      if is_nil v
      then wire_compact_length minus_one
      else bytes_of (as_list v)
          (λ vs. wire_compact_length (pos (count vs)) ++ wire_values (wire_schema t) vs)
  wire_field (schema_tagged_fields n) v = bytes_of (as_tagged_fields v) wire_tagged_fields

  pub wire_fields : Fields → Values → List ℕ
  wire_fields no_field vs = []
  wire_fields (field f fs) no_value = []
  wire_fields (field f fs) (item v vs) = wire_field f v ++ wire_fields fs vs
