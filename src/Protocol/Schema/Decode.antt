-- ===== src/Protocol/Schema/Decode.antt =====
-- proxy/protocol/schema.go: the decode methods, and DecodeSchema. errors.Wrapf adds a text to an
-- error, which is left out.
use kafka_gcp_proxy.Base.{
  ℕ, zero, suc, ℤ, pos, negsuc, Option, none, some, List, [], ◌∷◌, failure, panicked,
  schema_decoding, Result, ok, err, ltb, if◌then◌else◌,
}
use kafka_gcp_proxy.Protocol.Decoder.{
  Decoder, pure, fail, ◌>>=◌, get_bool, get_int16, get_int32, get_string, get_nullable_string,
  get_compact_string, get_compact_nullable_string, get_uuid, get_varint, get_varint_bytes,
  get_array_length, get_compact_length, get_compact_nullable_length, get_each,
}
use kafka_gcp_proxy.Protocol.Schema.{
  Schema, Field, Fields, type_bool, type_int16, type_int32, type_str, type_nullable_str,
  type_compact_str, type_compact_nullable_str, type_uuid, schema, mfield, array, compact_array,
  compact_nullable_array, schema_tagged_fields, no_field, field, RawTaggedField, Value, Values,
  bool, int16, int32, string, string_ptr, uuid, raw_tagged_fields, list, struct, nil, no_value,
  item,
}

-- A decoder's result behind interface{}.
abbrev pub boxed {ℓ} : {A : Type ℓ} → (A → Value) → Decoder A → Decoder Value
boxed box d = do a ← d; pure (box a)

unfoldable pub decode_each : Decoder Value → ℕ → Decoder Values
decode_each d zero = pure no_value
decode_each d (suc n) = do v ← d; vs ← decode_each d n; pure (item v vs)

-- decodeArrayElements: a negative length reads nothing.
abbrev pub decode_array_elements : Decoder Value → ℤ → Decoder Value
decode_array_elements d (pos n) = boxed list (decode_each d n)
decode_array_elements d (negsuc n) = pure (list no_value)

abbrev pub decode_nullable_elements : Decoder Value → ℤ → Decoder Value
decode_nullable_elements d (pos n) = boxed list (decode_each d n)
decode_nullable_elements d (negsuc zero) = pure nil
decode_nullable_elements d (negsuc (suc n)) = pure (list no_value)

-- make([]rawTaggedField, n) panics where n elements of 32 bytes pass the 2 ^ 48 bytes that the
-- runtime can address (linux/amd64). Running out of memory below that is not modelled.
abbrev pub max_tagged_fields : ℕ
max_tagged_fields = 8796093022208

abbrev pub tagged_field_of : ℤ → Option (List ℕ) → RawTaggedField
tagged_field_of t c = record { tag = t; content = c }

abbrev pub raw_tagged_field : Decoder RawTaggedField
raw_tagged_field = do t ← get_varint; c ← get_varint_bytes; pure (tagged_field_of t c)

abbrev pub tagged_fields_count : ℤ → Decoder (List RawTaggedField)
tagged_fields_count (negsuc n) = fail (failure "Negative number of tagged fields")
tagged_fields_count (pos n) =
    if ltb max_tagged_fields n then fail panicked else get_each raw_tagged_field n

-- SchemaTaggedFields.decode
unfoldable pub decode_tagged_fields : Decoder (List RawTaggedField)
decode_tagged_fields = do n ← get_varint; tagged_fields_count n

unfoldable mutual
  pub decode_schema : Schema → Decoder Value
  decode_schema type_bool = boxed bool get_bool
  decode_schema type_int16 = boxed int16 get_int16
  decode_schema type_int32 = boxed int32 get_int32
  decode_schema type_str = boxed string get_string
  decode_schema type_nullable_str = boxed string_ptr get_nullable_string
  decode_schema type_compact_str = boxed string get_compact_string
  decode_schema type_compact_nullable_str = boxed string_ptr get_compact_nullable_string
  decode_schema type_uuid = boxed uuid get_uuid
  decode_schema (schema n fs) = do vs ← decode_fields fs; pure (struct (schema n fs) vs)

  pub decode_field : Field → Decoder Value
  decode_field (mfield n t) = decode_schema t
  decode_field (array name t) = do n ← get_array_length; decode_array_elements (decode_schema t) n
  decode_field (compact_array name t) = do
    n ← get_compact_length
    decode_array_elements (decode_schema t) (pos n)
  decode_field (compact_nullable_array name t) = do
    n ← get_compact_nullable_length
    decode_nullable_elements (decode_schema t) n
  decode_field (schema_tagged_fields n) = boxed raw_tagged_fields decode_tagged_fields

  pub decode_fields : Fields → Decoder Values
  decode_fields no_field = pure no_value
  decode_fields (field f fs) = do v ← decode_field f; vs ← decode_fields fs; pure (item v vs)

abbrev pub whole_struct : Value × List ℕ → Result (Option (Schema × Values))
whole_struct (v, b ∷ bs) = err (schema_decoding "invalid length")
whole_struct (struct t vs, []) = ok (some (t, vs))
whole_struct (_, []) = err (schema_decoding "internal error: schema decode should return *Struct")

abbrev pub from_buffer : Result (Value × List ℕ) → Result (Option (Schema × Values))
from_buffer (ok r) = whole_struct r
from_buffer (err e) = err e

-- DecodeSchema; a nil buffer gives a nil *Struct.
unfoldable pub decode_struct : Option (List ℕ) → Schema → Result (Option (Schema × Values))
decode_struct none t = ok none
decode_struct (some buf) t = from_buffer (decode_schema t buf)
