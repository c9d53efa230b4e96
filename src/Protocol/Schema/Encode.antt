-- ===== src/Protocol/Schema/Encode.antt =====
-- proxy/protocol/schema.go: the encode methods over any packetEncoder, and EncodeSchema.
use kafka_gcp_proxy.Base.{
  ℕ, ℤ, pos, minus_one, Bool, true, false, Option, none, List, [], ◌∷◌, panicked, schema_encoding,
  Result, ok, err, ◌>>=◌, ◌==◌, if◌then◌else◌, length,
}
use kafka_gcp_proxy.Protocol.PacketEncoder.{Put, PacketEncoder}
use kafka_gcp_proxy.Protocol.PrepEncoder.{prep_encoder}
use kafka_gcp_proxy.Protocol.RealEncoder.{real_encoder}
use kafka_gcp_proxy.Protocol.Encoding.{two_passes}
use kafka_gcp_proxy.Protocol.Schema.{
  Schema, Field, Fields, type_bool, type_int16, type_int32, type_str, type_nullable_str,
  type_compact_str, type_compact_nullable_str, type_uuid, schema, mfield, array, compact_array,
  compact_nullable_array, schema_tagged_fields, no_field, field, RawTaggedField, Value, Values,
  bool, int16, int32, string, string_ptr, uuid, raw_tagged_fields, list, struct, nil, no_value,
  item, count, count_fields,
}

-- The type assertions.
abbrev pub as_bool : Value → Result Bool
as_bool (bool b) = ok b
as_bool _ = err (schema_encoding "value not a bool")

abbrev pub as_int16 : Value → Result ℤ
as_int16 (int16 z) = ok z
as_int16 _ = err (schema_encoding "value not a int16")

abbrev pub as_int32 : Value → Result ℤ
as_int32 (int32 z) = ok z
as_int32 _ = err (schema_encoding "value not a int32")

abbrev pub as_string : Value → Result (List ℕ)
as_string (string s) = ok s
as_string _ = err (schema_encoding "value not a string")

abbrev pub as_string_ptr : Value → Result (Option (List ℕ))
as_string_ptr (string_ptr o) = ok o
as_string_ptr _ = err (schema_encoding "value not a *string")

abbrev sixteen : List ℕ → Result (List ℕ)
sixteen u = if length u == 16 then ok u else err (schema_encoding "value not a uuid")

-- A list of another length is no uuid.UUID.
abbrev pub as_uuid : Value → Result (List ℕ)
as_uuid (uuid u) = sixteen u
as_uuid _ = err (schema_encoding "value not a uuid")

abbrev pub as_tagged_fields : Value → Result (List RawTaggedField)
as_tagged_fields (raw_tagged_fields fs) = ok fs
as_tagged_fields _ = err (schema_encoding "value not a []rawTaggedField")

abbrev pub as_list : Value → Result Values
as_list (list vs) = ok vs
as_list _ = err (schema_encoding "value not a []interface{}")

abbrev pub as_struct : Value → Result Values
as_struct (struct t vs) = ok vs
as_struct _ = err (schema_encoding "value not a *Struct")

abbrev pub is_nil : Value → Bool
is_nil nil = true
is_nil _ = false

module _ {S : Type 0} ⦃pe : PacketEncoder S⦄ where
  -- The two nullable texts write a null for nil before the type assertion, which then fails.
  abbrev pub put_nil : (Option (List ℕ) → Put S) → Value → Put S
  put_nil put v s = if is_nil v then put none s else ok s

  abbrev pub put_tagged_field : RawTaggedField → Put S
  put_tagged_field f s = do s' ← pe.put_varint f.tag s; pe.put_varint_bytes f.content s'

  abbrev pub put_tagged_each : List RawTaggedField → Put S
  put_tagged_each [] s = ok s
  put_tagged_each (f ∷ fs) s = do s' ← put_tagged_field f s; put_tagged_each fs s'

  abbrev pub put_tagged_fields : List RawTaggedField → Put S
  put_tagged_fields fs s = do s' ← pe.put_varint (pos (length fs)) s; put_tagged_each fs s'

  -- encodeArrayElements
  unfoldable pub encode_array_elements : (Value → Put S) → Values → Put S
  encode_array_elements put no_value s = ok s
  encode_array_elements put (item v vs) s = do s' ← put v s; encode_array_elements put vs s'

  abbrev pub length_check : Fields → Values → Put S → Put S
  length_check fs vs put s =
      if count vs == count_fields fs
      then put s
      else err (schema_encoding "length difference: values, struct fields")

  unfoldable mutual
    pub encode_schema : Schema → Value → Put S
    encode_schema type_bool v s = as_bool v >>= λ b. pe.put_bool b s
    encode_schema type_int16 v s = as_int16 v >>= λ z. pe.put_int16 z s
    encode_schema type_int32 v s = as_int32 v >>= λ z. pe.put_int32 z s
    encode_schema type_str v s = as_string v >>= λ t. pe.put_string t s
    encode_schema type_nullable_str v s = put_nil pe.put_nullable_string v s >>= λ s'.
        as_string_ptr v >>= λ o. pe.put_nullable_string o s'
    encode_schema type_compact_str v s = as_string v >>= λ t. pe.put_compact_string t s
    encode_schema type_compact_nullable_str v s =
        put_nil pe.put_compact_nullable_string v s >>= λ s'.
        as_string_ptr v >>= λ o. pe.put_compact_nullable_string o s'
    encode_schema type_uuid v s = as_uuid v >>= λ u. pe.put_uuid u s
    encode_schema (schema n fs) v s =
        as_struct v >>= λ vs. length_check fs vs (encode_fields fs vs) s

    pub encode_field : Field → Value → Put S
    encode_field (mfield n t) v s = encode_schema t v s
    encode_field (array n t) v s = as_list v >>= λ vs.
        pe.put_array_length (pos (count vs)) s >>= encode_array_elements (encode_schema t) vs
    encode_field (compact_array n t) v s = as_list v >>= λ vs.
        pe.put_compact_array_length (pos (count vs)) s
        >>= encode_array_elements (encode_schema t) vs
    encode_field (compact_nullable_array n t) v s =
        if is_nil v
        then pe.put_compact_nullable_array_length minus_one s
        else (as_list v >>= λ vs.
            pe.put_compact_nullable_array_length (pos (count vs)) s
            >>= encode_array_elements (encode_schema t) vs)
    encode_field (schema_tagged_fields n) v s = as_tagged_fields v >>= λ fs. put_tagged_fields fs s

    -- for i, value := range in.Values, past the test that there are as many fields
    pub encode_fields : Fields → Values → Put S
    encode_fields no_field no_value s = ok s
    encode_fields no_field (item v vs) s = err panicked
    encode_fields (field f fs) no_value s = ok s
    encode_fields (field f fs) (item v vs) s = encode_field f v s >>= encode_fields fs vs

-- EncodeSchema of a struct that is not nil
unfoldable pub encode_struct : Schema × Values → Schema → Result (List ℕ)
encode_struct (own, vs) t =
    two_passes (schema_encoding "invalid request size")
      (encode_schema ⦃pe = prep_encoder⦄ t (struct own vs))
      (encode_schema ⦃pe = real_encoder⦄ t (struct own vs))
