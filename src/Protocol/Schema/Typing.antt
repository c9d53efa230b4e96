-- ===== src/Protocol/Schema/Typing.antt =====
-- The values that belong to a schema: what its decode method can return, and what its encode method
-- lays out so that it can be read back.
use kafka_gcp_proxy.Base.{
  ℕ, ◌≤◌, ◌<◌, ◌≡◌, ℤ, half16, half32, half64, InRange, Bool, true, false, Option, String, List,
  ◌&&◌, length, All,
}
use kafka_gcp_proxy.Protocol.Decoder.Ranges.{Shorter}
use kafka_gcp_proxy.Protocol.Schema.Decode.{max_tagged_fields}
use kafka_gcp_proxy.Protocol.Schema.{
  Schema, Field, Fields, type_bool, type_int16, type_int32, type_str, type_nullable_str,
  type_compact_str, type_compact_nullable_str, type_uuid, schema, mfield, array, compact_array,
  compact_nullable_array, schema_tagged_fields, no_field, field, RawTaggedField, Value, Values,
  bool, int16, int32, string, string_ptr, uuid, raw_tagged_fields, list, struct, nil, no_value,
  item, count,
}

-- Every value of the schema takes a byte at least: no struct begins with an empty struct.
unfoldable mutual
  pub solid : Schema → Bool
  solid (schema n fs) = solid_fields fs
  solid _ = true

  pub solid_field : Field → Bool
  solid_field (mfield n t) = solid t
  solid_field _ = true

  pub solid_fields : Fields → Bool
  solid_fields no_field = false
  solid_fields (field f fs) = solid_field f

-- The elements of every array are solid.
unfoldable mutual
  unfolding solid

  pub well_formed : Schema → Bool
  well_formed (schema n fs) = well_formed_fields fs
  well_formed _ = true

  pub well_formed_field : Field → Bool
  well_formed_field (mfield n t) = well_formed t
  well_formed_field (array n t) = solid t && well_formed t
  well_formed_field (compact_array n t) = solid t && well_formed t
  well_formed_field (compact_nullable_array n t) = solid t && well_formed t
  well_formed_field (schema_tagged_fields n) = true

  pub well_formed_fields : Fields → Bool
  well_formed_fields no_field = true
  well_formed_fields (field f fs) = well_formed_field f && well_formed_fields fs

abbrev pub IsTagged : RawTaggedField → Type 0
IsTagged f = InRange half64 f.tag × Shorter half64 f.content

mutual
  pub data HasType : Schema → Value → Type 0 where
    is_bool : (b : Bool) → HasType type_bool (bool b)
    is_int16 : (z : ℤ) → InRange half16 z → HasType type_int16 (int16 z)
    is_int32 : (z : ℤ) → InRange half32 z → HasType type_int32 (int32 z)
    is_str : (s : List ℕ) → length s < half16 → HasType type_str (string s)
    is_nullable_str :
        (o : Option (List ℕ)) → Shorter half16 o → HasType type_nullable_str (string_ptr o)
    is_compact_str : (s : List ℕ) → length s < half64 → HasType type_compact_str (string s)
    is_compact_nullable_str :
        (o : Option (List ℕ)) → Shorter half64 o → HasType type_compact_nullable_str (string_ptr o)
    is_uuid : (s : List ℕ) → length s ≡ 16 → HasType type_uuid (uuid s)
    is_struct :
        {n : String} {fs : Fields} {vs : Values}
        → FieldsHaveTypes fs vs
        → HasType (schema n fs) (struct (schema n fs) vs)

  pub data FieldHasType : Field → Value → Type 0 where
    in_mfield : {n : String} {t : Schema} {v : Value} → HasType t v → FieldHasType (mfield n t) v
    in_array :
        {n : String} {t : Schema} {vs : Values}
        → solid t ≡ true
        → count vs ≤ 131070
        → EachHasType t vs
        → FieldHasType (array n t) (list vs)
    in_compact_array :
        {n : String} {t : Schema} {vs : Values}
        → solid t ≡ true
        → count vs < half64
        → EachHasType t vs
        → FieldHasType (compact_array n t) (list vs)
    in_nullable_array :
        {n : String} {t : Schema} {vs : Values}
        → solid t ≡ true
        → count vs < half64
        → EachHasType t vs
        → FieldHasType (compact_nullable_array n t) (list vs)
    in_null_array : {n : String} {t : Schema} → FieldHasType (compact_nullable_array n t) nil
    in_tagged_fields :
        {n : String} (fs : List RawTaggedField)
        → length fs ≤ max_tagged_fields
        → All IsTagged fs
        → FieldHasType (schema_tagged_fields n) (raw_tagged_fields fs)

  pub data FieldsHaveTypes : Fields → Values → Type 0 where
    none_left : FieldsHaveTypes no_field no_value
    one_more :
        {f : Field} {fs : Fields} {v : Value} {vs : Values}
        → FieldHasType f v
        → FieldsHaveTypes fs vs
        → FieldsHaveTypes (field f fs) (item v vs)

  pub data EachHasType : Schema → Values → Type 0 where
    each_none : {t : Schema} → EachHasType t no_value
    each_item :
        {t : Schema} {v : Value} {vs : Values}
        → HasType t v
        → EachHasType t vs
        → EachHasType t (item v vs)
