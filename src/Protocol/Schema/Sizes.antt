-- ===== src/Protocol/Schema/Sizes.antt =====
-- Every value of a solid schema takes a byte at least.
use kafka_gcp_proxy.Base.{
  ℕ, ◌≤◌, ◌≡◌, ap, true, false, none, some, List, ◌++◌, arith, ==_refl, length, length-append,
}
use kafka_gcp_proxy.Protocol.Varint.{put_uvarint, put_uvarint_size}
use kafka_gcp_proxy.Protocol.Schema.Layout.{wire_schema, wire_field, wire_fields, wire_values}
use kafka_gcp_proxy.Protocol.Schema.Typing.{
  solid, solid_field, solid_fields, HasType, FieldHasType, FieldsHaveTypes, EachHasType, is_bool,
  is_int16, is_int32, is_str, is_nullable_str, is_compact_str, is_compact_nullable_str, is_uuid,
  is_struct, in_mfield, in_array, in_compact_array, in_nullable_array, in_null_array,
  in_tagged_fields, none_left, one_more, each_none, each_item,
}
use kafka_gcp_proxy.Protocol.Schema.{Schema, Field, Fields, Value, Values, uuid, count, type_uuid}

varint_pos : (n : ℕ) (s : List ℕ) → 1 ≤ length (put_uvarint n ++ s)
varint_pos n s = omega (arith, put_uvarint_size n, length-append (put_uvarint n) s)

pub uuid_bytes : (s : List ℕ) → length s ≡ 16 → wire_schema type_uuid (uuid s) ≡ s
unfolding wire_schema
uuid_bytes s h = rw (==_refl (length s) h)

mutual
  unfolding wire_schema solid

  wire_schema_pos :
      {t : Schema} {v : Value} → HasType t v → solid t ≡ true → 1 ≤ length (wire_schema t v)
  wire_schema_pos (is_bool true) h = omega arith
  wire_schema_pos (is_bool false) h = omega arith
  wire_schema_pos (is_int16 z r) h = omega arith
  wire_schema_pos (is_int32 z r) h = omega arith
  wire_schema_pos (is_str s r) h = omega arith
  wire_schema_pos (is_nullable_str none r) h = omega arith
  wire_schema_pos (is_nullable_str (some s) r) h = omega arith
  wire_schema_pos (is_compact_str s r) h = varint_pos _ s
  wire_schema_pos (is_compact_nullable_str none r) h = (put_uvarint_size _).0
  wire_schema_pos (is_compact_nullable_str (some s) r) h = varint_pos _ s
  wire_schema_pos (is_uuid s r) h = omega (arith, ap length (uuid_bytes s r))
  wire_schema_pos (is_struct fs) h = wire_fields_pos fs h

  wire_field_pos :
      {f : Field} {v : Value}
      → FieldHasType f v
      → solid_field f ≡ true
      → 1 ≤ length (wire_field f v)
  wire_field_pos (in_mfield p) h = wire_schema_pos p h
  wire_field_pos (in_array s c p) h = omega arith
  wire_field_pos (in_compact_array s c p) h = varint_pos _ _
  wire_field_pos (in_nullable_array s c p) h = varint_pos _ _
  wire_field_pos in_null_array h = (put_uvarint_size _).0
  wire_field_pos (in_tagged_fields fs c p) h = varint_pos _ _

  wire_fields_pos :
      {fs : Fields} {vs : Values}
      → FieldsHaveTypes fs vs
      → solid_fields fs ≡ true
      → 1 ≤ length (wire_fields fs vs)
  wire_fields_pos none_left h = cc
  wire_fields_pos (one_more {f} {fs} {v} {vs} p ps) h =
      omega (arith, wire_field_pos p h, length-append (wire_field f v) (wire_fields fs vs))

pub count-le :
    {t : Schema} {vs : Values} (rest : List ℕ)
    → EachHasType t vs
    → solid t ≡ true
    → count vs ≤ length (wire_values (wire_schema t) vs ++ rest)
count-le rest each_none h = omega arith
count-le rest (each_item {t} {v} {vs} p ps) h = omega (
  arith,
  wire_schema_pos p h,
  count-le rest ps h,
  length-append (wire_schema t v ++ wire_values (wire_schema t) vs) rest,
  length-append (wire_schema t v) (wire_values (wire_schema t) vs),
  length-append (wire_values (wire_schema t) vs) rest,
)
