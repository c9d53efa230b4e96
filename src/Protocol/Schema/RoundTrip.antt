-- ===== src/Protocol/Schema/RoundTrip.antt =====
-- A value of a schema is read back from its bytes.
use kafka_gcp_proxy.Base.{
  ℕ, ◌≤◌, ◌≡◌, refl, ap, ◌∙◌, pos, List, [], ◌∷◌, ◌++◌, append_assoc, arith, ok, ge→ltb, length,
  All,
}
use kafka_gcp_proxy.Protocol.Decoder.{
  Decoder, pure, ◌>>=◌, >>=-ok, get_bool, get_int16, get_int32, get_string, get_nullable_string,
  get_compact_string, get_compact_nullable_string, get_uuid, get_varint, get_varint_bytes,
  get_array_length, get_compact_length, get_compact_nullable_length,
}
use kafka_gcp_proxy.Protocol.Wire.{
  wire_int16, wire_string, wire_int32, wire_compact_length, wire_each, wire_varint,
  wire_varint_bytes,
}
use kafka_gcp_proxy.Protocol.Wire.Reads.{
  Reads, Reads-bool, Reads-int16, Reads-int32, Reads-string, Reads-nullable_string,
  Reads-compact_string, Reads-compact_nullable_string, Reads-uuid, Reads-varint, Reads-varint_bytes,
  Reads-each, array_length, compact_count, compact_nullable_count, compact_null,
}
use kafka_gcp_proxy.Protocol.Schema.Decode.{
  boxed, decode_schema, decode_field, decode_fields, decode_each, decode_array_elements,
  decode_nullable_elements, decode_tagged_fields, tagged_fields_count, raw_tagged_field,
  tagged_field_of, max_tagged_fields,
}
use kafka_gcp_proxy.Protocol.Schema.Sizes.{uuid_bytes, count-le}
use kafka_gcp_proxy.Protocol.Schema.Layout.{
  wire_schema, wire_field, wire_fields, wire_values, wire_tagged_field, wire_tagged_fields,
}
use kafka_gcp_proxy.Protocol.Schema.Typing.{
  HasType, FieldHasType, FieldsHaveTypes, EachHasType, IsTagged, is_bool, is_int16, is_int32,
  is_str, is_nullable_str, is_compact_str, is_compact_nullable_str, is_uuid, is_struct, in_mfield,
  in_array, in_compact_array, in_nullable_array, in_null_array, in_tagged_fields, none_left,
  one_more, each_none, each_item,
}
use kafka_gcp_proxy.Protocol.Schema.{
  Schema, Field, Fields, RawTaggedField, Value, Values, bool, int16, int32, string, string_ptr,
  uuid, raw_tagged_fields, list, struct, no_value, item, count, schema, type_uuid,
}

boxes :
    {A : Type 0} (box : A → Value) (d : Decoder A) (wire : List ℕ) {a : A}
    → Reads d wire a
    → Reads (boxed box d) wire (box a)
boxes box d wire r rest = >>=-ok d (λ a. pure (box a)) (r rest)

-- All the elements can be read.
abbrev EachReads : Decoder Value → (Value → List ℕ) → Values → Type 0
EachReads d wire no_value = Unit {0}
EachReads d wire (item v vs) = Reads d (wire v) v × EachReads d wire vs

Reads-values :
    (d : Decoder Value) (wire : Value → List ℕ) (vs : Values)
    → EachReads d wire vs
    → Reads (decode_each d (count vs)) (wire_values wire vs) vs
unfolding decode_each
Reads-values d wire no_value h rest = refl
Reads-values d wire (item v vs) (hv, hs) rest =
    rw (append_assoc (wire v) (wire_values wire vs) rest) (
      >>=-ok d (λ x. decode_each d (count vs) >>= λ xs. pure (item x xs))
        (hv (wire_values wire vs ++ rest))
      ∙ >>=-ok (decode_each d (count vs)) (λ xs. pure (item v xs)) (Reads-values d wire vs hs rest))

-- A length is read, then the elements.
module _ (d : Decoder Value) (wire : Value → List ℕ) (vs : Values) (h : EachReads d wire vs) where
  elements : Reads (decode_array_elements d (pos (count vs))) (wire_values wire vs) (list vs)
  elements = boxes list (decode_each d (count vs)) _ (Reads-values d wire vs h)

tagged_field : (f : RawTaggedField) → IsTagged f → Reads raw_tagged_field (wire_tagged_field f) f
tagged_field f (ht, hc) rest =
    rw (append_assoc (wire_varint f.tag) (wire_varint_bytes f.content) rest) (
      >>=-ok get_varint (λ t. get_varint_bytes >>= λ c. pure (tagged_field_of t c))
        (Reads-varint f.tag ht (wire_varint_bytes f.content ++ rest))
      ∙ >>=-ok get_varint_bytes (λ c. pure (tagged_field_of f.tag c))
          (Reads-varint_bytes f.content hc rest))

Reads-raw_fields :
    (fs : List RawTaggedField)
    → All IsTagged fs
    → All (λ f. Reads raw_tagged_field (wire_tagged_field f) f) fs
Reads-raw_fields [] h = tt
Reads-raw_fields (f ∷ fs) (hf, hs) = (tagged_field f hf, Reads-raw_fields fs hs)

pub Reads-tagged_fields :
    (fs : List RawTaggedField)
    → length fs ≤ max_tagged_fields
    → All IsTagged fs
    → Reads decode_tagged_fields (wire_tagged_fields fs) fs
unfolding decode_tagged_fields
Reads-tagged_fields fs c h rest =
    rw (append_assoc (wire_varint (pos (length fs))) (wire_each wire_tagged_field fs) rest) (
      >>=-ok get_varint tagged_fields_count
        (Reads-varint (pos (length fs)) (omega arith) (wire_each wire_tagged_field fs ++ rest))
      ∙ rw (ge→ltb _ _ c)
          (Reads-each raw_tagged_field wire_tagged_field fs (Reads-raw_fields fs h) rest))

mutual
  unfolding decode_schema wire_schema

  schema-Reads :
      {t : Schema} {v : Value} → HasType t v → Reads (decode_schema t) (wire_schema t v) v
  schema-Reads (is_bool b) rest = boxes bool get_bool _ (Reads-bool b) rest
  schema-Reads (is_int16 z r) rest = boxes int16 get_int16 (wire_int16 z) (Reads-int16 z r) rest
  schema-Reads (is_int32 z r) rest = boxes int32 get_int32 (wire_int32 z) (Reads-int32 z r) rest
  schema-Reads (is_str s r) rest = boxes string get_string (wire_string s) (Reads-string s r) rest
  schema-Reads (is_nullable_str o r) rest =
      boxes string_ptr get_nullable_string _ (Reads-nullable_string o r) rest
  schema-Reads (is_compact_str s r) rest =
      boxes string get_compact_string _ (Reads-compact_string s r) rest
  schema-Reads (is_compact_nullable_str o r) rest =
      boxes string_ptr get_compact_nullable_string _ (Reads-compact_nullable_string o r) rest
  schema-Reads (is_uuid s r) rest =
      ap (λ (w : List ℕ). decode_schema type_uuid (w ++ rest)) (uuid_bytes s r)
      ∙ boxes uuid get_uuid s (Reads-uuid s r) rest
  schema-Reads (is_struct {n} {fs} {vs} p) rest =
      >>=-ok (decode_fields fs) (λ xs. pure (struct (schema n fs) xs)) (fields_read p rest)

  field-Reads :
      {f : Field} {v : Value} → FieldHasType f v → Reads (decode_field f) (wire_field f v) v
  field-Reads (in_mfield p) rest = schema-Reads p rest
  field-Reads (in_array {n} {t} {vs} s c p) rest =
      >>=-ok get_array_length (decode_array_elements (decode_schema t))
        (array_length (count vs) _ c (count-le rest p s))
      ∙ elements (decode_schema t) (wire_schema t) vs (each-Reads p) rest
  field-Reads (in_compact_array {n} {t} {vs} s c p) rest =
      rw (append_assoc (wire_compact_length (pos (count vs))) (wire_values (wire_schema t) vs) rest)
        (>>=-ok get_compact_length (λ k. decode_array_elements (decode_schema t) (pos k))
            (compact_count (count vs) _ c (count-le rest p s))
          ∙ elements (decode_schema t) (wire_schema t) vs (each-Reads p) rest)
  field-Reads (in_nullable_array {n} {t} {vs} s c p) rest =
      rw (append_assoc (wire_compact_length (pos (count vs))) (wire_values (wire_schema t) vs) rest)
        (>>=-ok get_compact_nullable_length (decode_nullable_elements (decode_schema t))
            (compact_nullable_count (count vs) _ c (count-le rest p s))
          ∙ elements (decode_schema t) (wire_schema t) vs (each-Reads p) rest)
  field-Reads (in_null_array {n} {t}) rest =
      >>=-ok get_compact_nullable_length (decode_nullable_elements (decode_schema t))
        (compact_null rest)
  field-Reads (in_tagged_fields fs c h) rest =
      boxes raw_tagged_fields decode_tagged_fields _ (Reads-tagged_fields fs c h) rest

  fields_read :
      {fs : Fields} {vs : Values}
      → FieldsHaveTypes fs vs
      → Reads (decode_fields fs) (wire_fields fs vs) vs
  fields_read none_left rest = refl
  fields_read (one_more {f} {fs} {v} {vs} p ps) rest =
      rw (append_assoc (wire_field f v) (wire_fields fs vs) rest) (
        >>=-ok (decode_field f) (λ x. decode_fields fs >>= λ xs. pure (item x xs))
          (field-Reads p (wire_fields fs vs ++ rest))
        ∙ >>=-ok (decode_fields fs) (λ xs. pure (item v xs)) (fields_read ps rest))

  each-Reads :
      {t : Schema} {vs : Values} → EachHasType t vs → EachReads (decode_schema t) (wire_schema t) vs
  each-Reads each_none = tt
  each-Reads (each_item p ps) = (schema-Reads p, each-Reads ps)

-- Decoding gives back every value of a schema from its bytes, and leaves what follows them.
pub decode_schema-wire_schema :
    {t : Schema} {v : Value} (rest : List ℕ)
    → HasType t v
    → decode_schema t (wire_schema t v ++ rest) ≡ ok (v, rest)
decode_schema-wire_schema rest p = schema-Reads p rest
