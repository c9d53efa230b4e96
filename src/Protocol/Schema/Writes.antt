-- ===== src/Protocol/Schema/Writes.antt =====
-- Both encoders lay a value out as its bytes: prepEncoder measures them, realEncoder writes them.
use kafka_gcp_proxy.Base.{
  ℕ, ◌≡◌, sym, ◌∙◌, pos, minus_one, Bool, true, false, Option, none, List, [], ◌∷◌, arith, Error,
  schema_encoding, Result, ok, err, ◌>>=◌, >>=-eq-ok, ltb, ◌==◌, if◌then◌else◌, length, Bool-cases,
  inl, inr,
}
use kafka_gcp_proxy.Protocol.PacketEncoder.{Put}
use kafka_gcp_proxy.Protocol.PrepEncoder.{prep_encoder}
use kafka_gcp_proxy.Protocol.RealEncoder.{RealEncoder, real_encoder}
use kafka_gcp_proxy.Protocol.Encoding.{max_request_size}
use kafka_gcp_proxy.Protocol.Encoding.Writes.{
  Writes, Writes-ok, Writes-err, Writes-then, two_passes-Writes,
}
use kafka_gcp_proxy.Protocol.Wire.{wire_each}
use kafka_gcp_proxy.Protocol.Wire.Writes.{
  WritesAt, Writes-bool, Writes-int16, Writes-int32, Writes-string, Writes-nullable_string,
  Writes-compact_string, Writes-compact_nullable_string, Writes-uuid, Writes-varint,
  Writes-varint_bytes, Writes-array_length, Writes-compact_array_length,
  Writes-compact_nullable_array_length,
}
use kafka_gcp_proxy.Protocol.Schema.Encode.{
  encode_schema, encode_field, encode_fields, encode_array_elements, put_tagged_field,
  put_tagged_each, put_tagged_fields, put_nil, as_bool, as_int16, as_int32, as_string,
  as_string_ptr, as_uuid, as_tagged_fields, as_list, as_struct, is_nil, encode_struct,
}
use kafka_gcp_proxy.Protocol.Schema.Layout.{
  bytes_of, wire_schema, wire_field, wire_fields, wire_values, wire_tagged_field,
  wire_tagged_fields,
}
use kafka_gcp_proxy.Protocol.Schema.{
  Schema, Field, Fields, type_bool, type_int16, type_int32, type_str, type_nullable_str,
  type_compact_str, type_compact_nullable_str, type_uuid, schema, mfield, array, compact_array,
  compact_nullable_array, schema_tagged_fields, no_field, field, Value, Values, uuid, struct, nil,
  no_value, item, count, count_fields,
}

-- A type assertion in front of a method.
Writes-as {ℓ} :
    {A : Type ℓ} (r : Result A) {wire : A → List ℕ} {prep : A → Put ℕ} {real : A → Put RealEncoder}
    → WritesAt wire prep real
    → Writes (bytes_of r wire) (λ n. r >>= λ a. prep a n) (λ s. r >>= λ a. real a s)
Writes-as (ok a) f = f a
Writes-as (err e) {real = real} f = Writes-err [] e (λ s. err e)

prep_schema : Schema → Value → Put ℕ
prep_schema = encode_schema ⦃pe = prep_encoder⦄

Writes-tagged_field :
    WritesAt wire_tagged_field
      (put_tagged_field ⦃pe = prep_encoder⦄)
      (put_tagged_field ⦃pe = real_encoder⦄)
Writes-tagged_field f = Writes-then (Writes-varint f.tag) (Writes-varint_bytes f.content)

tagged_each :
    WritesAt
      (wire_each wire_tagged_field)
      (put_tagged_each ⦃pe = prep_encoder⦄)
      (put_tagged_each ⦃pe = real_encoder⦄)
tagged_each [] = Writes-ok
tagged_each (f ∷ fs) = Writes-then (Writes-tagged_field f) (tagged_each fs)

pub Writes-tagged_fields :
    WritesAt wire_tagged_fields
      (put_tagged_fields ⦃pe = prep_encoder⦄)
      (put_tagged_fields ⦃pe = real_encoder⦄)
Writes-tagged_fields fs = Writes-then (Writes-varint (pos (length fs))) (tagged_each fs)

Writes-values :
    {wire : Value → List ℕ} {prep : Value → Put ℕ} {real : Value → Put RealEncoder}
    → WritesAt wire prep real
    → WritesAt
        (wire_values wire)
        (encode_array_elements ⦃pe = prep_encoder⦄ prep)
        (encode_array_elements ⦃pe = real_encoder⦄ real)
unfolding encode_array_elements
Writes-values f no_value = Writes-ok
Writes-values f (item v vs) = Writes-then (f v) (Writes-values f vs)

sixteen_bytes :
    WritesAt
      (λ v. bytes_of (as_uuid v) (λ u. u))
      (λ v n. as_uuid v >>= λ u. prep_encoder.put_uuid u n)
      (λ v s. as_uuid v >>= λ u. real_encoder.put_uuid u s)
sixteen_bytes (uuid u) = elim (Bool-cases (length u == 16)) [
  | inl e ↦ rw e (Writes-uuid u (ground arith))
  | inr e ↦ rw e (Writes-err [] _ _)
]
sixteen_bytes _ = Writes-err [] _ _

never_ok :
    (prep : Put ℕ) (real : Put RealEncoder) (e : Error)
    → Writes [] (λ n. prep n >>= λ m. err e) real
never_ok prep real e = record {
  measured = λ n n' h. absurd (refused n n' h);
  written = λ n n' h w room l. absurd (refused n n' h);
}
  where
    refused : (n n' : ℕ) → (prep n >>= λ m. err e) ≡ ok n' → ⊥
    refused n n' h = let (a, p, q) = >>=-eq-ok (prep n) (λ m. err e) h in cc

module _ {wire : Option (List ℕ) → List ℕ} {prep : Option (List ℕ) → Put ℕ}
    {real : Option (List ℕ) → Put RealEncoder} (f : WritesAt wire prep real) where
  nullable_text :
      WritesAt
        (λ v. bytes_of (as_string_ptr v) wire)
        (λ v n. put_nil ⦃pe = prep_encoder⦄ prep v n >>= λ m. as_string_ptr v >>= λ o. prep o m)
        (λ v s. put_nil ⦃pe = real_encoder⦄ real v s >>= λ m. as_string_ptr v >>= λ o. real o m)
  nullable_text nil = never_ok (prep none) _ _
  nullable_text v = Writes-as (as_string_ptr v) f

only_if :
    {bytes : List ℕ} {prep : Put ℕ} {real : Put RealEncoder} (b : Bool) (e : Error)
    → Writes bytes prep real
    → Writes bytes (λ n. if b then prep n else err e) (λ s. if b then real s else err e)
only_if true e f = f
only_if {bytes} false e f = Writes-err bytes e _

choice :
    {w₁ w₂ : List ℕ} {p₁ p₂ : Put ℕ} {r₁ r₂ : Put RealEncoder} (b : Bool)
    → Writes w₁ p₁ r₁
    → Writes w₂ p₂ r₂
    → Writes (if b then w₁ else w₂) (λ n. if b then p₁ n else p₂ n) (λ s. if b then r₁ s else r₂ s)
choice true f g = f
choice false f g = g

mutual
  unfolding encode_schema wire_schema

  schema_writes :
      (t : Schema)
      → WritesAt
          (wire_schema t)
          (encode_schema ⦃pe = prep_encoder⦄ t)
          (encode_schema ⦃pe = real_encoder⦄ t)
  schema_writes type_bool v = Writes-as (as_bool v) Writes-bool
  schema_writes type_int16 v = Writes-as (as_int16 v) Writes-int16
  schema_writes type_int32 v = Writes-as (as_int32 v) Writes-int32
  schema_writes type_str v = Writes-as (as_string v) Writes-string
  schema_writes type_nullable_str v = nullable_text Writes-nullable_string v
  schema_writes type_compact_str v = Writes-as (as_string v) Writes-compact_string
  schema_writes type_compact_nullable_str v = nullable_text Writes-compact_nullable_string v
  schema_writes type_uuid v = sixteen_bytes v
  schema_writes (schema n fs) v =
      Writes-as (as_struct v) (λ vs. only_if (count vs == count_fields fs) _ (fields_writes fs vs))

  field_writes :
      (f : Field)
      → WritesAt
          (wire_field f)
          (encode_field ⦃pe = prep_encoder⦄ f)
          (encode_field ⦃pe = real_encoder⦄ f)
  field_writes (mfield n t) v = schema_writes t v
  field_writes (array n t) v = Writes-as (as_list v) (λ vs.
      Writes-then (Writes-array_length (pos (count vs))) (Writes-values (schema_writes t) vs))
  field_writes (compact_array n t) v = Writes-as (as_list v) (λ vs.
      Writes-then (Writes-compact_array_length (pos (count vs)))
        (Writes-values (schema_writes t) vs))
  field_writes (compact_nullable_array n t) v =
      choice (is_nil v) (Writes-compact_nullable_array_length minus_one) (
        Writes-as (as_list v) (λ vs.
          Writes-then (Writes-compact_nullable_array_length (pos (count vs)))
            (Writes-values (schema_writes t) vs)))
  field_writes (schema_tagged_fields n) v = Writes-as (as_tagged_fields v) Writes-tagged_fields

  fields_writes :
      (fs : Fields)
      → WritesAt
          (wire_fields fs)
          (encode_fields ⦃pe = prep_encoder⦄ fs)
          (encode_fields ⦃pe = real_encoder⦄ fs)
  fields_writes no_field no_value = Writes-ok
  fields_writes no_field (item v vs) = Writes-err [] _ _
  fields_writes (field f fs) no_value = Writes-ok
  fields_writes (field f fs) (item v vs) = Writes-then (field_writes f v) (fields_writes fs vs)

-- On every schema and value the two passes agree: if prepEncoder accepts the value, it has measured
-- the length of the value's bytes, and realEncoder writes exactly these into a buffer with as much
-- room, and neither fails nor panics.
pub encode_schema-Writes :
    (t : Schema) (v : Value)
    → Writes
        (wire_schema t v)
        (encode_schema ⦃pe = prep_encoder⦄ t v)
        (encode_schema ⦃pe = real_encoder⦄ t v)
encode_schema-Writes t v = schema_writes t v

-- EncodeSchema returns the value's bytes, or the error of prepEncoder, or the error for more than
-- max_request_size bytes; it never panics in the second pass.
pub encode_struct_lem :
    (own : Schema) (vs : Values) (t : Schema)
    → encode_struct (own, vs) t ≡ (
        encode_schema ⦃pe = prep_encoder⦄ t (struct own vs) 0 >>= λ n.
        if ltb max_request_size n
        then err (schema_encoding "invalid request size")
        else ok (wire_schema t (struct own vs)))
unfolding encode_struct
encode_struct_lem own vs t =
    two_passes-Writes (schema_encoding "invalid request size")
      (encode_schema-Writes t (struct own vs))

-- What EncodeSchema returns is the value's bytes.
pub encode_struct-eq_ok :
    (own : Schema) (vs : Values) (t : Schema) (out : List ℕ)
    → encode_struct (own, vs) t ≡ ok out
    → out ≡ wire_schema t (struct own vs)
encode_struct-eq_ok own vs t out h =
    go (encode_schema ⦃pe = prep_encoder⦄ t (struct own vs) 0)
      (sym (encode_struct_lem own vs t) ∙ h)
  where
    go :
        (r : Result ℕ)
        → (r >>= λ n.
            if ltb max_request_size n
            then err (schema_encoding "invalid request size")
            else ok (wire_schema t (struct own vs)))
          ≡ ok out
        → out ≡ wire_schema t (struct own vs)
    go (ok n) e = ground arith
    go (err x) e = cc
