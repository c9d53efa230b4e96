-- ===== src/Protocol/Schema/Sound.antt =====
-- Decoding returns only values of the schema.
use kafka_gcp_proxy.Base.{
  ℕ, zero, suc, ◌≤◌, ◌<◌, ◌≡◌, refl, ap, subst, ℤ, pos, negsuc, half64, true, false, &&-true,
  Bool-cases, inl, inr, String, List, arith, ok, ltb, length, All,
}
use kafka_gcp_proxy.Protocol.Decoder.{
  Decoder, pure, ◌>>=◌, >>=-eq-ok, get_bool, get_int16, get_int32, get_string, get_nullable_string,
  get_compact_string, get_compact_nullable_string, get_uuid, get_varint, get_varint_bytes,
  get_array_length, get_compact_length, get_compact_nullable_length,
}
use kafka_gcp_proxy.Protocol.Decoder.Ranges.{
  Gives, read_value, Gives-int16, Gives-int32, Gives-varint, Gives-string, Gives-nullable_string,
  Gives-compact_string, Gives-compact_nullable_string, Gives-uuid, Gives-varint_bytes,
  Gives-array_length, Gives-each, compact_length-Tested, compact_nullable_length-Tested,
}
use kafka_gcp_proxy.Protocol.Schema.Decode.{
  boxed, decode_schema, decode_field, decode_fields, decode_each, decode_array_elements,
  decode_nullable_elements, decode_tagged_fields, tagged_fields_count, raw_tagged_field,
  max_tagged_fields, tagged_field_of,
}
use kafka_gcp_proxy.Protocol.Schema.Typing.{
  solid, well_formed, well_formed_field, well_formed_fields, HasType, FieldHasType, FieldsHaveTypes,
  EachHasType, IsTagged, is_bool, is_int16, is_int32, is_str, is_nullable_str, is_compact_str,
  is_compact_nullable_str, is_uuid, is_struct, in_mfield, in_array, in_compact_array,
  in_nullable_array, in_null_array, in_tagged_fields, none_left, one_more, each_none, each_item,
}
use kafka_gcp_proxy.Protocol.Schema.{
  Schema, Field, Fields, type_bool, type_int16, type_int32, type_str, type_nullable_str,
  type_compact_str, type_compact_nullable_str, type_uuid, schema, mfield, array, compact_array,
  compact_nullable_array, schema_tagged_fields, no_field, field, RawTaggedField, Value, Values,
  bool, int16, int32, string, string_ptr, uuid, raw_tagged_fields, list, struct, no_value, item,
  count,
}

Gives-boxed :
    {A : Type 0} {P : A → Type 0} (Q : Value → Type 0) (box : A → Value) (d : Decoder A)
    → Gives d P
    → ((a : A) → P a → Q (box a))
    → Gives (boxed box d) Q
Gives-boxed Q box d g f bs rest v h =
    let (a, m, e, k) = >>=-eq-ok d (λ a. pure (box a)) bs h in
    subst Q (read_value k) (f a (g bs m a e))

Gives-bool : Gives get_bool (λ b. Unit {0})
Gives-bool bs rest b h = tt

Gives-raw_field : Gives raw_tagged_field IsTagged
Gives-raw_field bs rest f h =
    let (t, m, e, k) =
      >>=-eq-ok get_varint (λ t. get_varint_bytes >>= λ c. pure (tagged_field_of t c)) bs h in
    let (c, m', e', k') = >>=-eq-ok get_varint_bytes (λ c. pure (tagged_field_of t c)) m k in
    subst IsTagged (read_value k') (Gives-varint bs m t e, Gives-varint_bytes m m' c e')

raw_count :
    (z : ℤ) (bs rest : List ℕ) (fs : List RawTaggedField)
    → tagged_fields_count z bs ≡ ok (fs, rest)
    → (length fs ≤ max_tagged_fields) × All IsTagged fs
raw_count (negsuc n) bs rest fs h = cc
raw_count (pos n) bs rest fs h = elim (Bool-cases (ltb max_tagged_fields n)) [
  | inl e ↦ absurd (too_many e)
  | inr e ↦
      let (tagged, size) = Gives-each raw_tagged_field n Gives-raw_field bs rest fs (rw e at h) in
      (omega (arith, size, ltb-false e), tagged)
]
  where
    too_many : ltb max_tagged_fields n ≡ true → ⊥
    too_many e = cc (rw e at h)

    ltb-false : ltb max_tagged_fields n ≡ false → n ≤ max_tagged_fields
    ltb-false e = ground arith

Gives-raw_fields :
    Gives decode_tagged_fields (λ fs. (length fs ≤ max_tagged_fields) × All IsTagged fs)
unfolding decode_tagged_fields
Gives-raw_fields bs rest fs h =
    let (z, m, e, k) = >>=-eq-ok get_varint tagged_fields_count bs h in raw_count z m rest fs k

Gives-elements :
    (t : Schema) (d : Decoder Value) (n : ℕ)
    → Gives d (HasType t)
    → Gives (decode_each d n) (λ vs. EachHasType t vs × (count vs ≡ n))
unfolding decode_each
Gives-elements t d zero g bs rest vs h =
    subst (λ ws. EachHasType t ws × (count ws ≡ 0)) (read_value h) (each_none, refl)
Gives-elements t d (suc n) g bs rest vs h =
    let (x, m, e, k) = >>=-eq-ok d (λ x. decode_each d n >>= λ xs. pure (item x xs)) bs h in
    let (ys, m', e', k') = >>=-eq-ok (decode_each d n) (λ xs. pure (item x xs)) m k in
    let (ps, size) = Gives-elements t d n g m m' ys e' in
    subst (λ ws. EachHasType t ws × (count ws ≡ suc n)) (read_value k')
      (each_item (g bs m x e) ps, ap suc size)

abbrev size : ℤ → ℕ
size (pos n) = n
size (negsuc n) = 0

-- A list of as many elements as the length says.
abbrev ListOf : Schema → ℕ → Value → Type 0
ListOf t n v = (vs : Values) × (list vs ≡ v) × EachHasType t vs × (count vs ≡ n)

elements_given :
    (t : Schema) (d : Decoder Value) (z : ℤ)
    → Gives d (HasType t)
    → Gives (decode_array_elements d z) (ListOf t (size z))
elements_given t d (pos n) g bs rest v h =
    let (vs, m, e, k) = >>=-eq-ok (decode_each d n) (λ vs. pure (list vs)) bs h in
    let (each, counted) = Gives-elements t d n g bs m vs e in (vs, read_value k, each, counted)
elements_given t d (negsuc n) g bs rest v h = (no_value, read_value h, each_none, refl)

array_size : (bs mid : List ℕ) (z : ℤ) → get_array_length bs ≡ ok (z, mid) → size z ≤ 131070
array_size bs mid (pos n) h = Gives-array_length bs mid n h
array_size bs mid (negsuc n) h = omega arith

-- A list that is found to be of the field's type.
listed :
    (f : Field) (t : Schema) (n : ℕ) (v : Value)
    → ((vs : Values) → EachHasType t vs → count vs ≡ n → FieldHasType f (list vs))
    → ListOf t n v
    → FieldHasType f v
listed f t n v g (vs, e, each, counted) = subst (FieldHasType f) e (g vs each counted)

nullable_given :
    (name : String) (t : Schema) (d : Decoder Value) (z : ℤ) (bs mid rest : List ℕ) (v : Value)
    → solid t ≡ true
    → Gives d (HasType t)
    → get_compact_nullable_length bs ≡ ok (z, mid)
    → decode_nullable_elements d z mid ≡ ok (v, rest)
    → FieldHasType (compact_nullable_array name t) v
nullable_given name t d (pos n) bs mid rest v s g e h =
    let small : n < half64 = (compact_nullable_length-Tested bs mid (pos n) e).0 in
    listed (compact_nullable_array name t) t n v
      (λ vs each counted. in_nullable_array s (omega (arith, counted, small)) each)
      (elements_given t d (pos n) g mid rest v h)
nullable_given name t d (negsuc zero) bs mid rest v s g e h =
    subst (FieldHasType (compact_nullable_array name t)) (read_value h) in_null_array
nullable_given name t d (negsuc (suc n)) bs mid rest v s g e h =
    listed (compact_nullable_array name t) t 0 v
      (λ vs each counted. in_nullable_array s (omega (arith, counted)) each)
      (elements_given t d (negsuc (suc n)) g mid rest v h)

mutual
  unfolding decode_schema well_formed

  schema_gives : (t : Schema) → well_formed t ≡ true → Gives (decode_schema t) (HasType t)
  schema_gives type_bool w =
      Gives-boxed (HasType type_bool) bool get_bool Gives-bool (λ b p. is_bool b)
  schema_gives type_int16 w = Gives-boxed (HasType type_int16) int16 get_int16 Gives-int16 is_int16
  schema_gives type_int32 w = Gives-boxed (HasType type_int32) int32 get_int32 Gives-int32 is_int32
  schema_gives type_str w = Gives-boxed (HasType type_str) string get_string Gives-string is_str
  schema_gives type_nullable_str w =
      Gives-boxed (HasType type_nullable_str) string_ptr get_nullable_string Gives-nullable_string
        is_nullable_str
  schema_gives type_compact_str w =
      Gives-boxed (HasType type_compact_str) string get_compact_string Gives-compact_string
        is_compact_str
  schema_gives type_compact_nullable_str w =
      Gives-boxed (HasType type_compact_nullable_str) string_ptr get_compact_nullable_string
        Gives-compact_nullable_string is_compact_nullable_str
  schema_gives type_uuid w = Gives-boxed (HasType type_uuid) uuid get_uuid Gives-uuid is_uuid
  schema_gives (schema n fs) w = λ bs rest v h.
      let (vs, m, e, k) =
        >>=-eq-ok (decode_fields fs) (λ vs. pure (struct (schema n fs) vs)) bs h in
      subst (HasType (schema n fs)) (read_value k) (is_struct (fields_give fs w bs m vs e))

  field_gives : (f : Field) → well_formed_field f ≡ true → Gives (decode_field f) (FieldHasType f)
  field_gives (mfield n t) w = λ bs rest v h. in_mfield (schema_gives t w bs rest v h)
  field_gives (array n t) w = λ bs rest v h.
      let (s, wt) = &&-true (solid t) (well_formed t) w in
      let (z, m, e, k) =
        >>=-eq-ok get_array_length (decode_array_elements (decode_schema t)) bs h in
      listed (array n t) t (size z) v
        (λ vs each counted. in_array s (omega (arith, counted, array_size bs m z e)) each)
        (elements_given t (decode_schema t) z (schema_gives t wt) m rest v k)
  field_gives (compact_array n t) w = λ bs rest v h.
      let (s, wt) = &&-true (solid t) (well_formed t) w in
      let (c, m, e, k) =
        >>=-eq-ok get_compact_length (λ c. decode_array_elements (decode_schema t) (pos c)) bs h in
      listed (compact_array n t) t c v
        (λ vs each counted.
          in_compact_array s (omega (arith, counted, compact_length-Tested bs m c e)) each)
        (elements_given t (decode_schema t) (pos c) (schema_gives t wt) m rest v k)
  field_gives (compact_nullable_array n t) w = λ bs rest v h.
      let (s, wt) = &&-true (solid t) (well_formed t) w in
      let (z, m, e, k) =
        >>=-eq-ok get_compact_nullable_length (decode_nullable_elements (decode_schema t)) bs h in
      nullable_given n t (decode_schema t) z bs m rest v s (schema_gives t wt) e k
  field_gives (schema_tagged_fields n) w =
      Gives-boxed (FieldHasType (schema_tagged_fields n)) raw_tagged_fields decode_tagged_fields
        Gives-raw_fields (λ fs p. in_tagged_fields fs p.0 p.1)

  fields_give :
      (fs : Fields) → well_formed_fields fs ≡ true → Gives (decode_fields fs) (FieldsHaveTypes fs)
  fields_give no_field w = λ bs rest vs h. subst (FieldsHaveTypes no_field) (read_value h) none_left
  fields_give (field f fs) w = λ bs rest vs h.
      let (wf, wfs) = &&-true (well_formed_field f) (well_formed_fields fs) w in
      let (v, m, e, k) =
        >>=-eq-ok (decode_field f) (λ v. decode_fields fs >>= λ xs. pure (item v xs)) bs h in
      let (xs, m', e', k') = >>=-eq-ok (decode_fields fs) (λ xs. pure (item v xs)) m k in
      subst (FieldsHaveTypes (field f fs)) (read_value k')
        (one_more (field_gives f wf bs m v e) (fields_give fs wfs m m' xs e'))

-- Whatever the bytes are, a well-formed schema decodes them to a value of its own, or fails.
pub decode_schema-HasType :
    (t : Schema) (bs rest : List ℕ) (v : Value)
    → well_formed t ≡ true
    → decode_schema t bs ≡ ok (v, rest)
    → HasType t v
decode_schema-HasType t bs rest v w h = schema_gives t w bs rest v h
