-- ===== src/Protocol/Schema/Update.antt =====
-- Struct.Replace on a field of the same kind sets it, and keeps the struct a value of its schema.
use kafka_gcp_proxy.Base.{
  ℕ, zero, suc, ◌<◌, ◌≡◌, refl, ap, half16, half32, ℤ, InRange, Option, none, some, List, String,
  arith, ok, length,
}
use kafka_gcp_proxy.Protocol.Schema.Access.{set_field}
use kafka_gcp_proxy.Protocol.Schema.Typing.{
  HasType, FieldHasType, FieldsHaveTypes, EachHasType, is_bool, is_int16, is_int32, is_str,
  is_nullable_str, is_compact_str, is_compact_nullable_str, is_uuid, is_struct, in_mfield, in_array,
  in_compact_array, in_nullable_array, none_left, one_more,
}
use kafka_gcp_proxy.Protocol.Schema.{
  Schema, Field, Fields, schema, Value, Values, string, int32, nil, list, struct, value_at,
  set_value, index_of, get_fields, get, replace, replace_over, kind, count,
}

-- A value that can stand wherever another one can, in a field or as an element.
abbrev pub Retypes : Value → Value → Type 0
Retypes v w = (f : Field) → FieldHasType f v → FieldHasType f w

abbrev pub Recasts : Value → Value → Type 0
Recasts v w = (t : Schema) → HasType t v → HasType t w

module _ (t : Schema) (vs : Values) (name : String) where
  pub replace-string :
      (s w : List ℕ)
      → get t vs name ≡ string s
      → replace t vs name (string w) ≡ ok (set_field t vs name (string w))
  unfolding get replace set_field
  replace-string s w h = go (index_of name (get_fields t)) refl
    where
      go :
          (o : Option ℕ)
          → index_of name (get_fields t) ≡ o
          → replace t vs name (string w) ≡ ok (set_field t vs name (string w))
      go none e = let gone : nil ≡ string s = rw (e, get) at h in cc
      go (some i) e =
          let here : value_at vs i ≡ string s = rw (e, get) at h in
          rw (e, replace, set_field)
            (ap (λ (v : Value). replace_over (kind v) vs i (string w)) here)

  pub replace-int32 :
      (z w : ℤ)
      → get t vs name ≡ int32 z
      → replace t vs name (int32 w) ≡ ok (set_field t vs name (int32 w))
  unfolding get replace set_field
  replace-int32 z w h = go (index_of name (get_fields t)) refl
    where
      go :
          (o : Option ℕ)
          → index_of name (get_fields t) ≡ o
          → replace t vs name (int32 w) ≡ ok (set_field t vs name (int32 w))
      go none e = let gone : nil ≡ int32 z = rw (e, get) at h in cc
      go (some i) e =
          let here : value_at vs i ≡ int32 z = rw (e, get) at h in
          rw (e, replace, set_field) (ap (λ (v : Value). replace_over (kind v) vs i (int32 w)) here)

set_value-typed :
    {fs : Fields} {vs : Values} (i : ℕ) (w : Value)
    → FieldsHaveTypes fs vs
    → Retypes (value_at vs i) w
    → FieldsHaveTypes fs (set_value vs i w)
set_value-typed i w none_left r = none_left
set_value-typed zero w (one_more {f} p ps) r = one_more (r f p) ps
set_value-typed (suc i) w (one_more p ps) r = one_more p (set_value-typed i w ps r)

-- Only a struct's schema has structs, with its own fields.
abbrev pub StructFields : Schema → Value → Type 0
StructFields (schema n fs) (struct t vs) = FieldsHaveTypes fs vs
StructFields (schema n fs) _ = Unit {0}
StructFields _ (struct t vs) = ⊥
StructFields _ _ = Unit {0}

pub struct_fields : {t : Schema} {v : Value} → HasType t v → StructFields t v
struct_fields (is_bool b) = tt
struct_fields (is_int16 z r) = tt
struct_fields (is_int32 z r) = tt
struct_fields (is_str s r) = tt
struct_fields (is_nullable_str o r) = tt
struct_fields (is_compact_str s r) = tt
struct_fields (is_compact_nullable_str o r) = tt
struct_fields (is_uuid s r) = tt
struct_fields (is_struct p) = p

set_field_typed :
    (t : Schema) (vs : Values) (name : String) (w : Value)
    → StructFields t (struct t vs)
    → Retypes (get t vs name) w
    → HasType t (struct t (set_field t vs name w))
unfolding get set_field
set_field_typed (schema n fs) vs name w p r = go (index_of name fs) refl
  where
    go :
        (o : Option ℕ)
        → index_of name fs ≡ o
        → HasType (schema n fs) (struct (schema n fs) (set_field (schema n fs) vs name w))
    go none e = rw (e, set_field) (is_struct p)
    go (some i) e =
        rw (e, set_field) (is_struct (set_value-typed i w p (λ f q. r f (rw (e, get) q))))
set_field_typed _ vs name w p r = elim p [ ]

-- The struct stays a value of its schema where the field's value is set to one of the same type.
pub set_field-HasType :
    (t : Schema) (vs : Values) (name : String) (w : Value)
    → HasType t (struct t vs)
    → Retypes (get t vs name) w
    → HasType t (struct t (set_field t vs name w))
set_field-HasType t vs name w h r = set_field_typed t vs name w (struct_fields h) r

Recasts-string : (s w : List ℕ) → length w < half16 → Recasts (string s) (string w)
Recasts-string s w h t (is_str s' r) = is_str w h
Recasts-string s w h t (is_compact_str s' r) = is_compact_str w (omega arith)

Recasts-int32 : (y z : ℤ) → InRange half32 z → Recasts (int32 y) (int32 z)
Recasts-int32 y z h t (is_int32 y' r) = is_int32 z h

pub Retypes-string : (s w : List ℕ) → length w < half16 → Retypes (string s) (string w)
Retypes-string s w h f (in_mfield {t = t} p) = in_mfield (Recasts-string s w h t p)

pub Retypes-int32 : (y z : ℤ) → InRange half32 z → Retypes (int32 y) (int32 z)
Retypes-int32 y z h f (in_mfield {t = t} p) = in_mfield (Recasts-int32 y z h t p)

pub Retypes-struct :
    (t : Schema) (vs ws : Values)
    → Recasts (struct t vs) (struct t ws)
    → Retypes (struct t vs) (struct t ws)
Retypes-struct t vs ws r f (in_mfield {t = t'} p) = in_mfield (r t' p)

-- Elements that keep their types and their number.
pub Retypes-list :
    (vs ws : Values)
    → ((t : Schema) → EachHasType t vs → EachHasType t ws)
    → count ws ≡ count vs
    → Retypes (list vs) (list ws)
Retypes-list vs ws r e f (in_mfield p) = elim p [ ]
Retypes-list vs ws r e f (in_array {t = t} s c p) = in_array s (rw e c) (r t p)
Retypes-list vs ws r e f (in_compact_array {t = t} s c p) = in_compact_array s (rw e c) (r t p)
Retypes-list vs ws r e f (in_nullable_array {t = t} s c p) = in_nullable_array s (rw e c) (r t p)

-- The schema that a struct carries is the one it is a value of.
pub own_schema : {t t' : Schema} {vs : Values} → HasType t (struct t' vs) → t ≡ t'
own_schema (is_struct p) = refl
