-- ===== src/Protocol/Schema/FieldTypes.antt =====
-- What a struct of a schema holds in a field, by the schema's definition of it.
use kafka_gcp_proxy.Base.{
  ℕ, ◌≡◌, refl, subst, Bool, true, false, Option, none, some, String, if◌then◌else◌,
}
use text.Mathlib.Text.{◌==◌ as str_eq}
use kafka_gcp_proxy.Protocol.Schema.{
  Field, Fields, schema, no_field, field, field_name, Value, Values, item, struct, nil, get,
  index_of, next_index, at_index,
}
use kafka_gcp_proxy.Protocol.Schema.Update.{struct_fields}
use kafka_gcp_proxy.Protocol.Schema.Typing.{
  HasType, FieldHasType, FieldsHaveTypes, one_more, none_left,
}

-- The definition of the field of this name.
unfoldable pub field_of : String → Fields → Option Field
field_of name no_field = none
field_of name (field f fs) = if str_eq (field_name f) name then some f else field_of name fs

FieldAt : Option Field → Value → Type 0
FieldAt none v = v ≡ nil
FieldAt (some f) v = FieldHasType f v

field_at :
    {fs : Fields} {vs : Values} (name : String)
    → FieldsHaveTypes fs vs
    → FieldAt (field_of name fs) (at_index vs (index_of name fs))
unfolding field_of index_of FieldAt
field_at name none_left = refl
field_at name (one_more {f} {fs} {v} {vs} p ps) =
    go (str_eq (field_name f) name) (field_of name fs) (index_of name fs) (field_at name ps)
  where
    go :
        (b : Bool) (o : Option Field) (i : Option ℕ)
        → FieldAt o (at_index vs i)
        → FieldAt
            (if b then some f else o)
            (at_index (item v vs) (if b then some 0 else next_index i))
    go true o i q = p
    go false none none q = refl
    go false none (some i) q = q
    go false (some g) (some i) q = q
    go false (some g) none q = q

-- Get returns a value of the field's type, and nil where the schema has no such field.
pub get-FieldHasType :
    (n : String) (fs : Fields) (vs : Values) (name : String) (f : Field)
    → HasType (schema n fs) (struct (schema n fs) vs)
    → field_of name fs ≡ some f
    → FieldHasType f (get (schema n fs) vs name)
unfolding get FieldAt
get-FieldHasType n fs vs name f typed h =
    subst (λ o. FieldAt o (at_index vs (index_of name fs))) h (field_at name (struct_fields typed))

pub get-nil :
    (n : String) (fs : Fields) (vs : Values) (name : String)
    → HasType (schema n fs) (struct (schema n fs) vs)
    → field_of name fs ≡ none
    → get (schema n fs) vs name ≡ nil
unfolding get FieldAt
get-nil n fs vs name typed h =
    subst (λ o. FieldAt o (at_index vs (index_of name fs))) h (field_at name (struct_fields typed))
