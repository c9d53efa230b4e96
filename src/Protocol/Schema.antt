-- ===== src/Protocol/Schema.antt =====
-- proxy/protocol/schema.go: schemas, the values that they decode to, and structs.
pub mod Decode
pub mod Encode
pub mod Layout
pub mod Typing
mod Sizes
pub mod RoundTrip
pub mod Sound
pub mod Access
pub mod Update
pub mod Writes
pub mod Whole
pub mod FieldTypes
use kafka_gcp_proxy.Base.{
  ℕ, zero, suc, ℤ, Bool, true, false, Option, none, some, List, String, failure, Result, ok, err,
  if◌then◌else◌,
}
use text.Mathlib.Text.{◌==◌ as str_eq}

-- The Schema interface: the Type… singletons, and `schema` with its name and its bound fields,
-- whose indices are their places in the list. A Field is an Mfield, one of the arrays or
-- SchemaTaggedFields.
mutual
  pub data Schema : Type 0 where
    type_bool type_int16 type_int32 type_str type_nullable_str : Schema
    type_compact_str type_compact_nullable_str type_uuid : Schema
    schema : String → Fields → Schema

  pub data Field : Type 0 where
    mfield array compact_array compact_nullable_array : String → Schema → Field
    schema_tagged_fields : String → Field

  pub data Fields : Type 0 where
    no_field : Fields
    field : Field → Fields → Fields

pub record RawTaggedField : Type 0 where
  pub tag : ℤ
  pub content : Option (List ℕ)

-- The values behind interface{}: bool, int16, int32, string, *string, uuid.UUID (a list of sixteen
-- bytes), []rawTaggedField, []interface{}, *Struct with its schema and values, and nil.
mutual
  pub data Value : Type 0 where
    bool : Bool → Value
    int16 int32 : ℤ → Value
    string : List ℕ → Value
    string_ptr : Option (List ℕ) → Value
    uuid : List ℕ → Value
    raw_tagged_fields : List RawTaggedField → Value
    list : Values → Value
    struct : Schema → Values → Value
    nil : Value

  pub data Values : Type 0 where
    no_value : Values
    item : Value → Values → Values

abbrev pub count : Values → ℕ
count no_value = 0
count (item v vs) = suc (count vs)

abbrev pub count_fields : Fields → ℕ
count_fields no_field = 0
count_fields (field f fs) = suc (count_fields fs)

-- GetName of a Field
abbrev pub field_name : Field → String
field_name (mfield n t) = n
field_name (array n t) = n
field_name (compact_array n t) = n
field_name (compact_nullable_array n t) = n
field_name (schema_tagged_fields n) = n

-- GetFields: none for the primitive types
abbrev pub get_fields : Schema → Fields
get_fields (schema n fs) = fs
get_fields _ = no_field

abbrev pub next_index : Option ℕ → Option ℕ
next_index none = none
next_index (some i) = some (suc i)

-- fieldsByName[name], by the index of the bound field
unfoldable pub index_of : String → Fields → Option ℕ
index_of name no_field = none
index_of name (field f fs) =
    if str_eq (field_name f) name then some 0 else next_index (index_of name fs)

-- NewSchema panics on a duplicate field.
unfoldable pub has_field : String → Fields → Bool
has_field name no_field = false
has_field name (field f fs) = if str_eq (field_name f) name then true else has_field name fs

unfoldable pub no_duplicates : Fields → Bool
unfolding has_field
no_duplicates no_field = true
no_duplicates (field f fs) = if has_field (field_name f) fs then false else no_duplicates fs

-- Values[i], and nil past the end
abbrev pub value_at : Values → ℕ → Value
value_at no_value i = nil
value_at (item v vs) zero = v
value_at (item v vs) (suc i) = value_at vs i

abbrev pub set_value : Values → ℕ → Value → Values
set_value no_value i w = no_value
set_value (item v vs) zero w = item w vs
set_value (item v vs) (suc i) w = item v (set_value vs i w)

abbrev pub at_index : Values → Option ℕ → Value
at_index vs none = nil
at_index vs (some i) = value_at vs i

-- Struct.Get
unfoldable pub get : Schema → Values → String → Value
get t vs name = at_index vs (index_of name (get_fields t))

-- reflect.Kind of a value
pub data Kind : Type 0 where
  bool_kind int16_kind int32_kind string_kind ptr_kind array_kind slice_kind no_kind : Kind

abbrev pub kind : Value → Kind
kind (bool b) = bool_kind
kind (int16 z) = int16_kind
kind (int32 z) = int32_kind
kind (string s) = string_kind
kind (string_ptr o) = ptr_kind
kind (uuid u) = array_kind
kind (raw_tagged_fields fs) = slice_kind
kind (list vs) = slice_kind
kind (struct t vs) = ptr_kind
kind nil = no_kind

abbrev same_kind : Kind → Kind → Bool
same_kind bool_kind bool_kind = true
same_kind int16_kind int16_kind = true
same_kind int32_kind int32_kind = true
same_kind string_kind string_kind = true
same_kind ptr_kind ptr_kind = true
same_kind array_kind array_kind = true
same_kind slice_kind slice_kind = true
same_kind _ _ = false

-- The last tests of Replace, on the kind of the old value and on the new value. A value past the
-- end is nil here too, where the source names the index instead.
abbrev pub replace_over : Kind → Values → ℕ → Value → Result Values
replace_over no_kind vs i w = err (failure "old value not found")
replace_over k vs i w =
    if same_kind k (kind w) then ok (set_value vs i w) else err (failure "kinds differ")

abbrev pub replace_index : Values → Option ℕ → Value → Result Values
replace_index vs none w = err (failure "name not found")
replace_index vs (some i) w = replace_over (kind (value_at vs i)) vs i w

-- Struct.Replace, which returns the values that the struct has afterwards
unfoldable pub replace : Schema → Values → String → Value → Result Values
replace t vs name w = elim (kind w) [
  | no_kind ↦ err (failure "new value must not be nil")
  | _ ↦ replace_index vs (index_of name (get_fields t)) w
]
