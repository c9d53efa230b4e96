-- ===== src/Protocol/Responses/Total.antt =====
-- The type assertions of the functions that rewrite a response hold on what the schemas decode to: a
-- response of any version is only refused with the error of the mapping for one of its addresses.
use kafka_gcp_proxy.Base.{
  ◌≡◌, refl, sym, subst, ◌∙◌, ℤ, Bool, true, false, ◌&&◌, &&-true, Bool-cases, inl, inr, Option,
  none, some, List, ℕ, String, Error, Result, failure, Result-cases,
}
use kafka_gcp_proxy.Protocol.Schema.{
  Schema, Field, Fields, schema, mfield, array, compact_array, type_str, type_compact_str,
  type_int32, Value, Values, struct, string, int32, list, no_value, item, get, nil,
}
use kafka_gcp_proxy.Protocol.Schema.Access.{set_field}
use kafka_gcp_proxy.Protocol.Schema.Typing.{
  HasType, FieldHasType, EachHasType, in_mfield, in_array, in_compact_array, is_str, is_compact_str,
  is_int32, is_struct, each_item,
}
use kafka_gcp_proxy.Protocol.Schema.FieldTypes.{field_of, get-FieldHasType, get-nil}
use kafka_gcp_proxy.Protocol.Responses.Names.{
  brokers_key_name, host_key_name, port_key_name, node_key_name, coordinator_key_name,
  coordinators_key_name,
}
use kafka_gcp_proxy.Protocol.Responses.Modify.{
  NetAddressMapping, no_address, modify_each, modify_address, modify_broker,
  modify_metadata_response, modify_coordinator, modify_find_coordinator_response,
}
use kafka_gcp_proxy.Protocol.Responses.Address.{HasAddress, with_address, modify_address_lem}
use kafka_gcp_proxy.Protocol.Responses.Refusals.{
  Refused, AnyRefused, MetadataRefused, CoordinatorRefused, FindCoordinatorRefused, Outcome,
  Settles,
}

abbrev text_field : Option Field → Bool
text_field (some (mfield n type_str)) = true
text_field (some (mfield n type_compact_str)) = true
text_field _ = false

abbrev int32_field : Option Field → Bool
int32_field (some (mfield n type_int32)) = true
int32_field _ = false

-- The schema has a host, a port and a node_id of the types that are asserted.
unfoldable pub addressed : Schema → Bool
addressed (schema n fs) =
    text_field (field_of host_key_name fs)
    && (int32_field (field_of port_key_name fs) && int32_field (field_of node_key_name fs))
addressed _ = false

string_in :
    {f : Field} {v : Value}
    → FieldHasType f v
    → text_field (some f) ≡ true
    → (s : List ℕ) × (v ≡ string s)
string_in (in_mfield (is_str s r)) h = (s, refl)
string_in (in_mfield (is_compact_str s r)) h = (s, refl)
string_in _ h = cc

int32_in :
    {f : Field} {v : Value}
    → FieldHasType f v
    → int32_field (some f) ≡ true
    → (z : ℤ) × (v ≡ int32 z)
int32_in (in_mfield (is_int32 z r)) h = (z, refl)
int32_in _ h = cc

module _ (n : String) (fs : Fields) (vs : Values)
    (typed : HasType (schema n fs) (struct (schema n fs) vs)) (name : String) where
  -- The field's value, by any property of the field that only holds where there is one.
  a_value :
      (test : Option Field → Bool) (P : Value → Type 0)
      → test none ≡ false
      → ((f : Field) (v : Value) → FieldHasType f v → test (some f) ≡ true → P v)
      → test (field_of name fs) ≡ true
      → P (get (schema n fs) vs name)
  a_value test P no_none gives h = go (field_of name fs) refl h
    where
      go : (o : Option Field) → field_of name fs ≡ o → test o ≡ true → P (get (schema n fs) vs name)
      go none e k = let never : true ≡ false = sym k ∙ no_none in cc
      go (some f) e k = gives f _ (get-FieldHasType n fs vs name f typed e) k

has_address :
    (t : Schema) (vs : Values) → HasType t (struct t vs) → addressed t ≡ true → HasAddress t vs
unfolding addressed
has_address (schema n fs) vs typed h =
    let (eh, k) = &&-true (text_field (field_of host_key_name fs)) _ h in
    let (ep, en) =
      &&-true (int32_field (field_of port_key_name fs)) (int32_field (field_of node_key_name fs))
        k in
    let (host, at_host) =
      a_value n fs vs typed host_key_name text_field (λ v. (s : List ℕ) × (v ≡ string s)) refl
        (λ f v. string_in) eh in
    let (port, at_port) =
      a_value n fs vs typed port_key_name int32_field (λ v. (z : ℤ) × (v ≡ int32 z)) refl
        (λ f v. int32_in) ep in
    let (node, at_node) =
      a_value n fs vs typed node_key_name int32_field (λ v. (z : ℤ) × (v ≡ int32 z)) refl
        (λ f v. int32_in) en in
    record {
      host = host;
      port = port;
      node_id = node;
      at_host = at_host;
      at_port = at_port;
      at_node_id = at_node;
    }
has_address _ vs typed h = cc

modify_address-Settles :
    (a b c : Error) (fn : NetAddressMapping) (t : Schema)
    → addressed t ≡ true
    → Settles (modify_address a b c fn) (Refused fn) t
modify_address-Settles a b c fn t h vs typed =
    let p : HasAddress t vs = has_address t vs typed h in
    let whole = modify_address_lem a b c fn t vs p in
    elim (Bool-cases (no_address p.host p.port)) [
      | inl e ↦ inl (vs, whole ∙ rw e refl)
      | inr e ↦ elim (Result-cases (fn p.host p.port p.node_id)) [
        | inl ((host, port), ef) ↦ inl (with_address t vs host port, whole ∙ rw (e, ef) refl)
        | inr (x, ef) ↦ inr (x, (p, e, ef), whole ∙ rw (e, ef) refl)
      ]
    ]

struct_of :
    (n : String) (fs : Fields) (v : Value)
    → HasType (schema n fs) v
    → (ws : Values) × (v ≡ struct (schema n fs) ws)
struct_of n fs v (is_struct {vs = ws} p) = (ws, refl)

modify_each-Settles :
    (modify : Schema → Values → Result Values) (refused : Schema → Values → Error → Type 0)
    (n : String) (fs : Fields) (vs : Values)
    → Settles modify refused (schema n fs)
    → EachHasType (schema n fs) vs
    → Outcome (AnyRefused refused vs) (modify_each modify vs)
unfolding modify_each
modify_each-Settles modify refused n fs no_value s p = inl (no_value, refl)
modify_each-Settles modify refused n fs (item v vs) s (each_item p ps) =
    let (ws, e) = struct_of n fs v p in
    elim (s ws (subst (HasType (schema n fs)) e p)) [
      | inr (x, blame, em) ↦ inr (x, inl (schema n fs, ws, e, blame), rw (e, em) refl)
      | inl (ws', em) ↦ elim (modify_each-Settles modify refused n fs vs s ps) [
        | inl (vs', er) ↦ inl (item (struct (schema n fs) ws') vs', rw (e, em, er) refl)
        | inr (x, blame, er) ↦ inr (x, inr blame, rw (e, em, er) refl)
      ]
    ]

-- An array of structs that pass the test.
abbrev list_field : (Schema → Bool) → Option Field → Bool
list_field test (some (array n (schema m fs))) = test (schema m fs)
list_field test (some (compact_array n (schema m fs))) = test (schema m fs)
list_field test _ = false

-- The field has a list, which the loop gets through or refuses an element of.
abbrev ListSettles :
    (Schema → Values → Result Values) → (Schema → Values → Error → Type 0) → Value → Type 0
ListSettles modify refused v =
    (vs : Values) × (v ≡ list vs) × Outcome (AnyRefused refused vs) (modify_each modify vs)

list_in :
    (modify : Schema → Values → Result Values) (refused : Schema → Values → Error → Type 0)
    (test : Schema → Bool)
    → ((t : Schema) → test t ≡ true → Settles modify refused t)
    → (f : Field) (v : Value) → FieldHasType f v
    → list_field test (some f) ≡ true
    → ListSettles modify refused v
list_in modify refused test s (array n (schema m fs)) v (in_array {vs = vs} a b p) h =
    (vs, refl, modify_each-Settles modify refused m fs vs (s (schema m fs) h) p)
list_in modify refused test s (compact_array n (schema m fs)) v (in_compact_array {vs = vs} a b p)
      h =
    (vs, refl, modify_each-Settles modify refused m fs vs (s (schema m fs) h) p)
list_in modify refused test s _ v p h = cc

-- A metadata response's schema: its brokers are an array of structs with an address.
unfoldable pub metadata_addressed : Schema → Bool
metadata_addressed (schema n fs) = list_field addressed (field_of brokers_key_name fs)
metadata_addressed _ = false

abbrev struct_field : Option Field → Bool
struct_field (some (mfield n (schema m fs))) = addressed (schema m fs)
struct_field _ = false

unfoldable pub coordinator_addressed : Schema → Bool
coordinator_addressed (schema n fs) = struct_field (field_of coordinator_key_name fs)
coordinator_addressed _ = false

abbrev coordinators_field : Fields → Option Field → Bool
coordinators_field fs none = struct_field (field_of coordinator_key_name fs)
coordinators_field fs (some f) = list_field coordinator_addressed (some f)

-- A find coordinator response's schema: a coordinator with an address, or an array of them.
unfoldable pub find_coordinator_addressed : Schema → Bool
find_coordinator_addressed (schema n fs) = coordinators_field fs (field_of coordinators_key_name fs)
find_coordinator_addressed _ = false

module _ (fn : NetAddressMapping) where
  pub modify_metadata_response-Settles :
      (t : Schema)
      → metadata_addressed t ≡ true
      → Settles (modify_metadata_response fn) (MetadataRefused fn) t
  unfolding metadata_addressed modify_metadata_response modify_broker
  modify_metadata_response-Settles (schema n fs) h vs typed =
      let (ws, el, settled) =
        a_value n fs vs typed brokers_key_name (list_field addressed)
          (ListSettles (modify_broker fn) (Refused fn)) refl
          (list_in (modify_broker fn) (Refused fn) addressed
            (λ t. modify_address-Settles _ _ _ fn t))
          h in
      elim settled [
        | inl (ws', em) ↦
            inl (set_field (schema n fs) vs brokers_key_name (list ws'), rw (el, em) refl)
        | inr (x, blame, em) ↦ inr (x, (ws, el, blame), rw (el, em) refl)
      ]
  modify_metadata_response-Settles _ h vs typed = cc

  -- The field has a struct with an address.
  StructSettles : Value → Type 0
  StructSettles v =
      (t : Schema) × (vs : Values) × (v ≡ struct t vs)
      × ((a b c : Error) → Outcome (Refused fn t vs) (modify_address a b c fn t vs))

  struct_in :
      (f : Field) (v : Value) → FieldHasType f v → struct_field (some f) ≡ true → StructSettles v
  unfolding StructSettles
  struct_in (mfield n (schema m fs)) v (in_mfield p) h =
      let (ws, e) = struct_of m fs v p in
      (
        schema m fs,
        ws,
        e,
        λ a b c.
            modify_address-Settles a b c fn (schema m fs) h ws (subst (HasType (schema m fs)) e p),
      )
  struct_in _ v p h = cc

  modify_coordinator-Settles :
      (t : Schema)
      → coordinator_addressed t ≡ true
      → Settles (modify_coordinator fn) (CoordinatorRefused fn) t
  unfolding coordinator_addressed modify_coordinator StructSettles
  modify_coordinator-Settles (schema n fs) h vs typed =
      let (ct, cvs, es, changes) =
        a_value n fs vs typed coordinator_key_name struct_field StructSettles refl struct_in h in
      elim (changes (failure "coordinator.host not found") (failure "coordinator.port not found")
        (failure "coordinator.node_id not found")) [
          | inl (cvs', em) ↦
              inl
                (set_field (schema n fs) vs coordinator_key_name (struct ct cvs'), rw (es, em) refl)
          | inr (x, blame, em) ↦ inr (x, (ct, cvs, es, blame), rw (es, em) refl)
        ]
  modify_coordinator-Settles _ h vs typed = cc

  pub modify_find_coordinator_response-Settles :
      (t : Schema)
      → find_coordinator_addressed t ≡ true
      → Settles (modify_find_coordinator_response fn) (FindCoordinatorRefused fn) t
  unfolding find_coordinator_addressed modify_find_coordinator_response coordinator_addressed
  modify_find_coordinator_response-Settles (schema n fs) h vs typed =
      go (field_of coordinators_key_name fs) refl h
    where
      go :
          (o : Option Field)
          → field_of coordinators_key_name fs ≡ o
          → coordinators_field fs o ≡ true
          → Outcome
              (FindCoordinatorRefused fn (schema n fs) vs)
              (modify_find_coordinator_response fn (schema n fs) vs)
      go none e k =
          let missing : get (schema n fs) vs coordinators_key_name ≡ nil =
            get-nil n fs vs coordinators_key_name typed e in
          elim (modify_coordinator-Settles (schema n fs) k vs typed) [
            | inl (vs', em) ↦ inl (vs', rw missing em)
            | inr (x, blame, em) ↦ inr (x, inl (missing, blame), rw missing em)
          ]
      go (some f) e k =
          let (ws, el, settled) =
            list_in (modify_coordinator fn) (CoordinatorRefused fn) coordinator_addressed
              modify_coordinator-Settles f _
              (get-FieldHasType n fs vs coordinators_key_name f typed e) k in
          elim settled [
            | inl (ws', em) ↦
                inl (set_field (schema n fs) vs coordinators_key_name (list ws'), rw (el, em) refl)
            | inr (x, blame, em) ↦ inr (x, inr (ws, el, blame), rw (el, em) refl)
          ]
  modify_find_coordinator_response-Settles _ h vs typed = cc
