-- ===== src/Protocol/Responses/Modify.antt =====
-- proxy/protocol/responses.go: the functions that rewrite the addresses in a decoded response, and
-- responseModifier. A *Struct is its schema with its values; Replace changes it in place, so each
-- function returns the values afterwards, and the caller puts them where the pointer stands.
use kafka_gcp_proxy.Base.{
  ℕ, ℤ, pos, negsuc, beq_ℤ, leb_ℤ, Bool, ◌&&◌, Option, none, some, List, String, failure, panicked,
  Error, Result, ok, err, ◌>>=◌, ◌==◌, if◌then◌else◌, length, get_elem?, beq_bytes,
}
use kafka_gcp_proxy.Protocol.Schema.{
  Schema, Value, Values, string, int32, list, struct, nil, no_value, item, get, replace,
}
use kafka_gcp_proxy.Protocol.Schema.Access.{set_field}
use kafka_gcp_proxy.Protocol.Schema.Decode.{decode_struct}
use kafka_gcp_proxy.Protocol.Schema.Encode.{encode_struct}
use kafka_gcp_proxy.Protocol.Responses.Names.{
  brokers_key_name, host_key_name, port_key_name, node_key_name, coordinator_key_name,
  coordinators_key_name,
}
use kafka_gcp_proxy.Protocol.Responses.MetadataSchemas.{metadata_response_schema_versions}
use kafka_gcp_proxy.Protocol.Responses.CoordinatorSchemas.{
  find_coordinator_response_schema_versions,
}

-- config.NetAddressMappingFunc: the host, the port and the broker's id give the listener's host and
-- port, or an error.
abbrev pub NetAddressMapping : Type 0
NetAddressMapping = List ℕ → ℤ → ℤ → Result (List ℕ × ℤ)

-- The type assertions on what Get returns.
abbrev pub string_or : Error → Value → Result (List ℕ)
string_or e (string s) = ok s
string_or e _ = err e

abbrev pub int32_or : Error → Value → Result ℤ
int32_or e (int32 z) = ok z
int32_or e _ = err e

abbrev pub list_or : Error → Value → Result Values
list_or e (list vs) = ok vs
list_or e _ = err e

abbrev pub struct_or : Error → Value → Result (Schema × Values)
struct_or e (struct t vs) = ok (t, vs)
struct_or e _ = err e

abbrev pub replace_string : Schema → Values → String → List ℕ → List ℕ → Result Values
replace_string t vs name old new =
    if beq_bytes old new then ok vs else replace t vs name (string new)

abbrev pub replace_int32 : Schema → Values → String → ℤ → ℤ → Result Values
replace_int32 t vs name old new = if beq_ℤ old new then ok vs else replace t vs name (int32 new)

-- The new host and port, each replaced where it differs.
abbrev pub replace_address : Schema → Values → List ℕ → ℤ → List ℕ × ℤ → Result Values
replace_address t vs host port (new_host, new_port) =
    replace_string t vs host_key_name host new_host >>= λ vs'.
    replace_int32 t vs' port_key_name port new_port

-- host == "" && port <= 0
abbrev pub no_address : List ℕ → ℤ → Bool
no_address host port = length host == 0 && leb_ℤ port (pos 0)

-- What the loop of modifyMetadataResponse does to a broker and modifyCoordinator to a coordinator;
-- only the errors for a missing host, port and node_id differ.
unfoldable pub modify_address :
    Error → Error → Error → NetAddressMapping → Schema → Values → Result Values
modify_address no_host no_port no_node fn t vs = do
  host ← string_or no_host (get t vs host_key_name)
  port ← int32_or no_port (get t vs port_key_name)
  node_id ← int32_or no_node (get t vs node_key_name)
  if no_address host port then ok vs else (fn host port node_id >>= replace_address t vs host port)

unfoldable pub modify_broker : NetAddressMapping → Schema → Values → Result Values
modify_broker =
    modify_address (failure "broker.host not found") (failure "broker.port not found")
      (failure "broker.node_id not found")

-- element.(*Struct) panics on anything else. The loop over the elements, in order, to the first error.
unfoldable pub modify_each : (Schema → Values → Result Values) → Values → Result Values
modify_each modify no_value = ok no_value
modify_each modify (item v vs) = do
  (t, ws) ← struct_or panicked v
  ws' ← modify t ws
  vs' ← modify_each modify vs
  ok (item (struct t ws') vs')

unfoldable pub modify_metadata_response : NetAddressMapping → Schema → Values → Result Values
modify_metadata_response fn t vs = do
  brokers ← list_or (failure "brokers list not found") (get t vs brokers_key_name)
  brokers' ← modify_each (modify_broker fn) brokers
  ok (set_field t vs brokers_key_name (list brokers'))

unfoldable pub modify_coordinator : NetAddressMapping → Schema → Values → Result Values
modify_coordinator fn t vs = do
  (ct, cvs) ← struct_or (failure "coordinator not found") (get t vs coordinator_key_name)
  cvs' ←
      modify_address (failure "coordinator.host not found") (failure "coordinator.port not found")
        (failure "coordinator.node_id not found") fn ct cvs
  ok (set_field t vs coordinator_key_name (struct ct cvs'))

abbrev pub modify_coordinators : NetAddressMapping → Schema → Values → Value → Result Values
modify_coordinators fn t vs nil = modify_coordinator fn t vs
modify_coordinators fn t vs v = do
  coordinators ← list_or (failure "coordinators list not found") v
  coordinators' ← modify_each (modify_coordinator fn) coordinators
  ok (set_field t vs coordinators_key_name (list coordinators'))

unfoldable pub modify_find_coordinator_response :
    NetAddressMapping → Schema → Values → Result Values
modify_find_coordinator_response fn t vs =
    modify_coordinators fn t vs (get t vs coordinators_key_name)

-- modifyResponseFunc, past the tests for a nil struct and a nil mapping
abbrev pub ModifyResponse : Type 0
ModifyResponse = NetAddressMapping → Schema → Values → Result Values

pub record ResponseModifier : Type 0 where
  pub schema : Schema
  pub modify_response : ModifyResponse
  pub net_address_mapping : Option NetAddressMapping

abbrev pub modify_or_fail :
    ResponseModifier
    → Option (Schema × Values)
    → Option NetAddressMapping
    → Result (Schema × Values)
modify_or_fail m none fn = err (failure "decoded struct must not be nil")
modify_or_fail m (some s) none = err (failure "net address mapper must not be nil")
modify_or_fail m (some (t, vs)) (some fn) = m.modify_response fn t vs >>= λ vs'. ok (t, vs')

-- responseModifier.Apply
unfoldable pub apply : ResponseModifier → Option (List ℕ) → Result (List ℕ)
apply m resp = do
  decoded ← decode_struct resp m.schema
  modified ← modify_or_fail m decoded m.net_address_mapping
  encode_struct modified m.schema

abbrev pub schema_or_fail : Option Schema → Result Schema
schema_or_fail none = err (failure "Unsupported response schema version")
schema_or_fail (some t) = ok t

-- getResponseSchema
unfoldable pub get_response_schema : ℤ → List Schema → Result Schema
get_response_schema (negsuc n) schemas = err (failure "Unsupported response schema version")
get_response_schema (pos n) schemas = schema_or_fail (get_elem? schemas n)

unfoldable pub new_response_modifier :
    ℤ → Option NetAddressMapping → List Schema → ModifyResponse → Result ResponseModifier
new_response_modifier api_version fn schemas modify = do
  t ← get_response_schema api_version schemas
  ok (record { schema = t; modify_response = modify; net_address_mapping = fn })

abbrev pub some_modifier : Result ResponseModifier → Result (Option ResponseModifier)
some_modifier m = m >>= λ r. ok (some r)

-- GetResponseModifier: `none` where the response goes through unchanged
unfoldable pub get_response_modifier :
    ℤ → ℤ → Option NetAddressMapping → Result (Option ResponseModifier)
get_response_modifier api_key api_version fn =
    if beq_ℤ api_key (pos 3)
    then some_modifier (
        new_response_modifier api_version fn metadata_response_schema_versions
          modify_metadata_response)
    else if beq_ℤ api_key (pos 10)
    then some_modifier (
        new_response_modifier api_version fn find_coordinator_response_schema_versions
          modify_find_coordinator_response)
    else ok none
