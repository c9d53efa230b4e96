-- ===== src/Protocol/Responses/Refusals.antt =====
-- The only reason for which the functions of proxy/protocol/responses.go that rewrite a decoded response
-- refuse it: the mapping gives an error for one of its addresses.
use kafka_gcp_proxy.Base.{◌≡◌, false, Error, Result, ok, err, ◌⊎◌}
use kafka_gcp_proxy.Protocol.Schema.{Schema, Values, struct, list, no_value, item, get, nil}
use kafka_gcp_proxy.Protocol.Schema.Typing.{HasType}
use kafka_gcp_proxy.Protocol.Responses.Names.{
  brokers_key_name, coordinator_key_name, coordinators_key_name,
}
use kafka_gcp_proxy.Protocol.Responses.Modify.{NetAddressMapping, no_address}
use kafka_gcp_proxy.Protocol.Responses.Address.{HasAddress}

-- The mapping refuses the struct's address, which is not an empty one.
abbrev pub Refused : NetAddressMapping → Schema → Values → Error → Type 0
Refused fn t vs e =
    (a : HasAddress t vs) × (no_address a.host a.port ≡ false)
    × (fn a.host a.port a.node_id ≡ err e)

-- One of the structs of a list is refused.
abbrev pub AnyRefused : (Schema → Values → Error → Type 0) → Values → Error → Type 0
AnyRefused refused no_value e = ⊥
AnyRefused refused (item v vs) e =
    ((t : Schema) × (ws : Values) × (v ≡ struct t ws) × refused t ws e) ⊎ AnyRefused refused vs e

abbrev pub MetadataRefused : NetAddressMapping → Schema → Values → Error → Type 0
MetadataRefused fn t vs e =
    (ws : Values) × (get t vs brokers_key_name ≡ list ws) × AnyRefused (Refused fn) ws e

abbrev pub CoordinatorRefused : NetAddressMapping → Schema → Values → Error → Type 0
CoordinatorRefused fn t vs e =
    (ct : Schema) × (cvs : Values) × (get t vs coordinator_key_name ≡ struct ct cvs)
    × Refused fn ct cvs e

abbrev pub FindCoordinatorRefused : NetAddressMapping → Schema → Values → Error → Type 0
FindCoordinatorRefused fn t vs e =
    ((get t vs coordinators_key_name ≡ nil) × CoordinatorRefused fn t vs e)
    ⊎ ((ws : Values) × (get t vs coordinators_key_name ≡ list ws)
        × AnyRefused (CoordinatorRefused fn) ws e)

-- A result, or an error that something is to blame for.
abbrev pub Outcome : (Error → Type 0) → Result Values → Type 0
Outcome blame r = ((vs' : Values) × (r ≡ ok vs')) ⊎ ((e : Error) × blame e × (r ≡ err e))

-- The function succeeds on a struct of the schema, or an address in it is to blame.
abbrev pub Settles :
    (Schema → Values → Result Values) → (Schema → Values → Error → Type 0) → Schema → Type 0
Settles modify refused t =
    (vs : Values) → HasType t (struct t vs) → Outcome (refused t vs) (modify t vs)
