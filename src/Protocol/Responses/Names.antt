-- ===== src/Protocol/Responses/Names.antt =====
-- proxy/protocol/responses.go: the keys of the fields that are rewritten; schema.go: NewSchema.
use kafka_gcp_proxy.Base.{String, List, [], ◌∷◌}
use kafka_gcp_proxy.Protocol.Schema.{Schema, Field, Fields, schema, no_field, field}

abbrev pub brokers_key_name : String
brokers_key_name = "brokers"

abbrev pub host_key_name : String
host_key_name = "host"

abbrev pub port_key_name : String
port_key_name = "port"

abbrev pub node_key_name : String
node_key_name = "node_id"

abbrev pub coordinator_key_name : String
coordinator_key_name = "coordinator"

abbrev pub coordinators_key_name : String
coordinators_key_name = "coordinators"

abbrev bind_fields : List Field → Fields
bind_fields [] = no_field
bind_fields (f ∷ fs) = field f (bind_fields fs)

-- NewSchema on fields without duplicates. It panics on the others: no_duplicates tells them.
abbrev pub new_schema : String → List Field → Schema
new_schema name fs = schema name (bind_fields fs)
