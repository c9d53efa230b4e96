-- ===== src/Protocol/Schema/Whole.antt =====
-- proxy/protocol/schema.go: DecodeSchema, which reads a struct off the whole of a buffer, and
-- EncodeSchema after it.
use kafka_gcp_proxy.Base.{
  ℕ, ◌≡◌, ap, sym, subst, ◌∙◌, true, some, List, [], ◌∷◌, ◌++◌, append-nil, Result, ok, err,
}
use kafka_gcp_proxy.Protocol.Schema.{Schema, Value, Values, struct}
use kafka_gcp_proxy.Protocol.Schema.Decode.{decode_schema, decode_struct, from_buffer}
use kafka_gcp_proxy.Protocol.Schema.Encode.{encode_struct}
use kafka_gcp_proxy.Protocol.Schema.Layout.{wire_schema}
use kafka_gcp_proxy.Protocol.Schema.Typing.{HasType, well_formed}
use kafka_gcp_proxy.Protocol.Schema.Update.{own_schema}
use kafka_gcp_proxy.Protocol.Schema.RoundTrip.{decode_schema-wire_schema}
use kafka_gcp_proxy.Protocol.Schema.Sound.{decode_schema-HasType}
use kafka_gcp_proxy.Protocol.Schema.Writes.{encode_struct-eq_ok}

read_whole :
    (r : Result (Value × List ℕ)) {own : Schema} {vs : Values}
    → from_buffer r ≡ ok (some (own, vs))
    → r ≡ ok (struct own vs, [])
read_whole (err e) h = cc
read_whole (ok (struct t ws, [])) h = cc
read_whole (ok (v, b ∷ bs)) h = cc
read_whole (ok (_, [])) h = cc

-- What DecodeSchema reads with a well-formed schema is a struct of the schema itself, with a value of
-- its type in each field.
pub decode_struct-HasType :
    (t own : Schema) (buf : List ℕ) (vs : Values)
    → well_formed t ≡ true
    → decode_struct (some buf) t ≡ ok (some (own, vs))
    → (own ≡ t) × HasType t (struct t vs)
unfolding decode_struct
decode_struct-HasType t own buf vs w h =
    let typed : HasType t (struct own vs) =
      decode_schema-HasType t buf [] (struct own vs) w (read_whole (decode_schema t buf) h) in
    let same : own ≡ t = sym (own_schema typed) in
    (same, subst (λ s. HasType t (struct s vs)) same typed)

-- What EncodeSchema writes for a struct of the schema is read back by DecodeSchema as the same struct.
pub decode_struct-encode_struct :
    (t : Schema) (vs : Values) (out : List ℕ)
    → HasType t (struct t vs)
    → encode_struct (t, vs) t ≡ ok out
    → decode_struct (some out) t ≡ ok (some (t, vs))
unfolding decode_struct
decode_struct-encode_struct t vs out typed h =
    let written : out ≡ wire_schema t (struct t vs) ++ [] =
      encode_struct-eq_ok t vs t out h ∙ sym (append-nil _) in
    ap from_buffer (ap (decode_schema t) written ∙ decode_schema-wire_schema [] typed)
