-- ===== src/Protocol/Requests/Encode.antt =====
-- proxy/protocol: Request.encode and the encode methods of the SASL requests.
use kafka_gcp_proxy.Base.{ℤ, Option, List, ℕ, err, ◌>>=◌, if◌then◌else◌}
use kafka_gcp_proxy.Protocol.PacketEncoder.{Put, PacketEncoder}
use kafka_gcp_proxy.Protocol.Requests.{Request, zero_or_one, bad_version}

module _ {S : Type 0} ⦃pe : PacketEncoder S⦄ where
  unfoldable pub encode_request : {B : Type 0} → ℤ → ℤ → (B → Put S) → Request B → Put S
  encode_request own_key own_version put r s = pe.put_int16 own_key s >>= λ s.
      pe.put_int16 own_version s >>= λ s.
      pe.put_int32 r.correlation_id s >>= λ s. pe.put_string r.client_id s >>= put r.body

  unfoldable pub encode_sasl_handshake : ℤ → List ℕ → Put S
  encode_sasl_handshake v mechanism s =
      if zero_or_one v then pe.put_string mechanism s else err bad_version

  unfoldable pub encode_sasl_authenticate_v0 : Option (List ℕ) → Put S
  encode_sasl_authenticate_v0 bytes s = pe.put_bytes bytes s
