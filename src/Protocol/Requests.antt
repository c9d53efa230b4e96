-- ===== src/Protocol/Requests.antt =====
-- proxy/protocol: request_v1.go with the bodies that the proxy itself sends in it (the requests of
-- sasl_handshake.go and sasl_authenticate_v0.go).
pub mod Encode
pub mod RoundTrip
use kafka_gcp_proxy.Base.{
  ℕ, ℤ, pos, beq_ℤ, Bool, true, false, ◌&&◌, Option, List, Error, failure, packet_decoding,
  if◌then◌else◌,
}
use kafka_gcp_proxy.Protocol.Decoder.{
  Decoder, pure, fail, ◌>>=◌, get_int16, get_int32, get_string, get_bytes,
}

-- A Request around a body, which its decode method overwrites.
pub record Request (B : Type 0) : Type 0 where
  pub correlation_id : ℤ
  pub client_id : List ℕ
  pub body : B

abbrev pub request : {B : Type 0} → ℤ → List ℕ → B → Request B
request c i b = record { correlation_id = c; client_id = i; body = b }

abbrev pub unexpected : Error
unexpected = packet_decoding "expected request key,version"

-- r.Body.key() != key || r.Body.version() != version
abbrev pub check_key_version {ℓ} : {A : Type ℓ} → ℤ → ℤ → ℤ → ℤ → Decoder A → Decoder A
check_key_version own_key own_version key version d =
    if beq_ℤ own_key key && beq_ℤ own_version version then d else fail unexpected

-- Request.decode, for a body of this key and version that is not nil
unfoldable pub decode_request : {B : Type 0} → ℤ → ℤ → Decoder B → Decoder (Request B)
decode_request own_key own_version d = do
  key ← get_int16
  version ← get_int16
  check_key_version own_key own_version key version
      (do c ← get_int32; i ← get_string; b ← d; pure (request c i b))

-- r.Version != 0 && r.Version != 1 fails
abbrev pub zero_or_one : ℤ → Bool
zero_or_one v = if beq_ℤ v (pos 0) then true else beq_ℤ v (pos 1)

abbrev pub bad_version : Error
bad_version = failure "SaslHandshakeRequestV0orV1 expects version 0 or 1"

-- SaslHandshakeRequestV0orV1.decode: the version stands in the receiver, the mechanism is read.
unfoldable pub decode_sasl_handshake : ℤ → Decoder (List ℕ)
decode_sasl_handshake v = if zero_or_one v then get_string else fail bad_version

abbrev pub sasl_handshake_key : ℤ
sasl_handshake_key = pos 17

-- SaslAuthenticateRequestV0.decode
unfoldable pub decode_sasl_authenticate_v0 : Decoder (Option (List ℕ))
decode_sasl_authenticate_v0 = get_bytes

abbrev pub sasl_authenticate_key : ℤ
sasl_authenticate_key = pos 36
