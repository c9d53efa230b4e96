-- ===== src/Protocol/SaslResponses.antt =====
-- proxy/protocol: the responses of sasl_handshake.go and of sasl_authenticate_v1.go that the proxy
-- reads. An error code (KError) is its int16.
use kafka_gcp_proxy.Base.{ℕ, ℤ, Option, List}
use kafka_gcp_proxy.Protocol.Decoder.{
  Decoder, pure, ◌>>=◌, get_int16, get_int64, get_string_array, get_nullable_string, get_bytes,
}

pub record SaslHandshakeResponse : Type 0 where
  pub err : ℤ
  pub enabled_mechanisms : Option (List (List ℕ))

-- SaslHandshakeResponseV0orV1.decode
unfoldable pub decode_sasl_handshake_response : Decoder SaslHandshakeResponse
decode_sasl_handshake_response = do
  kerr ← get_int16
  mechanisms ← get_string_array
  pure (record { err = kerr; enabled_mechanisms = mechanisms })

pub record SaslAuthenticateResponseV1 : Type 0 where
  pub err : ℤ
  pub err_msg : Option (List ℕ)
  pub sasl_auth_bytes : Option (List ℕ)
  pub session_lifetime_ms : ℤ

unfoldable pub decode_sasl_authenticate_response_v1 : Decoder SaslAuthenticateResponseV1
decode_sasl_authenticate_response_v1 = do
  kerr ← get_int16
  message ← get_nullable_string
  bytes ← get_bytes
  lifetime ← get_int64
  pure (record {
    err = kerr;
    err_msg = message;
    sasl_auth_bytes = bytes;
    session_lifetime_ms = lifetime;
  })
