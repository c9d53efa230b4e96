-- ===== src/Proxy/Handlers/Response.antt =====
-- DefaultResponseHandler of proxy/processor_default.go with consumeReauthResponse of proxy/processor.go,
-- and the response side of proxy/processor_sasl_auth_v0.go. `now` is what time.Now() returns.
use kafka_gcp_proxy.Base.{
  ℕ, ◌+◌, ℤ, pos, negsuc, half32, signed, unsigned, beq_ℤ, ltb_ℤ, true, false, Option, none, some,
  List, failure, packet_decoding, panicked, Result, if◌then◌else◌, length,
}
use kafka_gcp_proxy.Protocol.Encoding.{decode, encode, max_request_size}
use kafka_gcp_proxy.Protocol.Headers.{
  ResponseHeader, response_header, decode_response_header, new_response_header_tagged_fields,
}
use kafka_gcp_proxy.Protocol.Headers.Encode.{encode_response_header}
use kafka_gcp_proxy.Protocol.KeyVersion.{RequestKeyVersion}
use kafka_gcp_proxy.Protocol.PrepEncoder.{prep_encoder}
use kafka_gcp_proxy.Protocol.RealEncoder.{real_encoder}
use kafka_gcp_proxy.Protocol.Responses.Modify.{
  NetAddressMapping, ResponseModifier, apply, get_response_modifier,
}
use kafka_gcp_proxy.Protocol.SaslResponses.{
  decode_sasl_handshake_response, decode_sasl_authenticate_response_v1,
}
use kafka_gcp_proxy.Proxy.AuthState.{complete_reauth}
use kafka_gcp_proxy.Proxy.Channel.{receive_request_key_version}
use kafka_gcp_proxy.Proxy.Pairing.{is_proxy_reauth_response, reauth_handshake_correlation_id}
use kafka_gcp_proxy.Proxy.Wires.{
  Io, ◌>>=◌, ◌>>◌, fail, lift, skip, reject_if, read_full, write, set_read_deadline,
  set_write_deadline, on_channels,
}
use kafka_gcp_proxy.Proxy.CopyN.{my_copy_n}
use kafka_gcp_proxy.Proxy.Handlers.Request.{minus32, change_auth_state}
use kafka_gcp_proxy.Proxy.Handlers.TaggedFields.{maybe_read}

pub record ResponsesLoopContext : Type 0 where
  pub net_address_mapping_func : Option NetAddressMapping
  pub timeout : ℕ
  -- len(buf)
  pub buf : ℕ
  -- the float64 product of scaleSessionLifetime
  pub product : ℤ → ℤ

-- make([]byte, n) panics on a negative n.
abbrev pub read_body : ℤ → Io (List ℕ)
read_body (pos n) = read_full n
read_body (negsuc n) = fail false panicked

unfoldable pub complete_reauth_handshake : List ℕ → Io (Unit {0})
complete_reauth_handshake payload = do
  res ← lift true (decode payload decode_sasl_handshake_response)
  if beq_ℤ res.err (pos 0)
      then skip
      else fail false (failure "re-auth: broker rejected the handshake")

-- The answer to the SaslAuthenticate request of a re-authentication.
unfoldable pub complete_reauth_authenticate : ResponsesLoopContext → ℕ → List ℕ → Io (Unit {0})
complete_reauth_authenticate ctx now payload = do
  res ← lift true (decode payload decode_sasl_authenticate_response_v1)
  if beq_ℤ res.err (pos 0)
      then change_auth_state (complete_reauth ctx.product now res.session_lifetime_ms)
      else fail false (failure "re-auth: broker rejected refreshed credentials")

unfoldable pub consume_reauth_response : ResponsesLoopContext → ℕ → ResponseHeader → Io (Unit {0})
unfolding complete_reauth_handshake complete_reauth_authenticate
consume_reauth_response ctx now header = do
  set_read_deadline true (now + ctx.timeout)
  reject_if (ltb_ℤ header.length (pos 4)) (failure "re-auth: response too short")
  payload ← read_body (minus32 header.length 4)
  if beq_ℤ header.correlation_id reauth_handshake_correlation_id
      then complete_reauth_handshake payload
      else complete_reauth_authenticate ctx now payload

-- int32(n) of a length
abbrev pub int32_of : ℕ → ℤ
int32_of n = signed half32 (unsigned half32 (pos n))

-- protocol.Encode of a response header
abbrev pub encode_header : ResponseHeader → Result (List ℕ)
encode_header h =
    encode (encode_response_header ⦃pe = prep_encoder⦄ h)
      (encode_response_header ⦃pe = real_encoder⦄ h)

-- The response rewritten, with the length of what it now is.
unfoldable pub write_modified : ResponseHeader → List ℕ → ResponseModifier → Io (Unit {0})
write_modified header tagged m = do
  reject_if (ltb_ℤ (pos max_request_size) header.length) (packet_decoding "message too large")
  resp ← read_body (minus32 header.length (4 + length tagged))
  new_response ← lift true (apply m (some resp))
  new_header ← lift true (
      encode_header (
        response_header (int32_of (length new_response + (4 + length tagged)))
          header.correlation_id))
  write new_header
  write tagged
  write new_response

-- The response as it is.
unfoldable pub write_unmodified : ℕ → List ℕ → ResponseHeader → List ℕ → Io (Unit {0})
write_unmodified buf header_bytes header tagged = do
  write header_bytes
  write tagged
  my_copy_n buf (minus32 header.length (4 + length tagged))

unfoldable pub relay_response :
    ResponsesLoopContext → ℕ → List ℕ → ResponseHeader → RequestKeyVersion → Io (Unit {0})
unfolding write_modified write_unmodified
relay_response ctx now header_bytes header r = do
  set_write_deadline false (now + ctx.timeout)
  set_read_deadline true (now + ctx.timeout)
  fields ← lift true (new_response_header_tagged_fields r)
  tagged ← maybe_read fields.version
  modifier ← lift true (get_response_modifier r.api_key r.api_version ctx.net_address_mapping_func)
  elim modifier [
    | none ↦ write_unmodified ctx.buf header_bytes header tagged
    | some m ↦ write_modified header tagged m
  ]

-- DefaultResponseHandler.handleResponse
unfoldable pub handle_response : ResponsesLoopContext → ℕ → Io (Unit {0})
unfolding consume_reauth_response relay_response
handle_response ctx now = do
  set_read_deadline true 0
  set_write_deadline true 0
  header_bytes ← read_full 8
  header ← lift true (decode header_bytes decode_response_header)
  r ← on_channels true receive_request_key_version
  if is_proxy_reauth_response r header.correlation_id
      then consume_reauth_response ctx now header
      else relay_response ctx now header_bytes header r

-- copySaslAuthResponse, which is all of SaslAuthV0ResponseHandler.handleResponse
unfoldable pub copy_sasl_auth_response : ℕ → ℕ → Io (Unit {0})
copy_sasl_auth_response timeout now = do
  set_write_deadline false (now + timeout)
  set_read_deadline true (now + timeout)
  header ← read_full 4
  write header
