-- ===== src/Proxy/Pairing.antt =====
-- proxy/processor.go, proxy/processor_default.go and proxy/processor_sasl_auth_v0.go as two loops that
-- share the channels of a processor, interleaved in any order: the state of the two. The broker answers
-- the requests of a connection in order (the Kafka protocol), each that mustReply is true of.
pub mod Steps
pub mod Invariant
pub mod Sends
pub mod Receives
pub mod Requests
pub mod Reauth
pub mod Responses
pub mod Queue
pub mod Reached
use kafka_gcp_proxy.Base.{
  ℕ, zero, suc, ◌≡◌, ℤ, pos, beq_ℤ, Bool, true, false, ◌&&◌, ◌||◌, List, [], ◌∷◌, ◌++◌, Result, ok,
  if◌then◌else◌,
}
use kafka_gcp_proxy.Protocol.KeyVersion.{RequestKeyVersion}
use kafka_gcp_proxy.Proxy.Channel.{
  RequestHandler, default_request_handler, sasl_auth_v0_request_handler, ResponseHandler,
  default_response_handler, sasl_auth_v0_response_handler, Channels, new_channels,
  send_request_key_version, receive_request_key_version, put_next_request_handler,
  put_next_handlers, get_next_request_handler, get_next_response_handler, enqueue_reauth_marker,
  sasl_handshake_marker, sasl_authenticate_marker,
}

abbrev pub reauth_correlation_id : ℤ
reauth_correlation_id = pos 2147483646

abbrev pub reauth_handshake_correlation_id : ℤ
reauth_handshake_correlation_id = pos 2147483645

abbrev pub is_proxy_reauth_handshake_response : RequestKeyVersion → ℤ → Bool
is_proxy_reauth_handshake_response r c =
    beq_ℤ r.api_key (pos 17) && beq_ℤ c reauth_handshake_correlation_id

-- isProxyReauthResponse, by the correlation id in the response's header
unfoldable pub is_proxy_reauth_response : RequestKeyVersion → ℤ → Bool
is_proxy_reauth_response r c =
    is_proxy_reauth_handshake_response r c
    || (beq_ℤ r.api_key (pos 36) && beq_ℤ c reauth_correlation_id)

-- Who sent a request.
pub data Origin : Type 0 where
  client proxy : Origin

-- A reply that the broker owes or has sent: to a Kafka request, with its correlation id, or to a token
-- of SASL version 0, which is its length and that many bytes. `token_rest` is such an answer without
-- the length: from there on the responses loop no longer reads at the start of a reply.
pub data Reply : Type 0 where
  kafka : RequestKeyVersion → ℤ → Origin → Reply
  sasl_token : ℕ → Reply
  token_rest : Reply

-- Where the requests loop is: before the next handler, in it, behind the send of an open request,
-- behind the write of a request (with a reply, without one, a token), behind the put of the request
-- handler with the response handler still to put, and in runReauth behind each of its writes and sends.
pub data RequestPc : Type 0 where
  await : RequestPc
  reading : RequestHandler → RequestPc
  entered written : RequestKeyVersion → RequestPc
  written_silent written_token : RequestPc
  handed : ResponseHandler → RequestPc
  handshake_written reauth_written : RequestPc
  handshake_opened handshake_marked authenticate_opened reauth_marked : RequestPc

-- Where the responses loop is: before the next handler, in it, behind a response's header, and behind
-- the receive of its open request.
pub data ResponsePc : Type 0 where
  ready : ResponsePc
  holding : ResponseHandler → ResponsePc
  got : Reply → ResponsePc
  matched : Reply → RequestKeyVersion → ResponsePc

pub record System : Type 0 where
  pub channels : Channels
  pub request_pc : RequestPc
  pub response_pc : ResponsePc
  -- the replies to what was written, from the next one on
  pub replies : List Reply

abbrev pub initial : System
initial = record { channels = new_channels; request_pc = await; response_pc = ready; replies = [] }

-- The handlers that follow a request: SaslHandshake version 0 is followed by a token.
abbrev pub is_sasl_handshake_v0 : RequestKeyVersion → Bool
is_sasl_handshake_v0 r = beq_ℤ r.api_key (pos 17) && beq_ℤ r.api_version (pos 0)

abbrev pub next_request_handler : RequestKeyVersion → RequestHandler
next_request_handler r =
    if is_sasl_handshake_v0 r then sasl_auth_v0_request_handler else default_request_handler

abbrev pub next_response_handler : RequestKeyVersion → ResponseHandler
next_response_handler r =
    if is_sasl_handshake_v0 r then sasl_auth_v0_response_handler else default_response_handler

abbrev pub handshake_reply : Reply
handshake_reply = kafka sasl_handshake_marker reauth_handshake_correlation_id proxy

abbrev pub authenticate_reply : Reply
authenticate_reply = kafka sasl_authenticate_marker reauth_correlation_id proxy

-- What is left to read where the length of a token's answer is read, and no more.
abbrev pub behind_length : ℕ → List Reply → List Reply
behind_length zero xs = xs
behind_length (suc n) xs = token_rest ∷ xs
