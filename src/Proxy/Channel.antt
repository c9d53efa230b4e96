-- ===== src/Proxy/Channel.antt =====
-- A buffered Go channel as the list of the values in it, and the helpers of proxy/processor.go and
-- proxy/processor_default.go that send and receive. A helper that waits for its timer is modelled from
-- where the wait ends: with room or a value, or with neither and the timer's error.
use kafka_gcp_proxy.Base.{
  ℕ, ◌+◌, List, [], ◌∷◌, ◌++◌, failure, ℤ, pos, negsuc, Error, Result, ok, err, ◌>>=◌, ltb,
  if◌then◌else◌, length,
}
use kafka_gcp_proxy.Protocol.KeyVersion.{RequestKeyVersion, key_version}

pub data RequestHandler : Type 0 where
  default_request_handler sasl_auth_v0_request_handler : RequestHandler

pub data ResponseHandler : Type 0 where
  default_response_handler sasl_auth_v0_response_handler : ResponseHandler

abbrev pub min_open_requests : ℕ
min_open_requests = 16

-- newProcessor's bound on the open requests, of the configured one
unfoldable pub open_requests_bound : ℤ → ℕ
open_requests_bound (negsuc n) = min_open_requests
open_requests_bound (pos n) = if ltb n min_open_requests then min_open_requests else n

-- The three channels of a processor.
pub record Channels : Type 0 where
  pub open_requests : List RequestKeyVersion
  pub next_request_handlers : List RequestHandler
  pub next_response_handlers : List ResponseHandler

-- newProcessor
abbrev pub new_channels : Channels
new_channels = record {
  open_requests = [];
  next_request_handlers = default_request_handler ∷ [];
  next_response_handlers = default_response_handler ∷ [];
}

-- A send with its error for a full channel, and a receive with its error for an empty one.
abbrev pub send {ℓ} : {A : Type ℓ} → ℕ → Error → A → List A → Result (List A)
send bound full x xs = if ltb (length xs) bound then ok (xs ++ (x ∷ [])) else err full

abbrev pub receive {ℓ} : {A : Type ℓ} → Error → List A → Result (A × List A)
receive missing [] = err missing
receive missing (x ∷ xs) = ok (x, xs)

unfoldable pub send_request_key_version : ℕ → RequestKeyVersion → Channels → Result Channels
send_request_key_version bound r c = do
  rs ← send bound (failure "open requests buffer is full") r c.open_requests
  ok (record c { open_requests = rs })

unfoldable pub receive_request_key_version : Channels → Result (RequestKeyVersion × Channels)
receive_request_key_version c = do
  (r, rs) ← receive (failure "open request is missing") c.open_requests
  ok (r, record c { open_requests = rs })

unfoldable pub put_next_request_handler : RequestHandler → Channels → Result Channels
put_next_request_handler h c = do
  hs ← send 1 (failure "next request handler channel is full") h c.next_request_handlers
  ok (record c { next_request_handlers = hs })

-- The channel of the response handlers has two places more than that of the open requests.
abbrev pub put_next_response_handler : ℕ → Error → ResponseHandler → Channels → Result Channels
put_next_response_handler bound full h c = do
  hs ← send (bound + 2) full h c.next_response_handlers
  ok (record c { next_response_handlers = hs })

unfoldable pub put_next_handlers : ℕ → RequestHandler → ResponseHandler → Channels → Result Channels
unfolding put_next_request_handler
put_next_handlers bound q p c = do
  c ← put_next_request_handler q c
  put_next_response_handler bound (failure "next response handler channel is full") p c

unfoldable pub get_next_request_handler : Channels → Result (RequestHandler × Channels)
get_next_request_handler c = do
  (h, hs) ← receive (failure "next request handler is missing") c.next_request_handlers
  ok (h, record c { next_request_handlers = hs })

unfoldable pub get_next_response_handler : Channels → Result (ResponseHandler × Channels)
get_next_response_handler c = do
  (h, hs) ← receive (failure "next response handler is missing") c.next_response_handlers
  ok (h, record c { next_response_handlers = hs })

-- The two sends of enqueueReauthMarker, which do not wait.
unfoldable pub send_marker : ℕ → RequestKeyVersion → Channels → Result Channels
send_marker bound r c = do
  rs ← send bound (failure "re-auth: openRequestsChannel full") r c.open_requests
  ok (record c { open_requests = rs })

abbrev pub put_marker_handler : ℕ → Channels → Result Channels
put_marker_handler bound c =
    put_next_response_handler bound (failure "re-auth: nextResponseHandlerChannel full")
      default_response_handler c

unfoldable pub enqueue_reauth_marker : ℕ → RequestKeyVersion → Channels → Result Channels
unfolding send_marker
enqueue_reauth_marker bound r c = do c ← send_marker bound r c; put_marker_handler bound c

abbrev pub sasl_handshake_marker : RequestKeyVersion
sasl_handshake_marker = key_version (pos 0) (pos 17) (pos 1)

abbrev pub sasl_authenticate_marker : RequestKeyVersion
sasl_authenticate_marker = key_version (pos 0) (pos 36) (pos 1)

unfoldable pub enqueue_reauth_response : ℕ → Channels → Result Channels
unfolding enqueue_reauth_marker
enqueue_reauth_response bound c = do
  c ← enqueue_reauth_marker bound sasl_handshake_marker c
  enqueue_reauth_marker bound sasl_authenticate_marker c
