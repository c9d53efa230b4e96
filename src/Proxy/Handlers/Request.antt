-- ===== src/Proxy/Handlers/Request.antt =====
-- DefaultRequestHandler of proxy/processor_default.go with runReauth of proxy/processor.go, and the
-- request side of proxy/processor_sasl_auth_v0.go. `now` and `later` are what time.Now() returns.
use kafka_gcp_proxy.Base.{
  ℕ, ◌+◌, ◌-◌, ◌*◌, ℤ, pos, negsuc, half32, signed, unsigned, beq_ℤ, ltb_ℤ, Bool, true, false, ◌||◌,
  Option, none, some, List, [], ◌∷◌, deadline_exceeded, failure, packet_decoding, Result, ok, err,
  leb, if◌then◌else◌, length,
}
use kafka_gcp_proxy.Protocol.Encoding.{decode, max_request_size}
use kafka_gcp_proxy.Protocol.KeyVersion.{RequestKeyVersion, decode_key_version}
use kafka_gcp_proxy.Proxy.AuthState.{
  ConnectionAuthState, needs_reauth, next_read_deadline, mark_in_flight,
}
use kafka_gcp_proxy.Proxy.Channel.{
  Channels, default_request_handler, default_response_handler, put_next_request_handler,
  put_next_handlers, send_request_key_version, enqueue_reauth_response,
}
use kafka_gcp_proxy.Proxy.Pairing.{
  reauth_correlation_id, reauth_handshake_correlation_id, is_sasl_handshake_v0,
  next_request_handler, next_response_handler,
}
use kafka_gcp_proxy.Proxy.Wires.{
  Exit, done, failed, looping, Io, ◌>>=◌, ◌>>◌, lift, skip, reject_if, read_full, write,
  set_read_deadline, set_write_deadline, on_channels,
}
use kafka_gcp_proxy.Proxy.CopyN.{my_copy_n}
use kafka_gcp_proxy.Proxy.Handlers.Acks.{must_reply}

-- The two requests that the proxy builds itself; the second has the token of a token provider in it.
pub record SaslAuthByProxy : Type 0 where
  pub build_reauth_handshake_request : ℤ → Result (List ℕ)
  pub build_reauth_request : ℤ → Result (List ℕ)

pub record RequestsLoopContext : Type 0 where
  -- the size of the channel of the open requests
  pub bound : ℕ
  pub timeout : ℕ
  pub forbidden_api_keys : List ℤ
  -- len(buf)
  pub buf : ℕ
  pub producer_acks0_disabled : Bool
  pub sasl_auth_by_proxy : Option SaslAuthByProxy

-- A call on the channels that returns an error only.
abbrev pub change_channels : Bool → (Channels → Result Channels) → Io (Unit {0})
change_channels read_err f =
    on_channels read_err (λ c. elim (f c) [ ok c' ↦ ok (tt, c') | err e ↦ err e ])

abbrev pub get_auth_state : Io ConnectionAuthState
get_auth_state w = done w.auth_state w

abbrev pub change_auth_state : (ConnectionAuthState → ConnectionAuthState) → Io (Unit {0})
change_auth_state f w = done tt (record w { auth_state = f w.auth_state })

-- The two requests written, and their responses announced.
unfoldable pub write_reauth_requests : RequestsLoopContext → SaslAuthByProxy → ℕ → Io (Unit {0})
write_reauth_requests ctx sasl now = do
  handshake_bytes ← lift false (sasl.build_reauth_handshake_request reauth_handshake_correlation_id)
  req_bytes ← lift false (sasl.build_reauth_request reauth_correlation_id)
  set_write_deadline false (now + ctx.timeout)
  write handshake_bytes
  write req_bytes
  change_auth_state (mark_in_flight now)
  change_channels false (enqueue_reauth_response ctx.bound)

unfoldable pub run_reauth : RequestsLoopContext → ℕ → Io (Unit {0})
unfolding write_reauth_requests
run_reauth ctx now = do
  state ← get_auth_state
  elim ctx.sasl_auth_by_proxy [
    | none ↦ skip
    | some sasl ↦ if needs_reauth state now then write_reauth_requests ctx sasl now else skip
  ]

abbrev pub some_or_timeout {ℓ} : {A : Type ℓ} → Exit A → Exit (Option A)
some_or_timeout (done a w) = done (some a) w
some_or_timeout (failed r deadline_exceeded w) = done none w
some_or_timeout (failed r e w) = failed r e w
some_or_timeout looping = looping

-- What is read, or nothing where the read deadline has elapsed.
unfoldable pub or_timeout {ℓ} : {A : Type ℓ} → Io A → Io (Option A)
or_timeout m w = some_or_timeout (m w)

-- The branch of an elapsed read deadline.
unfoldable pub idle : RequestsLoopContext → ℕ → ℕ → Io (Unit {0})
unfolding run_reauth
idle ctx now later = do
  state ← get_auth_state
  if needs_reauth state now then run_reauth ctx later else skip
  change_channels false (put_next_request_handler default_request_handler)

abbrev is_forbidden : List ℤ → ℤ → Bool
is_forbidden [] k = false
is_forbidden (f ∷ fs) k = beq_ℤ f k || is_forbidden fs k

abbrev max_request_api_key : ℤ
max_request_api_key = pos 20000

-- The guards on a request's key.
unfoldable pub check_api_key : List ℤ → ℤ → Io (Unit {0})
check_api_key forbidden k =
    reject_if (ltb_ℤ k (pos 0) || ltb_ℤ max_request_api_key k) (failure "api key is invalid")
    >> reject_if (is_forbidden forbidden k) (failure "api key is forbidden")

-- x - n on an int32
abbrev pub minus32 : ℤ → ℕ → ℤ
minus32 (pos x) n =
    signed half32 (unsigned half32 (if leb n x then pos (x - n) else negsuc (n - x - 1)))
minus32 (negsuc x) n = signed half32 (unsigned half32 (negsuc (x + n)))

-- The request with this header, and what mustReply has read behind it.
unfoldable pub forward_request :
    RequestsLoopContext → ℕ → List ℕ → RequestKeyVersion → Bool → List ℕ → Io (Unit {0})
forward_request ctx now header r reply read_bytes = do
  if reply then change_channels true (send_request_key_version ctx.bound r) else skip
  set_write_deadline false (now + ctx.timeout)
  set_read_deadline true (now + ctx.timeout)
  write header
  write read_bytes
  my_copy_n ctx.buf (minus32 r.length (4 + length read_bytes))
  if is_sasl_handshake_v0 r || reply
      then change_channels false
          (put_next_handlers ctx.bound (next_request_handler r) (next_response_handler r))
      else change_channels false (put_next_request_handler default_request_handler)

unfoldable pub copy_request : RequestsLoopContext → ℕ → List ℕ → Io (Unit {0})
unfolding check_api_key forward_request
copy_request ctx now header = do
  r ← lift true (decode header decode_key_version)
  check_api_key ctx.forbidden_api_keys r.api_key
  (reply, read_bytes) ← must_reply ctx.producer_acks0_disabled r
  forward_request ctx now header r reply read_bytes

-- DefaultRequestHandler.handleRequest
unfoldable pub handle_request : RequestsLoopContext → ℕ → ℕ → Io (Unit {0})
unfolding or_timeout idle copy_request
handle_request ctx now later = do
  state ← get_auth_state
  set_read_deadline true (next_read_deadline state)
  set_write_deadline true 0
  header ← or_timeout (read_full 8)
  elim header [ none ↦ idle ctx now later | some bytes ↦ copy_request ctx now bytes ]

-- binary.BigEndian.Uint32, of four bytes
abbrev uint32_of : List ℕ → ℕ
uint32_of (a ∷ b ∷ c ∷ d ∷ bs) = a * 16777216 + b * 65536 + c * 256 + d
uint32_of _ = 0

-- copySaslAuthRequest. Only the test takes the length for an int32.
unfoldable pub copy_sasl_auth_request : ℕ → ℕ → ℕ → Io (Unit {0})
copy_sasl_auth_request timeout buf now = do
  set_write_deadline false (now + timeout)
  set_read_deadline true (now + timeout)
  size_buf ← read_full 4
  reject_if (ltb_ℤ (pos max_request_size) (signed half32 (uint32_of size_buf)))
      (packet_decoding "auth message too large")
  write size_buf
  my_copy_n buf (pos (uint32_of size_buf))

-- SaslAuthV0RequestHandler.handleRequest
unfoldable pub handle_sasl_auth_v0_request : RequestsLoopContext → ℕ → Io (Unit {0})
unfolding copy_sasl_auth_request
handle_sasl_auth_v0_request ctx now = do
  copy_sasl_auth_request ctx.timeout ctx.buf now
  change_channels false
      (put_next_handlers ctx.bound default_request_handler default_response_handler)
