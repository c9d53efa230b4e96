-- ===== src/Examples/Handlers.antt =====
-- The theorems on myCopyN and the handlers at short messages.
use kafka_gcp_proxy.Protocol.Responses.Modify.{get_response_modifier}
use kafka_gcp_proxy.Proxy.Handlers.TaggedFields.{maybe_read}
use kafka_gcp_proxy.Proxy.Pairing.{is_proxy_reauth_response}
use kafka_gcp_proxy.Proxy.Handlers.Acks.{must_reply}
use kafka_gcp_proxy.Protocol.Decoder.{get_int16, get_int32}
use kafka_gcp_proxy.Base.{
  ℕ, ◌≡◌, ◌≢◌, ◌⊎◌, refl, pos, true, false, none, List, [], ◌∷◌, eof, failure, length, arith, ok,
}
use kafka_gcp_proxy.Protocol.Encoding.{decode}
use kafka_gcp_proxy.Protocol.Headers.{
  ResponseHeader, decode_response_header, new_response_header_tagged_fields,
}
use kafka_gcp_proxy.Protocol.KeyVersion.{
  RequestKeyVersion, decode_key_version, header_version_0_24, key_version, response_header_version,
}
use kafka_gcp_proxy.Proxy.AuthState.{ConnectionAuthState, next_read_deadline, needs_reauth}
use kafka_gcp_proxy.Proxy.Channel.{
  default_request_handler, default_response_handler, put_next_handlers, receive_request_key_version,
  send_request_key_version,
}
use kafka_gcp_proxy.Proxy.Wires.{
  Arrival, Wires, byte, done, late, looping, on_channels, read, read_full, reject_if,
  set_read_deadline, set_write_deadline, write,
}
use kafka_gcp_proxy.Proxy.Wires.Moved.{Moved}
use kafka_gcp_proxy.Proxy.CopyN.{my_copy_n}
use kafka_gcp_proxy.Proxy.CopyN.Copied.{my_copy_n-returns}
use kafka_gcp_proxy.Proxy.Handlers.Request.{RequestsLoopContext, handle_request}
use kafka_gcp_proxy.Proxy.Handlers.Response.{
  ResponsesLoopContext, handle_response, copy_sasl_auth_response,
}
use kafka_gcp_proxy.Proxy.Handlers.Idle.{
  Forwarded, TimedOut, handle_request-Forwarded, handle_request-loses,
}
use kafka_gcp_proxy.Proxy.Handlers.Answered.{
  Answered, handle_response-Answered, copy_sasl_auth_response-Moved,
}

abbrev no_session : ConnectionAuthState
no_session = record {
  reauth_at = 0;
  in_flight = false;
  in_flight_deadline = 0;
  in_flight_started_at = 0;
  session_lifetime = pos 0;
}

abbrev heartbeat : RequestKeyVersion
heartbeat = key_version (pos 8) (pos 12) (pos 0)

-- The loop of requests in a handler, with these arrivals.
abbrev wires : List Arrival → Wires
wires arrivals = record {
  arrivals = arrivals;
  ending = eof;
  taken = [];
  read_deadline = 0;
  written = [];
  room = 100;
  broken = failure "broken pipe";
  write_deadline = 0;
  closed = false;
  channels = record {
    open_requests = heartbeat ∷ [];
    next_request_handlers = [];
    next_response_handlers = [];
  };
  auth_state = no_session;
}

abbrev four_bytes : List Arrival
four_bytes = byte 1 false ∷ byte 2 true ∷ byte 3 false ∷ byte 4 false ∷ late ∷ []

abbrev four : Wires
four = wires four_bytes

my_copy_n-returns_example : my_copy_n 3 (pos 10) four ≢ looping
my_copy_n-returns_example = my_copy_n-returns 3 (pos 10) four (omega arith)

abbrev requests : RequestsLoopContext
requests = record {
  bound = 16;
  timeout = 30;
  forbidden_api_keys = [];
  buf = 3;
  producer_acks0_disabled = false;
  sasl_auth_by_proxy = none;
}

-- A heartbeat request with its correlation id, 4 bytes behind the header.
abbrev request_bytes : List Arrival
request_bytes =
    byte 0 false
    ∷ byte 0 false
    ∷ byte 0 false
    ∷ byte 8 true
    ∷ byte 0 false
    ∷ byte 12 false
    ∷ byte 0 false
    ∷ byte 0 false
    ∷ four_bytes

abbrev message : List ℕ
message = 0 ∷ 0 ∷ 0 ∷ 8 ∷ 0 ∷ 12 ∷ 0 ∷ 0 ∷ 1 ∷ 2 ∷ 3 ∷ 4 ∷ []

abbrev forwarded : Wires
forwarded = record (wires (late ∷ [])) {
  taken = message;
  read_deadline = 37;
  written = message;
  room = 88;
  write_deadline = 37;
  channels = record {
    open_requests = heartbeat ∷ heartbeat ∷ [];
    next_request_handlers = default_request_handler ∷ [];
    next_response_handlers = default_response_handler ∷ [];
  };
}

run_request : handle_request requests 7 8 (wires request_bytes) ≡ done tt forwarded
unfolding handle_request set_read_deadline set_write_deadline read_full decode decode_key_version
    get_int32 get_int16 reject_if must_reply on_channels send_request_key_version write my_copy_n
    read put_next_handlers
run_request = refl

handle_request-Forwarded_example :
    Forwarded (wires request_bytes) forwarded
    ⊎ TimedOut requests 7 8 (wires request_bytes) forwarded
handle_request-Forwarded_example =
    handle_request-Forwarded requests 7 8 (wires request_bytes) forwarded (omega arith) run_request

abbrev behind_four : Wires
behind_four = record (wires []) {
  taken = 1 ∷ 2 ∷ 3 ∷ 4 ∷ [];
  channels = record {
    open_requests = heartbeat ∷ [];
    next_request_handlers = default_request_handler ∷ [];
    next_response_handlers = [];
  };
}

handle_request-loses_example : handle_request requests 7 8 four ≡ done tt behind_four
unfolding next_read_deadline needs_reauth
handle_request-loses_example =
    handle_request-loses requests 7 8 four (1 ∷ 2 ∷ 3 ∷ 4 ∷ []) [] (omega arith)
      (refl, (refl, (refl, (refl, refl)))) refl refl refl

abbrev responses : ResponsesLoopContext
responses = record { net_address_mapping_func = none; timeout = 30; buf = 3; product = λ d. d }

abbrev relayed : Wires
relayed = record (wires (late ∷ [])) {
  taken = message;
  read_deadline = 37;
  written = message;
  room = 88;
  write_deadline = 37;
  channels = record { open_requests = []; next_request_handlers = []; next_response_handlers = [] };
}

run_response : handle_response responses 7 (wires request_bytes) ≡ done tt relayed
unfolding handle_response set_read_deadline set_write_deadline read_full decode
    decode_response_header get_int32 on_channels receive_request_key_version
    is_proxy_reauth_response new_response_header_tagged_fields response_header_version
    header_version_0_24 maybe_read get_response_modifier write my_copy_n read
run_response = refl

handle_response-Answered_example :
    (header_bytes : List ℕ) × (header : ResponseHeader) × (r : RequestKeyVersion) × (u : Wires)
    × (length header_bytes ≡ 8)
    × (decode header_bytes decode_response_header ≡ ok header)
    × (receive_request_key_version (wires request_bytes).channels ≡ ok (r, relayed.channels))
    × Moved (wires request_bytes) u header_bytes []
    × Answered responses header_bytes header r u relayed
handle_response-Answered_example =
    handle_response-Answered responses 7 (wires request_bytes) relayed (omega arith) run_response

abbrev size_sent : Wires
size_sent = record (wires (late ∷ [])) {
  taken = 1 ∷ 2 ∷ 3 ∷ 4 ∷ [];
  read_deadline = 37;
  written = 1 ∷ 2 ∷ 3 ∷ 4 ∷ [];
  room = 96;
  write_deadline = 37;
}

run_sasl_response : copy_sasl_auth_response 30 7 four ≡ done tt size_sent
unfolding copy_sasl_auth_response set_write_deadline set_read_deadline read_full write
run_sasl_response = refl

copy_sasl_auth_response-Moved_example :
    (size_bytes : List ℕ) × Moved four size_sent size_bytes size_bytes × (length size_bytes ≡ 4)
copy_sasl_auth_response-Moved_example =
    copy_sasl_auth_response-Moved 30 7 four size_sent run_sasl_response
