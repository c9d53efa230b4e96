-- ===== src/Examples/Loops.antt =====
-- The requests loop at one request of a client.
use kafka_gcp_proxy.Proxy.CopyN.{my_copy_n}
use kafka_gcp_proxy.Proxy.Handlers.Request.{handle_request}
use kafka_gcp_proxy.Protocol.Decoder.{get_int16, get_int32}
use kafka_gcp_proxy.Protocol.Encoding.{decode}
use kafka_gcp_proxy.Proxy.AuthState.{in_flight_expired}
use kafka_gcp_proxy.Proxy.Handlers.Acks.{must_reply}
use kafka_gcp_proxy.Base.{ℕ, ◌≡◌, refl, pos, true, false, none, List, [], ◌∷◌, ◌++◌, eof, failure}
use kafka_gcp_proxy.Protocol.KeyVersion.{decode_key_version, key_version}
use kafka_gcp_proxy.Proxy.Channel.{
  default_request_handler, default_response_handler, get_next_request_handler, new_channels,
  put_next_handlers, send_request_key_version,
}
use kafka_gcp_proxy.Proxy.Wires.{
  Arrival, Wires, byte, done, on_channels, read, read_full, reject_if, set_read_deadline,
  set_write_deadline, write,
}
use kafka_gcp_proxy.Proxy.Wires.Moved.{bytes_of}
use kafka_gcp_proxy.Proxy.Processor.{
  ProcessorConfig, requests_loop, requests_loop_context, run_requests_loop,
}
use kafka_gcp_proxy.Proxy.Processor.Piped.{run_requests_loop-pipe}

abbrev config : ProcessorConfig
config = record {
  max_open_requests = pos 0;
  net_address_mapping_func = none;
  request_buffer_size = pos 3;
  response_buffer_size = pos 0;
  write_timeout = pos 30;
  read_timeout = pos 0;
  forbidden_api_keys = [];
  producer_acks0_disabled = false;
  initial_session_lifetime_ms = pos 0;
  sasl_auth_by_proxy = none;
}

-- A request for the versions of the API, and the first bytes of another.
abbrev client_bytes : List Arrival
client_bytes =
    byte 0 false
    ∷ byte 0 false
    ∷ byte 0 false
    ∷ byte 8 true
    ∷ byte 0 false
    ∷ byte 18 false
    ∷ byte 0 false
    ∷ byte 0 false
    ∷ byte 1 false
    ∷ byte 2 true
    ∷ byte 3 false
    ∷ byte 4 false
    ∷ byte 0 false
    ∷ byte 0 true
    ∷ []

abbrev message : List ℕ
message = 0 ∷ 0 ∷ 0 ∷ 8 ∷ 0 ∷ 18 ∷ 0 ∷ 0 ∷ 1 ∷ 2 ∷ 3 ∷ 4 ∷ []

abbrev fresh : Wires
fresh = record {
  arrivals = client_bytes;
  ending = eof;
  taken = [];
  read_deadline = 0;
  written = [];
  room = 100;
  broken = failure "broken pipe";
  write_deadline = 0;
  closed = false;
  channels = new_channels;
  auth_state = record {
    reauth_at = 0;
    in_flight = false;
    in_flight_deadline = 0;
    in_flight_started_at = 0;
    session_lifetime = pos 0;
  };
}

abbrev forwarded : Wires
forwarded = record fresh {
  arrivals = byte 0 false ∷ byte 0 true ∷ [];
  taken = message;
  read_deadline = 37;
  written = message;
  room = 88;
  write_deadline = 37;
  channels = record {
    open_requests = key_version (pos 8) (pos 18) (pos 0) ∷ [];
    next_request_handlers = default_request_handler ∷ [];
    next_response_handlers = default_response_handler ∷ default_response_handler ∷ [];
  };
}

run_loop : run_requests_loop config ((6, 7, 8) ∷ []) fresh ≡ done tt forwarded
unfolding run_requests_loop requests_loop in_flight_expired get_next_request_handler handle_request
    set_read_deadline set_write_deadline read_full decode decode_key_version get_int32 get_int16
    reject_if requests_loop_context must_reply on_channels send_request_key_version write my_copy_n
    read put_next_handlers
run_loop = refl

run_requests_loop-pipe_example :
    (bs : List ℕ) × (bytes_of client_bytes ≡ bs ++ (0 ∷ 0 ∷ [])) × (message ≡ [] ++ bs)
run_requests_loop-pipe_example =
    run_requests_loop-pipe config ((6, 7, 8) ∷ []) fresh forwarded (tt, λ e. cc) run_loop
