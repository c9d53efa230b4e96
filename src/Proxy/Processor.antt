-- ===== src/Proxy/Processor.antt =====
-- newProcessor of proxy/processor.go, and its two loops as far as the listed rounds go. A round has the
-- times that time.Now() returns in it: at its start, and in the handler.
pub mod Piped
use kafka_gcp_proxy.Base.{
  ℕ, ◌*◌, ℤ, pos, negsuc, Bool, true, false, Option, none, some, List, [], ◌∷◌, failure, Result, ok,
  err, ◌==◌, if◌then◌else◌,
}
use kafka_gcp_proxy.Protocol.Responses.Modify.{NetAddressMapping}
use kafka_gcp_proxy.Proxy.AuthState.{
  ConnectionAuthState, second, new_connection_auth_state, in_flight_expired,
}
use kafka_gcp_proxy.Proxy.Channel.{
  Channels, new_channels, open_requests_bound, RequestHandler, default_request_handler,
  sasl_auth_v0_request_handler, ResponseHandler, default_response_handler,
  sasl_auth_v0_response_handler, get_next_request_handler, get_next_response_handler,
}
use kafka_gcp_proxy.Proxy.Wires.{
  Wires, Exit, done, Io, ◌>>=◌, ◌>>◌, pure, fail, skip, on_channels, set_read_deadline,
}
use kafka_gcp_proxy.Proxy.Handlers.Request.{
  SaslAuthByProxy, RequestsLoopContext, get_auth_state, handle_request, handle_sasl_auth_v0_request,
}
use kafka_gcp_proxy.Proxy.Handlers.Response.{
  ResponsesLoopContext, handle_response, copy_sasl_auth_response,
}

pub record ProcessorConfig : Type 0 where
  pub max_open_requests : ℤ
  pub net_address_mapping_func : Option NetAddressMapping
  pub request_buffer_size : ℤ
  pub response_buffer_size : ℤ
  pub write_timeout : ℤ
  pub read_timeout : ℤ
  pub forbidden_api_keys : List ℤ
  pub producer_acks0_disabled : Bool
  pub initial_session_lifetime_ms : ℤ
  pub sasl_auth_by_proxy : Option SaslAuthByProxy

-- if n <= 0 { n = default }
abbrev pub or_default : ℕ → ℤ → ℕ
or_default default (negsuc n) = default
or_default default (pos n) = if n == 0 then default else n

abbrev default_buffer_size : ℕ
default_buffer_size = 4096

abbrev default_timeout : ℕ
default_timeout = 30 * second

-- What newProcessor makes of the configuration, as RequestsLoop and ResponsesLoop hand it to the loops.
unfoldable pub requests_loop_context : ProcessorConfig → RequestsLoopContext
unfolding open_requests_bound
requests_loop_context cfg = record {
  bound = open_requests_bound cfg.max_open_requests;
  timeout = or_default default_timeout cfg.write_timeout;
  forbidden_api_keys = cfg.forbidden_api_keys;
  buf = or_default default_buffer_size cfg.request_buffer_size;
  producer_acks0_disabled = cfg.producer_acks0_disabled;
  sasl_auth_by_proxy = cfg.sasl_auth_by_proxy;
}

unfoldable pub responses_loop_context : (ℤ → ℤ) → ProcessorConfig → ResponsesLoopContext
responses_loop_context product cfg = record {
  net_address_mapping_func = cfg.net_address_mapping_func;
  timeout = or_default default_timeout cfg.read_timeout;
  buf = or_default default_buffer_size cfg.response_buffer_size;
  product = product;
}

unfoldable pub new_processor : (ℤ → ℤ) → ℕ → ProcessorConfig → Channels × ConnectionAuthState
unfolding new_connection_auth_state
new_processor product now cfg =
    (new_channels, new_connection_auth_state product now cfg.initial_session_lifetime_ms)

abbrev pub Times : Type 0
Times = ℕ × ℕ × ℕ

unfoldable pub run_request_handler : RequestHandler → RequestsLoopContext → ℕ → ℕ → Io (Unit {0})
run_request_handler default_request_handler ctx now later = handle_request ctx now later
run_request_handler sasl_auth_v0_request_handler ctx now later = handle_sasl_auth_v0_request ctx now

-- The next handler, or none: then the loop returns without an error.
unfoldable pub next_or_none : Io (Option RequestHandler)
next_or_none w = elim (get_next_request_handler w.channels) [
  | ok (h, c) ↦ done (some h) (record w { channels = c })
  | err e ↦ done none w
]

-- if r.authState.InFlightExpired(time.Now()) { return false, … }
unfoldable pub check_in_flight : ℕ → Io (Unit {0})
check_in_flight now = do
  state ← get_auth_state
  if in_flight_expired state now
      then fail false (failure "re-auth response did not arrive within cushion window")
      else skip

unfoldable pub requests_loop : RequestsLoopContext → List Times → Io (Unit {0})
unfolding run_request_handler check_in_flight next_or_none
requests_loop ctx [] = skip
requests_loop ctx ((start, now, later) ∷ rounds) = do
  check_in_flight start
  next ← next_or_none
  elim next [
    | none ↦ skip
    | some handler ↦ run_request_handler handler ctx now later >> requests_loop ctx rounds
  ]

-- processor.RequestsLoop. The write deadline of src, which SetDeadline resets as well, belongs to the
-- other direction.
unfoldable pub run_requests_loop : ProcessorConfig → List Times → Io (Unit {0})
unfolding requests_loop requests_loop_context
run_requests_loop cfg rounds =
    set_read_deadline false 0 >> requests_loop (requests_loop_context cfg) rounds

unfoldable pub run_response_handler : ResponseHandler → ResponsesLoopContext → ℕ → Io (Unit {0})
run_response_handler default_response_handler ctx now = handle_response ctx now
run_response_handler sasl_auth_v0_response_handler ctx now = copy_sasl_auth_response ctx.timeout now

unfoldable pub responses_loop : ResponsesLoopContext → List ℕ → Io (Unit {0})
unfolding run_response_handler
responses_loop ctx [] = skip
responses_loop ctx (now ∷ rounds) = do
  next ← on_channels false get_next_response_handler
  run_response_handler next ctx now
  responses_loop ctx rounds
