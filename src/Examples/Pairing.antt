-- ===== src/Examples/Pairing.antt =====
-- The theorems on the two loops of proxy/processor.go at a run with one request of a client.
use kafka_gcp_proxy.Base.{ℕ, ◌≡◌, refl, pos, false, [], ◌∷◌, ok}
use kafka_gcp_proxy.Protocol.KeyVersion.{RequestKeyVersion, key_version}
use kafka_gcp_proxy.Proxy.Channel.{
  Channels, default_request_handler, default_response_handler, new_channels,
  put_next_request_handler, receive_request_key_version, get_next_request_handler,
  get_next_response_handler, send_request_key_version,
}
use kafka_gcp_proxy.Proxy.Pairing.{
  client, kafka, System, initial, reading, written, holding, got, matched, is_proxy_reauth_response,
}
use kafka_gcp_proxy.Proxy.Pairing.Steps.{
  Reach, start, next, take_request_handler, enter, write, take_response_handler, read_header,
  match_request, request, response,
}
use kafka_gcp_proxy.Proxy.Pairing.Invariant.{handler_of}
use kafka_gcp_proxy.Proxy.Pairing.Reached.{
  matched-own, matched-is_proxy_reauth_response, holding-handler_of, got-received,
  running-put_next_request_handler,
}

-- The broker answers a token with no bytes.
abbrev Empty : ℕ → Type 0
Empty n = n ≡ 0

abbrev api_versions : RequestKeyVersion
api_versions = key_version (pos 20) (pos 18) (pos 0)

abbrev taken : Channels
taken = record new_channels { next_request_handlers = [] }

abbrev opened : Channels
opened = record taken { open_requests = api_versions ∷ [] }

abbrev answering : Channels
answering = record opened { next_response_handlers = [] }

abbrev in_handler : System
in_handler = record initial { channels = taken; request_pc = reading default_request_handler }

abbrev in_response : System
in_response = record {
  channels = answering;
  request_pc = written api_versions;
  response_pc = holding default_response_handler;
  replies = kafka api_versions (pos 7) client ∷ [];
}

abbrev answered : System
answered = record in_response {
  response_pc = got (kafka api_versions (pos 7) client);
  replies = [];
}

abbrev at_end : System
at_end = record answered {
  channels = record answering { open_requests = [] };
  response_pc = matched (kafka api_versions (pos 7) client) api_versions;
}

to_handler : Reach 16 Empty in_handler
unfolding get_next_request_handler
to_handler = next start (take_request_handler default_request_handler taken refl refl)

to_response : Reach 16 Empty in_response
unfolding get_next_response_handler send_request_key_version
to_response =
    next
      (next (next to_handler (request (enter api_versions opened refl refl)))
        (request (write api_versions (pos 7) refl)))
      (take_response_handler default_response_handler answering refl refl)

to_answered : Reach 16 Empty answered
to_answered =
    next to_response (response (read_header (kafka api_versions (pos 7) client) [] refl refl))

to_end : Reach 16 Empty at_end
unfolding receive_request_key_version
to_end = next to_answered (
    response (
      match_request (kafka api_versions (pos 7) client) api_versions
        (record answering { open_requests = [] }) refl refl))

matched-own_example : api_versions ≡ api_versions
matched-own_example =
    matched-own 16 Empty at_end api_versions api_versions (pos 7) client (λ n e. e) to_end refl

matched-is_proxy_reauth_response_example : is_proxy_reauth_response api_versions (pos 7) ≡ false
matched-is_proxy_reauth_response_example =
    matched-is_proxy_reauth_response 16 Empty at_end api_versions api_versions (pos 7) client
      (λ n e. e) to_end refl (λ e. (refl, refl))

holding-handler_of_example :
    default_response_handler ≡ handler_of (kafka api_versions (pos 7) client)
holding-handler_of_example =
    holding-handler_of 16 Empty in_response default_response_handler
      (kafka api_versions (pos 7) client) [] (λ n e. e) to_response refl refl

got-received_example :
    (c : Channels) × (receive_request_key_version answering ≡ ok (api_versions, c))
got-received_example =
    got-received 16 Empty answered api_versions (pos 7) client (λ n e. e) to_answered refl refl

running-put_next_request_handler_example :
    put_next_request_handler default_request_handler taken ≡ ok new_channels
running-put_next_request_handler_example =
    running-put_next_request_handler 16 Empty in_handler default_request_handler to_handler refl
