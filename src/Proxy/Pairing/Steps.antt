-- ===== src/Proxy/Pairing/Steps.antt =====
-- The steps of the two loops of proxy/processor.go: a step is one channel operation, one request or token
-- written to the broker, or what is read of one reply. A loop that gets an error stops both, so errors
-- have no step. `answers` holds of the lengths that the broker's answers to a token can have.
use kafka_gcp_proxy.Base.{ℕ, ◌≡◌, ℤ, List, [], ◌∷◌, ◌++◌, ok, failure}
use kafka_gcp_proxy.Protocol.KeyVersion.{RequestKeyVersion}
use kafka_gcp_proxy.Proxy.Channel.{
  RequestHandler, default_request_handler, sasl_auth_v0_request_handler, ResponseHandler,
  default_response_handler, sasl_auth_v0_response_handler, Channels, send_request_key_version,
  receive_request_key_version, put_next_request_handler, put_next_response_handler,
  get_next_request_handler, get_next_response_handler, send_marker, put_marker_handler,
  sasl_handshake_marker, sasl_authenticate_marker,
}
use kafka_gcp_proxy.Proxy.Pairing.{
  client, Reply, kafka, sasl_token, token_rest, await, reading, entered, written, written_silent,
  written_token, handed, handshake_written, reauth_written, handshake_opened, handshake_marked,
  authenticate_opened, reauth_marked, ready, holding, got, matched, System, initial,
  next_request_handler, next_response_handler, handshake_reply, authenticate_reply, behind_length,
}

-- The default request handler: a request with a reply, one without, and an elapsed read deadline.
pub data RequestStep (bound : ℕ) (s : System) : System → Type 0 where
  enter :
      (r : RequestKeyVersion) (c : Channels)
      → s.request_pc ≡ reading default_request_handler
      → send_request_key_version bound r s.channels ≡ ok c
      → RequestStep bound s (record s { channels = c; request_pc = entered r })
  write :
      (r : RequestKeyVersion) (id : ℤ)
      → s.request_pc ≡ entered r
      → RequestStep bound s
          (record s { request_pc = written r; replies = s.replies ++ (kafka r id client ∷ []) })
  hand_over :
      (r : RequestKeyVersion) (c : Channels)
      → s.request_pc ≡ written r
      → put_next_request_handler (next_request_handler r) s.channels ≡ ok c
      → RequestStep bound s
          (record s { channels = c; request_pc = handed (next_response_handler r) })
  write_silent :
      s.request_pc ≡ reading default_request_handler
      → RequestStep bound s (record s { request_pc = written_silent })
  hand_over_silent :
      (c : Channels)
      → s.request_pc ≡ written_silent
      → put_next_request_handler default_request_handler s.channels ≡ ok c
      → RequestStep bound s (record s { channels = c; request_pc = await })
  time_out :
      (c : Channels)
      → s.request_pc ≡ reading default_request_handler
      → put_next_request_handler default_request_handler s.channels ≡ ok c
      → RequestStep bound s (record s { channels = c; request_pc = await })

-- A re-authentication, which the default request handler runs where its read deadline has elapsed.
pub data ReauthStep (bound : ℕ) (s : System) : System → Type 0 where
  write_handshake :
      s.request_pc ≡ reading default_request_handler
      → ReauthStep bound s (record s {
        request_pc = handshake_written;
        replies = s.replies ++ (handshake_reply ∷ []);
      })
  write_authenticate :
      s.request_pc ≡ handshake_written
      → ReauthStep bound s (record s {
        request_pc = reauth_written;
        replies = s.replies ++ (authenticate_reply ∷ []);
      })
  open_handshake :
      (c : Channels)
      → s.request_pc ≡ reauth_written
      → send_marker bound sasl_handshake_marker s.channels ≡ ok c
      → ReauthStep bound s (record s { channels = c; request_pc = handshake_opened })
  mark_handshake :
      (c : Channels)
      → s.request_pc ≡ handshake_opened
      → put_marker_handler bound s.channels ≡ ok c
      → ReauthStep bound s (record s { channels = c; request_pc = handshake_marked })
  open_authenticate :
      (c : Channels)
      → s.request_pc ≡ handshake_marked
      → send_marker bound sasl_authenticate_marker s.channels ≡ ok c
      → ReauthStep bound s (record s { channels = c; request_pc = authenticate_opened })
  mark_authenticate :
      (c : Channels)
      → s.request_pc ≡ authenticate_opened
      → put_marker_handler bound s.channels ≡ ok c
      → ReauthStep bound s (record s { channels = c; request_pc = reauth_marked })
  hand_over_reauth :
      (c : Channels)
      → s.request_pc ≡ reauth_marked
      → put_next_request_handler default_request_handler s.channels ≡ ok c
      → ReauthStep bound s (record s { channels = c; request_pc = await })

-- The handlers of SASL version 0. The one for responses takes the length of the answer only; where it
-- does not stand at the start of a reply, it takes any four bytes.
pub data TokenStep (answers : ℕ → Type 0) (s : System) : System → Type 0 where
  write_token :
      (n : ℕ)
      → answers n
      → s.request_pc ≡ reading sasl_auth_v0_request_handler
      → TokenStep answers s
          (record s { request_pc = written_token; replies = s.replies ++ (sasl_token n ∷ []) })
  hand_over_token :
      (c : Channels)
      → s.request_pc ≡ written_token
      → put_next_request_handler default_request_handler s.channels ≡ ok c
      → TokenStep answers s
          (record s { channels = c; request_pc = handed default_response_handler })
  relay_length :
      (n : ℕ) (xs : List Reply)
      → s.response_pc ≡ holding sasl_auth_v0_response_handler
      → s.replies ≡ sasl_token n ∷ xs
      → TokenStep answers s (record s { response_pc = ready; replies = behind_length n xs })
  relay_anything :
      (xs ys : List Reply)
      → s.response_pc ≡ holding sasl_auth_v0_response_handler
      → s.replies ≡ token_rest ∷ xs
      → TokenStep answers s (record s { response_pc = ready; replies = token_rest ∷ ys })

-- The default response handler. Where it does not stand at the start of a reply, it takes any eight bytes
-- for a header.
pub data ResponseStep (s : System) : System → Type 0 where
  read_header :
      (x : Reply) (xs : List Reply)
      → s.response_pc ≡ holding default_response_handler
      → s.replies ≡ x ∷ xs
      → ResponseStep s (record s { response_pc = got x; replies = xs })
  read_anything :
      (x : Reply) (xs ys : List Reply)
      → s.response_pc ≡ holding default_response_handler
      → s.replies ≡ token_rest ∷ xs
      → ResponseStep s (record s { response_pc = got x; replies = token_rest ∷ ys })
  match_request :
      (x : Reply) (r : RequestKeyVersion) (c : Channels)
      → s.response_pc ≡ got x
      → receive_request_key_version s.channels ≡ ok (r, c)
      → ResponseStep s (record s { channels = c; response_pc = matched x r })
  finish_response :
      (x : Reply) (r : RequestKeyVersion)
      → s.response_pc ≡ matched x r
      → ResponseStep s (record s { response_pc = ready })

-- Either loop takes its next handler or goes on in the one that it has. The second put of
-- putNextHandlers ends a handler of the requests loop.
pub data Step (bound : ℕ) (answers : ℕ → Type 0) (s : System) : System → Type 0 where
  take_request_handler :
      (h : RequestHandler) (c : Channels)
      → s.request_pc ≡ await
      → get_next_request_handler s.channels ≡ ok (h, c)
      → Step bound answers s (record s { channels = c; request_pc = reading h })
  put_response_handler :
      (p : ResponseHandler) (c : Channels)
      → s.request_pc ≡ handed p
      → put_next_response_handler bound
          (failure "next response handler channel is full")
          p
          s.channels
        ≡ ok c
      → Step bound answers s (record s { channels = c; request_pc = await })
  take_response_handler :
      (h : ResponseHandler) (c : Channels)
      → s.response_pc ≡ ready
      → get_next_response_handler s.channels ≡ ok (h, c)
      → Step bound answers s (record s { channels = c; response_pc = holding h })
  request : {t : System} → RequestStep bound s t → Step bound answers s t
  reauth : {t : System} → ReauthStep bound s t → Step bound answers s t
  token : {t : System} → TokenStep answers s t → Step bound answers s t
  response : {t : System} → ResponseStep s t → Step bound answers s t

pub data Reach (bound : ℕ) (answers : ℕ → Type 0) : System → Type 0 where
  start : Reach bound answers initial
  next : {s t : System} → Reach bound answers s → Step bound answers s t → Reach bound answers t
