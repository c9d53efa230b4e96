-- ===== src/Proxy/Pairing/Invariant.antt =====
-- What the channels hold in every state that the two loops reach.
use kafka_gcp_proxy.Base.{zero, ◌≡◌, ◌⊎◌, refl, List, [], ◌∷◌, ◌++◌, All}
use kafka_gcp_proxy.Protocol.KeyVersion.{RequestKeyVersion}
use kafka_gcp_proxy.Proxy.Channel.{
  RequestHandler, default_request_handler, sasl_auth_v0_request_handler, ResponseHandler,
  default_response_handler, sasl_auth_v0_response_handler, sasl_handshake_marker,
  sasl_authenticate_marker,
}
use kafka_gcp_proxy.Proxy.Pairing.{
  client, proxy, Reply, kafka, sasl_token, token_rest, RequestPc, await, reading, entered, written,
  written_silent, written_token, handed, handshake_written, reauth_written, handshake_opened,
  handshake_marked, authenticate_opened, reauth_marked, ResponsePc, holding, got, matched, System,
  initial, reauth_correlation_id, reauth_handshake_correlation_id,
}

-- The open requests of the replies, in order.
abbrev pub entries : List Reply → List RequestKeyVersion
entries [] = []
entries (kafka r id o ∷ xs) = r ∷ entries xs
entries (sasl_token n ∷ xs) = entries xs
entries (token_rest ∷ xs) = entries xs

-- The handler that a reply needs.
abbrev pub handler_of : Reply → ResponseHandler
handler_of (kafka r id o) = default_response_handler
handler_of (sasl_token n) = sasl_auth_v0_response_handler
handler_of token_rest = sasl_auth_v0_response_handler

abbrev pub handlers_of : List Reply → List ResponseHandler
handlers_of [] = []
handlers_of (x ∷ xs) = handler_of x ∷ handlers_of xs

abbrev pub expects : RequestHandler → ResponseHandler
expects default_request_handler = default_response_handler
expects sasl_auth_v0_request_handler = sasl_auth_v0_response_handler

-- The open requests `rs` against those of the replies that have not met theirs, `es`.
abbrev pub OpenInv : RequestPc → List RequestKeyVersion → List RequestKeyVersion → Type 0
OpenInv (entered r) rs es = rs ≡ es ++ (r ∷ [])
OpenInv handshake_written rs es = rs ++ (sasl_handshake_marker ∷ []) ≡ es
OpenInv reauth_written rs es = rs ++ (sasl_handshake_marker ∷ sasl_authenticate_marker ∷ []) ≡ es
OpenInv handshake_opened rs es = rs ++ (sasl_authenticate_marker ∷ []) ≡ es
OpenInv handshake_marked rs es = rs ++ (sasl_authenticate_marker ∷ []) ≡ es
OpenInv _ rs es = rs ≡ es

abbrev pub default_last : List ResponseHandler → List ResponseHandler
default_last ks = ks ++ (default_response_handler ∷ [])

-- The request handlers `qs`, and the response handlers `ps`, the one in hand first, against those that
-- the replies need, `ks`: there is one more, for the next reply.
abbrev pub HandlersInv :
    RequestPc → List RequestHandler → List ResponseHandler → List ResponseHandler → Type 0
HandlersInv await qs ps ks = (h : RequestHandler) × (qs ≡ h ∷ []) × (ps ≡ ks ++ (expects h ∷ []))
HandlersInv (reading h) qs ps ks = (qs ≡ []) × (ps ≡ ks ++ (expects h ∷ []))
HandlersInv (entered r) qs ps ks = (qs ≡ []) × (ps ≡ default_last ks)
HandlersInv (written r) qs ps ks = (qs ≡ []) × (ps ≡ ks)
HandlersInv written_silent qs ps ks = (qs ≡ []) × (ps ≡ default_last ks)
HandlersInv written_token qs ps ks = (qs ≡ []) × (ps ≡ ks)
HandlersInv (handed p) qs ps ks = (h : RequestHandler) × (qs ≡ h ∷ []) × (expects h ≡ p) × (ps ≡ ks)
HandlersInv handshake_written qs ps ks = (qs ≡ []) × (ps ≡ ks)
HandlersInv reauth_written qs ps ks = (qs ≡ []) × (default_last ps ≡ ks)
HandlersInv handshake_opened qs ps ks = (qs ≡ []) × (default_last ps ≡ ks)
HandlersInv handshake_marked qs ps ks = (qs ≡ []) × (ps ≡ ks)
HandlersInv authenticate_opened qs ps ks = (qs ≡ []) × (ps ≡ ks)
HandlersInv reauth_marked qs ps ks = (qs ≡ []) × (ps ≡ default_last ks)

-- The handler in hand, before the others.
abbrev pub in_hand : ResponsePc → List ResponseHandler → List ResponseHandler
in_hand (holding h) ps = h ∷ ps
in_hand _ ps = ps

-- A reply that has not met its open request, before the others.
abbrev pub unmatched : ResponsePc → List Reply → List Reply
unmatched (got x) xs = x ∷ xs
unmatched _ xs = xs

-- A reply to the proxy's own request is of one of the two, and the answer to a token is empty.
abbrev pub IsMarked : Reply → Type 0
IsMarked (kafka r id client) = Unit {0}
IsMarked (kafka r id proxy) =
    ((r ≡ sasl_handshake_marker) × (id ≡ reauth_handshake_correlation_id))
    ⊎ ((r ≡ sasl_authenticate_marker) × (id ≡ reauth_correlation_id))
IsMarked (sasl_token n) = n ≡ zero
IsMarked token_rest = ⊥

-- The open request that a response has met is its own.
abbrev pub IsPaired : ResponsePc → Type 0
IsPaired (got (kafka r id o)) = IsMarked (kafka r id o)
IsPaired (got (sasl_token n)) = ⊥
IsPaired (got token_rest) = ⊥
IsPaired (matched (kafka r id o) e) = (e ≡ r) × IsMarked (kafka r id o)
IsPaired (matched (sasl_token n) e) = ⊥
IsPaired (matched token_rest e) = ⊥
IsPaired _ = Unit {0}

pub record Inv (s : System) : Type 0 where
  pub opened :
      OpenInv s.request_pc s.channels.open_requests (entries (unmatched s.response_pc s.replies))
  pub handled :
      HandlersInv s.request_pc s.channels.next_request_handlers
        (in_hand s.response_pc s.channels.next_response_handlers)
        (handlers_of s.replies)
  pub marked : All IsMarked s.replies
  pub paired : IsPaired s.response_pc

pub initial-Inv : Inv initial
initial-Inv = record {
  opened = refl;
  handled = (default_request_handler, refl, refl);
  marked = tt;
  paired = tt;
}
