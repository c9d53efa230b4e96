-- ===== src/Proxy/Pairing/Reached.antt =====
-- What holds in every state that the two loops of proxy/processor.go reach together.
use kafka_gcp_proxy.Base.{
  ℕ, ◌≡◌, refl, sym, subst, ◌∙◌, ℤ, pos, beq_ℤ, Bool, true, false, ◌&&◌, ◌||◌, List, [], ◌∷◌, ◌++◌,
  ok, inl, inr,
}
use kafka_gcp_proxy.Protocol.KeyVersion.{RequestKeyVersion}
use kafka_gcp_proxy.Proxy.Channel.{
  RequestHandler, default_request_handler, ResponseHandler, Channels, put_next_request_handler,
  receive_request_key_version, sasl_handshake_marker, sasl_authenticate_marker,
}
use kafka_gcp_proxy.Proxy.Pairing.{
  Origin, client, proxy, Reply, kafka, RequestPc, await, reading, entered, handed,
  handshake_written, reauth_written, handshake_opened, handshake_marked, reauth_marked,
  written_silent, holding, got, matched, System, is_proxy_reauth_response, reauth_correlation_id,
  reauth_handshake_correlation_id,
}
use kafka_gcp_proxy.Proxy.Pairing.Steps.{
  RequestStep, ReauthStep, TokenStep, ResponseStep, Step, enter, write, hand_over, write_silent,
  hand_over_silent, time_out, write_handshake, write_authenticate, open_handshake, mark_handshake,
  open_authenticate, mark_authenticate, hand_over_reauth, write_token, hand_over_token,
  relay_length, relay_anything, read_header, read_anything, match_request, finish_response,
  take_request_handler, put_response_handler, take_response_handler, request, reauth, token,
  response, Reach, start, next,
}
use kafka_gcp_proxy.Proxy.Pairing.Queue.{QueueInv, Reach-QueueInv}
use kafka_gcp_proxy.Proxy.Pairing.Invariant.{
  entries, handler_of, OpenInv, unmatched, IsPaired, Inv, initial-Inv,
}
use kafka_gcp_proxy.Proxy.Pairing.Requests.{
  take_request_handler-Inv, put_response_handler-Inv, enter-Inv, write-Inv, hand_over-Inv,
  hand_over_token-Inv, write_token-Inv, put_request-Inv, opened_at, handled_at,
}
use kafka_gcp_proxy.Proxy.Pairing.Reauth.{
  write_handshake-Inv, write_authenticate-Inv, open_handshake-Inv, mark_handshake-Inv,
  open_authenticate-Inv, mark_authenticate-Inv,
}
use kafka_gcp_proxy.Proxy.Pairing.Responses.{
  handler-fits, take_response_handler-Inv, read_header-Inv, relay_length-Inv, match_request-Inv,
  finish_response-Inv, IsMarked-token_rest,
}

module _ (s : System) (inv : Inv s) where
  RequestStep-Inv : (bound : ℕ) (t : System) → RequestStep bound s t → Inv t
  RequestStep-Inv bound t (enter r c at e) = enter-Inv s inv bound r c at e
  RequestStep-Inv bound t (write r id at) = write-Inv s inv r id at
  RequestStep-Inv bound t (hand_over r c at e) = hand_over-Inv s inv r c at e
  RequestStep-Inv bound t (write_silent at) = record {
    opened = opened_at s inv (reading default_request_handler) at;
    handled = handled_at s inv (reading default_request_handler) at;
    marked = inv.marked;
    paired = inv.paired;
  }
  RequestStep-Inv bound t (hand_over_silent c at e) =
      let (eq, ep) = handled_at s inv written_silent at in
      put_request-Inv s inv c (opened_at s inv written_silent at) eq ep e
  RequestStep-Inv bound t (time_out c at e) =
      let (eq, ep) = handled_at s inv (reading default_request_handler) at in
      put_request-Inv s inv c (opened_at s inv (reading default_request_handler) at) eq ep e

  ReauthStep-Inv : (bound : ℕ) (t : System) → ReauthStep bound s t → Inv t
  ReauthStep-Inv bound t (write_handshake at) = write_handshake-Inv s inv at
  ReauthStep-Inv bound t (write_authenticate at) = write_authenticate-Inv s inv at
  ReauthStep-Inv bound t (open_handshake c at e) = open_handshake-Inv s inv bound c at e
  ReauthStep-Inv bound t (mark_handshake c at e) = mark_handshake-Inv s inv bound c at e
  ReauthStep-Inv bound t (open_authenticate c at e) = open_authenticate-Inv s inv bound c at e
  ReauthStep-Inv bound t (mark_authenticate c at e) = mark_authenticate-Inv s inv bound c at e
  ReauthStep-Inv bound t (hand_over_reauth c at e) =
      let (eq, ep) = handled_at s inv reauth_marked at in
      put_request-Inv s inv c (opened_at s inv reauth_marked at) eq ep e

  TokenStep-Inv :
      (answers : ℕ → Type 0) (t : System)
      → ((n : ℕ) → answers n → n ≡ 0)
      → TokenStep answers s t
      → Inv t
  TokenStep-Inv answers t empty (write_token n a at) = write_token-Inv s inv n (empty n a) at
  TokenStep-Inv answers t empty (hand_over_token c at e) = hand_over_token-Inv s inv c at e
  TokenStep-Inv answers t empty (relay_length n xs at e) = relay_length-Inv s inv n xs at e
  TokenStep-Inv answers t empty (relay_anything xs ys at e) = IsMarked-token_rest s inv xs e

  ResponseStep-Inv : (t : System) → ResponseStep s t → Inv t
  ResponseStep-Inv t (read_header x xs at e) = read_header-Inv s inv x xs e at
  ResponseStep-Inv t (read_anything x xs ys at e) = IsMarked-token_rest s inv xs e
  ResponseStep-Inv t (match_request x r c at e) = match_request-Inv s inv x r c at e
  ResponseStep-Inv t (finish_response x r at) = finish_response-Inv s inv x r at

module _ (bound : ℕ) (answers : ℕ → Type 0) (empty : (n : ℕ) → answers n → n ≡ 0) where
  Step-Inv : (s t : System) → Inv s → Step bound answers s t → Inv t
  Step-Inv s t inv (take_request_handler h c at e) = take_request_handler-Inv s inv h c at e
  Step-Inv s t inv (put_response_handler p c at e) = put_response_handler-Inv s inv bound p c at e
  Step-Inv s t inv (take_response_handler h c at e) = take_response_handler-Inv s inv h c at e
  Step-Inv s t inv (request step) = RequestStep-Inv s inv bound t step
  Step-Inv s t inv (reauth step) = ReauthStep-Inv s inv bound t step
  Step-Inv s t inv (token step) = TokenStep-Inv s inv answers t empty step
  Step-Inv s t inv (response step) = ResponseStep-Inv s inv t step

  Reach-Inv : (s : System) → Reach bound answers s → Inv s
  Reach-Inv s start = initial-Inv
  Reach-Inv s (next {s = r} reach step) = Step-Inv r s (Reach-Inv r reach) step

reached-IsPaired :
    (bound : ℕ) (answers : ℕ → Type 0) (s : System) (x : Reply) (e : RequestKeyVersion)
    → ((n : ℕ) → answers n → n ≡ 0)
    → Reach bound answers s
    → s.response_pc ≡ matched x e
    → IsPaired (matched x e)
reached-IsPaired bound answers s x e empty reach at =
    subst IsPaired at (Reach-Inv bound answers empty s reach).paired

-- Where the broker's answers to the tokens of SASL version 0 are empty: however the two loops are
-- interleaved, the open request that the responses loop takes from the
-- channel for a response is the key and version of the very request that the response answers.
pub matched-own :
    (bound : ℕ) (answers : ℕ → Type 0) (s : System) (r e : RequestKeyVersion) (id : ℤ) (o : Origin)
    → ((n : ℕ) → answers n → n ≡ 0)
    → Reach bound answers s
    → s.response_pc ≡ matched (kafka r id o) e
    → e ≡ r
matched-own bound answers s r e id o empty reach at =
    (reached-IsPaired bound answers s (kafka r id o) e empty reach at).0

abbrev is_proxy : Origin → Bool
is_proxy proxy = true
is_proxy client = false

-- A correlation id that the proxy does not use for its own requests.
abbrev pub IsUnreserved : ℤ → Type 0
IsUnreserved id =
    (beq_ℤ id reauth_handshake_correlation_id ≡ false) × (beq_ℤ id reauth_correlation_id ≡ false)

-- Where the broker's answers to the tokens of SASL version 0 are empty: however the loops are
-- interleaved, where clients send none of the two reserved correlation ids the
-- test by which the responses loop keeps a response from the client is true of the responses to the
-- proxy's own re-authentication requests and false of the responses to the client's.
pub matched-is_proxy_reauth_response :
    (bound : ℕ) (answers : ℕ → Type 0) (s : System) (r e : RequestKeyVersion) (id : ℤ) (o : Origin)
    → ((n : ℕ) → answers n → n ≡ 0)
    → Reach bound answers s
    → s.response_pc ≡ matched (kafka r id o) e
    → (o ≡ client → IsUnreserved id)
    → is_proxy_reauth_response e id ≡ is_proxy o
unfolding is_proxy_reauth_response
matched-is_proxy_reauth_response bound answers s r e id client empty reach at free =
    let (h, a) = free refl in go (beq_ℤ e.api_key (pos 17)) (beq_ℤ e.api_key (pos 36)) _ _ h a
  where
    go : (b c x y : Bool) → x ≡ false → y ≡ false → ((b && x) || (c && y)) ≡ false
    go true true x y p q = cc
    go true false x y p q = cc
    go false true x y p q = cc
    go false false x y p q = refl
matched-is_proxy_reauth_response bound answers s r e id proxy empty reach at free =
    let (same, mark) = reached-IsPaired bound answers s (kafka r id proxy) e empty reach at in
    elim mark [
      | inl (k, i) ↦
          subst (λ k. is_proxy_reauth_response k id ≡ true) (sym (same ∙ k))
            (subst (λ i. is_proxy_reauth_response sasl_handshake_marker i ≡ true) (sym i) refl)
      | inr (k, i) ↦
          subst (λ k. is_proxy_reauth_response k id ≡ true) (sym (same ∙ k))
            (subst (λ i. is_proxy_reauth_response sasl_authenticate_marker i ≡ true) (sym i) refl)
    ]

-- Where the broker's answers to the tokens of SASL version 0 are empty: however the loops are
-- interleaved, the response handler that the responses loop holds is the one for
-- the reply that comes next: the default one for the response to a Kafka request, that of SASL
-- version 0 for the answer to a bare token.
pub holding-handler_of :
    (bound : ℕ) (answers : ℕ → Type 0) (s : System) (h : ResponseHandler) (x : Reply)
    (xs : List Reply)
    → ((n : ℕ) → answers n → n ≡ 0)
    → Reach bound answers s
    → s.response_pc ≡ holding h
    → s.replies ≡ x ∷ xs
    → h ≡ handler_of x
holding-handler_of bound answers s h x xs empty reach at eq =
    (handler-fits s h x xs (Reach-Inv bound answers empty s reach) at eq).0

-- The places of runReauth between its first write and the send of its last open request.
abbrev pub is_marking : RequestPc → Bool
is_marking handshake_written = true
is_marking reauth_written = true
is_marking handshake_opened = true
is_marking handshake_marked = true
is_marking _ = false

-- Where the broker's answers to the tokens of SASL version 0 are empty: however the loops are
-- interleaved, a response whose header has been read finds its open request in the channel at once,
-- unless the requests loop is between the first write of a re-authentication and the send of the last
-- of its two open requests.
pub got-received :
    (bound : ℕ) (answers : ℕ → Type 0) (s : System) (r : RequestKeyVersion) (id : ℤ) (o : Origin)
    → ((n : ℕ) → answers n → n ≡ 0)
    → Reach bound answers s
    → s.response_pc ≡ got (kafka r id o)
    → is_marking s.request_pc ≡ false
    → (c : Channels) × (receive_request_key_version s.channels ≡ ok (r, c))
unfolding receive_request_key_version
got-received bound answers s r id o empty reach at calm = go s.request_pc calm (
    subst (λ pc. OpenInv s.request_pc s.channels.open_requests (entries (unmatched pc s.replies)))
      at (Reach-Inv bound answers empty s reach).opened)
  where
    Received : Type 0
    Received = (c : Channels) × (receive_request_key_version s.channels ≡ ok (r, c))

    received : (es : List RequestKeyVersion) → s.channels.open_requests ≡ r ∷ es → Received
    received es e = (record (s.channels) { open_requests = es }, rw e refl)

    go :
        (p : RequestPc)
        → is_marking p ≡ false
        → OpenInv p s.channels.open_requests (r ∷ entries s.replies)
        → Received
    go handshake_written h k = cc
    go reauth_written h k = cc
    go handshake_opened h k = cc
    go handshake_marked h k = cc
    go (entered x) h k = received (entries s.replies ++ (x ∷ [])) k
    go _ h k = received (entries s.replies) k

-- The next request handler is in its channel, or on its way to the requests loop.
abbrev pub is_await : RequestPc → Bool
is_await await = true
is_await (handed p) = true
is_await _ = false

-- However the loops are interleaved, the channel of the next request handlers, which holds one, is empty
-- while a handler runs, until that has put the next one there, so that this never fails.
pub running-put_next_request_handler :
    (bound : ℕ) (answers : ℕ → Type 0) (s : System) (q : RequestHandler)
    → Reach bound answers s
    → is_await s.request_pc ≡ false
    → put_next_request_handler q s.channels
      ≡ ok (record (s.channels) { next_request_handlers = q ∷ [] })
unfolding put_next_request_handler
running-put_next_request_handler bound answers s q reach busy =
    let empty : s.channels.next_request_handlers ≡ [] =
      go s.request_pc s.channels.next_request_handlers busy
        (Reach-QueueInv bound answers s reach) in
    rw empty refl
  where
    go : (p : RequestPc) (qs : List RequestHandler) → is_await p ≡ false → QueueInv p qs → qs ≡ []
    go await qs e h = cc
    go (handed p) qs e h = cc
    go _ qs e h = h
