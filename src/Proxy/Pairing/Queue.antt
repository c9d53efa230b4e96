-- ===== src/Proxy/Pairing/Queue.antt =====
-- The channel of the next request handlers in every state that the two loops of proxy/processor.go reach.
-- Only the requests loop uses it, so what the responses loop reads does not matter here.
use kafka_gcp_proxy.Base.{ℕ, ◌≡◌, refl, ap, sym, subst, ◌∙◌, List, [], ◌∷◌, ◌++◌, ok, ok-injective}
use kafka_gcp_proxy.Proxy.Channel.{
  RequestHandler, default_request_handler, sasl_auth_v0_request_handler, Channels,
  put_next_request_handler, get_next_request_handler,
}
use kafka_gcp_proxy.Proxy.Pairing.{
  RequestPc, await, reading, entered, written, written_silent, written_token, handed,
  handshake_written, reauth_written, handshake_opened, handshake_marked, authenticate_opened,
  reauth_marked, System,
}
use kafka_gcp_proxy.Proxy.Pairing.Steps.{
  RequestStep, ReauthStep, TokenStep, ResponseStep, Step, enter, write, hand_over, write_silent,
  hand_over_silent, time_out, write_handshake, write_authenticate, open_handshake, mark_handshake,
  open_authenticate, mark_authenticate, hand_over_reauth, write_token, hand_over_token,
  relay_length, relay_anything, read_header, read_anything, match_request, finish_response,
  take_request_handler, put_response_handler, take_response_handler, request, reauth, token,
  response, Reach, start, next,
}
use kafka_gcp_proxy.Proxy.Pairing.Sends.{
  send_request_key_version-eq_ok, put_next_request_handler-eq_ok, put_next_response_handler-eq_ok,
  send_marker-eq_ok,
}
use kafka_gcp_proxy.Proxy.Pairing.Receives.{
  get_next_response_handler-eq_ok, receive_request_key_version-eq_ok,
}

abbrev IsOne : List RequestHandler → Type 0
IsOne qs = (h : RequestHandler) × (qs ≡ h ∷ [])

-- The channel is empty while a handler runs, until that puts the next one.
abbrev pub QueueInv : RequestPc → List RequestHandler → Type 0
QueueInv await qs = IsOne qs
QueueInv (handed p) qs = IsOne qs
QueueInv _ qs = qs ≡ []

abbrev Queued : System → Type 0
Queued s = QueueInv s.request_pc s.channels.next_request_handlers

module _ (s : System) (inv : Queued s) where
  queued_at : (p : RequestPc) → s.request_pc ≡ p → QueueInv p s.channels.next_request_handlers
  queued_at p h = subst (λ q. QueueInv q s.channels.next_request_handlers) h inv

  -- An operation on another channel.
  kept :
      (c d : Channels) (p : RequestPc)
      → d.next_request_handlers ≡ s.channels.next_request_handlers
      → d ≡ c
      → QueueInv p s.channels.next_request_handlers
      → QueueInv p c.next_request_handlers
  kept c d p same e =
      subst (QueueInv p) (sym same ∙ ap (λ (x : Channels). x.next_request_handlers) e)

  put :
      (q : RequestHandler) (c : Channels)
      → s.channels.next_request_handlers ≡ []
      → put_next_request_handler q s.channels ≡ ok c
      → IsOne c.next_request_handlers
  put q c empty e = (
    q,
    sym (
          ap (λ (x : Channels). x.next_request_handlers)
            (put_next_request_handler-eq_ok s.channels c q e))
        ∙ ap (λ qs. qs ++ (q ∷ [])) empty,
  )

  RequestStep-Queued : (bound : ℕ) (t : System) → RequestStep bound s t → Queued t
  RequestStep-Queued bound t (enter r c at e) =
      kept c (record (s.channels) { open_requests = s.channels.open_requests ++ (r ∷ []) })
        (entered r) refl (send_request_key_version-eq_ok s.channels c bound r e)
        (queued_at (reading default_request_handler) at)
  RequestStep-Queued bound t (write r id at) = queued_at (entered r) at
  RequestStep-Queued bound t (hand_over r c at e) = put _ c (queued_at (written r) at) e
  RequestStep-Queued bound t (write_silent at) = queued_at (reading default_request_handler) at
  RequestStep-Queued bound t (hand_over_silent c at e) = put _ c (queued_at written_silent at) e
  RequestStep-Queued bound t (time_out c at e) =
      put _ c (queued_at (reading default_request_handler) at) e

  ReauthStep-Queued : (bound : ℕ) (t : System) → ReauthStep bound s t → Queued t
  ReauthStep-Queued bound t (write_handshake at) = queued_at (reading default_request_handler) at
  ReauthStep-Queued bound t (write_authenticate at) = queued_at handshake_written at
  ReauthStep-Queued bound t (open_handshake c at e) =
      kept c _ handshake_opened refl (send_marker-eq_ok s.channels c bound _ e)
        (queued_at reauth_written at)
  ReauthStep-Queued bound t (mark_handshake c at e) =
      kept c _ handshake_marked refl (put_next_response_handler-eq_ok s.channels c bound _ _ e)
        (queued_at handshake_opened at)
  ReauthStep-Queued bound t (open_authenticate c at e) =
      kept c _ authenticate_opened refl (send_marker-eq_ok s.channels c bound _ e)
        (queued_at handshake_marked at)
  ReauthStep-Queued bound t (mark_authenticate c at e) =
      kept c _ reauth_marked refl (put_next_response_handler-eq_ok s.channels c bound _ _ e)
        (queued_at authenticate_opened at)
  ReauthStep-Queued bound t (hand_over_reauth c at e) = put _ c (queued_at reauth_marked at) e

  TokenStep-Queued : (answers : ℕ → Type 0) (t : System) → TokenStep answers s t → Queued t
  TokenStep-Queued answers t (write_token n a at) =
      queued_at (reading sasl_auth_v0_request_handler) at
  TokenStep-Queued answers t (hand_over_token c at e) = put _ c (queued_at written_token at) e
  TokenStep-Queued answers t (relay_length n xs at e) = inv
  TokenStep-Queued answers t (relay_anything xs ys at e) = inv

  ResponseStep-Queued : (t : System) → ResponseStep s t → Queued t
  ResponseStep-Queued t (read_header x xs at e) = inv
  ResponseStep-Queued t (read_anything x xs ys at e) = inv
  ResponseStep-Queued t (match_request x r c at e) =
      kept c _ s.request_pc refl (receive_request_key_version-eq_ok s.channels c r e).1 inv
  ResponseStep-Queued t (finish_response x r at) = inv

  Step-Queued : (bound : ℕ) (answers : ℕ → Type 0) (t : System) → Step bound answers s t → Queued t
  unfolding get_next_request_handler
  Step-Queued bound answers t (take_request_handler h c at e) =
      let (h', eh) = queued_at await at in
      let taken : ok (h', record (s.channels) { next_request_handlers = [] }) ≡ ok (h, c) =
        rw eh at e in
      sym (ap (λ (r : RequestHandler × Channels). r.1.next_request_handlers) (ok-injective taken))
  Step-Queued bound answers t (put_response_handler p c at e) =
      kept c _ await refl (put_next_response_handler-eq_ok s.channels c bound _ p e)
        (queued_at (handed p) at)
  Step-Queued bound answers t (take_response_handler h c at e) =
      kept c _ s.request_pc refl (get_next_response_handler-eq_ok s.channels c h e).1 inv
  Step-Queued bound answers t (request step) = RequestStep-Queued bound t step
  Step-Queued bound answers t (reauth step) = ReauthStep-Queued bound t step
  Step-Queued bound answers t (token step) = TokenStep-Queued answers t step
  Step-Queued bound answers t (response step) = ResponseStep-Queued t step

pub Reach-QueueInv :
    (bound : ℕ) (answers : ℕ → Type 0) (s : System)
    → Reach bound answers s
    → QueueInv s.request_pc s.channels.next_request_handlers
Reach-QueueInv bound answers s start = (default_request_handler, refl)
Reach-QueueInv bound answers s (next {s = r} reach step) =
    Step-Queued r (Reach-QueueInv bound answers r reach) bound answers s step
