-- ===== src/Proxy/Pairing/Receives.antt =====
-- What a receive that succeeds takes from the channels of proxy/processor.go.
use kafka_gcp_proxy.Base.{◌≡◌, ap, sym, ◌∙◌, List, [], ◌∷◌, ok, >>=-eq-ok, ok-injective, Error}
use kafka_gcp_proxy.Protocol.KeyVersion.{RequestKeyVersion}
use kafka_gcp_proxy.Proxy.Channel.{
  ResponseHandler, Channels, receive, receive_request_key_version, get_next_response_handler,
}

receive-eq_ok {ℓ} :
    {A : Type ℓ} (missing : Error) (x : A) (xs ys : List A)
    → receive missing xs ≡ ok (x, ys)
    → xs ≡ x ∷ ys
receive-eq_ok missing x [] ys h = cc
receive-eq_ok missing x (z ∷ zs) ys h = ap (λ (p : _ × List _). p.0 ∷ p.1) (ok-injective h)

module _ (c d : Channels) where
  pub get_next_response_handler-eq_ok :
      (h : ResponseHandler)
      → get_next_response_handler c ≡ ok (h, d)
      → (c.next_response_handlers ≡ h ∷ d.next_response_handlers)
        × (record c { next_response_handlers = d.next_response_handlers } ≡ d)
  unfolding get_next_response_handler
  get_next_response_handler-eq_ok h e =
      let ((p, ps), received, k) = >>=-eq-ok (receive _ c.next_response_handlers) _ e in
      let same : (p, record c { next_response_handlers = ps }) ≡ (h, d) = ok-injective k in
      let tails : ps ≡ d.next_response_handlers =
        ap (λ (x : ResponseHandler × Channels). x.1.next_response_handlers) same in
      let heads : p ≡ h = ap (λ (x : ResponseHandler × Channels). x.0) same in
      (
        receive-eq_ok _ p c.next_response_handlers ps received
            ∙ ap (λ x. x ∷ ps) heads
            ∙ ap (λ x. h ∷ x) tails,
        ap (λ x. record c { next_response_handlers = x }) (sym tails)
            ∙ ap (λ (x : ResponseHandler × Channels). x.1) same,
      )

  pub receive_request_key_version-eq_ok :
      (r : RequestKeyVersion)
      → receive_request_key_version c ≡ ok (r, d)
      → (c.open_requests ≡ r ∷ d.open_requests) × (record c { open_requests = d.open_requests } ≡ d)
  unfolding receive_request_key_version
  receive_request_key_version-eq_ok r e =
      let ((p, ps), received, k) = >>=-eq-ok (receive _ c.open_requests) _ e in
      let same : (p, record c { open_requests = ps }) ≡ (r, d) = ok-injective k in
      let tails : ps ≡ d.open_requests =
        ap (λ (x : RequestKeyVersion × Channels). x.1.open_requests) same in
      let heads : p ≡ r = ap (λ (x : RequestKeyVersion × Channels). x.0) same in
      (
        receive-eq_ok _ p c.open_requests ps received
            ∙ ap (λ x. x ∷ ps) heads
            ∙ ap (λ x. r ∷ x) tails,
        ap (λ x. record c { open_requests = x }) (sym tails)
            ∙ ap (λ (x : RequestKeyVersion × Channels). x.1) same,
      )
