-- ===== src/Proxy/Pairing/Sends.antt =====
-- What a send that succeeds adds to the channels, and what a write adds to the replies.
use kafka_gcp_proxy.Base.{
  ℕ, ◌+◌, ◌≡◌, refl, ap, sym, ◌∙◌, Bool, true, false, List, [], ◌∷◌, ◌++◌, ok, err, >>=-eq-ok,
  ok-injective, if◌then◌else◌, ltb, length, Error, All,
}
use kafka_gcp_proxy.Protocol.KeyVersion.{RequestKeyVersion}
use kafka_gcp_proxy.Proxy.Channel.{
  RequestHandler, ResponseHandler, Channels, send, send_request_key_version,
  put_next_request_handler, put_next_response_handler, send_marker,
}
use kafka_gcp_proxy.Proxy.Pairing.{Reply, kafka, sasl_token, token_rest, ResponsePc, holding, got}
use kafka_gcp_proxy.Proxy.Pairing.Invariant.{
  entries, handler_of, handlers_of, in_hand, unmatched, IsMarked,
}

pub entries-append : (xs ys : List Reply) → entries (xs ++ ys) ≡ entries xs ++ entries ys
entries-append [] ys = refl
entries-append (kafka r id o ∷ xs) ys = ap (λ rs. r ∷ rs) (entries-append xs ys)
entries-append (sasl_token n ∷ xs) ys = entries-append xs ys
entries-append (token_rest ∷ xs) ys = entries-append xs ys

pub handlers_of-append :
    (xs ys : List Reply) → handlers_of (xs ++ ys) ≡ handlers_of xs ++ handlers_of ys
handlers_of-append [] ys = refl
handlers_of-append (x ∷ xs) ys = ap (λ hs. handler_of x ∷ hs) (handlers_of-append xs ys)

pub All-append : (xs ys : List Reply) → All IsMarked xs → All IsMarked ys → All IsMarked (xs ++ ys)
All-append [] ys p q = q
All-append (x ∷ xs) ys p q = (p.0, All-append xs ys p.1 q)

pub unmatched-append :
    (pc : ResponsePc) (xs ys : List Reply) → unmatched pc (xs ++ ys) ≡ unmatched pc xs ++ ys
unmatched-append (got x) xs ys = refl
unmatched-append _ xs ys = refl

pub in_hand-append :
    (pc : ResponsePc) (ps qs : List ResponseHandler) → in_hand pc (ps ++ qs) ≡ in_hand pc ps ++ qs
in_hand-append (holding h) ps qs = refl
in_hand-append _ ps qs = refl

pub send-eq-ok {ℓ} :
    {A : Type ℓ} (bound : ℕ) (e : Error) (x : A) (xs ys : List A)
    → send bound e x xs ≡ ok ys
    → ys ≡ xs ++ (x ∷ [])
send-eq-ok bound e x xs ys h = go (ltb (length xs) bound) h
  where
    go : (b : Bool) → (if b then ok (xs ++ (x ∷ [])) else err e) ≡ ok ys → ys ≡ xs ++ (x ∷ [])
    go true k = sym (ok-injective k)
    go false k = cc

module _ (c d : Channels) where
  pub send_request_key_version-eq_ok :
      (bound : ℕ) (r : RequestKeyVersion)
      → send_request_key_version bound r c ≡ ok d
      → record c { open_requests = c.open_requests ++ (r ∷ []) } ≡ d
  unfolding send_request_key_version
  send_request_key_version-eq_ok bound r h =
      let (rs, e, k) = >>=-eq-ok (send bound _ r c.open_requests) _ h in
      ap (λ xs. record c { open_requests = xs }) (sym (send-eq-ok bound _ r c.open_requests rs e))
      ∙ ok-injective k

  pub put_next_request_handler-eq_ok :
      (q : RequestHandler)
      → put_next_request_handler q c ≡ ok d
      → record c { next_request_handlers = c.next_request_handlers ++ (q ∷ []) } ≡ d
  unfolding put_next_request_handler
  put_next_request_handler-eq_ok q h =
      let (qs, e, k) = >>=-eq-ok (send 1 _ q c.next_request_handlers) _ h in
      ap (λ xs. record c { next_request_handlers = xs })
        (sym (send-eq-ok 1 _ q c.next_request_handlers qs e))
      ∙ ok-injective k

  pub put_next_response_handler-eq_ok :
      (bound : ℕ) (full : Error) (p : ResponseHandler)
      → put_next_response_handler bound full p c ≡ ok d
      → record c { next_response_handlers = c.next_response_handlers ++ (p ∷ []) } ≡ d
  put_next_response_handler-eq_ok bound full p h =
      let (ps, e, k) = >>=-eq-ok (send (bound + 2) full p c.next_response_handlers) _ h in
      ap (λ xs. record c { next_response_handlers = xs })
        (sym (send-eq-ok (bound + 2) full p c.next_response_handlers ps e))
      ∙ ok-injective k

  pub send_marker-eq_ok :
      (bound : ℕ) (r : RequestKeyVersion)
      → send_marker bound r c ≡ ok d
      → record c { open_requests = c.open_requests ++ (r ∷ []) } ≡ d
  unfolding send_marker
  send_marker-eq_ok bound r h =
      let (rs, e, k) = >>=-eq-ok (send bound _ r c.open_requests) _ h in
      ap (λ xs. record c { open_requests = xs }) (sym (send-eq-ok bound _ r c.open_requests rs e))
      ∙ ok-injective k
