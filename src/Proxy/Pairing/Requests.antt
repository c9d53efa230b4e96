-- ===== src/Proxy/Pairing/Requests.antt =====
-- Every step of the requests loop keeps the invariant. Those of a re-authentication are in Reauth.
use kafka_gcp_proxy.Base.{
  ℕ, zero, failure, Error, ◌≡◌, refl, ap, sym, subst, ◌∙◌, ℤ, Bool, true, false, List, [], ◌∷◌,
  ◌++◌, append-nil, ok, ok-injective, if◌then◌else◌,
}
use kafka_gcp_proxy.Protocol.KeyVersion.{RequestKeyVersion}
use kafka_gcp_proxy.Proxy.Channel.{
  RequestHandler, default_request_handler, sasl_auth_v0_request_handler, ResponseHandler,
  default_response_handler, sasl_auth_v0_response_handler, Channels, send_request_key_version,
  put_next_request_handler, put_next_response_handler, get_next_request_handler,
}
use kafka_gcp_proxy.Proxy.Pairing.{
  client, Reply, kafka, sasl_token, RequestPc, await, reading, entered, written, written_token,
  handed, System, next_request_handler, next_response_handler, is_sasl_handshake_v0,
}
use kafka_gcp_proxy.Proxy.Pairing.Invariant.{
  entries, handlers_of, expects, OpenInv, HandlersInv, in_hand, unmatched, Inv, default_last,
}
use kafka_gcp_proxy.Proxy.Pairing.Sends.{
  entries-append, handlers_of-append, All-append, unmatched-append, in_hand-append,
  send_request_key_version-eq_ok, put_next_request_handler-eq_ok, put_next_response_handler-eq_ok,
}

module _ (s : System) (inv : Inv s) where
  abbrev pub es : List RequestKeyVersion
  es = entries (unmatched s.response_pc s.replies)

  abbrev pub ps : List ResponseHandler
  ps = in_hand s.response_pc s.channels.next_response_handlers

  -- The invariant at a known place of the requests loop.
  pub opened_at : (p : RequestPc) → s.request_pc ≡ p → OpenInv p s.channels.open_requests es
  opened_at p h = subst (λ q. OpenInv q s.channels.open_requests es) h inv.opened

  pub handled_at :
      (p : RequestPc)
      → s.request_pc ≡ p
      → HandlersInv p s.channels.next_request_handlers ps (handlers_of s.replies)
  handled_at p h =
      subst (λ q. HandlersInv q s.channels.next_request_handlers ps (handlers_of s.replies)) h
        inv.handled

  -- What a write adds to the replies.
  module _ (ys : List Reply) where
    pub entries_written : entries (unmatched s.response_pc (s.replies ++ ys)) ≡ es ++ entries ys
    entries_written =
        ap entries (unmatched-append s.response_pc s.replies ys)
        ∙ entries-append (unmatched s.response_pc s.replies) ys

    pub handlers_written : handlers_of (s.replies ++ ys) ≡ handlers_of s.replies ++ handlers_of ys
    handlers_written = handlers_of-append s.replies ys

  pub take_request_handler-Inv :
      (h : RequestHandler) (c : Channels)
      → s.request_pc ≡ await
      → get_next_request_handler s.channels ≡ ok (h, c)
      → Inv (record s { channels = c; request_pc = reading h })
  unfolding get_next_request_handler
  take_request_handler-Inv h c at e =
      let (h', eh, ep) = handled_at await at in
      let taken : ok (h', record (s.channels) { next_request_handlers = [] }) ≡ ok (h, c) =
        rw eh at e in
      subst
        (λ (r : RequestHandler × Channels).
          Inv (record s { channels = r.1; request_pc = reading r.0 }))
        (ok-injective taken)
        (record {
          opened = opened_at await at;
          handled = (refl, ep);
          marked = inv.marked;
          paired = inv.paired;
        })

  pub enter-Inv :
      (bound : ℕ) (r : RequestKeyVersion) (c : Channels)
      → s.request_pc ≡ reading default_request_handler
      → send_request_key_version bound r s.channels ≡ ok c
      → Inv (record s { channels = c; request_pc = entered r })
  enter-Inv bound r c at e =
      subst (λ d. Inv (record s { channels = d; request_pc = entered r }))
        (send_request_key_version-eq_ok s.channels c bound r e)
        (record {
          opened = ap (λ rs. rs ++ (r ∷ [])) (opened_at (reading default_request_handler) at);
          handled = handled_at (reading default_request_handler) at;
          marked = inv.marked;
          paired = inv.paired;
        })

  pub write-Inv :
      (r : RequestKeyVersion) (id : ℤ)
      → s.request_pc ≡ entered r
      → Inv (record s { request_pc = written r; replies = s.replies ++ (kafka r id client ∷ []) })
  write-Inv r id at =
      let (eq, ep) = handled_at (entered r) at in
      record {
        opened = opened_at (entered r) at ∙ sym (entries_written (kafka r id client ∷ []));
        handled = (eq, ep ∙ sym (handlers_written (kafka r id client ∷ [])));
        marked = All-append s.replies (kafka r id client ∷ []) inv.marked (tt, tt);
        paired = inv.paired;
      }

  -- The request handler put behind a request, with the response handler still to put.
  put_handler-Inv :
      (q : RequestHandler) (p : ResponseHandler) (c : Channels)
      → OpenInv await s.channels.open_requests es
      → s.channels.next_request_handlers ≡ []
      → expects q ≡ p
      → ps ≡ handlers_of s.replies
      → put_next_request_handler q s.channels ≡ ok c
      → Inv (record s { channels = c; request_pc = handed p })
  put_handler-Inv q p c opened eq fits ep e =
      subst (λ d. Inv (record s { channels = d; request_pc = handed p }))
        (put_next_request_handler-eq_ok s.channels c q e)
        (record {
          opened = opened;
          handled = (q, ap (λ qs. qs ++ (q ∷ [])) eq, fits, ep);
          marked = inv.marked;
          paired = inv.paired;
        })

  -- A response handler put, which ends up behind the one in hand.
  pub put_response-Inv :
      (bound : ℕ) (full : Error) (p : ResponseHandler) (pc : RequestPc) (c : Channels)
      → OpenInv pc s.channels.open_requests es
      → HandlersInv pc s.channels.next_request_handlers (ps ++ (p ∷ [])) (handlers_of s.replies)
      → put_next_response_handler bound full p s.channels ≡ ok c
      → Inv (record s { channels = c; request_pc = pc })
  put_response-Inv bound full p pc c opened handled e =
      subst (λ d. Inv (record s { channels = d; request_pc = pc }))
        (put_next_response_handler-eq_ok s.channels c bound full p e)
        (record {
          opened = opened;
          handled =
              subst
                (λ xs. HandlersInv pc s.channels.next_request_handlers xs (handlers_of s.replies))
                (sym (in_hand-append s.response_pc s.channels.next_response_handlers (p ∷ [])))
                handled;
          marked = inv.marked;
          paired = inv.paired;
        })

  pub put_response_handler-Inv :
      (bound : ℕ) (p : ResponseHandler) (c : Channels)
      → s.request_pc ≡ handed p
      → put_next_response_handler bound
          (failure "next response handler channel is full")
          p
          s.channels
        ≡ ok c
      → Inv (record s { channels = c; request_pc = await })
  put_response_handler-Inv bound p c at e =
      let (q, eq, fits, ep) = handled_at (handed p) at in
      put_response-Inv bound _ p await c (opened_at (handed p) at)
        (
          q,
          eq,
          ap (λ xs. xs ++ (p ∷ [])) ep ∙ ap (λ x. handlers_of s.replies ++ (x ∷ [])) (sym fits),
        )
        e

  -- A request handler put where no response handler follows.
  pub put_request-Inv :
      (c : Channels)
      → OpenInv await s.channels.open_requests es
      → s.channels.next_request_handlers ≡ []
      → ps ≡ default_last (handlers_of s.replies)
      → put_next_request_handler default_request_handler s.channels ≡ ok c
      → Inv (record s { channels = c; request_pc = await })
  put_request-Inv c opened eq ep e =
      subst (λ d. Inv (record s { channels = d; request_pc = await }))
        (put_next_request_handler-eq_ok s.channels c default_request_handler e)
        (record {
          opened = opened;
          handled =
              (default_request_handler, ap (λ qs. qs ++ (default_request_handler ∷ [])) eq, ep);
          marked = inv.marked;
          paired = inv.paired;
        })

  pub hand_over-Inv :
      (r : RequestKeyVersion) (c : Channels)
      → s.request_pc ≡ written r
      → put_next_request_handler (next_request_handler r) s.channels ≡ ok c
      → Inv (record s { channels = c; request_pc = handed (next_response_handler r) })
  hand_over-Inv r c at e =
      let (eq, ep) = handled_at (written r) at in
      put_handler-Inv (next_request_handler r) (next_response_handler r) c
        (opened_at (written r) at) eq (expected (is_sasl_handshake_v0 r)) ep e
    where
      expected :
          (b : Bool)
          → expects (if b then sasl_auth_v0_request_handler else default_request_handler)
            ≡ (if b then sasl_auth_v0_response_handler else default_response_handler)
      expected true = refl
      expected false = refl

  pub hand_over_token-Inv :
      (c : Channels)
      → s.request_pc ≡ written_token
      → put_next_request_handler default_request_handler s.channels ≡ ok c
      → Inv (record s { channels = c; request_pc = handed default_response_handler })
  hand_over_token-Inv c at e =
      let (eq, ep) = handled_at written_token at in
      put_handler-Inv default_request_handler default_response_handler c
        (opened_at written_token at) eq refl ep e

  pub write_token-Inv :
      (n : ℕ)
      → n ≡ zero
      → s.request_pc ≡ reading sasl_auth_v0_request_handler
      → Inv (record s { request_pc = written_token; replies = s.replies ++ (sasl_token n ∷ []) })
  write_token-Inv n empty at =
      let (eq, ep) = handled_at (reading sasl_auth_v0_request_handler) at in
      record {
        opened =
            opened_at (reading sasl_auth_v0_request_handler) at
            ∙ sym (entries_written (sasl_token n ∷ []) ∙ append-nil es);
        handled = (eq, ep ∙ sym (handlers_written (sasl_token n ∷ [])));
        marked = All-append s.replies (sasl_token n ∷ []) inv.marked (empty, tt);
        paired = inv.paired;
      }
