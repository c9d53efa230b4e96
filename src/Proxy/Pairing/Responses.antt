-- ===== src/Proxy/Pairing/Responses.antt =====
-- Every step of the responses loop keeps the invariant.
use kafka_gcp_proxy.Base.{ℕ, ◌≡◌, sym, subst, List, ◌∷◌, ok, All}
use kafka_gcp_proxy.Protocol.KeyVersion.{RequestKeyVersion}
use kafka_gcp_proxy.Proxy.Channel.{
  RequestHandler, ResponseHandler, default_response_handler, sasl_auth_v0_response_handler,
  Channels, receive_request_key_version, get_next_response_handler,
}
use kafka_gcp_proxy.Proxy.Pairing.{
  Reply, kafka, sasl_token, token_rest, behind_length, RequestPc, await, reading, entered, written,
  written_silent, written_token, handed, handshake_written, reauth_written, handshake_opened,
  handshake_marked, authenticate_opened, reauth_marked, ResponsePc, ready, holding, got, matched,
  System,
}
use kafka_gcp_proxy.Proxy.Pairing.Receives.{
  get_next_response_handler-eq_ok, receive_request_key_version-eq_ok,
}
use kafka_gcp_proxy.Proxy.Pairing.Invariant.{
  entries, handler_of, handlers_of, OpenInv, HandlersInv, in_hand, unmatched, IsMarked, IsPaired,
  Inv,
}

tail_eq {ℓ} : {A : Type ℓ} {x y : A} {xs ys : List A} → x ∷ xs ≡ y ∷ ys → (x ≡ y) × (xs ≡ ys)
tail_eq e = (cc, cc)

-- Both lists lose their head, which is the same.
OpenInv-uncons :
    (p : RequestPc) (r e : RequestKeyVersion) (rs es : List RequestKeyVersion)
    → OpenInv p (r ∷ rs) (e ∷ es)
    → (r ≡ e) × OpenInv p rs es
OpenInv-uncons (entered x) r e rs es h = tail_eq h
OpenInv-uncons reauth_written r e rs es h = tail_eq h
OpenInv-uncons handshake_written r e rs es h = tail_eq h
OpenInv-uncons handshake_opened r e rs es h = tail_eq h
OpenInv-uncons handshake_marked r e rs es h = tail_eq h
OpenInv-uncons _ r e rs es h = tail_eq h

HandlersInv-uncons :
    (p : RequestPc) (qs : List RequestHandler) (h k : ResponseHandler)
    (hs ks : List ResponseHandler)
    → HandlersInv p qs (h ∷ hs) (k ∷ ks)
    → (h ≡ k) × HandlersInv p qs hs ks
HandlersInv-uncons await qs h k hs ks (q, eq, e) =
    let (same, rest) = tail_eq e in (same, (q, eq, rest))
HandlersInv-uncons (reading x) qs h k hs ks (eq, e) =
    let (same, rest) = tail_eq e in (same, (eq, rest))
HandlersInv-uncons (entered x) qs h k hs ks (eq, e) =
    let (same, rest) = tail_eq e in (same, (eq, rest))
HandlersInv-uncons (written x) qs h k hs ks (eq, e) =
    let (same, rest) = tail_eq e in (same, (eq, rest))
HandlersInv-uncons written_silent qs h k hs ks (eq, e) =
    let (same, rest) = tail_eq e in (same, (eq, rest))
HandlersInv-uncons written_token qs h k hs ks (eq, e) =
    let (same, rest) = tail_eq e in (same, (eq, rest))
HandlersInv-uncons reauth_written qs h k hs ks (eq, e) =
    let (same, rest) = tail_eq e in (same, (eq, rest))
HandlersInv-uncons handshake_written qs h k hs ks (eq, e) =
    let (same, rest) = tail_eq e in (same, (eq, rest))
HandlersInv-uncons handshake_opened qs h k hs ks (eq, e) =
    let (same, rest) = tail_eq e in (same, (eq, rest))
HandlersInv-uncons handshake_marked qs h k hs ks (eq, e) =
    let (same, rest) = tail_eq e in (same, (eq, rest))
HandlersInv-uncons authenticate_opened qs h k hs ks (eq, e) =
    let (same, rest) = tail_eq e in (same, (eq, rest))
HandlersInv-uncons (handed p) qs h k hs ks (q, eq, fits, e) =
    let (same, rest) = tail_eq e in (same, (q, eq, fits, rest))
HandlersInv-uncons reauth_marked qs h k hs ks (eq, e) =
    let (same, rest) = tail_eq e in (same, (eq, rest))

-- The handler in hand fits the next reply.
pub handler-fits :
    (s : System) (h : ResponseHandler) (x : Reply) (xs : List Reply)
    → Inv s
    → s.response_pc ≡ holding h
    → s.replies ≡ x ∷ xs
    → (h ≡ handler_of x)
      × HandlersInv s.request_pc s.channels.next_request_handlers s.channels.next_response_handlers
          (handlers_of xs)
handler-fits s h x xs inv at e =
    HandlersInv-uncons s.request_pc s.channels.next_request_handlers h (handler_of x)
      s.channels.next_response_handlers (handlers_of xs)
      (subst
        (λ (rs : List Reply).
          HandlersInv s.request_pc s.channels.next_request_handlers
            (h ∷ s.channels.next_response_handlers) (handlers_of rs))
        e
        (subst
          (λ pc.
            HandlersInv s.request_pc s.channels.next_request_handlers
              (in_hand pc s.channels.next_response_handlers) (handlers_of s.replies))
          at inv.handled))

module _ (s : System) (inv : Inv s) where
  -- The invariant at a known place of the responses loop.
  opened_at :
      (p : ResponsePc)
      → s.response_pc ≡ p
      → OpenInv s.request_pc s.channels.open_requests (entries (unmatched p s.replies))
  opened_at p h =
      subst (λ q. OpenInv s.request_pc s.channels.open_requests (entries (unmatched q s.replies))) h
        inv.opened

  handled_at :
      (p : ResponsePc)
      → s.response_pc ≡ p
      → HandlersInv s.request_pc s.channels.next_request_handlers
          (in_hand p s.channels.next_response_handlers)
          (handlers_of s.replies)
  handled_at p h =
      subst
        (λ q.
          HandlersInv s.request_pc s.channels.next_request_handlers
            (in_hand q s.channels.next_response_handlers) (handlers_of s.replies))
        h inv.handled

  IsPaired-at : (p : ResponsePc) → s.response_pc ≡ p → IsPaired p
  IsPaired-at p h = subst IsPaired h inv.paired

  pub take_response_handler-Inv :
      (h : ResponseHandler) (c : Channels)
      → s.response_pc ≡ ready
      → get_next_response_handler s.channels ≡ ok (h, c)
      → Inv (record s { channels = c; response_pc = holding h })
  take_response_handler-Inv h c at e =
      let (taken, same) = get_next_response_handler-eq_ok s.channels c h e in
      subst (λ d. Inv (record s { channels = d; response_pc = holding h })) same
        (record {
          opened = opened_at ready at;
          handled =
              subst
                (λ hs.
                  HandlersInv s.request_pc s.channels.next_request_handlers hs
                    (handlers_of s.replies))
                taken (handled_at ready at);
          marked = inv.marked;
          paired = tt;
        })

  module _ (x : Reply) (xs : List Reply) (eq : s.replies ≡ x ∷ xs) where
    IsMarked-first : IsMarked x × All IsMarked xs
    IsMarked-first = subst (λ (rs : List Reply). All IsMarked rs) eq inv.marked

    pub read_header-Inv :
        s.response_pc ≡ holding default_response_handler
        → Inv (record s { response_pc = got x; replies = xs })
    read_header-Inv at =
        let (fits, handled) = handler-fits s default_response_handler x xs inv at eq in
        record {
          opened =
              subst
                (λ (rs : List Reply). OpenInv s.request_pc s.channels.open_requests (entries rs)) eq
                (opened_at (holding default_response_handler) at);
          handled = handled;
          marked = IsMarked-first.1;
          paired = go x fits IsMarked-first.0;
        }
      where
        go : (y : Reply) → default_response_handler ≡ handler_of y → IsMarked y → IsPaired (got y)
        go (kafka r id o) k m = m
        go (sasl_token n) k m = cc
        go token_rest k m = cc

  -- The replies never start in the middle of one.
  pub IsMarked-token_rest : {A : Type 0} (xs : List Reply) → s.replies ≡ token_rest ∷ xs → A
  IsMarked-token_rest xs eq =
      elim ((subst (λ (rs : List Reply). All IsMarked rs) eq inv.marked).0) [ ]

  pub relay_length-Inv :
      (n : ℕ) (xs : List Reply)
      → s.response_pc ≡ holding sasl_auth_v0_response_handler
      → s.replies ≡ sasl_token n ∷ xs
      → Inv (record s { response_pc = ready; replies = behind_length n xs })
  relay_length-Inv n xs at eq =
      let (fits, handled) =
        handler-fits s sasl_auth_v0_response_handler (sasl_token n) xs inv at eq in
      let (empty, marked) = IsMarked-first (sasl_token n) xs eq in
      subst (λ (m : ℕ). Inv (record s { response_pc = ready; replies = behind_length m xs }))
        (sym empty)
        (record {
          opened =
              subst
                (λ (rs : List Reply). OpenInv s.request_pc s.channels.open_requests (entries rs)) eq
                (opened_at (holding sasl_auth_v0_response_handler) at);
          handled = handled;
          marked = marked;
          paired = tt;
        })

  pub match_request-Inv :
      (x : Reply) (r : RequestKeyVersion) (c : Channels)
      → s.response_pc ≡ got x
      → receive_request_key_version s.channels ≡ ok (r, c)
      → Inv (record s { channels = c; response_pc = matched x r })
  match_request-Inv x r c at e =
      let (taken, same) = receive_request_key_version-eq_ok s.channels c r e in
      let (paired, opened) = go x (IsPaired-at (got x) at) (
        subst (λ rs. OpenInv s.request_pc rs (entries (x ∷ s.replies))) taken
          (opened_at (got x) at)) in
      subst (λ d. Inv (record s { channels = d; response_pc = matched x r })) same
        (record {
          opened = opened;
          handled = handled_at (got x) at;
          marked = inv.marked;
          paired = paired;
        })
    where
      go :
          (y : Reply)
          → IsPaired (got y)
          → OpenInv s.request_pc (r ∷ c.open_requests) (entries (y ∷ s.replies))
          → IsPaired (matched y r) × OpenInv s.request_pc c.open_requests (entries s.replies)
      go (kafka q id o) m k =
          let (heads, tails) =
            OpenInv-uncons s.request_pc r q c.open_requests (entries s.replies) k in
          ((heads, m), tails)
      go (sasl_token n) m k = elim m [ ]
      go token_rest m k = elim m [ ]

  pub finish_response-Inv :
      (x : Reply) (r : RequestKeyVersion)
      → s.response_pc ≡ matched x r
      → Inv (record s { response_pc = ready })
  finish_response-Inv x r at = record {
    opened = opened_at (matched x r) at;
    handled = handled_at (matched x r) at;
    marked = inv.marked;
    paired = tt;
  }
