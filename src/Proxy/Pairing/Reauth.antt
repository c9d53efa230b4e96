-- ===== src/Proxy/Pairing/Reauth.antt =====
-- Every step of runReauth of proxy/processor.go keeps the invariant.
use kafka_gcp_proxy.Base.{
  ℕ, ◌≡◌, inl, inr, refl, ap, sym, subst, ◌∙◌, [], ◌∷◌, ◌++◌, append_assoc, ok,
}
use kafka_gcp_proxy.Protocol.KeyVersion.{RequestKeyVersion}
use kafka_gcp_proxy.Proxy.Channel.{
  default_request_handler, default_response_handler, Channels, send_marker, put_marker_handler,
  sasl_handshake_marker, sasl_authenticate_marker,
}
use kafka_gcp_proxy.Proxy.Pairing.{
  RequestPc, reading, handshake_written, reauth_written, handshake_opened, handshake_marked,
  authenticate_opened, reauth_marked, System, handshake_reply, authenticate_reply,
}
use kafka_gcp_proxy.Proxy.Pairing.Invariant.{handlers_of, OpenInv, HandlersInv, Inv, default_last}
use kafka_gcp_proxy.Proxy.Pairing.Sends.{All-append, send_marker-eq_ok}
use kafka_gcp_proxy.Proxy.Pairing.Requests.{
  es, ps, opened_at, handled_at, entries_written, handlers_written, put_response-Inv,
}

module _ (s : System) (inv : Inv s) where
  pub write_handshake-Inv :
      s.request_pc ≡ reading default_request_handler
      → Inv (record s {
        request_pc = handshake_written;
        replies = s.replies ++ (handshake_reply ∷ []);
      })
  write_handshake-Inv at =
      let (eq, ep) = handled_at s inv (reading default_request_handler) at in
      record {
        opened =
            ap (λ rs. rs ++ (sasl_handshake_marker ∷ []))
              (opened_at s inv (reading default_request_handler) at)
            ∙ sym (entries_written s inv (handshake_reply ∷ []));
        handled = (eq, ep ∙ sym (handlers_written s inv (handshake_reply ∷ [])));
        marked = All-append s.replies (handshake_reply ∷ []) inv.marked (inl (refl, refl), tt);
        paired = inv.paired;
      }

  pub write_authenticate-Inv :
      s.request_pc ≡ handshake_written
      → Inv (record s {
        request_pc = reauth_written;
        replies = s.replies ++ (authenticate_reply ∷ []);
      })
  write_authenticate-Inv at =
      let (eq, ep) = handled_at s inv handshake_written at in
      record {
        opened =
            sym (
              append_assoc s.channels.open_requests (sasl_handshake_marker ∷ [])
                (sasl_authenticate_marker ∷ []))
            ∙ ap (λ rs. rs ++ (sasl_authenticate_marker ∷ []))
                (opened_at s inv handshake_written at)
            ∙ sym (entries_written s inv (authenticate_reply ∷ []));
        handled = (eq, ap default_last ep ∙ sym (handlers_written s inv (authenticate_reply ∷ [])));
        marked = All-append s.replies (authenticate_reply ∷ []) inv.marked (inr (refl, refl), tt);
        paired = inv.paired;
      }

  send_marker-Inv :
      (bound : ℕ) (r : RequestKeyVersion) (p : RequestPc) (c : Channels)
      → OpenInv p (s.channels.open_requests ++ (r ∷ [])) (es s inv)
      → HandlersInv p s.channels.next_request_handlers (ps s inv) (handlers_of s.replies)
      → send_marker bound r s.channels ≡ ok c
      → Inv (record s { channels = c; request_pc = p })
  send_marker-Inv bound r p c opened handled e =
      subst (λ d. Inv (record s { channels = d; request_pc = p }))
        (send_marker-eq_ok s.channels c bound r e)
        (record { opened = opened; handled = handled; marked = inv.marked; paired = inv.paired })

  pub open_handshake-Inv :
      (bound : ℕ) (c : Channels)
      → s.request_pc ≡ reauth_written
      → send_marker bound sasl_handshake_marker s.channels ≡ ok c
      → Inv (record s { channels = c; request_pc = handshake_opened })
  open_handshake-Inv bound c at e =
      send_marker-Inv bound sasl_handshake_marker handshake_opened c
        (append_assoc s.channels.open_requests (sasl_handshake_marker ∷ [])
            (sasl_authenticate_marker ∷ [])
          ∙ opened_at s inv reauth_written at)
        (handled_at s inv reauth_written at) e

  pub mark_handshake-Inv :
      (bound : ℕ) (c : Channels)
      → s.request_pc ≡ handshake_opened
      → put_marker_handler bound s.channels ≡ ok c
      → Inv (record s { channels = c; request_pc = handshake_marked })
  mark_handshake-Inv bound c at e =
      put_response-Inv s inv bound _ default_response_handler handshake_marked c
        (opened_at s inv handshake_opened at) (handled_at s inv handshake_opened at) e

  pub open_authenticate-Inv :
      (bound : ℕ) (c : Channels)
      → s.request_pc ≡ handshake_marked
      → send_marker bound sasl_authenticate_marker s.channels ≡ ok c
      → Inv (record s { channels = c; request_pc = authenticate_opened })
  open_authenticate-Inv bound c at e =
      send_marker-Inv bound sasl_authenticate_marker authenticate_opened c
        (opened_at s inv handshake_marked at) (handled_at s inv handshake_marked at) e

  pub mark_authenticate-Inv :
      (bound : ℕ) (c : Channels)
      → s.request_pc ≡ authenticate_opened
      → put_marker_handler bound s.channels ≡ ok c
      → Inv (record s { channels = c; request_pc = reauth_marked })
  mark_authenticate-Inv bound c at e =
      let (eq, ep) = handled_at s inv authenticate_opened at in
      put_response-Inv s inv bound _ default_response_handler reauth_marked c
        (opened_at s inv authenticate_opened at) (eq, ap default_last ep) e
