-- ===== src/Proxy/Handlers/Answered.antt =====
-- handleResponse of proxy/processor_default.go as a whole, and copySaslAuthResponse of
-- proxy/processor_sasl_auth_v0.go.
use kafka_gcp_proxy.Base.{
  ℕ, ◌+◌, ◌≤◌, ◌≡◌, ◌⊎◌, inl, inr, refl, ap, subst, ◌∙◌, Bool, true, false, List, [], append-nil,
  length, Result, ok, err, if◌then◌else◌,
}
use kafka_gcp_proxy.Protocol.Encoding.{decode}
use kafka_gcp_proxy.Protocol.Headers.{ResponseHeader, decode_response_header}
use kafka_gcp_proxy.Protocol.KeyVersion.{RequestKeyVersion}
use kafka_gcp_proxy.Proxy.Channel.{Channels, receive_request_key_version}
use kafka_gcp_proxy.Proxy.Pairing.{is_proxy_reauth_response}
use kafka_gcp_proxy.Proxy.Wires.{
  Wires, Exit, done, failed, lift, read_full, set_read_deadline, set_write_deadline, on_channels,
}
use kafka_gcp_proxy.Proxy.Wires.Moved.{Moved, Still}
use kafka_gcp_proxy.Proxy.Wires.Transfers.{
  >>=-done, read_full-done, write-done, lift-done, done-value, done-wires,
}
use kafka_gcp_proxy.Proxy.Wires.Flows.{
  lift-Stays, on_channels-Stays, set_read_deadline-Stays, set_write_deadline-Stays, both,
  then-Still,
}
use kafka_gcp_proxy.Proxy.Wires.Kept.{
  set_read_deadline-Keeps, set_write_deadline-Keeps, read_full-Keeps,
}
use kafka_gcp_proxy.Proxy.Handlers.Kept.{relay_response-Keeps, consume_reauth_response-Keeps}
use kafka_gcp_proxy.Proxy.Handlers.Consumed.{
  consume_reauth_response-Moved, relay_response-Moved, Unchanged, Changed,
}
use kafka_gcp_proxy.Proxy.Handlers.Response.{
  ResponsesLoopContext, consume_reauth_response, relay_response, handle_response,
  copy_sasl_auth_response,
}
use kafka_gcp_proxy.Proxy.Handlers.HeaderLengths.{IsLength, response_header-IsLength}
use kafka_gcp_proxy.Proxy.Handlers.Forwarded.{IsWhole}

on_channels-call :
    (w v : Wires) (r : RequestKeyVersion)
    → on_channels true receive_request_key_version w ≡ done r v
    → receive_request_key_version w.channels ≡ ok (r, v.channels)
unfolding on_channels
on_channels-call w v r h = go (receive_request_key_version w.channels) refl h
  where
    go :
        (x : Result (RequestKeyVersion × Channels))
        → receive_request_key_version w.channels ≡ x
        → (elim x as (λ _. Exit RequestKeyVersion) [
          | ok (b, c) ↦ done b (record w { channels = c })
          | err e ↦ failed true e w
        ])
          ≡ done r v
        → receive_request_key_version w.channels ≡ ok (r, v.channels)
    go (ok (b, c)) e k =
        e
        ∙ ap (λ x. ok (x, c)) (done-value k)
        ∙ ap (λ (u : Wires). ok (r, u.channels)) (done-wires k)
    go (err x) e k = cc

-- What became of the response with this header, to the request with this key and version.
abbrev pub Answered :
    ResponsesLoopContext → List ℕ → ResponseHeader → RequestKeyVersion → Wires → Wires → Type 0
Answered ctx header_bytes header r w v =
    ((is_proxy_reauth_response r header.correlation_id ≡ true)
      × ((payload : List ℕ) × Moved w v payload [] × IsWhole header.length payload))
    ⊎ ((is_proxy_reauth_response r header.correlation_id ≡ false)
        × (Unchanged ctx header_bytes header r w v ⊎ Changed ctx header r w v))

-- When the default response handler returns without an error, it has read a header and taken the oldest
-- open request for it, and has changed the channels in no other way. If that is one of the proxy's own
-- re-authentication requests, the rest of the response was read and nothing was written. If the request's
-- key has no modifier, the whole response, as long as the length in its header says (or more than 2 GiB),
-- was written just as it was read. Otherwise what was read next are the tagged fields of a header of the
-- request's response header version (none for version 0), the body behind them was rewritten by the
-- modifier, and what was written is a header with the same correlation id and the new length, those tagged
-- fields as they were, and the new body.
pub handle_response-Answered :
    (ctx : ResponsesLoopContext) (now : ℕ) (w v : Wires)
    → 1 ≤ ctx.buf
    → handle_response ctx now w ≡ done tt v
    → (header_bytes : List ℕ) × (header : ResponseHeader) × (r : RequestKeyVersion) × (u : Wires)
      × (length header_bytes ≡ 8)
      × (decode header_bytes decode_response_header ≡ ok header)
      × (receive_request_key_version w.channels ≡ ok (r, v.channels))
      × Moved w u header_bytes []
      × Answered ctx header_bytes header r u v
unfolding handle_response
handle_response-Answered ctx now w v room h =
    let (t1, w1, e1, h1) = >>=-done (set_read_deadline true 0) _ w h in
    let (t2, w2, e2, h2) = >>=-done (set_write_deadline true 0) _ w1 h1 in
    let (header_bytes, w3, e3, h3) = >>=-done (read_full 8) _ w2 h2 in
    let (header, w4, e4, h4) =
      >>=-done (lift true (decode header_bytes decode_response_header)) _ w3 h3 in
    let (r, w5, e5, h5) = >>=-done (on_channels true receive_request_key_version) _ w4 h4 in
    let (got, eight) = read_full-done 8 w2 e3 in
    let (decoded, same) = lift-done true (decode header_bytes decode_response_header) w3 e4 in
    let taken = on_channels-call w4 w5 r e5 in
    let channels : w.channels ≡ w4.channels =
      set_read_deadline-Keeps true 0 w t1 w1 e1
      ∙ set_write_deadline-Keeps true 0 w1 t2 w2 e2
      ∙ read_full-Keeps 8 w2 header_bytes w3 e3
      ∙ ap (λ (x : Wires). x.channels) same in
    let moved : Moved w w5 header_bytes [] = both (set_read_deadline-Stays true 0 w t1 w1 e1) (
      both (set_write_deadline-Stays true 0 w1 t2 w2 e2) (
        then-Still (then-Still got (lift-Stays true _ w3 header w4 e4))
          (on_channels-Stays true _ w4 r w5 e5))) in
    let accepted : IsLength header.length = response_header-IsLength header_bytes header decoded in
    (
      header_bytes,
      header,
      r,
      w5,
      eight,
      decoded,
      ap receive_request_key_version channels
          ∙ taken
          ∙ ap (λ c. ok (r, c))
              (kept header_bytes header r w5 (is_proxy_reauth_response r header.correlation_id) h5),
      moved,
      answered header_bytes header r w5 accepted (is_proxy_reauth_response r header.correlation_id)
          refl h5,
    )
  where
    kept :
        (header_bytes : List ℕ) (header : ResponseHeader) (r : RequestKeyVersion) (u : Wires)
        (own : Bool)
        → (if own
              then consume_reauth_response ctx now header
              else relay_response ctx now header_bytes header r)
            u
          ≡ done tt v
        → u.channels ≡ v.channels
    kept header_bytes header r u true k = consume_reauth_response-Keeps ctx now header u tt v k
    kept header_bytes header r u false k =
        relay_response-Keeps ctx now header_bytes header r u tt v k

    answered :
        (header_bytes : List ℕ) (header : ResponseHeader) (r : RequestKeyVersion) (u : Wires)
        → IsLength header.length
        → (own : Bool) → is_proxy_reauth_response r header.correlation_id ≡ own
        → (if own
              then consume_reauth_response ctx now header
              else relay_response ctx now header_bytes header r)
            u
          ≡ done tt v
        → Answered ctx header_bytes header r u v
    answered header_bytes header r u accepted true e k =
        inl (e, consume_reauth_response-Moved ctx now header u v accepted k)
    answered header_bytes header r u accepted false e k =
        inr (e, relay_response-Moved ctx now header_bytes header r u v room accepted k)

-- What copySaslAuthResponse hands to the client is always four bytes, the length of the broker's token:
-- the token behind it is neither read nor written.
pub copy_sasl_auth_response-Moved :
    (timeout now : ℕ) (w v : Wires)
    → copy_sasl_auth_response timeout now w ≡ done tt v
    → (size_bytes : List ℕ) × Moved w v size_bytes size_bytes × (length size_bytes ≡ 4)
unfolding copy_sasl_auth_response
copy_sasl_auth_response-Moved timeout now w v h =
    let (t1, w1, e1, h1) = >>=-done (set_write_deadline false (now + timeout)) _ w h in
    let (t2, w2, e2, h2) = >>=-done (set_read_deadline true (now + timeout)) _ w1 h1 in
    let (size_bytes, w3, e3, h3) = >>=-done (read_full 4) _ w2 h2 in
    let (got, four) = read_full-done 4 w2 e3 in
    let before : Still w w2 =
      both (set_write_deadline-Stays false _ w t1 w1 e1)
        (set_read_deadline-Stays true _ w1 t2 w2 e2) in
    (
      size_bytes,
      subst (λ x. Moved w v x size_bytes) (append-nil size_bytes)
          (both before (both got (write-done size_bytes w3 h3))),
      four,
    )
