-- ===== src/Proxy/Handlers/Consumed.antt =====
-- consumeReauthResponse of proxy/processor.go, and what handleResponse of proxy/processor_default.go
-- does with a response to a client.
use kafka_gcp_proxy.Base.{
  ℕ, ◌+◌, ◌≤◌, ◌≡◌, ◌⊎◌, inl, inr, refl, subst, pos, beq_ℤ, true, false, Option, none, some, List,
  [], ◌++◌, Error, failure, ok, ap, sym, ◌∙◌, ok-injective,
}
use kafka_gcp_proxy.Protocol.Encoding.{decode}
use kafka_gcp_proxy.Protocol.Headers.{
  ResponseHeader, ResponseHeaderTaggedFields, new_response_header_tagged_fields,
}
use kafka_gcp_proxy.Protocol.KeyVersion.{RequestKeyVersion, response_header_version}
use kafka_gcp_proxy.Protocol.Responses.HeaderVersions.{new_response_header_tagged_fields_lem}
use kafka_gcp_proxy.Proxy.Handlers.TaggedGrammar.{IsTagged}
use kafka_gcp_proxy.Protocol.Responses.Modify.{ResponseModifier, get_response_modifier}
use kafka_gcp_proxy.Proxy.Pairing.{reauth_handshake_correlation_id}
use kafka_gcp_proxy.Proxy.Wires.{
  Wires, done, Io, fail, lift, skip, reject_if, set_read_deadline, set_write_deadline,
}
use kafka_gcp_proxy.Proxy.Wires.Moved.{Moved, Still, same-Still}
use kafka_gcp_proxy.Proxy.Wires.Transfers.{>>=-done, lift-done, done-wires}
use kafka_gcp_proxy.Proxy.Wires.Flows.{
  Stays, bind-Stays, if-Stays, pure-Stays, fail-Stays, lift-Stays, set_read_deadline-Stays,
  set_write_deadline-Stays, reject_if-Stays, both, then-Still,
}
use kafka_gcp_proxy.Proxy.Handlers.TaggedFields.{maybe_read}
use kafka_gcp_proxy.Proxy.Handlers.Relayed.{
  write_unmodified-Moved, write_modified-Moved, read_body-done, Rewritten,
}
use kafka_gcp_proxy.Proxy.AuthState.{ConnectionAuthState, complete_reauth}
use kafka_gcp_proxy.Protocol.SaslResponses.{
  decode_sasl_handshake_response, decode_sasl_authenticate_response_v1,
}
use kafka_gcp_proxy.Proxy.Handlers.TaggedRead.{maybe_read-read}
use kafka_gcp_proxy.Proxy.Handlers.Request.{minus32, change_auth_state}
use kafka_gcp_proxy.Proxy.Handlers.Response.{
  ResponsesLoopContext, read_body, complete_reauth_handshake, complete_reauth_authenticate,
  consume_reauth_response, write_modified, write_unmodified, relay_response,
}
use kafka_gcp_proxy.Proxy.Handlers.HeaderLengths.{IsLength}
use kafka_gcp_proxy.Proxy.Handlers.Forwarded.{IsWhole, minus32-IsWhole}

change_auth_state-Stays :
    (f : ConnectionAuthState → ConnectionAuthState) → Stays (change_auth_state f)
change_auth_state-Stays f w t v h =
    subst (λ u. Still w u) (done-wires h)
      (same-Still w (record w { auth_state = f w.auth_state }) refl refl refl refl)

handshake-Stays : (payload : List ℕ) → Stays (complete_reauth_handshake payload)
unfolding complete_reauth_handshake
handshake-Stays payload =
    let decoded = decode payload decode_sasl_handshake_response in
    let rejected : Error = failure "re-auth: broker rejected the handshake" in
    bind-Stays (lift true decoded) _ (lift-Stays true decoded) (λ res.
      if-Stays (beq_ℤ res.err (pos 0)) skip (fail false rejected) (pure-Stays tt)
        (fail-Stays false rejected))

authenticate-Stays :
    (ctx : ResponsesLoopContext) (now : ℕ) (payload : List ℕ)
    → Stays (complete_reauth_authenticate ctx now payload)
unfolding complete_reauth_authenticate
authenticate-Stays ctx now payload =
    let decoded = decode payload decode_sasl_authenticate_response_v1 in
    let rejected : Error = failure "re-auth: broker rejected refreshed credentials" in
    bind-Stays (lift true decoded) _ (lift-Stays true decoded) (λ res.
      if-Stays (beq_ℤ res.err (pos 0)) _ (fail false rejected)
        (change_auth_state-Stays (complete_reauth ctx.product now res.session_lifetime_ms))
        (fail-Stays false rejected))

pub consume_reauth_response-Moved :
    (ctx : ResponsesLoopContext) (now : ℕ) (header : ResponseHeader) (w v : Wires)
    → IsLength header.length
    → consume_reauth_response ctx now header w ≡ done tt v
    → (payload : List ℕ) × Moved w v payload [] × IsWhole header.length payload
unfolding consume_reauth_response
consume_reauth_response-Moved ctx now header w v accepted h =
    let (t1, w1, e1, h1) = >>=-done (set_read_deadline true (now + ctx.timeout)) _ w h in
    let (t2, w2, e2, h2) = >>=-done (reject_if _ _) _ w1 h1 in
    let (payload, w3, e3, h3) = >>=-done (read_body (minus32 header.length 4)) _ w2 h2 in
    let (got, size) = read_body-done (minus32 header.length 4) w2 w3 payload e3 in
    let last : Still w3 v =
      if-Stays (beq_ℤ header.correlation_id reauth_handshake_correlation_id)
        (complete_reauth_handshake payload) (complete_reauth_authenticate ctx now payload)
        (handshake-Stays payload) (authenticate-Stays ctx now payload) w3 tt v h3 in
    (
      payload,
      then-Still
          (both (set_read_deadline-Stays true _ w t1 w1 e1)
            (both (reject_if-Stays _ _ w1 t2 w2 e2) got))
          last,
      minus32-IsWhole header.length [] payload accepted size,
    )

-- A response relayed as it is, and one that was rewritten, with the tagged fields of its header, which
-- are there if the version of the header is 1 or more.
abbrev pub Unchanged :
    ResponsesLoopContext → List ℕ → ResponseHeader → RequestKeyVersion → Wires → Wires → Type 0
Unchanged ctx header_bytes header r w v =
    (get_response_modifier r.api_key r.api_version ctx.net_address_mapping_func ≡ ok none)
    × ((body : List ℕ) × Moved w v body (header_bytes ++ body) × IsWhole header.length body)

abbrev pub Changed :
    ResponsesLoopContext → ResponseHeader → RequestKeyVersion → Wires → Wires → Type 0
Changed ctx header r w v =
    (m : ResponseModifier) × (tagged : List ℕ) × (u : Wires) × (get_response_modifier r.api_key
        r.api_version ctx.net_address_mapping_func
      ≡ ok (some m))
    × Moved w u tagged []
    × IsTagged (response_header_version r) tagged
    × Rewritten header m u v tagged

version_of :
    (r : RequestKeyVersion) (fields : ResponseHeaderTaggedFields)
    → new_response_header_tagged_fields r ≡ ok fields
    → fields.version ≡ response_header_version r
version_of r fields h =
    ap (λ (f : ResponseHeaderTaggedFields). f.version)
      (ok-injective
        (sym h ∙ new_response_header_tagged_fields_lem r.length r.api_key r.api_version))

pub relay_response-Moved :
    (ctx : ResponsesLoopContext) (now : ℕ) (header_bytes : List ℕ) (header : ResponseHeader)
    (r : RequestKeyVersion) (w v : Wires)
    → 1 ≤ ctx.buf
    → IsLength header.length
    → relay_response ctx now header_bytes header r w ≡ done tt v
    → Unchanged ctx header_bytes header r w v ⊎ Changed ctx header r w v
unfolding relay_response
relay_response-Moved ctx now header_bytes header r w v room accepted h =
    let (t1, w1, e1, h1) = >>=-done (set_write_deadline false (now + ctx.timeout)) _ w h in
    let (t2, w2, e2, h2) = >>=-done (set_read_deadline true (now + ctx.timeout)) _ w1 h1 in
    let (fields, w3, e3, h3) = >>=-done (lift true (new_response_header_tagged_fields r)) _ w2 h2 in
    let (tagged, w4, e4, h4) = >>=-done (maybe_read fields.version) _ w3 h3 in
    let (modifier, w5, e5, h5) =
      >>=-done
        (lift true (get_response_modifier r.api_key r.api_version ctx.net_address_mapping_func)) _
        w4 h4 in
    let before : Still w w3 =
      both (set_write_deadline-Stays false _ w t1 w1 e1)
        (both (set_read_deadline-Stays true _ w1 t2 w2 e2) (lift-Stays true _ w2 fields w3 e3)) in
    let (read_fields, grammar) = maybe_read-read fields.version w3 w4 tagged e4 in
    let read_ahead : Moved w w5 tagged [] =
      both before (then-Still read_fields (lift-Stays true _ w4 modifier w5 e5)) in
    go modifier tagged w5 ((lift-done true _ w4 e5).0) read_ahead
      (subst (λ z. IsTagged z tagged) (version_of r fields ((lift-done true _ w2 e3).0)) grammar) h5
  where
    go :
        (modifier : Option ResponseModifier) (tagged : List ℕ) (u : Wires)
        → get_response_modifier r.api_key r.api_version ctx.net_address_mapping_func ≡ ok modifier
        → Moved w u tagged []
        → IsTagged (response_header_version r) tagged
        → (elim modifier as (λ _. Io (Unit {0})) [
          | none ↦ write_unmodified ctx.buf header_bytes header tagged
          | some m ↦ write_modified header tagged m
        ])
            u
          ≡ done tt v
        → Unchanged ctx header_bytes header r w v ⊎ Changed ctx header r w v
    go none tagged u e moved grammar k =
        let (body, copied, whole) =
          write_unmodified-Moved ctx.buf header_bytes header tagged u v room accepted k in
        inl (e, (tagged ++ body, both moved copied, whole))
    go (some m) tagged u e moved grammar k =
        inr (m, tagged, u, e, moved, grammar, write_modified-Moved header tagged m u v accepted k)
