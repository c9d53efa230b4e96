-- ===== src/Proxy/Handlers/Kept.antt =====
-- The calls that the default response handler of proxy/processor_default.go makes behind the receive of an
-- open request leave the channels alone.
use kafka_gcp_proxy.Base.{
  ℕ, zero, suc, ◌+◌, ◌-◌, ◌≡◌, ◌∙◌, ap, ℤ, pos, negsuc, half64, leb_ℤ, beq_ℤ, true, false, ◌&&◌,
  Option, none, some, List, [], ◌∷◌, Error, length, ltb, ◌==◌, if◌then◌else◌, eof, refl, panicked,
}
use kafka_gcp_proxy.Protocol.Encoding.{decode}
use kafka_gcp_proxy.Protocol.SaslResponses.{
  decode_sasl_handshake_response, decode_sasl_authenticate_response_v1,
}
use kafka_gcp_proxy.Protocol.Headers.{
  ResponseHeader, response_header, new_response_header_tagged_fields,
}
use kafka_gcp_proxy.Protocol.KeyVersion.{RequestKeyVersion}
use kafka_gcp_proxy.Protocol.Responses.Modify.{ResponseModifier, get_response_modifier, apply}
use kafka_gcp_proxy.Proxy.CopyN.{my_copy_n_loop, my_copy_n, read_size}
use kafka_gcp_proxy.Proxy.Pairing.{reauth_handshake_correlation_id}
use kafka_gcp_proxy.Proxy.Wires.{
  Wires, Exit, done, failed, looping, Io, skip, fail, lift, read, write, set_read_deadline,
  set_write_deadline, reject_if,
}
use kafka_gcp_proxy.Proxy.Wires.Transfers.{done-wires}
use kafka_gcp_proxy.Proxy.Wires.Kept.{
  Keeps, bind-Keeps, if-Keeps, pure-Keeps, fail-Keeps, lift-Keeps, reject_if-Keeps,
  set_read_deadline-Keeps, set_write_deadline-Keeps, read_full-Keeps, copy_n_discard-Keeps,
  read-Keeps, write-Keeps, tee-Keeps,
}
use kafka_gcp_proxy.Proxy.Handlers.TaggedFields.{
  one_byte, read_byte, inside, map_error, read_uvarint_loop, read_uvarint, discard_data,
  read_tagged_fields, loop_bound, maybe_read,
}
use kafka_gcp_proxy.Proxy.Handlers.Response.{
  ResponsesLoopContext, read_body, int32_of, encode_header, complete_reauth_handshake,
  complete_reauth_authenticate, consume_reauth_response, write_modified, write_unmodified,
  relay_response,
}

map_error-Keeps {ℓ} : {A : Type ℓ} (f : Error → Error) (m : Io A) → Keeps m → Keeps (map_error f m)
map_error-Keeps {A} f m p w a v h = go (m w) refl h
  where
    go :
        (x : Exit A)
        → m w ≡ x
        → (elim x as (λ _. Exit A) [
          | done b u ↦ done b u
          | failed r e u ↦ failed r (f e) u
          | looping ↦ looping
        ])
          ≡ done a v
        → w.channels ≡ v.channels
    go (done b u) e k = p w a v (e ∙ k)
    go (failed r x u) e k = cc
    go looping e k = cc

one_byte-Keeps : (bs : List ℕ) → Keeps (one_byte bs)
one_byte-Keeps [] = fail-Keeps true _
one_byte-Keeps (b ∷ []) = pure-Keeps b
one_byte-Keeps (b ∷ c ∷ bs) = fail-Keeps true _

read_byte-Keeps : Keeps read_byte
unfolding read_byte
read_byte-Keeps = bind-Keeps (read 1) _ (read-Keeps 1) one_byte-Keeps

read_uvarint_loop-Keeps : (left x unit : ℕ) → Keeps (read_uvarint_loop left x unit)
unfolding read_uvarint_loop
read_uvarint_loop-Keeps zero x unit = fail-Keeps true _
read_uvarint_loop-Keeps (suc left) x unit =
    bind-Keeps (if left == 9 then read_byte else map_error inside read_byte) _
      (if-Keeps (left == 9) _ _ read_byte-Keeps (map_error-Keeps inside read_byte read_byte-Keeps))
      (λ b.
        if-Keeps (ltb b 128) _ _
          (if-Keeps (left == 0 && ltb 1 b) _ _ (fail-Keeps true _) (pure-Keeps _))
          (read_uvarint_loop-Keeps left _ _))

read_uvarint-Keeps : (f : Error → Error) → Keeps (map_error f read_uvarint)
unfolding read_uvarint
read_uvarint-Keeps f = map_error-Keeps f _ (read_uvarint_loop-Keeps 10 0 1)

discard_data-Keeps : (size : ℕ) → Keeps (discard_data size)
discard_data-Keeps size =
    if-Keeps (size == 0) _ _ (pure-Keeps tt)
      (if-Keeps (ltb size half64) _ _ (copy_n_discard-Keeps size) (pure-Keeps tt))

read_tagged_fields-Keeps : (count : ℕ) → Keeps (read_tagged_fields count)
unfolding read_tagged_fields
read_tagged_fields-Keeps zero = pure-Keeps tt
read_tagged_fields-Keeps (suc count) =
    bind-Keeps (map_error _ read_uvarint) _ (read_uvarint-Keeps _) (λ tag.
      bind-Keeps (map_error _ read_uvarint) _ (read_uvarint-Keeps _) (λ size.
        bind-Keeps (map_error _ (discard_data size)) _
          (map_error-Keeps _ _ (discard_data-Keeps size)) (λ t. read_tagged_fields-Keeps count)))

maybe_read-Keeps : (version : ℤ) → Keeps (maybe_read version)
unfolding maybe_read
maybe_read-Keeps version =
    if-Keeps (leb_ℤ (pos 1) version) _ _
      (bind-Keeps _ _
        (tee-Keeps _ (
          bind-Keeps (map_error _ read_uvarint) _ (read_uvarint-Keeps _)
            (λ count. read_tagged_fields-Keeps (loop_bound count))))
        (λ (t, bs). pure-Keeps bs))
      (pure-Keeps [])

my_copy_n_loop-Keeps : (fuel buf left : ℕ) → Keeps (my_copy_n_loop fuel buf left)
unfolding my_copy_n_loop
my_copy_n_loop-Keeps zero buf zero = pure-Keeps tt
my_copy_n_loop-Keeps (suc fuel) buf zero = pure-Keeps tt
my_copy_n_loop-Keeps zero buf (suc left) = λ w a v h. cc
my_copy_n_loop-Keeps (suc fuel) buf (suc left) =
    bind-Keeps (read (read_size buf (suc left))) _ (read-Keeps _) (λ bytes.
      bind-Keeps (write bytes) _ (write-Keeps bytes)
        (λ t. my_copy_n_loop-Keeps fuel buf (suc left - length bytes)))

my_copy_n-Keeps : (buf : ℕ) (size : ℤ) → Keeps (my_copy_n buf size)
unfolding my_copy_n
my_copy_n-Keeps buf (pos size) = my_copy_n_loop-Keeps size buf size
my_copy_n-Keeps buf (negsuc n) = fail-Keeps true eof

read_body-Keeps : (n : ℤ) → Keeps (read_body n)
read_body-Keeps (pos n) = read_full-Keeps n
read_body-Keeps (negsuc n) = fail-Keeps false panicked

write_modified-Keeps :
    (header : ResponseHeader) (tagged : List ℕ) (m : ResponseModifier)
    → Keeps (write_modified header tagged m)
unfolding write_modified
write_modified-Keeps header tagged m = bind-Keeps (reject_if _ _) _ (reject_if-Keeps _ _) (λ t.
    bind-Keeps (read_body _) _ (read_body-Keeps _) (λ resp.
      let applied = apply m (some resp) in
      bind-Keeps (lift true applied) _ (lift-Keeps true applied) (λ new_response.
        let fresh = encode_header (
          response_header (int32_of (length new_response + (4 + length tagged)))
            header.correlation_id) in
        bind-Keeps (lift true fresh) _ (lift-Keeps true fresh) (λ new_header.
          bind-Keeps (write new_header) _ (write-Keeps _)
            (λ t. bind-Keeps (write tagged) _ (write-Keeps _) (λ t. write-Keeps new_response))))))

write_unmodified-Keeps :
    (buf : ℕ) (header_bytes : List ℕ) (header : ResponseHeader) (tagged : List ℕ)
    → Keeps (write_unmodified buf header_bytes header tagged)
unfolding write_unmodified
write_unmodified-Keeps buf header_bytes header tagged =
    bind-Keeps (write header_bytes) _ (write-Keeps _)
      (λ t. bind-Keeps (write tagged) _ (write-Keeps _) (λ t. my_copy_n-Keeps buf _))

pub relay_response-Keeps :
    (ctx : ResponsesLoopContext) (now : ℕ) (header_bytes : List ℕ) (header : ResponseHeader)
    (r : RequestKeyVersion)
    → Keeps (relay_response ctx now header_bytes header r)
unfolding relay_response
relay_response-Keeps ctx now header_bytes header r =
    bind-Keeps (set_write_deadline _ _) _ (set_write_deadline-Keeps _ _) (λ t.
      bind-Keeps (set_read_deadline _ _) _ (set_read_deadline-Keeps _ _) (λ t.
        let fields = new_response_header_tagged_fields r in
        bind-Keeps (lift true fields) _ (lift-Keeps true fields) (λ fields.
          bind-Keeps (maybe_read fields.version) _ (maybe_read-Keeps fields.version) (λ tagged.
            let modifier =
              get_response_modifier r.api_key r.api_version ctx.net_address_mapping_func in
            bind-Keeps (lift true modifier) _ (lift-Keeps true modifier) (written tagged)))))
  where
    written :
        (tagged : List ℕ) (modifier : Option ResponseModifier)
        → Keeps (elim modifier as (λ _. Io (Unit {0})) [
          | none ↦ write_unmodified ctx.buf header_bytes header tagged
          | some m ↦ write_modified header tagged m
        ])
    written tagged none = write_unmodified-Keeps ctx.buf header_bytes header tagged
    written tagged (some m) = write_modified-Keeps header tagged m

handshake-Keeps : (payload : List ℕ) → Keeps (complete_reauth_handshake payload)
unfolding complete_reauth_handshake
handshake-Keeps payload =
    let decoded = decode payload decode_sasl_handshake_response in
    bind-Keeps (lift true decoded) _ (lift-Keeps true decoded) (λ res.
      if-Keeps (beq_ℤ res.err (pos 0)) skip (fail false _) (pure-Keeps tt) (fail-Keeps false _))

authenticate-Keeps :
    (ctx : ResponsesLoopContext) (now : ℕ) (payload : List ℕ)
    → Keeps (complete_reauth_authenticate ctx now payload)
unfolding complete_reauth_authenticate
authenticate-Keeps ctx now payload =
    let decoded = decode payload decode_sasl_authenticate_response_v1 in
    bind-Keeps (lift true decoded) _ (lift-Keeps true decoded) (λ res.
      if-Keeps (beq_ℤ res.err (pos 0)) _ (fail false _)
        (λ w a v h. ap (λ (u : Wires). u.channels) (done-wires h)) (fail-Keeps false _))

pub consume_reauth_response-Keeps :
    (ctx : ResponsesLoopContext) (now : ℕ) (header : ResponseHeader)
    → Keeps (consume_reauth_response ctx now header)
unfolding consume_reauth_response
consume_reauth_response-Keeps ctx now header =
    bind-Keeps (set_read_deadline _ _) _ (set_read_deadline-Keeps _ _) (λ t.
      bind-Keeps (reject_if _ _) _ (reject_if-Keeps _ _) (λ t.
        bind-Keeps (read_body _) _ (read_body-Keeps _) (λ payload.
          if-Keeps (beq_ℤ header.correlation_id reauth_handshake_correlation_id) _ _
            (handshake-Keeps payload) (authenticate-Keeps ctx now payload))))
