-- ===== src/Protocol/Requests/RoundTrip.antt =====
-- The SASL requests of the proxy are read back from what is written for them.
use kafka_gcp_proxy.Base.{
  ℕ, ◌<◌, ◌≡◌, ◌∙◌, arith, ℤ, pos, half16, half32, InRange, beq_ℤ_refl, Bool, true, false, Option,
  List, ◌++◌, append_assoc, Error, ok, err, length, if◌then◌else◌,
}
use kafka_gcp_proxy.Protocol.PacketEncoder.{Put}
use kafka_gcp_proxy.Protocol.Decoder.{
  Decoder, pure, ◌>>=◌, >>=-ok, get_int16, get_int32, get_string,
}
use kafka_gcp_proxy.Protocol.Decoder.Ranges.{Shorter}
use kafka_gcp_proxy.Protocol.PrepEncoder.{prep_encoder}
use kafka_gcp_proxy.Protocol.RealEncoder.{RealEncoder, real_encoder}
use kafka_gcp_proxy.Protocol.Encoding.{encode, decode}
use kafka_gcp_proxy.Protocol.Encoding.Writes.{Writes, Writes-then}
use kafka_gcp_proxy.Protocol.Encoding.RoundTrip.{decode-encode}
use kafka_gcp_proxy.Protocol.Wire.{wire_int16, wire_int32, wire_string, wire_bytes}
use kafka_gcp_proxy.Protocol.Wire.Writes.{Writes-int16, Writes-int32, Writes-string, Writes-bytes}
use kafka_gcp_proxy.Protocol.Wire.Reads.{Reads, Reads-int16, Reads-int32, Reads-string, Reads-bytes}
use kafka_gcp_proxy.Protocol.Requests.{
  Request, request, check_key_version, decode_request, zero_or_one, bad_version,
  decode_sasl_handshake, sasl_handshake_key, decode_sasl_authenticate_v0, sasl_authenticate_key,
}
use kafka_gcp_proxy.Protocol.Requests.Encode.{
  encode_request, encode_sasl_handshake, encode_sasl_authenticate_v0,
}

Reads-then :
    {A B : Type 0} (d : Decoder A) (f : A → Decoder B) (w₁ w₂ : List ℕ) {a : A} {b : B}
    → Reads d w₁ a
    → Reads (f a) w₂ b
    → Reads (d >>= f) (w₁ ++ w₂) b
Reads-then d f w₁ w₂ p q rest = rw (append_assoc w₁ w₂ rest) (>>=-ok d f (p (w₂ ++ rest)) ∙ q rest)

-- What Request.decode does behind each of its reads.
module _ {B : Type 0} (d : Decoder B) where
  abbrev after_client_id : ℤ → List ℕ → Decoder (Request B)
  after_client_id c i = d >>= λ b. pure (request c i b)

  abbrev after_correlation_id : ℤ → Decoder (Request B)
  after_correlation_id c = get_string >>= after_client_id c

  abbrev after_version : ℤ → ℤ → ℤ → ℤ → Decoder (Request B)
  after_version own_key own_version key version =
      check_key_version own_key own_version key version (get_int32 >>= after_correlation_id)

  abbrev after_key : ℤ → ℤ → ℤ → Decoder (Request B)
  after_key own_key own_version key = get_int16 >>= after_version own_key own_version key

module _ {B : Type 0} (key version c : ℤ) (i : List ℕ) (b : B) where
  abbrev wire_request : List ℕ → List ℕ
  wire_request body =
      wire_int16 key ++ (wire_int16 version ++ (wire_int32 c ++ (wire_string i ++ body)))

  module _ (of_key : InRange half16 key) (of_version : InRange half16 version)
      (of_c : InRange half32 c) (of_i : length i < half16) (d : Decoder B) (body : List ℕ)
      (reads : Reads d body b) where
    fields-Reads :
        Reads
          (get_int32 >>= after_correlation_id d)
          (wire_int32 c ++ (wire_string i ++ body))
          (request c i b)
    fields-Reads =
        Reads-then get_int32 (after_correlation_id d) (wire_int32 c) (wire_string i ++ body)
          (Reads-int32 c of_c)
          (Reads-then get_string (after_client_id d c) (wire_string i) body (Reads-string i of_i)
            (λ rest. >>=-ok d (λ x. pure (request c i x)) (reads rest)))

    version-Reads :
        Reads
          (after_version d key version key version)
          (wire_int32 c ++ (wire_string i ++ body))
          (request c i b)
    version-Reads rest = rw (beq_ℤ_refl key, beq_ℤ_refl version) (fields-Reads rest)

    request-Reads : Reads (decode_request key version d) (wire_request body) (request c i b)
    unfolding decode_request
    request-Reads =
        Reads-then get_int16 (after_key d key version) (wire_int16 key)
          (wire_int16 version ++ (wire_int32 c ++ (wire_string i ++ body))) (Reads-int16 key of_key)
          (Reads-then get_int16 (after_version d key version key) (wire_int16 version)
            (wire_int32 c ++ (wire_string i ++ body)) (Reads-int16 version of_version)
            version-Reads)

  request-Writes :
      (body : List ℕ) (prep : B → Put ℕ) (real : B → Put RealEncoder)
      → Writes body (prep b) (real b)
      → Writes
          (wire_request body)
          (encode_request ⦃pe = prep_encoder⦄ key version prep (request c i b))
          (encode_request ⦃pe = real_encoder⦄ key version real (request c i b))
  unfolding encode_request
  request-Writes body prep real writes = Writes-then (Writes-int16 key) (
      Writes-then (Writes-int16 version)
        (Writes-then (Writes-int32 c) (Writes-then (Writes-string i) writes)))

Writes-guarded :
    (b : Bool) (e : Error) (wire : List ℕ) (prep : Put ℕ) (real : Put RealEncoder)
    → b ≡ true
    → Writes wire prep real
    → Writes wire (λ n. if b then prep n else err e) (λ s. if b then real s else err e)
Writes-guarded true e wire prep real h writes = writes
Writes-guarded false e wire prep real h writes = cc

module _ (v c : ℤ) (i mechanism : List ℕ) (known : zero_or_one v ≡ true) (of_v : InRange half16 v)
    (of_c : InRange half32 c) (of_i : length i < half16) (of_m : length mechanism < half16) where
  handshake-Reads : Reads (decode_sasl_handshake v) (wire_string mechanism) mechanism
  unfolding decode_sasl_handshake
  handshake-Reads rest = rw known (Reads-string mechanism of_m rest)

  handshake-Writes :
      Writes
        (wire_string mechanism)
        (encode_sasl_handshake ⦃pe = prep_encoder⦄ v mechanism)
        (encode_sasl_handshake ⦃pe = real_encoder⦄ v mechanism)
  unfolding encode_sasl_handshake
  handshake-Writes =
      Writes-guarded (zero_or_one v) bad_version (wire_string mechanism) _ _ known
        (Writes-string mechanism)

  -- A SASL handshake request of version 0 or 1 is read back, with its correlation id, client id and
  -- mechanism, from what Encode writes for it.
  pub decode_sasl_handshake-encode :
      (out : List ℕ)
      → encode
          (encode_request ⦃pe = prep_encoder⦄ sasl_handshake_key v
            (encode_sasl_handshake ⦃pe = prep_encoder⦄ v)
            (request c i mechanism))
          (encode_request ⦃pe = real_encoder⦄ sasl_handshake_key v
            (encode_sasl_handshake ⦃pe = real_encoder⦄ v)
            (request c i mechanism))
        ≡ ok out
      → decode out (decode_request sasl_handshake_key v (decode_sasl_handshake v))
        ≡ ok (request c i mechanism)
  decode_sasl_handshake-encode out =
      decode-encode (request-Writes sasl_handshake_key v c i mechanism _ _ _ handshake-Writes)
        (decode_request sasl_handshake_key v (decode_sasl_handshake v)) out
        (request-Reads sasl_handshake_key v c i mechanism (omega arith) of_v of_c of_i
          (decode_sasl_handshake v) (wire_string mechanism) handshake-Reads)

module _ (c : ℤ) (i : List ℕ) (auth_bytes : Option (List ℕ)) (of_c : InRange half32 c)
    (of_i : length i < half16) (of_bytes : Shorter half32 auth_bytes) where
  authenticate-Reads : Reads decode_sasl_authenticate_v0 (wire_bytes auth_bytes) auth_bytes
  unfolding decode_sasl_authenticate_v0
  authenticate-Reads = Reads-bytes auth_bytes of_bytes

  authenticate-Writes :
      Writes
        (wire_bytes auth_bytes)
        (encode_sasl_authenticate_v0 ⦃pe = prep_encoder⦄ auth_bytes)
        (encode_sasl_authenticate_v0 ⦃pe = real_encoder⦄ auth_bytes)
  unfolding encode_sasl_authenticate_v0
  authenticate-Writes = Writes-bytes auth_bytes

  -- A SASL authenticate request of version 0 is read back, with its correlation id, client id and
  -- bytes, null as null, from what Encode writes for it.
  pub decode_sasl_authenticate_v0-encode :
      (out : List ℕ)
      → encode
          (encode_request ⦃pe = prep_encoder⦄ sasl_authenticate_key
            (pos 0)
            (encode_sasl_authenticate_v0 ⦃pe = prep_encoder⦄)
            (request c i auth_bytes))
          (encode_request ⦃pe = real_encoder⦄ sasl_authenticate_key
            (pos 0)
            (encode_sasl_authenticate_v0 ⦃pe = real_encoder⦄)
            (request c i auth_bytes))
        ≡ ok out
      → decode out (decode_request sasl_authenticate_key (pos 0) decode_sasl_authenticate_v0)
        ≡ ok (request c i auth_bytes)
  decode_sasl_authenticate_v0-encode out =
      decode-encode
        (request-Writes sasl_authenticate_key (pos 0) c i auth_bytes _ _ _ authenticate-Writes)
        (decode_request sasl_authenticate_key (pos 0) decode_sasl_authenticate_v0) out
        (request-Reads sasl_authenticate_key (pos 0) c i auth_bytes (omega arith) (omega arith) of_c
          of_i decode_sasl_authenticate_v0 (wire_bytes auth_bytes) authenticate-Reads)
