-- ===== src/Examples/Requests.antt =====
-- proxy/protocol: SASL requests, of the client "k" with the correlation id 7.
use kafka_gcp_proxy.Base.{ℕ, ◌≡◌, refl, arith, pos, none, List, [], ◌∷◌, ok}
use kafka_gcp_proxy.Protocol.PrepEncoder.{prep_encoder}
use kafka_gcp_proxy.Protocol.RealEncoder.{real_encoder}
use kafka_gcp_proxy.Protocol.Encoding.{encode, decode}
use kafka_gcp_proxy.Protocol.Requests.{
  request, decode_request, decode_sasl_handshake, sasl_handshake_key, decode_sasl_authenticate_v0,
  sasl_authenticate_key,
}
use kafka_gcp_proxy.Protocol.Requests.Encode.{
  encode_request, encode_sasl_handshake, encode_sasl_authenticate_v0,
}
use kafka_gcp_proxy.Protocol.Requests.RoundTrip.{
  decode_sasl_handshake-encode, decode_sasl_authenticate_v0-encode,
}

-- The mechanism is "A".
abbrev handshake_bytes : List ℕ
handshake_bytes = 0 ∷ 17 ∷ 0 ∷ 1 ∷ 0 ∷ 0 ∷ 0 ∷ 7 ∷ 0 ∷ 1 ∷ 107 ∷ 0 ∷ 1 ∷ 65 ∷ []

handshake_written :
    encode
      (encode_request ⦃pe = prep_encoder⦄ sasl_handshake_key
        (pos 1)
        (encode_sasl_handshake ⦃pe = prep_encoder⦄ (pos 1))
        (request (pos 7) (107 ∷ []) (65 ∷ [])))
      (encode_request ⦃pe = real_encoder⦄ sasl_handshake_key
        (pos 1)
        (encode_sasl_handshake ⦃pe = real_encoder⦄ (pos 1))
        (request (pos 7) (107 ∷ []) (65 ∷ [])))
    ≡ ok handshake_bytes
unfolding kafka_gcp_proxy.Protocol.Encoding.encode kafka_gcp_proxy.Protocol.Encoding.two_passes
    kafka_gcp_proxy.Protocol.Requests.Encode.encode_request
    kafka_gcp_proxy.Protocol.Requests.Encode.encode_sasl_handshake
    kafka_gcp_proxy.Protocol.Requests.Encode.encode_sasl_authenticate_v0
    kafka_gcp_proxy.Protocol.PrepEncoder.put_array_length
    kafka_gcp_proxy.Protocol.PrepEncoder.put_bytes
    kafka_gcp_proxy.Protocol.PrepEncoder.put_compact_array_length
    kafka_gcp_proxy.Protocol.PrepEncoder.put_compact_bytes
    kafka_gcp_proxy.Protocol.PrepEncoder.put_compact_nullable_array_length
    kafka_gcp_proxy.Protocol.PrepEncoder.put_compact_nullable_string
    kafka_gcp_proxy.Protocol.PrepEncoder.put_compact_string
    kafka_gcp_proxy.Protocol.PrepEncoder.put_int_array
    kafka_gcp_proxy.Protocol.PrepEncoder.put_nullable_string
    kafka_gcp_proxy.Protocol.PrepEncoder.put_raw_bytes
    kafka_gcp_proxy.Protocol.PrepEncoder.put_string
    kafka_gcp_proxy.Protocol.PrepEncoder.put_string_array
    kafka_gcp_proxy.Protocol.PrepEncoder.put_strings kafka_gcp_proxy.Protocol.PrepEncoder.put_varint
    kafka_gcp_proxy.Protocol.PrepEncoder.put_varint_bytes kafka_gcp_proxy.Protocol.RealEncoder.copy
    kafka_gcp_proxy.Protocol.RealEncoder.write kafka_gcp_proxy.Protocol.RealEncoder.put_array_length
    kafka_gcp_proxy.Protocol.RealEncoder.put_bool kafka_gcp_proxy.Protocol.RealEncoder.put_bytes
    kafka_gcp_proxy.Protocol.RealEncoder.put_compact_array_length
    kafka_gcp_proxy.Protocol.RealEncoder.put_compact_bytes
    kafka_gcp_proxy.Protocol.RealEncoder.put_compact_nullable_string
    kafka_gcp_proxy.Protocol.RealEncoder.put_compact_string
    kafka_gcp_proxy.Protocol.RealEncoder.put_each kafka_gcp_proxy.Protocol.RealEncoder.put_int16
    kafka_gcp_proxy.Protocol.RealEncoder.put_int32 kafka_gcp_proxy.Protocol.RealEncoder.put_int64
    kafka_gcp_proxy.Protocol.RealEncoder.put_int8 kafka_gcp_proxy.Protocol.RealEncoder.put_int_array
    kafka_gcp_proxy.Protocol.RealEncoder.put_nullable_string
    kafka_gcp_proxy.Protocol.RealEncoder.put_string
    kafka_gcp_proxy.Protocol.RealEncoder.put_string_array
    kafka_gcp_proxy.Protocol.RealEncoder.put_varint
    kafka_gcp_proxy.Protocol.RealEncoder.put_varint_bytes kafka_gcp_proxy.Protocol.Varint.uvarint
    kafka_gcp_proxy.Protocol.Varint.uvarint_loop kafka_gcp_proxy.Protocol.Varint.put_uvarint
    kafka_gcp_proxy.Protocol.Varint.put_uvarint_loop
handshake_written = refl

decode_sasl_handshake-encode_example :
    decode handshake_bytes
      (decode_request sasl_handshake_key (pos 1) (decode_sasl_handshake (pos 1)))
    ≡ ok (request (pos 7) (107 ∷ []) (65 ∷ []))
decode_sasl_handshake-encode_example =
    decode_sasl_handshake-encode (pos 1) (pos 7) (107 ∷ []) (65 ∷ []) refl (omega arith)
      (omega arith) (omega arith) (omega arith) handshake_bytes handshake_written

-- No bytes at all, which is not an empty text.
abbrev authenticate_bytes : List ℕ
authenticate_bytes = 0 ∷ 36 ∷ 0 ∷ 0 ∷ 0 ∷ 0 ∷ 0 ∷ 7 ∷ 0 ∷ 1 ∷ 107 ∷ 255 ∷ 255 ∷ 255 ∷ 255 ∷ []

authenticate_written :
    encode
      (encode_request ⦃pe = prep_encoder⦄ sasl_authenticate_key
        (pos 0)
        (encode_sasl_authenticate_v0 ⦃pe = prep_encoder⦄)
        (request (pos 7) (107 ∷ []) none))
      (encode_request ⦃pe = real_encoder⦄ sasl_authenticate_key
        (pos 0)
        (encode_sasl_authenticate_v0 ⦃pe = real_encoder⦄)
        (request (pos 7) (107 ∷ []) none))
    ≡ ok authenticate_bytes
unfolding kafka_gcp_proxy.Protocol.Encoding.encode kafka_gcp_proxy.Protocol.Encoding.two_passes
    kafka_gcp_proxy.Protocol.Requests.Encode.encode_request
    kafka_gcp_proxy.Protocol.Requests.Encode.encode_sasl_handshake
    kafka_gcp_proxy.Protocol.Requests.Encode.encode_sasl_authenticate_v0
    kafka_gcp_proxy.Protocol.PrepEncoder.put_array_length
    kafka_gcp_proxy.Protocol.PrepEncoder.put_bytes
    kafka_gcp_proxy.Protocol.PrepEncoder.put_compact_array_length
    kafka_gcp_proxy.Protocol.PrepEncoder.put_compact_bytes
    kafka_gcp_proxy.Protocol.PrepEncoder.put_compact_nullable_array_length
    kafka_gcp_proxy.Protocol.PrepEncoder.put_compact_nullable_string
    kafka_gcp_proxy.Protocol.PrepEncoder.put_compact_string
    kafka_gcp_proxy.Protocol.PrepEncoder.put_int_array
    kafka_gcp_proxy.Protocol.PrepEncoder.put_nullable_string
    kafka_gcp_proxy.Protocol.PrepEncoder.put_raw_bytes
    kafka_gcp_proxy.Protocol.PrepEncoder.put_string
    kafka_gcp_proxy.Protocol.PrepEncoder.put_string_array
    kafka_gcp_proxy.Protocol.PrepEncoder.put_strings kafka_gcp_proxy.Protocol.PrepEncoder.put_varint
    kafka_gcp_proxy.Protocol.PrepEncoder.put_varint_bytes kafka_gcp_proxy.Protocol.RealEncoder.copy
    kafka_gcp_proxy.Protocol.RealEncoder.write kafka_gcp_proxy.Protocol.RealEncoder.put_array_length
    kafka_gcp_proxy.Protocol.RealEncoder.put_bool kafka_gcp_proxy.Protocol.RealEncoder.put_bytes
    kafka_gcp_proxy.Protocol.RealEncoder.put_compact_array_length
    kafka_gcp_proxy.Protocol.RealEncoder.put_compact_bytes
    kafka_gcp_proxy.Protocol.RealEncoder.put_compact_nullable_string
    kafka_gcp_proxy.Protocol.RealEncoder.put_compact_string
    kafka_gcp_proxy.Protocol.RealEncoder.put_each kafka_gcp_proxy.Protocol.RealEncoder.put_int16
    kafka_gcp_proxy.Protocol.RealEncoder.put_int32 kafka_gcp_proxy.Protocol.RealEncoder.put_int64
    kafka_gcp_proxy.Protocol.RealEncoder.put_int8 kafka_gcp_proxy.Protocol.RealEncoder.put_int_array
    kafka_gcp_proxy.Protocol.RealEncoder.put_nullable_string
    kafka_gcp_proxy.Protocol.RealEncoder.put_string
    kafka_gcp_proxy.Protocol.RealEncoder.put_string_array
    kafka_gcp_proxy.Protocol.RealEncoder.put_varint
    kafka_gcp_proxy.Protocol.RealEncoder.put_varint_bytes kafka_gcp_proxy.Protocol.Varint.uvarint
    kafka_gcp_proxy.Protocol.Varint.uvarint_loop kafka_gcp_proxy.Protocol.Varint.put_uvarint
    kafka_gcp_proxy.Protocol.Varint.put_uvarint_loop
authenticate_written = refl

decode_sasl_authenticate_v0-encode_example :
    decode authenticate_bytes
      (decode_request sasl_authenticate_key (pos 0) decode_sasl_authenticate_v0)
    ≡ ok (request (pos 7) (107 ∷ []) none)
decode_sasl_authenticate_v0-encode_example =
    decode_sasl_authenticate_v0-encode (pos 7) (107 ∷ []) none (omega arith) (omega arith) tt
      authenticate_bytes authenticate_written
