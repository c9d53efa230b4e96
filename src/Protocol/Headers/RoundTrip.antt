-- ===== src/Protocol/Headers/RoundTrip.antt =====
-- A response header is read back from what is written for it.
use kafka_gcp_proxy.Base.{
  ℕ, ◌≤◌, ◌≡◌, refl, ◌∙◌, ℤ, pos, half32, InRange, leb_ℤ, false, List, ◌++◌, append_assoc, All, ok,
  length,
}
use kafka_gcp_proxy.Protocol.Decoder.{Decoder, pure, ◌>>=◌, >>=-ok, get_int32}
use kafka_gcp_proxy.Protocol.PrepEncoder.{prep_encoder}
use kafka_gcp_proxy.Protocol.RealEncoder.{real_encoder}
use kafka_gcp_proxy.Protocol.Encoding.{encode, decode}
use kafka_gcp_proxy.Protocol.Encoding.Writes.{Writes-then}
use kafka_gcp_proxy.Protocol.Encoding.RoundTrip.{decode-encode}
use kafka_gcp_proxy.Protocol.Wire.{wire_int32}
use kafka_gcp_proxy.Protocol.Wire.Writes.{Writes-int32}
use kafka_gcp_proxy.Protocol.Wire.Reads.{Reads, Reads-int32}
use kafka_gcp_proxy.Protocol.KeyVersion.{check_length}
use kafka_gcp_proxy.Protocol.Schema.{RawTaggedField}
use kafka_gcp_proxy.Protocol.Schema.Decode.{max_tagged_fields, decode_tagged_fields}
use kafka_gcp_proxy.Protocol.Schema.Typing.{IsTagged}
use kafka_gcp_proxy.Protocol.Schema.Layout.{wire_tagged_fields}
use kafka_gcp_proxy.Protocol.Schema.Writes.{Writes-tagged_fields}
use kafka_gcp_proxy.Protocol.Schema.RoundTrip.{Reads-tagged_fields}
use kafka_gcp_proxy.Protocol.Headers.{
  response_header, decode_response_header, response_header_v1, decode_response_header_v1,
}
use kafka_gcp_proxy.Protocol.Headers.Encode.{encode_response_header, encode_response_header_v1}

-- A length that the headers' test lets through.
abbrev pub IsLength : ℤ → Type 0
IsLength n = InRange half32 n × (leb_ℤ n (pos 4) ≡ false)

module _ (n c : ℤ) (is_length : IsLength n) (in_range : InRange half32 c) where
  length_read :
      {A : Type 0} (f : ℤ → Decoder A) (rest : List ℕ)
      → (get_int32 >>= λ m. check_length m >>= f) (wire_int32 n ++ rest) ≡ f n rest
  length_read f rest =
      >>=-ok get_int32 (λ m. check_length m >>= f) (Reads-int32 n is_length.0 rest)
      ∙ rw is_length.1 refl

  header-Reads : Reads decode_response_header (wire_int32 n ++ wire_int32 c) (response_header n c)
  unfolding decode_response_header
  header-Reads rest = rw (append_assoc (wire_int32 n) (wire_int32 c) rest) (
      length_read (λ m. get_int32 >>= λ z. pure (response_header m z)) (wire_int32 c ++ rest)
      ∙ >>=-ok get_int32 (λ z. pure (response_header n z)) (Reads-int32 c in_range rest))

  -- Decode gives back a response header, with a length over 4, from what Encode writes for it.
  pub decode_response_header-encode :
      (out : List ℕ)
      → encode
          (encode_response_header ⦃pe = prep_encoder⦄ (response_header n c))
          (encode_response_header ⦃pe = real_encoder⦄ (response_header n c))
        ≡ ok out
      → decode out decode_response_header ≡ ok (response_header n c)
  unfolding encode_response_header
  decode_response_header-encode out =
      decode-encode (Writes-then (Writes-int32 n) (Writes-int32 c)) decode_response_header out
        header-Reads

  module _ (fs : List RawTaggedField) (few : length fs ≤ max_tagged_fields)
      (tagged : All IsTagged fs) where
    header_v1-Reads :
        Reads decode_response_header_v1
          (wire_int32 n ++ (wire_int32 c ++ wire_tagged_fields fs))
          (response_header_v1 n c fs)
    unfolding decode_response_header_v1
    header_v1-Reads rest =
        rw
          (
            append_assoc (wire_int32 n) (wire_int32 c ++ wire_tagged_fields fs) rest,
            append_assoc (wire_int32 c) (wire_tagged_fields fs) rest,
          )
          (length_read
              (λ m.
                get_int32 >>= λ z. decode_tagged_fields >>= λ ts. pure (response_header_v1 m z ts))
              (wire_int32 c ++ (wire_tagged_fields fs ++ rest))
            ∙ >>=-ok get_int32
                (λ z. decode_tagged_fields >>= λ ts. pure (response_header_v1 n z ts))
                (Reads-int32 c in_range (wire_tagged_fields fs ++ rest))
            ∙ >>=-ok decode_tagged_fields (λ ts. pure (response_header_v1 n c ts))
                (Reads-tagged_fields fs few tagged rest))

    -- Decode gives back a response header of version 1, with a length over 4 and its tagged fields,
    -- from what Encode writes for it.
    pub decode_response_header_v1-encode :
        (out : List ℕ)
        → encode
            (encode_response_header_v1 ⦃pe = prep_encoder⦄ (response_header_v1 n c fs))
            (encode_response_header_v1 ⦃pe = real_encoder⦄ (response_header_v1 n c fs))
          ≡ ok out
        → decode out decode_response_header_v1 ≡ ok (response_header_v1 n c fs)
    unfolding encode_response_header_v1
    decode_response_header_v1-encode out =
        decode-encode
          (Writes-then (Writes-int32 n) (Writes-then (Writes-int32 c) (Writes-tagged_fields fs)))
          decode_response_header_v1 out header_v1-Reads
