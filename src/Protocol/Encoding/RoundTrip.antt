-- ===== src/Protocol/Encoding/RoundTrip.antt =====
-- Decode after Encode, for any message whose encode method is measured and written and whose decode
-- method reads these bytes.
use kafka_gcp_proxy.Base.{
  ℕ, ◌≡◌, ap, sym, ◌∙◌, List, [], append-nil, arith, packet_encoding, packet_decoding, Result, ok,
  err, ltb, if◌then◌else◌, ◌>>=◌,
}
use kafka_gcp_proxy.Protocol.PacketEncoder.{Put}
use kafka_gcp_proxy.Protocol.RealEncoder.{RealEncoder}
use kafka_gcp_proxy.Protocol.Decoder.{Decoder}
use kafka_gcp_proxy.Protocol.Encoding.{max_request_size, encode, decode, all_read}
use kafka_gcp_proxy.Protocol.Encoding.Writes.{Writes, two_passes-Writes}
use kafka_gcp_proxy.Protocol.Wire.Reads.{Reads}

module _ {prep : Put ℕ} {real : Put RealEncoder} {wire : List ℕ}
    (writes : Writes wire prep real) where
  pub encode_lem : encode prep real ≡ (
      prep 0 >>= λ n.
      if ltb max_request_size n then err (packet_encoding "invalid request size") else ok wire)
  unfolding encode
  encode_lem = two_passes-Writes (packet_encoding "invalid request size") writes

  encode-eq_ok : (out : List ℕ) → encode prep real ≡ ok out → out ≡ wire
  encode-eq_ok out h = go (prep 0) (sym encode_lem ∙ h)
    where
      go :
          (r : Result ℕ)
          → (r >>= λ n.
              if ltb max_request_size n
              then err (packet_encoding "invalid request size")
              else ok wire)
            ≡ ok out
          → out ≡ wire
      go (ok n) e = ground arith
      go (err x) e = cc

  pub decode-encode :
      {A : Type 0} (d : Decoder A) {a : A} (out : List ℕ)
      → Reads d wire a
      → encode prep real ≡ ok out
      → decode out d ≡ ok a
  unfolding decode
  decode-encode d out reads h =
      let read = reads [] in
      ap (λ bs. d bs >>= all_read (packet_decoding "invalid length"))
        (encode-eq_ok out h ∙ sym (append-nil wire))
      ∙ ap (λ r. r >>= all_read (packet_decoding "invalid length")) read
