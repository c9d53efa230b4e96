-- ===== src/Protocol/Headers/Encode.antt =====
-- proxy/protocol: the encode methods of the response headers and of TaggedFields.
use kafka_gcp_proxy.Base.{◌>>=◌}
use kafka_gcp_proxy.Protocol.PacketEncoder.{Put, PacketEncoder}
use kafka_gcp_proxy.Protocol.Schema.Encode.{put_tagged_fields}
use kafka_gcp_proxy.Protocol.Headers.{ResponseHeader, ResponseHeaderV1, TaggedFields}

module _ {S : Type 0} ⦃pe : PacketEncoder S⦄ where
  unfoldable pub encode_response_header : ResponseHeader → Put S
  encode_response_header r s = pe.put_int32 r.length s >>= pe.put_int32 r.correlation_id

  unfoldable pub encode_response_header_v1 : ResponseHeaderV1 → Put S
  encode_response_header_v1 r s = pe.put_int32 r.length s >>= λ s'.
      pe.put_int32 r.correlation_id s' >>= put_tagged_fields r.raw_tagged_fields

  unfoldable pub encode_tagged : TaggedFields → Put S
  encode_tagged r s = put_tagged_fields r.values s
