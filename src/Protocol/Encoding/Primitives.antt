-- ===== src/Protocol/Encoding/Primitives.antt =====
-- proxy/protocol/real_encoder.go and real_decoder.go: what one method writes, its counterpart reads.
use kafka_gcp_proxy.Base.{◌≡◌, ℤ, half16, half64, InRange, Option, List, ℕ, ok}
use kafka_gcp_proxy.Protocol.Decoder.{
  get_varint, get_varint_bytes, get_nullable_string, get_compact_nullable_string,
}
use kafka_gcp_proxy.Protocol.Decoder.Ranges.{Shorter}
use kafka_gcp_proxy.Protocol.PrepEncoder.{prep_encoder}
use kafka_gcp_proxy.Protocol.RealEncoder.{real_encoder}
use kafka_gcp_proxy.Protocol.Encoding.{encode, decode}
use kafka_gcp_proxy.Protocol.Encoding.RoundTrip.{decode-encode}
use kafka_gcp_proxy.Protocol.Wire.Writes.{
  Writes-varint, Writes-varint_bytes, Writes-nullable_string, Writes-compact_nullable_string,
}
use kafka_gcp_proxy.Protocol.Wire.Reads.{
  Reads-varint, Reads-varint_bytes, Reads-nullable_string, Reads-compact_nullable_string,
}

-- getVarint gives back every int64 that putVarint has written.
pub get_varint-put_varint :
    (z : ℤ) (out : List ℕ)
    → InRange half64 z
    → encode (prep_encoder.put_varint z) (real_encoder.put_varint z) ≡ ok out
    → decode out get_varint ≡ ok z
get_varint-put_varint z out h = decode-encode (Writes-varint z) get_varint out (Reads-varint z h)

-- getVarintBytes gives back what putVarintBytes has written, null as null, of a length below 2^63.
pub get_varint_bytes-put_varint_bytes :
    (o : Option (List ℕ)) (out : List ℕ)
    → Shorter half64 o
    → encode (prep_encoder.put_varint_bytes o) (real_encoder.put_varint_bytes o) ≡ ok out
    → decode out get_varint_bytes ≡ ok o
get_varint_bytes-put_varint_bytes o out h =
    decode-encode (Writes-varint_bytes o) get_varint_bytes out (Reads-varint_bytes o h)

-- getNullableString gives back what putNullableString has written, null as null, of a length below 2^15.
pub get_nullable_string-put_nullable_string :
    (o : Option (List ℕ)) (out : List ℕ)
    → Shorter half16 o
    → encode (prep_encoder.put_nullable_string o) (real_encoder.put_nullable_string o) ≡ ok out
    → decode out get_nullable_string ≡ ok o
get_nullable_string-put_nullable_string o out h =
    decode-encode (Writes-nullable_string o) get_nullable_string out (Reads-nullable_string o h)

-- getCompactNullableString gives back what putCompactNullableString has written, null as null, of a
-- length below 2^63.
pub get_compact_nullable_string-put_compact_nullable_string :
    (o : Option (List ℕ)) (out : List ℕ)
    → Shorter half64 o
    → encode
        (prep_encoder.put_compact_nullable_string o)
        (real_encoder.put_compact_nullable_string o)
      ≡ ok out
    → decode out get_compact_nullable_string ≡ ok o
get_compact_nullable_string-put_compact_nullable_string o out h =
    decode-encode (Writes-compact_nullable_string o) get_compact_nullable_string out
      (Reads-compact_nullable_string o h)
